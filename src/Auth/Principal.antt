-- ===== src/Auth/Principal.antt =====
-- hiraeth_core/src/auth/principal.rs: principals, and how a policy document spells them. The wire
-- types are what serde reads; serde itself is not modelled.
pub mod Parse
use hiraeth.Common.{String}

pub data PolicyPrincipal : Type 0 where
  any : PolicyPrincipal
  account : String → PolicyPrincipal
  user : String → String → PolicyPrincipal
  role : String → String → PolicyPrincipal
  assumed_role : String → String → String → PolicyPrincipal
  service : String → PolicyPrincipal
