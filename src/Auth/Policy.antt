-- ===== src/Auth/Policy.antt =====
-- hiraeth_core/src/auth/policy.rs: a parsed policy document.
use hiraeth.Auth.Principal.{PolicyPrincipal}
use hiraeth.Common.{String, List, []}

pub record PolicyStatement : Type 0 where
  pub effect : String
  pub action : List String
  pub resource : List String
  pub principal : List PolicyPrincipal

pub record Policy : Type 0 where
  pub version : String
  pub statement : List PolicyStatement

abbrev pub default_policy : Policy
default_policy = record { version = "2012-10-17"; statement = [] }
