-- ===== src/Core/Request.antt =====
-- hiraeth_http/src/incoming_request.rs, hiraeth_core/src/request.rs and the principal of
-- hiraeth_store/src/iam/principal.rs. Row ids are natural numbers; a time is a number of nanoseconds
-- since 1970, and a map is a list of entries of which the first with a key counts.
use hiraeth.Common.{ℕ, String, List, [], ◌∷◌, Option, none, some, ◌==◌, if◌then◌else◌}

abbrev pub Map : Type 0 → Type 0
Map V = List (String × V)

unfoldable pub get : {V : Type 0} → String → Map V → Option V
get key [] = none
get key ((k, v) ∷ rest) = if k == key then some v else get key rest

pub record IncomingRequest : Type 0 where
  pub host : String
  pub method : String
  pub path : String
  pub query : Option String
  pub headers : Map String
  pub body : List ℕ

pub record Principal : Type 0 where
  pub id : ℕ
  pub account_id : String
  pub kind : String
  pub name : String
  pub path : String
  pub user_id : String
  pub created_at : ℕ

pub record AuthContext : Type 0 where
  pub access_key : String
  pub principal : Principal

pub record ResolvedRequest : Type 0 where
  pub request_id : String
  pub request : IncomingRequest
  pub service : String
  pub region : String
  pub auth_context : AuthContext
  pub date : ℕ
