-- ===== src/Auth/Principal/Parse.antt =====
-- hiraeth_core/src/auth/principal.rs and util.rs: from the wire form of a "Principal" entry to
-- principals. The wire types are what serde produces from a document.
pub mod Laws
mod Examples
use hiraeth.Auth.Principal.{PolicyPrincipal, any, account, user, role, assumed_role, service}
use hiraeth.Common as Common
use hiraeth.Common.{
  ℕ, String, Bool, not, ◌&&◌, ◌||◌, List, [], ◌∷◌, ◌++◌, map, Option, none, some, ◌==◌, ◌⊕◌, code,
  eqb, is_digit, is_empty, all_chars, split_at_most, split_once, strip_prefix, if◌then◌else◌,
  Result, ok, err, map_err, ◌>>=◌,
}

pub data OneOrMany : Type 0 where
  one : String → OneOrMany
  many : List String → OneOrMany

abbrev pub into_vec : OneOrMany → List String
into_vec (one value) = value ∷ []
into_vec (many values) = values

pub record PrincipalMapWire : Type 0 where
  pub aws : Option OneOrMany
  pub service : Option OneOrMany

pub data PrincipalWire : Type 0 where
  any_wire : String → PrincipalWire
  map_wire : PrincipalMapWire → PrincipalWire

-- a byte that is not ASCII is no digit and no wildcard, so the characters may stand for the bytes
unfoldable pub is_account_id_pattern : String → Bool
is_account_id_pattern value =
    not (value == "")
    && all_chars (λ c. is_digit (code c) || eqb (code c) b'*' || eqb (code c) b'?') value

unfoldable pub parse_iam_principal : String → String → Result PolicyPrincipal String
parse_iam_principal account_id resource =
    if resource == "root" then ok (account account_id) else elim (strip_prefix "user/" resource) [
      | some user_name ↦ ok (user account_id user_name)
      | none ↦ elim (strip_prefix "role/" resource) [
        | some role_name ↦ ok (role account_id role_name)
        | none ↦ err ("unsupported IAM resource in principal ARN: '" ⊕ resource ⊕ "'")
      ]
    ]

unfoldable pub parse_sts_principal : String → String → Result PolicyPrincipal String
parse_sts_principal account_id resource = elim (strip_prefix "assumed-role/" resource) [
  | some session ↦ elim (split_once b'/' session) [
    | some (role_name, session_name) ↦ ok (assumed_role account_id role_name session_name)
    | none ↦ err ("invalid assumed role format: '" ⊕ resource ⊕ "'")
  ]
  | none ↦ err ("unsupported STS resource in principal ARN: '" ⊕ resource ⊕ "'")
]

-- the body of `parse_principal` for the parts of an ARN; the part at 5 is the rest of the text
unfoldable pub parse_arn_parts : String → List String → Result PolicyPrincipal String
unfolding is_account_id_pattern
parse_arn_parts value (arn ∷ _ ∷ service_name ∷ _ ∷ account_id ∷ resource ∷ []) =
    if arn == "arn"
    then (if is_account_id_pattern account_id
        then (if service_name == "iam"
            then parse_iam_principal account_id resource
            else if service_name == "sts"
            then parse_sts_principal account_id resource
            else err ("unsupported service in principal ARN: '" ⊕ service_name ⊕ "'"))
        else err ("invalid account id in principal ARN: '" ⊕ value ⊕ "'"))
    else err ("invalid principal format: '" ⊕ value ⊕ "'")
parse_arn_parts value _ = err ("invalid principal format: '" ⊕ value ⊕ "'")

unfoldable pub parse_principal : String → Result PolicyPrincipal String
parse_principal value =
    if value == "*"
    then ok any
    else if is_account_id_pattern value
    then ok (account value)
    else parse_arn_parts value (split_at_most 5 b':' value)

abbrev pub wire_values : Option OneOrMany → List String
wire_values none = []
wire_values (some values) = into_vec values

-- the loop over the "AWS" entries, which stops at the first error
unfoldable pub parse_aws : List String → Result (List PolicyPrincipal) String
parse_aws [] = ok []
parse_aws (principal ∷ rest) = do
  p ← map_err (λ e. "failed to parse AWS principal: " ⊕ e) (parse_principal principal)
  ps ← parse_aws rest
  ok (p ∷ ps)

abbrev non_empty : List PolicyPrincipal → Result (List PolicyPrincipal) String
non_empty [] = err "principal map must contain at least one supported principal"
non_empty principals = ok principals

unfoldable pub deserialize_principals : PrincipalWire → Result (List PolicyPrincipal) String
deserialize_principals (any_wire value) =
    if value == "*"
    then ok (any ∷ [])
    else err ("expected '*' for Any principal, got '" ⊕ value ⊕ "'")
deserialize_principals (map_wire wire) = do
  aws ← parse_aws (wire_values wire.aws)
  non_empty (aws ++ map service (wire_values wire.service))

-- `deserialize_optional_principals` of hiraeth_core/src/auth/policy.rs
unfoldable pub deserialize_optional_principals :
    Option PrincipalWire → Result (List PolicyPrincipal) String
deserialize_optional_principals (some value) = deserialize_principals value
deserialize_optional_principals none = ok []
