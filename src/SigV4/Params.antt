-- ===== src/SigV4/Params.antt =====
-- hiraeth_auth/src/sig_v4.rs: the parameters that the authorization header carries.
use hiraeth.Common.{
  String, Bool, not, List, [], ◌∷◌, Option, none, some, ◌==◌, ◌⊕◌, if◌then◌else◌, trim, split,
  split_once, map, keep, is_empty, Result, ok, err, ok_or, reject, ◌>>=◌, ◌>>◌,
}
use hiraeth.Core.Request.{IncomingRequest, get}
use hiraeth.SigV4.Error.{AuthError, invalid_authorization_header, missing_authorization_header}

pub record SigV4AuthParameters : Type 0 where
  pub algorithm : String
  pub access_key : String
  pub date : String
  pub region : String
  pub service : String
  pub signed_headers : List String
  pub signature : String

-- the local variables that the loop over the pairs sets
pub record Collected : Type 0 where
  pub credential : Option String
  pub signed_headers : Option String
  pub signature : Option String

abbrev pub nothing_collected : Collected
nothing_collected = record { credential = none; signed_headers = none; signature = none }

abbrev pub collect : Collected → String → String → Collected
collect found key value =
    if key == "Credential"
    then record found { credential = some value }
    else if key == "SignedHeaders"
    then record found { signed_headers = some value }
    else if key == "Signature"
    then record found { signature = some value }
    else found

unfoldable pub collect_pairs : Collected → List String → Result Collected AuthError
unfolding split_once
collect_pairs found [] = ok found
collect_pairs found (pair ∷ pairs) = do
  parts ←
      ok_or (invalid_authorization_header ("Authorization parameter '" ⊕ pair ⊕ "' is malformed"))
        (split_once b'=' pair)
  collect_pairs (collect found parts.0 parts.1) pairs

pub record CredentialScope : Type 0 where
  pub access_key : String
  pub date : String
  pub region : String
  pub service : String

-- five parts, of which the last is "aws4_request"
unfoldable pub credential_scope : List String → Result CredentialScope AuthError
credential_scope (access_key ∷ date ∷ region ∷ service ∷ terminator ∷ []) =
    reject (not (terminator == "aws4_request"))
      (invalid_authorization_header "Credential scope terminator invalid")
    >> ok (record { access_key = access_key; date = date; region = region; service = service })
credential_scope _ = err (invalid_authorization_header "Credential scope format invalid")

abbrev is_not_empty : String → Bool
is_not_empty s = not (s == "")

unfoldable pub signed_header_names : String → Result (List String) AuthError
unfolding split
signed_header_names value =
    let names = keep is_not_empty (split b';' value) in
    reject (is_empty names) (invalid_authorization_header "Signed headers value missing")
    >> ok names

unfoldable pub signature_value : String → Result String AuthError
signature_value signature =
    reject (signature == "") (invalid_authorization_header "Signature value missing")
    >> ok signature

unfoldable pub check_collected : String → Collected → Result SigV4AuthParameters AuthError
unfolding split credential_scope signed_header_names signature_value
check_collected algorithm found = do
  credential ← ok_or (invalid_authorization_header "Credential missing") found.credential
  scope ← credential_scope (split b'/' credential)
  listed ← ok_or (invalid_authorization_header "Signed headers missing") found.signed_headers
  signed_headers ← signed_header_names listed
  provided ← ok_or (invalid_authorization_header "Signature missing") found.signature
  signature ← signature_value provided
  ok (record {
    algorithm = algorithm;
    access_key = scope.access_key;
    date = scope.date;
    region = scope.region;
    service = scope.service;
    signed_headers = signed_headers;
    signature = signature;
  })

unfoldable pub extract_sigv4_params : IncomingRequest → Result SigV4AuthParameters AuthError
unfolding get split_once trim split collect_pairs check_collected
extract_sigv4_params request = do
  auth_header ← ok_or missing_authorization_header (get "authorization" request.headers)
  parts ←
      ok_or (invalid_authorization_header "Authorization header format invalid")
        (split_once b' ' auth_header)
  reject (not (parts.0 == "AWS4-HMAC-SHA256"))
      (invalid_authorization_header ("Unsupported algorithm: " ⊕ parts.0))
  found ← collect_pairs nothing_collected (map trim (split b',' (trim parts.1)))
  check_collected parts.0 found
