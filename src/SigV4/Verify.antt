-- ===== src/SigV4/Verify.antt =====
-- hiraeth_auth/src/sig_v4.rs: the check of a signature. `sha256` is the sha2 crate, `hmac` the hmac
-- crate over it, `hex` the hex crate's `encode`, and `get_secret_key` the operation of the store of
-- access keys.
pub mod Laws
use hiraeth.Common.{
  ℕ, String, Bool, not, List, Option, ◌==◌, ◌⊕◌, as_bytes, starts_with, Result, ok, err, ok_or,
  map_err, reject, ◌>>=◌, ◌>>◌,
}
use hiraeth.Core.Request.{IncomingRequest, get}
use hiraeth.SigV4.Canonical.{create_canonical_request}
use hiraeth.SigV4.Error.{
  AuthError, invalid_authorization_header, invalid_signature, key_store_error,
  missing_signed_header, secret_key_not_found,
}
use hiraeth.SigV4.Params.{SigV4AuthParameters, extract_sigv4_params}
use hiraeth.Store.{StoreError}

pub record AccessKey : Type 0 where
  pub key_id : String
  pub principal_id : ℕ
  pub secret_key : String
  pub created_at : ℕ

unfoldable pub string_to_sign : SigV4AuthParameters → String → String → String
string_to_sign params request_timestamp hashed_canonical_request =
    params.algorithm ⊕ "\n" ⊕ request_timestamp ⊕ "\n" ⊕ params.date ⊕ "/" ⊕ params.region ⊕ "/"
    ⊕ params.service ⊕ "/aws4_request\n" ⊕ hashed_canonical_request

module _ (hmac : List ℕ → List ℕ → List ℕ) where
  unfoldable pub derive_signing_key : String → String → String → String → List ℕ
  unfolding as_bytes
  derive_signing_key secret_key date region service =
      let k_date = hmac (as_bytes ("AWS4" ⊕ secret_key)) (as_bytes date) in
      let k_region = hmac k_date (as_bytes region) in
      let k_service = hmac k_region (as_bytes service) in hmac k_service (as_bytes "aws4_request")

module _ (sha256 : List ℕ → List ℕ) (hmac : List ℕ → List ℕ → List ℕ) (hex : List ℕ → String) where
  unfoldable pub hash_request : IncomingRequest → AccessKey → Result String AuthError
  unfolding extract_sigv4_params create_canonical_request get starts_with string_to_sign
      derive_signing_key as_bytes
  hash_request request access_key = do
    params ← extract_sigv4_params request
    canonical_request ← create_canonical_request sha256 hex request params.signed_headers
    request_timestamp ←
        ok_or (missing_signed_header "x-amz-date") (get "x-amz-date" request.headers)
    reject (not (starts_with params.date request_timestamp))
        (invalid_authorization_header "Credential date does not match x-amz-date")
    ok (
        hex (
          hmac
            (derive_signing_key hmac access_key.secret_key params.date params.region params.service)
            (as_bytes (
              string_to_sign params request_timestamp
                (hex (sha256 (as_bytes canonical_request)))))))

  unfoldable pub authenticate_request :
      (String → Result (Option AccessKey) StoreError)
      → IncomingRequest
      → Result (SigV4AuthParameters × AccessKey) AuthError
  authenticate_request get_secret_key request = do
    params ← extract_sigv4_params request
    found ← map_err key_store_error (get_secret_key params.access_key)
    access_key ← ok_or secret_key_not_found found
    calculated_signature ← hash_request request access_key
    reject (not (params.signature == calculated_signature)) invalid_signature
    ok (params, access_key)
