-- ===== src/SigV4/Authenticate.antt =====
-- hiraeth_auth/src/lib.rs: requests with the context that their signature proves. `parse_date` is
-- chrono's reading of "%Y%m%dT%H%M%SZ".
pub mod Laws
use hiraeth.Common.{ℕ, String, List, Option, Result, ok, ok_or, ◌>>=◌}
use hiraeth.Core.Request.{IncomingRequest, get}
use hiraeth.SigV4.Error.{AuthError, invalid_authorization_header, missing_signed_header}
use hiraeth.SigV4.Params.{SigV4AuthParameters}
use hiraeth.SigV4.Verify
use hiraeth.SigV4.Verify.{AccessKey}
use hiraeth.Store.{StoreError}

pub record AuthContext : Type 0 where
  pub access_key : String
  pub principal_id : ℕ

pub record AuthenticatedRequest : Type 0 where
  pub request : IncomingRequest
  pub service : String
  pub region : String
  pub auth_context : AuthContext
  pub date : ℕ

module _ (sha256 : List ℕ → List ℕ) (hmac : List ℕ → List ℕ → List ℕ) (hex : List ℕ → String)
    (parse_date : String → Option ℕ) where
  unfoldable pub authenticate_request :
      (String → Result (Option AccessKey) StoreError)
      → IncomingRequest
      → Result AuthenticatedRequest AuthError
  unfolding get Verify.authenticate_request
  authenticate_request get_secret_key request = do
    verified ← Verify.authenticate_request sha256 hmac hex get_secret_key request
    request_timestamp ←
        ok_or (missing_signed_header "x-amz-date") (get "x-amz-date" request.headers)
    date ←
        ok_or (invalid_authorization_header "Date format incorrect") (parse_date request_timestamp)
    ok (record {
      request = request;
      service = verified.0.service;
      region = verified.0.region;
      auth_context = record {
        access_key = verified.1.key_id;
        principal_id = verified.1.principal_id;
      };
      date = date;
    })
