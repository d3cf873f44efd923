-- ===== src/SigV4/Error.antt =====
-- hiraeth_auth/src/lib.rs: the errors of authentication and what a client is told of them.
-- `debug` is the derived `Debug` text of a store error.
use hiraeth.Common.{String, ◌⊕◌}
use hiraeth.Core.Protocol.{ApiError, internal_server_error, not_authenticated}
use hiraeth.Store.{StoreError}

pub data AuthError : Type 0 where
  missing_authorization_header : AuthError
  invalid_authorization_header : String → AuthError
  missing_signed_header : String → AuthError
  invalid_signature : AuthError
  secret_key_not_found : AuthError
  key_store_error : StoreError → AuthError

unfoldable pub auth_api_error : (StoreError → String) → AuthError → ApiError
auth_api_error debug missing_authorization_header = not_authenticated "Missing Authorization header"
auth_api_error debug (invalid_authorization_header msg) =
    not_authenticated ("Invalid Authorization header: " ⊕ msg)
auth_api_error debug (missing_signed_header header) =
    not_authenticated ("Missing signed header: " ⊕ header)
auth_api_error debug invalid_signature = not_authenticated "Invalid signature"
auth_api_error debug secret_key_not_found = not_authenticated "Secret key not found for access key"
auth_api_error debug (key_store_error e) =
    internal_server_error ("Access key store error: " ⊕ debug e)
