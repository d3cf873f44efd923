-- ===== src/SigV4.antt =====
-- hiraeth_auth: the authentication of requests by AWS Signature Version 4.
pub mod Error
pub mod Params
pub mod Encode
pub mod Canonical
pub mod Verify
pub mod Authenticate
mod Examples
