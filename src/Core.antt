-- ===== src/Core.antt =====
-- hiraeth_core and hiraeth_http: requests, responses and the errors of the API.
pub mod Request
pub mod Protocol
pub mod Action
