-- ===== src/Iam.antt =====
-- hiraeth_iam: the authorizer.
pub mod Authorize
