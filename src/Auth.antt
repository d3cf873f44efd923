-- ===== src/Auth.antt =====
-- hiraeth_core/src/auth: policies, the principals that they name, and their evaluation.
pub mod Principal
pub mod Policy
pub mod Eval
