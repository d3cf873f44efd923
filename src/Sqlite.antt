-- ===== src/Sqlite.antt =====
-- hiraeth_store_sqlx: the stores over SQLite.
pub mod Sqs
pub mod Sns
