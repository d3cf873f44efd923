-- ===== src/Store.antt =====
-- hiraeth_store: the error of every store operation, and what the stores keep.
pub mod Sqs
pub mod Sns
use hiraeth.Common.{String, ◌⊕◌}

pub data StoreError : Type 0 where
  not_found : String → StoreError
  conflict : String → StoreError
  storage_failure : String → StoreError

-- `Display`
abbrev pub store_error_text : StoreError → String
store_error_text (not_found msg) = "Not found: " ⊕ msg
store_error_text (conflict msg) = "Conflict: " ⊕ msg
store_error_text (storage_failure msg) = "Storage failure: " ⊕ msg
