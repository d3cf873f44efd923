-- ===== src/Sqs/Error.antt =====
-- hiraeth_sqs/src/error.rs: the errors of the queue service and where they come from.
use hiraeth.Common.{String}
use hiraeth.Core.Protocol.{AwsServiceError, sender, server}
use hiraeth.Store.{StoreError, conflict, not_found, storage_failure, store_error_text}

pub data SqsError : Type 0 where
  queue_not_found : SqsError
  bad_request : String → SqsError
  batch_entry_ids_not_distinct : SqsError
  empty_batch_request : SqsError
  internal_error : String → SqsError
  queue_already_exists : String → SqsError
  receipt_handle_is_invalid : String → SqsError
  too_many_entries_in_batch_request : SqsError
  unsupported_operation : String → SqsError

abbrev pub error_code : SqsError → String
error_code queue_not_found = "QueueDoesNotExist"
error_code (bad_request _) = "InvalidParameterValue"
error_code batch_entry_ids_not_distinct = "BatchEntryIdsNotDistinct"
error_code empty_batch_request = "EmptyBatchRequest"
error_code (internal_error _) = "InternalError"
error_code (queue_already_exists _) = "QueueAlreadyExists"
error_code (receipt_handle_is_invalid _) = "ReceiptHandleIsInvalid"
error_code too_many_entries_in_batch_request = "TooManyEntriesInBatchRequest"
error_code (unsupported_operation _) = "UnsupportedOperation"

abbrev pub error_text : SqsError → String
error_text queue_not_found = "The specified queue does not exist."
error_text (bad_request msg) = msg
error_text batch_entry_ids_not_distinct =
    "Two or more batch entries in the request have the same Id."
error_text empty_batch_request = "The batch request must contain at least one entry."
error_text (internal_error msg) = msg
error_text (queue_already_exists msg) = msg
error_text (receipt_handle_is_invalid msg) = msg
error_text too_many_entries_in_batch_request =
    "The batch request contains more entries than allowed."
error_text (unsupported_operation msg) = msg

instance abbrev pub sqs_service_error : AwsServiceError SqsError
sqs_service_error = record {
  status_code = λ e. elim e [ internal_error _ ↦ 500 | _ ↦ 400 ];
  namespace = λ e. "com.amazonaws.sqs";
  error_code = error_code;
  query_error_prefix = λ e. "AWS.SimpleQueueService";
  fault = λ e. elim e [ internal_error _ ↦ server | _ ↦ sender ];
  query_code = λ e. elim e [ queue_not_found ↦ "NonExistentQueue" | other ↦ error_code other ];
  to_text = error_text;
}

abbrev pub map_store_error : StoreError → SqsError
map_store_error (not_found _) = queue_not_found
map_store_error (conflict msg) = bad_request msg
map_store_error (storage_failure msg) = internal_error msg

abbrev pub map_receipt_handle_store_error : StoreError → SqsError
map_receipt_handle_store_error (not_found msg) = receipt_handle_is_invalid msg
map_receipt_handle_store_error (conflict msg) = bad_request msg
map_receipt_handle_store_error (storage_failure msg) = internal_error msg

-- `|e| SqsError::InternalError(e.to_string())`
abbrev pub internal : StoreError → SqsError
internal e = internal_error (store_error_text e)
