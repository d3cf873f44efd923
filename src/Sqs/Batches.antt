-- ===== src/Sqs/Batches.antt =====
-- hiraeth_sqs/src/actions/send_message_batch.rs and change_message_visibility_batch.rs, and
-- `enqueue_message` of hiraeth_sqs/src/operations.rs. The parameters are those of Digest; each message
-- draws its own uuid, and each change of visibility reads the clock.
pub mod Laws
mod Examples
use hiraeth.Common.{
  ℕ, suc, ◌+◌, String, Bool, true, List, [], ◌∷◌, map, Option, none, some, as_bytes, ℤ, Result, ok,
  err, map_err, ◌>>=◌, ◌>>◌,
}
use hiraeth.Core.Request.{Map, ResolvedRequest}
use hiraeth.Sqlite.Sqs.{Db, send_message, set_message_visible_at}
use hiraeth.Sqs.Digest.{calculate_message_attributes_md5, serialize_message_attributes}
use hiraeth.Sqs.Error.{SqsError, error_text, internal, map_receipt_handle_store_error}
use hiraeth.Sqs.Messages.{
  BatchFailedEntry, BatchResponse, Outcome, and_then, batch_failure, non_empty, persist, transpose,
  validate_visibility_timeout,
}
use hiraeth.Sqs.Util.{
  MessageAttributeValue, extract_aws_trace_header, load_queue_from_url, resolve_delay_seconds,
  validate_batch_request, validate_message_body,
}
use hiraeth.Store.Sqs.{SqsMessage, SqsQueue, seconds}
use hiraeth.Store.{StoreError}

pub record SendMessageBatchEntry : Type 0 where
  pub id : String
  pub delay_seconds : Option ℤ
  pub message_attributes : Option (Map MessageAttributeValue)
  pub message_system_attributes : Option (Map MessageAttributeValue)
  pub message_body : String
  pub message_deduplication_id : Option String
  pub message_group_id : Option String

pub record SendMessageBatchResultEntry : Type 0 where
  pub id : String
  pub md5_of_message_attributes : Option String
  pub md5_of_message_body : String
  pub md5_of_message_system_attributes : Option String
  pub message_id : String
  pub sequence_number : Option String

pub record SendMessageBatchResponse : Type 0 where
  pub successful : List SendMessageBatchResultEntry
  pub failed : List BatchFailedEntry

-- the two lists of the response, from the results in order
abbrev pub record_sent :
    String
    → Result SendMessageBatchResultEntry SqsError
    → SendMessageBatchResponse
    → SendMessageBatchResponse
record_sent id (ok entry) response = record response { successful = entry ∷ response.successful }
record_sent id (err error) response = record response {
  failed = batch_failure id error ∷ response.failed;
}

module _ (unique_message foreign_key_message : String)
    (parse_url : String → Option (String × List String))
    (to_json : Map MessageAttributeValue → Result String String)
    (decode_base64 : String → Result (List ℕ) String) (md5 : List ℕ → String) where
  unfoldable pub prepare_entry :
      ResolvedRequest
      → SqsQueue
      → String
      → SendMessageBatchEntry
      → Result (SqsMessage × SendMessageBatchResultEntry) SqsError
  unfolding resolve_delay_seconds validate_message_body serialize_message_attributes
      calculate_message_attributes_md5 extract_aws_trace_header as_bytes
  prepare_entry request queue uuid entry = do
    delay_seconds ← resolve_delay_seconds entry.delay_seconds queue.delay_seconds
    validate_message_body entry.message_body queue.maximum_message_size
    message_attributes ← transpose (serialize_message_attributes to_json) entry.message_attributes
    md5_of_message_attributes ←
        transpose (calculate_message_attributes_md5 decode_base64 md5)
          (non_empty entry.message_attributes)
    aws_trace_header ← extract_aws_trace_header entry.message_system_attributes
    md5_of_message_system_attributes ←
        transpose (calculate_message_attributes_md5 decode_base64 md5)
          (non_empty entry.message_system_attributes)
    ok (
      record {
        message_id = uuid;
        queue_id = queue.id;
        body = entry.message_body;
        message_attributes = message_attributes;
        aws_trace_header = aws_trace_header;
        sent_at = request.date;
        visible_at = request.date + seconds delay_seconds;
        expires_at = request.date + seconds queue.message_retention_period_seconds;
        receive_count = 0;
        receipt_handle = none;
        first_received_at = none;
        message_group_id = entry.message_group_id;
        message_deduplication_id = entry.message_deduplication_id;
      },
      record {
        id = entry.id;
        md5_of_message_attributes = md5_of_message_attributes;
        md5_of_message_body = md5 (as_bytes entry.message_body);
        md5_of_message_system_attributes = md5_of_message_system_attributes;
        message_id = uuid;
        sequence_number = none;
      },
    )

  -- one element of the stream
  unfoldable pub send_entry :
      ResolvedRequest
      → SqsQueue
      → String
      → SendMessageBatchEntry
      → Db
      → Outcome SendMessageBatchResultEntry
  unfolding prepare_entry send_message
  send_entry request queue uuid entry db =
      and_then db (prepare_entry request queue uuid entry) (λ (message, sent).
        persist internal sent (send_message unique_message foreign_key_message message db))

  -- the stream, which has one element in flight at a time; `uuids` is by the number of the entry
  unfoldable pub send_entries :
      ResolvedRequest
      → SqsQueue
      → (ℕ → String)
      → ℕ
      → List SendMessageBatchEntry
      → Db
      → SendMessageBatchResponse × Db
  unfolding send_entry
  send_entries request queue uuids n [] db = (record { successful = []; failed = [] }, db)
  send_entries request queue uuids n (entry ∷ entries) db =
      let (result, after) = send_entry request queue (uuids n) entry db in
      let (response, last) = send_entries request queue uuids (suc n) entries after in
      (record_sent entry.id result response, last)

  unfoldable pub handle_send_message_batch :
      ResolvedRequest
      → (ℕ → String)
      → Db
      → String
      → List SendMessageBatchEntry
      → Outcome SendMessageBatchResponse
  unfolding load_queue_from_url validate_batch_request send_entries
  handle_send_message_batch request uuids db queue_url entries =
      and_then db
        (do
          queue ← load_queue_from_url parse_url request.region db queue_url
          validate_batch_request (map (λ entry. entry.id) entries)
          ok queue)
        (λ queue.
          let (response, after) = send_entries request queue uuids 0 entries db in
          (ok response, after))

  -- a message that another service delivers
  unfoldable pub prepare_enqueued :
      SqsQueue
      → String
      → String
      → Option (Map MessageAttributeValue)
      → Option (Map MessageAttributeValue)
      → Option String
      → Option String
      → ℕ
      → Result SqsMessage SqsError
  unfolding validate_message_body resolve_delay_seconds serialize_message_attributes
      extract_aws_trace_header
  prepare_enqueued queue uuid body attributes system_attributes group_id deduplication_id date = do
    validate_message_body body queue.maximum_message_size
    delay_seconds ← resolve_delay_seconds none queue.delay_seconds
    serialized_message_attributes ← transpose (serialize_message_attributes to_json) attributes
    aws_trace_header ← extract_aws_trace_header system_attributes
    ok (record {
      message_id = uuid;
      queue_id = queue.id;
      body = body;
      message_attributes = serialized_message_attributes;
      aws_trace_header = aws_trace_header;
      sent_at = date;
      visible_at = date + seconds delay_seconds;
      expires_at = date + seconds queue.message_retention_period_seconds;
      receive_count = 0;
      receipt_handle = none;
      first_received_at = none;
      message_group_id = group_id;
      message_deduplication_id = deduplication_id;
    })

  unfoldable pub enqueue_message :
      SqsQueue
      → String
      → String
      → Option (Map MessageAttributeValue)
      → Option (Map MessageAttributeValue)
      → Option String
      → Option String
      → ℕ
      → Db
      → Outcome String
  unfolding prepare_enqueued send_message
  enqueue_message queue uuid body attributes system_attributes group_id deduplication_id date db =
      and_then db
        (prepare_enqueued queue uuid body attributes system_attributes group_id deduplication_id
          date)
        (λ message.
          persist internal uuid (send_message unique_message foreign_key_message message db))

pub record ChangeMessageVisibilityBatchEntry : Type 0 where
  pub id : String
  pub receipt_handle : String
  pub visibility_timeout : ℕ

-- `push` on the lists of the response, after the check and after the change
abbrev pub record_changed : String → Result Unit StoreError → BatchResponse → BatchResponse
record_changed id (ok _) response = record response { successful = id ∷ response.successful }
record_changed id (err e) response = record response {
  failed = batch_failure id (map_receipt_handle_store_error e) ∷ response.failed;
}

abbrev pub record_invalid : String → SqsError → BatchResponse → BatchResponse
record_invalid id error response = record response {
  failed =
      record {
        id = id;
        code = "InvalidParameterValue";
        message = error_text error;
        sender_fault = true;
      }
      ∷ response.failed;
}

module _ (parse_url : String → Option (String × List String)) where
  -- an entry that passed the check
  abbrev pub change_entry :
      ℕ
      → ℕ
      → ChangeMessageVisibilityBatchEntry
      → Db
      → Result Unit SqsError
      → (BatchResponse → BatchResponse) × Db
  unfolding set_message_visible_at
  change_entry queue_id now entry db (err error) = (record_invalid entry.id error, db)
  change_entry queue_id now entry db (ok _) =
      let (result, after) =
        set_message_visible_at queue_id entry.receipt_handle
          (now + seconds entry.visibility_timeout) db in
      (record_changed entry.id result, after)

  -- the loop; `clock` is by the number of the entry
  unfoldable pub change_entries :
      ℕ → (ℕ → ℕ) → ℕ → List ChangeMessageVisibilityBatchEntry → Db → BatchResponse × Db
  unfolding set_message_visible_at
  change_entries queue_id clock n [] db = (record { successful = []; failed = [] }, db)
  change_entries queue_id clock n (entry ∷ entries) db =
      let (recorded, after) =
        change_entry queue_id (clock n) entry db
          (validate_visibility_timeout parse_url entry.visibility_timeout) in
      let (response, last) = change_entries queue_id clock (suc n) entries after in
      (recorded response, last)

  unfoldable pub handle_change_message_visibility_batch :
      ResolvedRequest
      → (ℕ → ℕ)
      → Db
      → String
      → List ChangeMessageVisibilityBatchEntry
      → Outcome BatchResponse
  unfolding load_queue_from_url validate_batch_request change_entries
  handle_change_message_visibility_batch request clock db queue_url entries =
      and_then db
        (do
          queue ← load_queue_from_url parse_url request.region db queue_url
          validate_batch_request (map (λ entry. entry.id) entries)
          ok queue)
        (λ queue.
          let (response, after) = change_entries queue.id clock 0 entries db in
          (ok response, after))
