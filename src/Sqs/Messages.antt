-- ===== src/Sqs/Messages.antt =====
-- The message handlers of hiraeth_sqs/src/actions: send_message.rs, delete_message.rs,
-- delete_message_batch.rs, change_message_visibility.rs and change_message_visibility_batch.rs, on the
-- tables of the store. A handler has the clock (`now`) and the fresh uuid it draws as arguments;
-- The parameters are those of Digest.
pub mod Batch
pub mod Send
use hiraeth.Common.{
  as_bytes, ℕ, suc, ◌+◌, String, Bool, true, false, ◌&&◌, List, [], ◌∷◌, map, Option, none, some,
  ltb, ℤ, Result, ok, err, map_err, reject, ◌>>=◌, ◌>>◌, is_empty, if◌then◌else◌,
}
use hiraeth.Core.Protocol.{aws_batch_error_details}
use hiraeth.Core.Request.{Map, ResolvedRequest}
use hiraeth.Sqlite.Sqs.{Db, delete_message, send_message, set_message_visible_at}
use hiraeth.Sqs.Digest.{calculate_message_attributes_md5, serialize_message_attributes}
use hiraeth.Sqs.Error.{
  sqs_service_error, SqsError, bad_request, error_text, internal, map_receipt_handle_store_error,
}
use hiraeth.Sqs.Util.{
  MessageAttributeValue, extract_aws_trace_header, load_queue_from_url, resolve_delay_seconds,
  validate_batch_request, validate_batch_entry_id, validate_message_attributes,
  validate_message_body, validate_message_system_attributes,
}
use hiraeth.Store.Sqs.{SqsMessage, SqsQueue, seconds}
use hiraeth.Store.{StoreError}

pub record SendMessageRequest : Type 0 where
  pub delay_seconds : Option ℤ
  pub message_attributes : Option (Map MessageAttributeValue)
  pub message_system_attributes : Option (Map MessageAttributeValue)
  pub message_body : String
  pub message_deduplication_id : Option String
  pub message_group_id : Option String
  pub queue_url : String

pub record SendMessageResponse : Type 0 where
  pub md5_of_message_attributes : Option String
  pub md5_of_message_body : String
  pub md5_of_message_system_attributes : Option String
  pub message_id : String
  pub sequence_number : Option String

-- a result of the service beside the tables it leaves
abbrev pub Outcome : Type 0 → Type 0
Outcome A = Result A SqsError × Db

-- `option.map(f).transpose()`
abbrev pub transpose :
    {A B : Type 0} → (A → Result B SqsError) → Option A → Result (Option B) SqsError
transpose f none = ok none
transpose f (some a) = do b ← f a; ok (some b)

-- `option.filter(|attrs| !attrs.is_empty())`
abbrev pub non_empty : {A : Type 0} → Option (List A) → Option (List A)
non_empty none = none
non_empty (some []) = none
non_empty (some (x ∷ xs)) = some (x ∷ xs)

-- the errors of the store in a handler that has done all else
abbrev pub persist :
    {A B : Type 0} → (StoreError → SqsError) → B → Result A StoreError × Db → Outcome B
persist to_error response (ok _, after) = (ok response, after)
persist to_error response (err e, after) = (err (to_error e), after)

abbrev pub and_then : {A B : Type 0} → Db → Result A SqsError → (A → Outcome B) → Outcome B
and_then db (ok a) run = run a
and_then db (err e) run = (err e, db)

module _ (unique_message foreign_key_message : String)
    (parse_url : String → Option (String × List String))
    (to_json : Map MessageAttributeValue → Result String String)
    (decode_base64 : String → Result (List ℕ) String) (md5 : List ℕ → String) where
  unfoldable pub validate_send_message : String → Db → SendMessageRequest → Result Unit SqsError
  unfolding load_queue_from_url validate_message_body resolve_delay_seconds
      validate_message_attributes validate_message_system_attributes
  validate_send_message region db payload = do
    queue ← load_queue_from_url parse_url region db payload.queue_url
    validate_message_body payload.message_body queue.maximum_message_size
    resolve_delay_seconds payload.delay_seconds queue.delay_seconds
    transpose validate_message_attributes payload.message_attributes
    transpose validate_message_system_attributes payload.message_system_attributes
    ok tt

  -- what `handle_send_message_typed` has ready before it calls the store
  unfoldable pub prepare_message :
      ResolvedRequest
      → String
      → Db
      → SendMessageRequest
      → Result (SqsMessage × SendMessageResponse) SqsError
  unfolding load_queue_from_url validate_message_body resolve_delay_seconds extract_aws_trace_header
      serialize_message_attributes calculate_message_attributes_md5 as_bytes
  prepare_message request uuid db body = do
    queue ← load_queue_from_url parse_url request.region db body.queue_url
    validate_message_body body.message_body queue.maximum_message_size
    delay_seconds ← resolve_delay_seconds body.delay_seconds queue.delay_seconds
    message_attributes ← transpose (serialize_message_attributes to_json) body.message_attributes
    md5_of_message_attributes ←
        transpose (calculate_message_attributes_md5 decode_base64 md5)
          (non_empty body.message_attributes)
    aws_trace_header ← extract_aws_trace_header body.message_system_attributes
    md5_of_message_system_attributes ←
        transpose (calculate_message_attributes_md5 decode_base64 md5)
          (non_empty body.message_system_attributes)
    ok (
      record {
        message_id = uuid;
        queue_id = queue.id;
        body = body.message_body;
        message_attributes = message_attributes;
        aws_trace_header = aws_trace_header;
        sent_at = request.date;
        visible_at = request.date + seconds delay_seconds;
        expires_at = request.date + seconds queue.message_retention_period_seconds;
        receive_count = 0;
        receipt_handle = none;
        first_received_at = none;
        message_group_id = body.message_group_id;
        message_deduplication_id = body.message_deduplication_id;
      },
      record {
        md5_of_message_attributes = md5_of_message_attributes;
        md5_of_message_body = md5 (as_bytes body.message_body);
        md5_of_message_system_attributes = md5_of_message_system_attributes;
        message_id = uuid;
        sequence_number = none;
      },
    )

  unfoldable pub handle_send_message :
      ResolvedRequest → String → Db → SendMessageRequest → Outcome SendMessageResponse
  unfolding prepare_message send_message
  handle_send_message request uuid db body =
      and_then db (prepare_message request uuid db body) (λ (message, response).
        persist internal response (send_message unique_message foreign_key_message message db))

module _ (parse_url : String → Option (String × List String)) where
  unfoldable pub handle_delete_message : ResolvedRequest → Db → String → String → Outcome Unit
  unfolding load_queue_from_url delete_message
  handle_delete_message request db queue_url receipt_handle =
      and_then db (load_queue_from_url parse_url request.region db queue_url) (λ queue.
        persist map_receipt_handle_store_error tt (delete_message queue.id receipt_handle db))

  abbrev pub validate_visibility_timeout : ℕ → Result Unit SqsError
  validate_visibility_timeout visibility_timeout =
      reject (ltb 43200 visibility_timeout)
        (bad_request "VisibilityTimeout must be between 0 and 43200")

  unfoldable pub handle_change_message_visibility :
      ResolvedRequest → ℕ → Db → String → String → ℕ → Outcome Unit
  unfolding load_queue_from_url set_message_visible_at
  handle_change_message_visibility request now db queue_url receipt_handle visibility_timeout =
      and_then db
        (do
          queue ← load_queue_from_url parse_url request.region db queue_url
          validate_visibility_timeout visibility_timeout
          ok queue)
        (λ queue.
          persist map_receipt_handle_store_error tt
            (set_message_visible_at queue.id receipt_handle (now + seconds visibility_timeout) db))

pub record BatchFailedEntry : Type 0 where
  pub id : String
  pub code : String
  pub message : String
  pub sender_fault : Bool

pub record BatchResponse : Type 0 where
  pub successful : List String
  pub failed : List BatchFailedEntry

abbrev pub batch_failure : String → SqsError → BatchFailedEntry
batch_failure id error =
    let details = aws_batch_error_details error in
    record { id = id; code = details.0; message = error_text error; sender_fault = details.1 }

pub record DeleteMessageBatchEntry : Type 0 where
  pub id : String
  pub receipt_handle : String

-- `push` on the lists of the response; the lists are built from the front here
abbrev pub record_entry : String → Result Unit SqsError → BatchResponse → BatchResponse
record_entry id (ok _) response = record response { successful = id ∷ response.successful }
record_entry id (err e) response = record response { failed = batch_failure id e ∷ response.failed }

-- the loop of `handle_delete_message_batch_typed`, from entry to entry on the tables left behind
unfoldable pub delete_entries : ℕ → List DeleteMessageBatchEntry → Db → BatchResponse × Db
unfolding delete_message
delete_entries queue_id [] db = (record { successful = []; failed = [] }, db)
delete_entries queue_id (entry ∷ entries) db =
    let (result, after) = delete_message queue_id entry.receipt_handle db in
    let (response, last) = delete_entries queue_id entries after in
    (record_entry entry.id (map_err map_receipt_handle_store_error result) response, last)

module _ (parse_url : String → Option (String × List String)) where
  unfoldable pub handle_delete_message_batch :
      ResolvedRequest → Db → String → List DeleteMessageBatchEntry → Outcome BatchResponse
  unfolding load_queue_from_url validate_batch_request delete_entries
  handle_delete_message_batch request db queue_url entries =
      and_then db
        (do
          queue ← load_queue_from_url parse_url request.region db queue_url
          validate_batch_request (map (λ entry. entry.id) entries)
          ok queue)
        (λ queue.
          let (response, after) = delete_entries queue.id entries db in (ok response, after))
