-- ===== src/Sqs/Examples.antt =====
-- The queue service on small requests. `parse_url` knows one url, and md5 is a constant.
use mathlib.Core.List.{Memᴰ}
use hiraeth.Common.{
  arith, All, ℕ, ◌≤◌, String, List, [], ◌∷◌, Option, none, some, ◌==◌, ◌≡◌, ◌≢◌, ◌↔◌, refl,
  Distinct, byte_length, if◌then◌else◌, pos, Result, ok, err,
}
use hiraeth.Core.Request.{Map, ResolvedRequest}
use hiraeth.Sqlite.Sqs.{Db}
use hiraeth.Sqs.Attributes.Laws.{HasLimits, from_attribute_map-HasLimits}
use hiraeth.Sqs.Attributes.{QueueAttributeValues, default_values, from_attribute_map, read_i64}
use hiraeth.Sqs.Create.Limits.{InLimits, handle_create_queue-InLimits}
use hiraeth.Sqs.Create.Updates.{handle_set_queue_attributes-InLimits}
use hiraeth.Sqs.Create.{handle_create_queue, handle_set_queue_attributes}
use hiraeth.Sqs.Error.{queue_not_found}
use hiraeth.Sqs.Messages.Batch.{IsGone, count, reports, delete_entries_complete, count, reports}
use hiraeth.Sqs.Messages.Send.{
  IsAppended, Stored, handle_send_message_atomic, handle_send_message-Stored,
}
use hiraeth.Sqs.Messages.{
  DeleteMessageBatchEntry, SendMessageRequest, SendMessageResponse, delete_entries,
  handle_send_message,
}
use hiraeth.Sqs.Util.Laws.{
  validate_batch_request_iff, validate_message_body_iff, EveryChar, IsAllowed,
}
use hiraeth.Sqs.Util.{
  MessageAttributeValue, load_queue_from_url, resolve_delay_seconds, validate_batch_request,
  validate_message_body,
}
use hiraeth.Store.Sqs.{SqsMessage, default_queue}

validate_batch_request_iff_example :
    (validate_batch_request ("a" ∷ "b" ∷ []) ≡ ok tt)
    ↔ (Distinct {A = String} (λ id. id) ("a" ∷ "b" ∷ []) × (1 ≤ 2) × (2 ≤ 10))
validate_batch_request_iff_example = validate_batch_request_iff ("a" ∷ "b" ∷ [])

validate_message_body_iff_example :
    (validate_message_body "hello" 1024 ≡ ok tt)
    ↔ ((◌≢◌ {A = String} "hello" "") × (byte_length "hello" ≤ 1024) × EveryChar IsAllowed "hello")
validate_message_body_iff_example = validate_message_body_iff "hello" 1024

abbrev no_error : String → Option String
no_error text = none

abbrev values : QueueAttributeValues
values = record default_values { delay_seconds = 7 }

read : from_attribute_map no_error no_error (("DelaySeconds", "7") ∷ []) ≡ ok values
unfolding from_attribute_map read_i64
read = refl

from_attribute_map-HasLimits_example : HasLimits 30 7 1048576 345600 0 300
from_attribute_map-HasLimits_example =
    from_attribute_map-HasLimits no_error no_error (("DelaySeconds", "7") ∷ []) values read

abbrev pub parse_url : String → Option (String × List String)
parse_url url =
    if url == "http://localhost/000000000000/q"
    then some ("localhost", "000000000000" ∷ "q" ∷ [])
    else none

abbrev pub to_json : Map MessageAttributeValue → Result String String
to_json attributes = ok "{}"

abbrev pub decode_base64 : String → Result (List ℕ) String
decode_base64 text = ok []

abbrev pub md5 : List ℕ → String
md5 bytes = "0"

abbrev pub request : ResolvedRequest
request = record {
  request_id = "1";
  request = record {
    host = "localhost";
    method = "POST";
    path = "/";
    query = none;
    headers = [];
    body = [];
  };
  service = "sqs";
  region = "us-east-1";
  auth_context = record {
    access_key = "AKIA";
    principal = record {
      id = 1;
      account_id = "000000000000";
      kind = "user";
      name = "alice";
      path = "/";
      user_id = "AIDA";
      created_at = 0;
    };
  };
  date = 100;
}

abbrev empty : Db
empty = record { queues = []; messages = []; tags = [] }

abbrev pub one_queue : Db
one_queue = record empty {
  queues =
      record default_queue { id = 1; name = "q"; region = "us-east-1"; account_id = "000000000000" }
      ∷ [];
}

abbrev body : SendMessageRequest
body = record {
  delay_seconds = some (pos 3);
  message_attributes = none;
  message_system_attributes = none;
  message_body = "hello";
  message_deduplication_id = none;
  message_group_id = none;
  queue_url = "http://localhost/000000000000/q";
}

no_queue :
    (handle_send_message "u" "f" parse_url to_json decode_base64 md5 request "uuid" empty body).0
    ≡ err queue_not_found
unfolding handle_send_message load_queue_from_url
no_queue = refl

handle_send_message_atomic_example :
    (handle_send_message "u" "f" parse_url to_json decode_base64 md5 request "uuid" empty body).1
    ≡ empty
handle_send_message_atomic_example =
    handle_send_message_atomic "u" "f" parse_url to_json decode_base64 md5 request "uuid" empty body
      queue_not_found no_queue

abbrev answer : SendMessageResponse
answer = record {
  md5_of_message_attributes = none;
  md5_of_message_body = "0";
  md5_of_message_system_attributes = none;
  message_id = "uuid";
  sequence_number = none;
}

abbrev after : Db
after =
    (handle_send_message "u" "f" parse_url to_json decode_base64 md5 request "uuid" one_queue
      body).1

sent :
    handle_send_message "u" "f" parse_url to_json decode_base64 md5 request "uuid" one_queue body
    ≡ (ok answer, after)
unfolding handle_send_message load_queue_from_url resolve_delay_seconds validate_message_body
sent = refl

handle_send_message-Stored_example :
    (message : SqsMessage) × Stored "u" "f" parse_url to_json decode_base64 md5 request "uuid" body
      (message, answer)
    × IsAppended message one_queue after
handle_send_message-Stored_example =
    handle_send_message-Stored "u" "f" parse_url to_json decode_base64 md5 request "uuid" one_queue
      after body answer sent

abbrev entries : List DeleteMessageBatchEntry
entries = record { id = "1"; receipt_handle = "handle" } ∷ []

delete_entries_complete_example :
    ((key : String)
      → reports (delete_entries 1 entries after).0 key ≡ count (λ e. e.id) key entries)
    × ((entry : DeleteMessageBatchEntry)
        → Memᴰ entry entries
        → IsGone 1 entry.receipt_handle (delete_entries 1 entries after).1)
delete_entries_complete_example =
    delete_entries_complete 1 entries after (delete_entries 1 entries after).1
      (delete_entries 1 entries after).0 refl

handle_create_queue-InLimits_example :
    All InLimits
      (handle_create_queue "u" "f" no_error no_error request 100 100 empty "q"
        (("VisibilityTimeout", "43200") ∷ [])
        (("team", "a") ∷ [])).1.queues
handle_create_queue-InLimits_example =
    handle_create_queue-InLimits "u" "f" no_error no_error request 100 100 empty "q"
      (("VisibilityTimeout", "43200") ∷ []) (("team", "a") ∷ []) tt

one_queue-InLimits : All InLimits one_queue.queues
one_queue-InLimits = (
  record {
    visibility_limit = omega arith;
    delay_limit = omega arith;
    size_low = omega arith;
    size_high = omega arith;
    retention_low = omega arith;
    retention_high = omega arith;
    wait_limit = omega arith;
    reuse_low = omega arith;
    reuse_high = omega arith;
  },
  tt,
)

handle_set_queue_attributes-InLimits_example :
    All InLimits
      (handle_set_queue_attributes parse_url no_error no_error request 100 one_queue
        "http://localhost/000000000000/q"
        (("DelaySeconds", "900") ∷ [])).1.queues
handle_set_queue_attributes-InLimits_example =
    handle_set_queue_attributes-InLimits parse_url no_error no_error request 100 one_queue
      "http://localhost/000000000000/q" (("DelaySeconds", "900") ∷ []) one_queue-InLimits
