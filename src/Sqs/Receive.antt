-- ===== src/Sqs/Receive.antt =====
-- hiraeth_sqs/src/actions/receive_message.rs: receiving, with its long poll. `parse_attributes` is
-- serde_json's reader of stored attributes. The clock, and what other requests do to the tables while
-- the poll sleeps, are functions of the number of the attempt.
pub mod Poll
mod Examples
pub mod Ends
pub mod Size
use hiraeth.Common.{
  ℕ, suc, ◌+◌, ◌-◌, ◌/◌, ◌%◌, ◌≤◌, String, Bool, true, false, not, ◌&&◌, ◌||◌, List, [], ◌∷◌, ◌++◌,
  map, Option, none, some, ◌==◌, ◌⊕◌, ltb, leb, any, keep, is_empty, if◌then◌else◌, ℤ, in_range,
  starts_with, strip_suffix, decimal, text_ltb, order_by, as_bytes, Result, ok, err, map_err,
  reject, ◌>>=◌, ◌>>◌,
}
use Prim.Native.Nat.{zero, min}
use hiraeth.Core.Request.{Map, ResolvedRequest}
use hiraeth.Sqlite.Sqs.Receive.{Faults, receive_messages}
use hiraeth.Sqlite.Sqs.{Db}
use hiraeth.Sqs.Attributes.{unwrap_or}
use hiraeth.Sqs.Digest.{calculate_message_attributes_md5}
use hiraeth.Sqs.Error.{SqsError, bad_request, internal, internal_error}
use hiraeth.Sqs.Messages.{Outcome, non_empty, transpose}
use hiraeth.Sqs.Util.{MessageAttributeValue, load_queue_from_url}
use hiraeth.Store.Sqs.{SqsMessage, SqsQueue, seconds}
use hiraeth.Store.{StoreError}

-- `visibility_timeout` and `wait_time_seconds` are of type u32
pub record ReceiveMessageRequest : Type 0 where
  pub attribute_names : List String
  pub max_number_of_messages : ℤ
  pub message_attribute_names : List String
  pub message_system_attribute_names : List String
  pub queue_url : String
  pub visibility_timeout : Option ℕ
  pub wait_time_seconds : Option ℕ

pub record ReceivedMessage : Type 0 where
  pub attributes : Map String
  pub message_attributes : Map MessageAttributeValue
  pub message_id : String
  pub receipt_handle : String
  pub body : String
  pub md5_of_body : Option String
  pub md5_of_message_attributes : Option String

-- `option.is_some_and(|n| n > limit)`
abbrev pub above : ℕ → Option ℕ → Bool
above limit none = false
above limit (some n) = ltb limit n

unfoldable pub validate_receive_request : ReceiveMessageRequest → Result Unit SqsError
validate_receive_request request = do
  reject (not (in_range 1 10 request.max_number_of_messages))
      (bad_request "MaxNumberOfMessages must be between 1 and 10")
  reject (above 43200 request.visibility_timeout)
      (bad_request "VisibilityTimeout must be between 0 and 43200")
  reject (above 20 request.wait_time_seconds)
      (bad_request "WaitTimeSeconds must be between 0 and 20")

unfoldable pub epoch_millis : ℕ → String
unfolding decimal
epoch_millis value = decimal (value / 1_000_000)

abbrev pub should_include_system_attribute : ReceiveMessageRequest → String → Bool
should_include_system_attribute request attribute_name =
    any (λ name. name == "All" || name == attribute_name) request.attribute_names
    || any (λ name. name == "All" || name == attribute_name) request.message_system_attribute_names

-- `insert` of a value that is there, of a name that was asked for
abbrev pub system_attribute : ReceiveMessageRequest → String → Option String → Map String
system_attribute request name none = []
system_attribute request name (some value) =
    if should_include_system_attribute request name then (name, value) ∷ [] else []

abbrev first_received_text : Option ℕ → Option String
unfolding epoch_millis
first_received_text none = none
first_received_text (some first_received_at) = some (epoch_millis first_received_at)

unfoldable pub select_system_attributes : ReceiveMessageRequest → SqsMessage → Map String
unfolding decimal epoch_millis order_by text_ltb
select_system_attributes request message =
    order_by (λ a b. text_ltb a.0 b.0)
      (system_attribute request "ApproximateReceiveCount" (some (decimal message.receive_count))
        ++ system_attribute request "ApproximateFirstReceiveTimestamp"
            (first_received_text message.first_received_at)
        ++ system_attribute request "SentTimestamp" (some (epoch_millis message.sent_at))
        ++ system_attribute request "AWSTraceHeader" message.aws_trace_header
        ++ system_attribute request "MessageDeduplicationId" message.message_deduplication_id
        ++ system_attribute request "MessageGroupId" message.message_group_id)

-- `strip_suffix(".*").is_some_and(|prefix| attribute_name.starts_with(prefix))`
abbrev pub starts_with_given : String → Option String → Bool
unfolding starts_with
starts_with_given attribute_name none = false
starts_with_given attribute_name (some prefix) = starts_with prefix attribute_name

unfoldable pub include_requested_message_attribute : List String → String → Bool
unfolding strip_suffix starts_with
include_requested_message_attribute requested_names attribute_name =
    any
      (λ requested_name.
        requested_name == "All"
        || requested_name == ".*"
        || requested_name == attribute_name
        || starts_with_given attribute_name (strip_suffix ".*" requested_name))
      requested_names

unfoldable pub filter_message_attributes :
    Map MessageAttributeValue → List String → Map MessageAttributeValue
unfolding include_requested_message_attribute
filter_message_attributes message_attributes requested_names =
    keep (λ entry. include_requested_message_attribute requested_names entry.0) message_attributes

module _ (parse_attributes : String → Result (Map MessageAttributeValue) String)
    (decode_base64 : String → Result (List ℕ) String) (md5 : List ℕ → String) where
  unfoldable pub parse_message_attributes :
      String → Option String → Result (Map MessageAttributeValue) SqsError
  parse_message_attributes message_id none = ok []
  parse_message_attributes message_id (some raw) =
      if raw == ""
      then ok []
      else map_err
          (λ e.
            internal_error
              ("failed to parse stored message attributes for message " ⊕ message_id ⊕ ": " ⊕ e))
          (parse_attributes raw)

  unfoldable pub received_message :
      ReceiveMessageRequest → SqsMessage → Result ReceivedMessage SqsError
  unfolding select_system_attributes filter_message_attributes parse_message_attributes
      calculate_message_attributes_md5 as_bytes
  received_message request message = do
    parsed ← parse_message_attributes message.message_id message.message_attributes
    let message_attributes = filter_message_attributes parsed request.message_attribute_names
    md5_of_message_attributes ←
        transpose (calculate_message_attributes_md5 decode_base64 md5)
          (non_empty (some message_attributes))
    ok (record {
      attributes = select_system_attributes request message;
      message_attributes = message_attributes;
      message_id = message.message_id;
      receipt_handle = unwrap_or "" message.receipt_handle;
      body = message.body;
      md5_of_body = some (md5 (as_bytes message.body));
      md5_of_message_attributes = md5_of_message_attributes;
    })

  unfoldable pub received_messages :
      ReceiveMessageRequest → List SqsMessage → Result (List ReceivedMessage) SqsError
  unfolding received_message
  received_messages request [] = ok []
  received_messages request (message ∷ messages) = do
    first ← received_message request message
    rest ← received_messages request messages
    ok (first ∷ rest)
