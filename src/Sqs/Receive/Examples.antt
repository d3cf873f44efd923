-- ===== src/Sqs/Receive/Examples.antt =====
-- Receiving the one message of a queue, at the first attempt.
use hiraeth.Common.{
  arith, ℕ, ◌+◌, ◌*◌, ◌≤◌, String, [], ◌∷◌, none, some, ◌≡◌, refl, length, pos, All, Result, ok,
}
use hiraeth.Core.Request.{Map}
use hiraeth.Sqlite.Sqs.{Db}
use hiraeth.Sqlite.Sqs.Receive.{no_faults}
use hiraeth.Sqlite.Sqs.Valid.{IsValid}
use hiraeth.Sqs.Create.Limits.{InLimits}
use hiraeth.Sqs.Examples.{decode_base64, md5, one_queue, parse_url, request}
use hiraeth.Sqs.Receive.Ends.{Answers, IsSteady, SleepsFully, handle_receive_message-Answers}
use hiraeth.Sqs.Receive.Poll.{Attempt, handle_receive_message}
use hiraeth.Sqs.Receive.Size.{handle_receive_message-length}
use hiraeth.Sqs.Receive.{ReceiveMessageRequest, ReceivedMessage}
use hiraeth.Sqs.Util.{MessageAttributeValue}
use hiraeth.Store.Sqs.{SqsMessage}

abbrev parse_attributes : String → Result (Map MessageAttributeValue) String
parse_attributes text = ok []

abbrev attempt : ℕ → Attempt
attempt i = record {
  faults = no_faults;
  random = λ row_id. "handle";
  selected_at = 21 + i * 100_000_004;
  leased_at = 22 + i * 100_000_004;
  checked_at = 23 + i * 100_000_004;
  read_at = 24 + i * 100_000_004;
  slept_from = 25 + i * 100_000_004;
  interleaved = λ duration db. db;
}

abbrev message : SqsMessage
message = record {
  message_id = "m";
  queue_id = 1;
  body = "hello";
  message_attributes = some "{}";
  aws_trace_header = none;
  sent_at = 10;
  visible_at = 10;
  expires_at = 1000;
  receive_count = 0;
  receipt_handle = none;
  first_received_at = none;
  message_group_id = none;
  message_deduplication_id = none;
}

abbrev filled : Db
filled = record one_queue { messages = record { row_id = 1; message = message } ∷ [] }

abbrev receive : ReceiveMessageRequest
receive = record {
  attribute_names = "ApproximateReceiveCount" ∷ [];
  max_number_of_messages = pos 1;
  message_attribute_names = [];
  message_system_attribute_names = [];
  queue_url = "http://localhost/000000000000/q";
  visibility_timeout = none;
  wait_time_seconds = some 1;
}

abbrev received : ReceivedMessage
received = record {
  attributes = ("ApproximateReceiveCount", "1") ∷ [];
  message_attributes = [];
  message_id = "m";
  receipt_handle = "handle";
  body = "hello";
  md5_of_body = some "0";
  md5_of_message_attributes = none;
}

abbrev leased : Db
leased = record one_queue {
  messages =
      record {
        row_id = 1;
        message = record message {
          visible_at = 30_000_000_022;
          receive_count = 1;
          receipt_handle = some "handle";
          first_received_at = some 21;
        };
      }
      ∷ [];
}

answered :
    handle_receive_message parse_url parse_attributes decode_base64 md5 1_000_000_000_000 attempt
      request 3 20 filled receive
    ≡ some (ok (received ∷ []), leased)
unfolding handle_receive_message hiraeth.Sqlite.Sqs.Receive.receive_messages
    hiraeth.Sqs.Receive.received_messages
answered = refl

within : All InLimits filled.queues
within = (
  record {
    visibility_limit = omega arith;
    delay_limit = omega arith;
    size_low = omega arith;
    size_high = omega arith;
    retention_low = omega arith;
    retention_high = omega arith;
    wait_limit = omega arith;
    reuse_low = omega arith;
    reuse_high = omega arith;
  },
  tt,
)

attempt-IsSteady : IsSteady attempt 20
attempt-IsSteady = record {
  from_start = omega arith;
  to_check = λ i. omega arith;
  to_read = λ i. omega arith;
  to_sleep = λ i. omega arith;
}

attempt-SleepsFully : (deadline : ℕ) → SleepsFully attempt deadline
attempt-SleepsFully deadline i = omega arith

handle_receive_message-Answers_example : Answers (
    handle_receive_message parse_url parse_attributes decode_base64 md5 1_000_000_000_000 attempt
      request 201 20 filled receive)
handle_receive_message-Answers_example =
    handle_receive_message-Answers parse_url parse_attributes decode_base64 md5 1_000_000_000_000
      attempt request 20 filled receive within attempt-IsSteady (λ queue e. attempt-SleepsFully _)

filled-IsValid : IsValid filled
filled-IsValid = record {
  row_ids = (tt, tt);
  message_ids = (tt, tt);
  owned = (refl, tt);
  queue_ids = (tt, tt);
  identities = (tt, tt);
}

handle_receive_message-length_example : length (received ∷ []) ≤ 1
handle_receive_message-length_example =
    handle_receive_message-length parse_url parse_attributes decode_base64 md5 1_000_000_000_000
      attempt request 3 20 filled receive 1 (received ∷ []) leased (λ i duration db v. v)
      filled-IsValid refl answered
