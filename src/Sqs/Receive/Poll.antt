-- ===== src/Sqs/Receive/Poll.antt =====
-- `handle_receive_message_typed` of hiraeth_sqs/src/actions/receive_message.rs. `world` says of each
-- attempt what the clock reads, whichever way it runs, and what other requests do to the tables during
-- the sleep, given its length.
use hiraeth.Common.{
  ℕ, suc, ◌+◌, ◌-◌, ◌%◌, String, List, [], ◌∷◌, Option, none, some, leb, if◌then◌else◌, Result, ok,
  err, map_err, ◌>>=◌, ◌>>◌,
}
use Prim.Native.Nat.{zero, min, ◌^◌}
use hiraeth.Core.Request.{Map, ResolvedRequest}
use hiraeth.Sqlite.Sqs.Receive.{Faults, receive_messages}
use hiraeth.Sqlite.Sqs.{Db}
use hiraeth.Sqs.Attributes.{unwrap_or}
use hiraeth.Sqs.Error.{SqsError, internal}
use hiraeth.Sqs.Messages.{Outcome}
use hiraeth.Sqs.Receive.{
  ReceiveMessageRequest, ReceivedMessage, received_messages, validate_receive_request,
}
use hiraeth.Sqs.Util.{MessageAttributeValue, load_queue_from_url}
use hiraeth.Store.Sqs.{SqsQueue, seconds}

pub record Attempt : Type 0 where
  pub faults : Faults
  pub random : ℕ → String
  pub selected_at : ℕ
  pub leased_at : ℕ
  pub checked_at : ℕ
  pub read_at : ℕ
  pub slept_from : ℕ
  pub interleaved : ℕ → Db → Db

-- `min(deadline, Utc::now() + 100ms)`, and the sleep until then, which is none if that has passed
abbrev pub sleep_until : ℕ → Attempt → ℕ
sleep_until deadline attempt = min deadline (attempt.read_at + 100_000_000)

abbrev pub sleep_for : ℕ → Attempt → ℕ
sleep_for deadline attempt = sleep_until deadline attempt - attempt.slept_from

module _ (parse_attributes : String → Result (Map MessageAttributeValue) String)
    (decode_base64 : String → Result (List ℕ) String) (md5 : List ℕ → String) (max_time : ℕ)
    (world : ℕ → Attempt) where
  module _ (queue_id visibility_timeout_seconds deadline : ℕ)
      (request : ReceiveMessageRequest) where
    abbrev pub answer :
        ℕ
        → Db
        → Option (Outcome (List ReceivedMessage))
        → Result (List ReceivedMessage) SqsError
        → Option (Outcome (List ReceivedMessage))
    answer checked after rest (err e) = some (err e, after)
    answer checked after rest (ok (m ∷ ms)) = some (ok (m ∷ ms), after)
    answer checked after rest (ok []) = if leb deadline checked then some (ok [], after) else rest

    -- the loop; each turn takes one of the fuel
    unfoldable pub poll : ℕ → ℕ → Db → Option (Outcome (List ReceivedMessage))
    poll zero i db = none
    poll (suc fuel) i db =
        let (messages, after) =
          receive_messages (world i).faults max_time (world i).selected_at (world i).leased_at
            (world i).random queue_id request.max_number_of_messages visibility_timeout_seconds
            db in
        let rest = poll fuel (suc i) ((world i).interleaved (sleep_for deadline (world i)) after) in
        answer (world i).checked_at after rest (do
          ms ← map_err internal messages
          received_messages parse_attributes decode_base64 md5 request ms)

module _ (parse_url : String → Option (String × List String))
    (parse_attributes : String → Result (Map MessageAttributeValue) String)
    (decode_base64 : String → Result (List ℕ) String) (md5 : List ℕ → String) (max_time : ℕ)
    (world : ℕ → Attempt) where
  -- `unwrap_or(... as u32)`
  abbrev pub or_queue_value : Option ℕ → ℕ → ℕ
  or_queue_value asked value = unwrap_or (value % 2 ^ 32) asked

  abbrev pub checked_queue : ResolvedRequest → ReceiveMessageRequest → Db → Result SqsQueue SqsError
  checked_queue request receive_request db = do
    queue ← load_queue_from_url parse_url request.region db receive_request.queue_url
    validate_receive_request receive_request
    ok queue

  abbrev pub deadline_of : ℕ → ReceiveMessageRequest → SqsQueue → ℕ
  deadline_of now receive_request queue =
      now
      + seconds
          (or_queue_value receive_request.wait_time_seconds queue.receive_message_wait_time_seconds)

  abbrev pub poll_queue :
      ℕ
      → ℕ
      → Db
      → ReceiveMessageRequest
      → Result SqsQueue SqsError
      → Option (Outcome (List ReceivedMessage))
  poll_queue fuel now db receive_request (err e) = some (err e, db)
  poll_queue fuel now db receive_request (ok queue) =
      poll parse_attributes decode_base64 md5 max_time world queue.id
        (or_queue_value receive_request.visibility_timeout queue.visibility_timeout_seconds)
        (deadline_of now receive_request queue) receive_request fuel 0 db

  unfoldable pub handle_receive_message :
      ResolvedRequest → ℕ → ℕ → Db → ReceiveMessageRequest → Option (Outcome (List ReceivedMessage))
  unfolding load_queue_from_url validate_receive_request poll
  handle_receive_message request fuel now db receive_request =
      poll_queue fuel now db receive_request (checked_queue request receive_request db)
