-- ===== src/Sqs/Receive/Size.antt =====
-- How many messages the receive request of hiraeth_sqs/src/actions/receive_message.rs delivers.
use hiraeth.Common.{
  ℕ, suc, ◌≤◌, String, List, [], ◌∷◌, Option, some, leb, Result, ok, err, map_err, map_err-eq-ok,
  ◌>>=◌, ◌≡◌, inl, inr, refl, ap, Bool-cases, arith, step, done, Yields, length, pos,
}
use Prim.Native.Nat.{zero}
use hiraeth.Core.Request.{Map, ResolvedRequest}
use hiraeth.Sqlite.Sqs.Receive.{receive_messages}
use hiraeth.Sqlite.Sqs.Receive.Delivery.{receive_messages-IsValid, receive_messages-length}
use hiraeth.Sqlite.Sqs.Valid.{IsValid}
use hiraeth.Sqlite.Sqs.{Db}
use hiraeth.Sqs.Error.{SqsError, internal}
use hiraeth.Sqs.Messages.{Outcome}
use hiraeth.Sqs.Receive.Poll.{Attempt, answer, handle_receive_message, poll, poll_queue}
use hiraeth.Sqs.Receive.{
  ReceiveMessageRequest, ReceivedMessage, received_message, received_messages,
}
use hiraeth.Sqs.Util.{MessageAttributeValue}
use hiraeth.Store.Sqs.{SqsMessage, SqsQueue}

-- Nothing that happens during a sleep breaks the keys of the tables.
abbrev pub KeepsValid : (ℕ → Attempt) → Type 0
KeepsValid world =
    (i duration : ℕ) (db : Db) → IsValid db → IsValid ((world i).interleaved duration db)

module _ (parse_attributes : String → Result (Map MessageAttributeValue) String)
    (decode_base64 : String → Result (List ℕ) String) (md5 : List ℕ → String) (max_time : ℕ)
    (world : ℕ → Attempt) (kept : KeepsValid world) (n : ℕ) where
  abbrev Few : List ReceivedMessage → Type 0
  Few rs = length rs ≤ n

  received_messages-length :
      (request : ReceiveMessageRequest) (ms : List SqsMessage) (rs : List ReceivedMessage)
      → received_messages parse_attributes decode_base64 md5 request ms ≡ ok rs
      → length rs ≡ length ms
  unfolding received_messages
  received_messages-length request [] rs h = let none_left : [] ≡ rs = cc h in rw (← none_left) refl
  received_messages-length request (m ∷ ms) rs h =
      let P : List ReceivedMessage → Type 0 = λ rs. length rs ≡ suc (length ms) in
      step P (received_message parse_attributes decode_base64 md5 request m)
        (λ r _.
          step P (received_messages parse_attributes decode_base64 md5 request ms) (λ rest e.
            done P (r ∷ rest) (omega (arith, received_messages-length request ms rest e))))
        rs h

  module _ (queue_id timeout deadline : ℕ) (request : ReceiveMessageRequest)
      (asked : request.max_number_of_messages ≡ pos n) where
    delivered-Few :
        (i now later : ℕ) (db : Db)
        → IsValid db
        → Yields Few (do
          ms ←
              map_err internal
                (receive_messages
                  (world i).faults
                  max_time
                  now
                  later
                  (world i).random
                  queue_id
                  request.max_number_of_messages
                  timeout
                  db).0
          received_messages parse_attributes decode_base64 md5 request ms)
    delivered-Few i now later db v =
        let outcome =
          receive_messages (world i).faults max_time now later (world i).random queue_id
            request.max_number_of_messages timeout db in
        step Few (map_err internal outcome.0) (λ ms e rs f. omega (
          arith,
          received_messages-length request ms rs f,
          receive_messages-length (world i).faults max_time now later (world i).random queue_id
              request.max_number_of_messages timeout db n ms outcome.1 v asked
              (ap (λ r. (r, outcome.1)) (map_err-eq-ok internal outcome.0 e)),
        ))

    answer-Few :
        (checked : ℕ) (after : Db) (rest : Option (Outcome (List ReceivedMessage)))
        (found : Result (List ReceivedMessage) SqsError) (rs : List ReceivedMessage) (last : Db)
        → Yields Few found
        → (rest ≡ some (ok rs, last) → Few rs)
        → answer parse_attributes decode_base64 md5 max_time world queue_id timeout deadline request
            checked after rest found
          ≡ some (ok rs, last)
        → Few rs
    answer-Few checked after rest (err e) rs last f g h = absurd (cc h)
    answer-Few checked after rest (ok (m ∷ ms)) rs last f g h = f rs (cc h)
    answer-Few checked after rest (ok []) rs last f g h = elim (Bool-cases (leb deadline checked)) [
      | inl late ↦ f rs (cc (rw late at h))
      | inr early ↦ g (rw early at h)
    ]

    poll-Few :
        (fuel i : ℕ) (db : Db) (rs : List ReceivedMessage) (last : Db)
        → IsValid db
        → poll parse_attributes decode_base64 md5 max_time world queue_id timeout deadline request
            fuel i db
          ≡ some (ok rs, last)
        → Few rs
    unfolding poll
    poll-Few zero i db rs last v h = absurd (cc h)
    poll-Few (suc fuel) i db rs last v h =
        answer-Few _ _ _ _ rs last (delivered-Few i (world i).selected_at (world i).leased_at db v)
          (poll-Few fuel (suc i) _ rs last
            (kept i _ _ (receive_messages-IsValid _ _ _ _ _ _ _ _ _ v)))
          h

module _ (parse_url : String → Option (String × List String))
    (parse_attributes : String → Result (Map MessageAttributeValue) String)
    (decode_base64 : String → Result (List ℕ) String) (md5 : List ℕ → String) (max_time : ℕ)
    (world : ℕ → Attempt) where
  poll_queue-Few :
      (fuel now : ℕ) (db : Db) (receive_request : ReceiveMessageRequest)
      (checked : Result SqsQueue SqsError) (n : ℕ) (rs : List ReceivedMessage) (last : Db)
      → KeepsValid world
      → IsValid db
      → receive_request.max_number_of_messages ≡ pos n
      → poll_queue parse_url parse_attributes decode_base64 md5 max_time world fuel now db
          receive_request checked
        ≡ some (ok rs, last)
      → length rs ≤ n
  poll_queue-Few fuel now db receive_request (err e) n rs last k v asked h = absurd (cc h)
  poll_queue-Few fuel now db receive_request (ok queue) n rs last k v asked h =
      poll-Few parse_attributes decode_base64 md5 max_time world k n queue.id _ _ receive_request
        asked fuel 0 db rs last v h

  -- A receive request on a valid store is answered with no more messages than it asks for, over all
  -- its attempts, when what happens during its sleeps keeps the store valid.
  pub handle_receive_message-length :
      (request : ResolvedRequest) (fuel now : ℕ) (db : Db) (receive_request : ReceiveMessageRequest)
      (n : ℕ) (rs : List ReceivedMessage) (last : Db)
      → KeepsValid world
      → IsValid db
      → receive_request.max_number_of_messages ≡ pos n
      → handle_receive_message parse_url parse_attributes decode_base64 md5 max_time world request
          fuel now db receive_request
        ≡ some (ok rs, last)
      → length rs ≤ n
  unfolding handle_receive_message
  handle_receive_message-length request fuel now db receive_request n rs last =
      poll_queue-Few fuel now db receive_request _ n rs last
