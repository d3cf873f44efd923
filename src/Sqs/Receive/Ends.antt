-- ===== src/Sqs/Receive/Ends.antt =====
-- The long poll of hiraeth_sqs/src/actions/receive_message.rs ends, and what it answers.
use hiraeth.Common.{
  ℕ, suc, ◌+◌, ◌*◌, ◌≤◌, String, true, false, List, [], ◌∷◌, Option, none, some, leb, Result, ok,
  err, in_range, not, Bool, ok_or, reject, ok_or-eq-ok, not-eq-false, ◌≡◌, ◌⊎◌, inl, inr, refl,
  Bool-cases, arith, All, step, done, Yields, reject-eq-ok, find,
}
use Prim.Native.Nat.{zero}
use hiraeth.Core.Request.{Map, ResolvedRequest}
use hiraeth.Sqlite.Sqs.{Db, get_queue}
use hiraeth.Sqs.Create.Limits.{InLimits}
use hiraeth.Sqs.Error.{SqsError, bad_request}
use hiraeth.Sqs.Messages.{Outcome}
use hiraeth.Sqs.Receive.Poll.{
  Attempt, answer, checked_queue, deadline_of, handle_receive_message, or_queue_value, poll,
  poll_queue, sleep_for,
}
use hiraeth.Sqs.Receive.{ReceiveMessageRequest, ReceivedMessage, above, validate_receive_request}
use hiraeth.Sqs.Util.{MessageAttributeValue, load_queue_from_url, parse_queue_url}
use hiraeth.Store.Sqs.{SqsQueue}

-- The clock does not run backwards, from the reading that the deadline counts from.
pub record IsSteady (world : ℕ → Attempt) (now : ℕ) : Type 0 where
  pub from_start : now ≤ (world 0).selected_at
  pub to_check : (i : ℕ) → (world i).selected_at ≤ (world i).checked_at
  pub to_read : (i : ℕ) → (world i).checked_at ≤ (world i).read_at
  pub to_sleep : (i : ℕ) → (world i).read_at ≤ (world i).slept_from

-- A sleep lasts at least as long as it was asked to, by the clock.
abbrev pub SleepsFully : (ℕ → Attempt) → ℕ → Type 0
SleepsFully world deadline =
    (i : ℕ) → (world i).slept_from + sleep_for deadline (world i) ≤ (world (suc i)).selected_at

-- An attempt that begins not long before the deadline is followed by one that begins 100 milliseconds
-- nearer to it.
next_attempt :
    (world : ℕ → Attempt) (now deadline i left : ℕ)
    → IsSteady world now
    → SleepsFully world deadline
    → deadline ≤ (world i).selected_at + 100_000_000 + left
    → deadline ≤ (world (suc i)).selected_at + left
next_attempt world now deadline i left steady sleeps h =
    omega (arith, steady.to_check i, steady.to_read i, steady.to_sleep i, sleeps i)

-- There is an answer.
abbrev pub Answers : {A : Type 0} → Option A → Type 0
Answers {A} o = (a : A) × (o ≡ some a)

module _ (parse_attributes : String → Result (Map MessageAttributeValue) String)
    (decode_base64 : String → Result (List ℕ) String) (md5 : List ℕ → String) (max_time : ℕ)
    (world : ℕ → Attempt) where
  module _ (queue_id visibility_timeout_seconds deadline : ℕ)
      (request : ReceiveMessageRequest) where
    answer-Answers :
        (checked : ℕ) (after : Db) (rest : Option (Outcome (List ReceivedMessage)))
        (found : Result (List ReceivedMessage) SqsError)
        → (deadline ≤ checked) ⊎ Answers rest
        → Answers (
            answer parse_attributes decode_base64 md5 max_time world queue_id
              visibility_timeout_seconds deadline request checked after rest found)
    answer-Answers checked after rest (err e) h = (_, refl)
    answer-Answers checked after rest (ok (m ∷ ms)) h = (_, refl)
    answer-Answers checked after rest (ok []) (inl h) =
        let late : leb deadline checked ≡ true = ground arith in rw late (_, refl)
    answer-Answers checked after rest (ok []) (inr (a, e)) =
        elim (Bool-cases (leb deadline checked)) [
          | inl late ↦ rw late (_, refl)
          | inr early ↦ rw early (a, e)
        ]

    poll-Answers :
        (fuel now i : ℕ) (db : Db)
        → IsSteady world now
        → SleepsFully world deadline
        → deadline ≤ (world i).selected_at + fuel * 100_000_000
        → Answers (
            poll parse_attributes decode_base64 md5 max_time world queue_id
              visibility_timeout_seconds deadline request
              (suc fuel)
              i
              db)
    unfolding poll
    poll-Answers zero now i db steady sleeps h =
        answer-Answers _ _ _ _ (inl (omega (arith, steady.to_check i)))
    poll-Answers (suc fuel) now i db steady sleeps h = answer-Answers _ _ _ _ (
        inr (
          poll-Answers fuel now (suc i) _ steady sleeps
            (next_attempt world now deadline i (fuel * 100_000_000) steady sleeps (omega arith))))

found-All :
    {A : Type 0} (P : A → Type 0) (test : A → Bool) (xs : List A) (x : A)
    → All P xs
    → find test xs ≡ some x
    → P x
found-All P test [] x h e = absurd (cc e)
found-All P test (y ∷ ys) x (p, h) e = elim (Bool-cases (test y)) [
  | inl t ↦ let same : y ≡ x = cc (rw t at e) in rw (← same) p
  | inr t ↦ found-All P test ys x h (rw t at e)
]

-- A request that passed: a stored queue, and numbers within the limits of SQS.
abbrev pub Passed : ReceiveMessageRequest → SqsQueue → Type 0
Passed request queue =
    InLimits queue
    × (above 20 request.wait_time_seconds ≡ false)
    × (in_range 1 10 request.max_number_of_messages ≡ true)

module _ (parse_url : String → Option (String × List String))
    (parse_attributes : String → Result (Map MessageAttributeValue) String)
    (decode_base64 : String → Result (List ℕ) String) (md5 : List ℕ → String) (max_time : ℕ)
    (world : ℕ → Attempt) where
  load_queue_from_url-InLimits :
      (region queue_url : String) (db : Db)
      → All InLimits db.queues
      → Yields InLimits (load_queue_from_url parse_url region db queue_url)
  unfolding load_queue_from_url get_queue
  load_queue_from_url-InLimits region queue_url db h =
      step InLimits
        (ok_or (bad_request "Invalid queue url") (parse_queue_url parse_url queue_url region))
        (λ id _. λ queue e. found-All InLimits _ db.queues queue h (ok_or-eq-ok _ _ e))

  validate_receive_request-passes :
      (request : ReceiveMessageRequest) (u : Unit)
      → validate_receive_request request ≡ ok u
      → (above 20 request.wait_time_seconds ≡ false)
        × (in_range 1 10 request.max_number_of_messages ≡ true)
  unfolding validate_receive_request
  validate_receive_request-passes request =
      let P : Unit → Type 0 = λ _.
        (above 20 request.wait_time_seconds ≡ false)
        × (in_range 1 10 request.max_number_of_messages ≡ true) in
      step P (reject (not (in_range 1 10 request.max_number_of_messages)) _) (λ _ e.
        step P (reject (above 43200 request.visibility_timeout) _)
          (λ _ _. λ u f. (reject-eq-ok _ _ f, not-eq-false _ (reject-eq-ok _ _ e))))

  pub checked_queue-Passed :
      (request : ResolvedRequest) (receive_request : ReceiveMessageRequest) (db : Db)
      → All InLimits db.queues
      → Yields (Passed receive_request) (
          checked_queue parse_url parse_attributes decode_base64 md5 max_time world request
            receive_request db)
  checked_queue-Passed request receive_request db h =
      let P = Passed receive_request in
      step P (load_queue_from_url parse_url request.region db receive_request.queue_url) (λ queue e.
        step P (validate_receive_request receive_request) (λ u f.
          let (w, m) = validate_receive_request-passes receive_request u f in
          done P queue (
            load_queue_from_url-InLimits request.region receive_request.queue_url db h queue e,
            w,
            m,
          )))

  wait_bound :
      (asked : Option ℕ) (value : ℕ)
      → above 20 asked ≡ false
      → value ≤ 20
      → or_queue_value parse_url parse_attributes decode_base64 md5 max_time world asked value ≤ 20
  wait_bound none value h k = omega arith
  wait_bound (some n) value h k = ground arith

  poll_queue-Answers :
      (now : ℕ) (db : Db) (receive_request : ReceiveMessageRequest)
      (checked : Result SqsQueue SqsError)
      → IsSteady world now
      → ((queue : SqsQueue)
          → checked ≡ ok queue
          → SleepsFully world (
              deadline_of parse_url parse_attributes decode_base64 md5 max_time world now
                receive_request queue))
      → Yields (Passed receive_request) checked
      → Answers (
          poll_queue parse_url parse_attributes decode_base64 md5 max_time world 201 now db
            receive_request checked)
  poll_queue-Answers now db receive_request (err e) steady sleeps passed = (_, refl)
  poll_queue-Answers now db receive_request (ok queue) steady sleeps passed =
      let (limits, short, _) = passed queue refl in
      let bound =
        wait_bound receive_request.wait_time_seconds queue.receive_message_wait_time_seconds short
          limits.wait_limit in
      poll-Answers parse_attributes decode_base64 md5 max_time world queue.id _ _ receive_request
        200 now 0 db steady (sleeps queue refl) (omega (arith, bound, steady.from_start))

  -- While every stored queue is within the limits of SQS, the clock does not run backwards and no sleep
  -- ends early, a receive request is answered within 201 attempts, whatever happens to the tables
  -- meanwhile.
  pub handle_receive_message-Answers :
      (request : ResolvedRequest) (now : ℕ) (db : Db) (receive_request : ReceiveMessageRequest)
      → All InLimits db.queues
      → IsSteady world now
      → ((queue : SqsQueue)
          → checked_queue parse_url parse_attributes decode_base64 md5 max_time world request
              receive_request db
            ≡ ok queue
          → SleepsFully world (
              deadline_of parse_url parse_attributes decode_base64 md5 max_time world now
                receive_request queue))
      → Answers (
          handle_receive_message parse_url parse_attributes decode_base64 md5 max_time world request
            201 now db receive_request)
  unfolding handle_receive_message
  handle_receive_message-Answers request now db receive_request h steady sleeps =
      poll_queue-Answers now db receive_request
        (checked_queue parse_url parse_attributes decode_base64 md5 max_time world request
          receive_request db)
        steady sleeps (checked_queue-Passed request receive_request db h)
