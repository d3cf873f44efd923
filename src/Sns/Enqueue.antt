-- ===== src/Sns/Enqueue.antt =====
-- What a delivery from another service adds to the tables (hiraeth_sqs/src/operations.rs).
use hiraeth.Common.{
  ℕ, String, List, [], ◌∷◌, ◌++◌, Option, none, ◌==◌, any, ◌≡◌, refl, ap, ◌⊎◌, inl, inr, Bool-cases,
  Result, ok, err, Yields, step, done,
}
use hiraeth.Core.Request.{Map}
use hiraeth.Sqlite.Sqs.{Db, MessageRow, has_queue, send_message}
use hiraeth.Sqs.Batches.{enqueue_message, prepare_enqueued}
use hiraeth.Sqs.Messages.{and_then, persist, transpose}
use hiraeth.Sqs.Digest.{serialize_message_attributes}
use hiraeth.Sqs.Error.{SqsError, internal}
use hiraeth.Sqs.Util.{
  MessageAttributeValue, extract_aws_trace_header, resolve_delay_seconds, validate_message_body,
}
use hiraeth.Store.Sqs.{SqsMessage, SqsQueue}
use hiraeth.Store.{StoreError}
use mathlib.Core.List.{Memᴰ}
use mathlib.Core.List.Memᴰ

mem-last :
    {A : Type 0} → (xs : List A) (y : A) {x : A} → Memᴰ x (xs ++ y ∷ []) → Memᴰ x xs ⊎ (x ≡ y)
mem-last [] y (Memᴰ.head e) = inr e
mem-last [] y (Memᴰ.tail m) = absurd (Memᴰ.not-nil m)
mem-last (z ∷ xs) y (Memᴰ.head e) = inl (Memᴰ.head e)
mem-last (z ∷ xs) y (Memᴰ.tail m) = elim (mem-last xs y m) [
  | inl k ↦ inl (Memᴰ.tail k)
  | inr e ↦ inr e
]

-- The queues are as before, and every message is one from before or in the queue.
abbrev pub Adds : ℕ → Db → Db → Type 0
Adds queue_id before after =
    (after.queues ≡ before.queues)
    × ((row : MessageRow)
        → Memᴰ row after.messages
        → Memᴰ row before.messages ⊎ (row.message.queue_id ≡ queue_id))

same-Adds : (queue_id : ℕ) (db : Db) → Adds queue_id db db
same-Adds queue_id db = (refl, λ row m. inl m)

send_message-Adds :
    (unique_message foreign_key_message : String) (message : SqsMessage) (db : Db)
    → Adds message.queue_id db (send_message unique_message foreign_key_message message db).1
unfolding send_message
send_message-Adds u f message db =
    elim (Bool-cases (any (λ row. row.message.message_id == message.message_id) db.messages)) [
      | inl e ↦ rw e (same-Adds message.queue_id db)
      | inr e ↦ elim (Bool-cases (has_queue message.queue_id db.queues)) [
        | inr q ↦ rw (e, q) (same-Adds message.queue_id db)
        | inl q ↦
            rw (e, q)
              (
                refl,
                λ row m. elim (mem-last db.messages _ m) [
                  | inl k ↦ inl k
                  | inr same ↦ inr (ap (λ r. r.message.queue_id) same)
                ],
              )
      ]
    ]

persist-1 :
    {A B : Type 0}
    → (to_error : StoreError → SqsError) (response : B) (r : Result A StoreError × Db)
    → (persist to_error response r).1 ≡ r.1
persist-1 to_error response (ok a, after) = refl
persist-1 to_error response (err e, after) = refl

module _ (unique_message foreign_key_message : String)
    (parse_url : String → Option (String × List String))
    (to_json : Map MessageAttributeValue → Result String String)
    (decode_base64 : String → Result (List ℕ) String) (md5 : List ℕ → String) where
  prepare_enqueued-queue_id :
      (queue : SqsQueue) (uuid body : String)
      (attributes system_attributes : Option (Map MessageAttributeValue))
      (group_id deduplication_id : Option String) (date : ℕ)
      → Yields
          (λ message. message.queue_id ≡ queue.id)
          (prepare_enqueued unique_message foreign_key_message parse_url to_json decode_base64 md5
            queue uuid body attributes system_attributes group_id deduplication_id date)
  unfolding prepare_enqueued
  prepare_enqueued-queue_id queue uuid body attributes system_attributes group_id dedup date =
      let P : SqsMessage → Type 0 = λ message. message.queue_id ≡ queue.id in
      step P (validate_message_body body queue.maximum_message_size) (λ _ _.
        step P (resolve_delay_seconds none queue.delay_seconds) (λ _ _.
          step P (transpose (serialize_message_attributes to_json) attributes)
            (λ _ _. step P (extract_aws_trace_header system_attributes) (λ _ _. done P _ refl))))

  pub enqueue_message-Adds :
      (queue : SqsQueue) (uuid body : String) (date : ℕ) (db : Db)
      → Adds queue.id db
          (enqueue_message unique_message foreign_key_message parse_url to_json decode_base64 md5
            queue uuid body none none none none date db).1
  unfolding enqueue_message
  enqueue_message-Adds queue uuid body date db =
      go
        (prepare_enqueued unique_message foreign_key_message parse_url to_json decode_base64 md5
          queue uuid body none none none none date)
        (prepare_enqueued-queue_id queue uuid body none none none none date)
    where
      go :
          (r : Result SqsMessage SqsError)
          → Yields (λ message. message.queue_id ≡ queue.id) r
          → Adds queue.id db
              (and_then db r (λ message.
                persist internal uuid
                  (send_message unique_message foreign_key_message message db))).1
      go (err e) y = same-Adds queue.id db
      go (ok message) y =
          rw
            (
              persist-1 internal uuid (send_message unique_message foreign_key_message message db),
              ← y message refl,
            )
            (send_message-Adds unique_message foreign_key_message message db)
