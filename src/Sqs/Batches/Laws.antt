-- ===== src/Sqs/Batches/Laws.antt =====
-- What hiraeth_sqs/src/actions/send_message_batch.rs reports and stores.
use hiraeth.Common.{
  ℕ, suc, ◌+◌, String, List, [], ◌∷◌, Option, Result, ok, err, ◌≡◌, refl, inl, inr, arith, any,
  Bool-cases, ◌==◌, ◌++◌, map, ap, sym, ◌∙◌, Yields, step, done,
}
use mathlib.Core.List.{append-nil, append_assoc, map-append}
use hiraeth.Core.Request.{Map, ResolvedRequest}
use hiraeth.Sqlite.Sqs.{Db, has_queue, send_message}
use hiraeth.Sqs.Batches.{
  SendMessageBatchEntry, SendMessageBatchResponse, SendMessageBatchResultEntry, prepare_entry,
  record_sent, send_entries, send_entry,
}
use hiraeth.Sqs.Error.{SqsError, internal}
use hiraeth.Sqs.Messages.{Outcome, and_then, non_empty, persist, transpose}
use hiraeth.Sqs.Digest.{calculate_message_attributes_md5, serialize_message_attributes}
use hiraeth.Sqs.Util.{
  MessageAttributeValue, extract_aws_trace_header, resolve_delay_seconds, validate_message_body,
}
use hiraeth.Sqs.Messages.Batch.{count}
use hiraeth.Store.Sqs.{SqsMessage, SqsQueue}
use hiraeth.Store.{StoreError}

-- the ids of the messages in the tables
abbrev pub message_ids : Db → List String
message_ids db = map (λ row. row.message.message_id) db.messages

-- one message more after a success, under the id that is answered, and the same ones after a failure
abbrev Grows : {A E : Type 0} → (A → String) → Db → Result A E × Db → Type 0
Grows id db (ok a, after) = message_ids after ≡ message_ids db ++ id a ∷ []
Grows id db (err _, after) = message_ids after ≡ message_ids db

-- how often a response reports an id of an entry, as sent or as failed
abbrev pub reports : SendMessageBatchResponse → String → ℕ
reports response key =
    count (λ s. s.id) key response.successful + count (λ f. f.id) key response.failed

module _ (unique_message foreign_key_message : String)
    (parse_url : String → Option (String × List String))
    (to_json : Map MessageAttributeValue → Result String String)
    (decode_base64 : String → Result (List ℕ) String) (md5 : List ℕ → String) where
  send_message-Grows :
      (message : SqsMessage) (db : Db)
      → Grows
          (λ u. message.message_id)
          db
          (send_message unique_message foreign_key_message message db)
  unfolding send_message
  send_message-Grows message db =
      elim (Bool-cases (any (λ row. row.message_id == message.message_id) db.messages)) [
        | inl e ↦ rw e refl
        | inr e ↦ elim (Bool-cases (has_queue message.queue_id db.queues)) [
          | inl q ↦ rw (e, q) (map-append (λ row. row.message.message_id) db.messages _)
          | inr q ↦ rw (e, q) refl
        ]
      ]

  persist-Grows :
      {A B : Type 0} (id : B → String) (response : B) (db : Db) (r : Result A StoreError × Db)
      → Grows (λ a. id response) db r
      → Grows id db (persist internal response r)
  persist-Grows id response db (ok a, after) g = g
  persist-Grows id response db (err e, after) g = g

  -- what an entry is prepared to: a message, and an answer with its id and that of the entry
  abbrev Prepared : SendMessageBatchEntry → SqsMessage × SendMessageBatchResultEntry → Type 0
  Prepared entry (message, sent) = (sent.message_id ≡ message.message_id) × (sent.id ≡ entry.id)

  prepare_entry-Prepared :
      (request : ResolvedRequest) (queue : SqsQueue) (uuid : String) (entry : SendMessageBatchEntry)
      → Yields (Prepared entry) (
          prepare_entry unique_message foreign_key_message parse_url to_json decode_base64 md5
            request queue uuid entry)
  unfolding prepare_entry
  prepare_entry-Prepared request queue uuid entry =
      let P = Prepared entry in
      step P (resolve_delay_seconds entry.delay_seconds queue.delay_seconds) (λ _ _.
        step P (validate_message_body entry.message_body queue.maximum_message_size) (λ _ _.
          step P (transpose (serialize_message_attributes to_json) entry.message_attributes) (λ _ _.
            step P
              (transpose (calculate_message_attributes_md5 decode_base64 md5)
                (non_empty entry.message_attributes))
              (λ _ _. step P (extract_aws_trace_header entry.message_system_attributes) (λ _ _.
                step P
                  (transpose (calculate_message_attributes_md5 decode_base64 md5)
                    (non_empty entry.message_system_attributes))
                  (λ _ _. done P _ (refl, refl)))))))

  abbrev Answered : SendMessageBatchEntry → Db → Outcome SendMessageBatchResultEntry → Type 0
  Answered entry db (ok sent, after) =
      (message_ids after ≡ message_ids db ++ sent.message_id ∷ []) × (sent.id ≡ entry.id)
  Answered entry db (err _, after) = message_ids after ≡ message_ids db

  send_entry-Answered :
      (request : ResolvedRequest) (queue : SqsQueue) (uuid : String) (entry : SendMessageBatchEntry)
      (db : Db)
      → Answered entry db (
          send_entry unique_message foreign_key_message parse_url to_json decode_base64 md5 request
            queue uuid entry db)
  unfolding send_entry
  send_entry-Answered request queue uuid entry db =
      go
        (prepare_entry unique_message foreign_key_message parse_url to_json decode_base64 md5
          request queue uuid entry)
        (prepare_entry-Prepared request queue uuid entry)
    where
      stored :
          (message : SqsMessage) (sent : SendMessageBatchResultEntry)
          (r : Result Unit StoreError × Db)
          → Prepared entry (message, sent)
          → Grows (λ u. message.message_id) db r
          → Answered entry db (persist internal sent r)
      stored message sent (ok a, after) (same, mine) g = (rw same g, mine)
      stored message sent (err e, after) p g = g

      go :
          (r : Result (SqsMessage × SendMessageBatchResultEntry) SqsError)
          → Yields (Prepared entry) r
          → Answered entry db (
              and_then db r (λ (message, sent).
                persist internal sent (send_message unique_message foreign_key_message message db)))
      go (err e) y = refl
      go (ok (message, sent)) y =
          stored message sent (send_message unique_message foreign_key_message message db)
            (y (message, sent) refl) (send_message-Grows message db)

  abbrev Complete : List SendMessageBatchEntry → Db → SendMessageBatchResponse × Db → Type 0
  Complete entries db (response, after) =
      ((key : String) → reports response key ≡ count (λ e. e.id) key entries)
      × (message_ids after ≡ message_ids db ++ map (λ s. s.message_id) response.successful)

  record_sent-Complete :
      (entry : SendMessageBatchEntry) (rest : List SendMessageBatchEntry) (db : Db)
      (r : Outcome SendMessageBatchResultEntry) (tail : SendMessageBatchResponse × Db)
      → Answered entry db r
      → Complete rest r.1 tail
      → Complete (entry ∷ rest) db (record_sent entry.id r.0 tail.0, tail.1)
  record_sent-Complete entry rest db (ok sent, mid) (response, last) (g, mine) (c, m) = (
    λ key. let k = c key in let same = ap (λ i. i == key) mine in ground arith,
    m
        ∙ ap (λ ids. ids ++ map (λ s. s.message_id) response.successful) g
        ∙ append_assoc (message_ids db) (sent.message_id ∷ []) _,
  )
  record_sent-Complete entry rest db (err e, mid) (response, last) g (c, m) = (
    λ key. let k = c key in ground arith,
    m ∙ ap (λ ids. ids ++ map (λ s. s.message_id) response.successful) g,
  )

  send_entries-Complete :
      (request : ResolvedRequest) (queue : SqsQueue) (uuids : ℕ → String) (n : ℕ)
      (entries : List SendMessageBatchEntry) (db : Db)
      → Complete entries db (
          send_entries unique_message foreign_key_message parse_url to_json decode_base64 md5
            request queue uuids n entries db)
  unfolding send_entries
  send_entries-Complete request queue uuids n [] db = (λ key. refl, sym (append-nil _))
  send_entries-Complete request queue uuids n (entry ∷ entries) db =
      let sent =
        send_entry unique_message foreign_key_message parse_url to_json decode_base64 md5 request
          queue (uuids n) entry db in
      record_sent-Complete entry entries db sent
        (send_entries unique_message foreign_key_message parse_url to_json decode_base64 md5 request
          queue uuids (suc n) entries sent.1)
        (send_entry-Answered request queue (uuids n) entry db)
        (send_entries-Complete request queue uuids (suc n) entries sent.1)

  -- A batch reports each id, as sent or as failed, as often as the entries have it, and the messages
  -- that it adds to the tables are those whose ids it reports as sent, in that order.
  pub send_entries_complete :
      (request : ResolvedRequest) (queue : SqsQueue) (uuids : ℕ → String) (n : ℕ)
      (entries : List SendMessageBatchEntry) (db : Db) (response : SendMessageBatchResponse)
      (after : Db)
      → send_entries unique_message foreign_key_message parse_url to_json decode_base64 md5 request
          queue uuids n entries db
        ≡ (response, after)
      → ((key : String) → reports response key ≡ count (λ e. e.id) key entries)
        × (message_ids after ≡ message_ids db ++ map (λ s. s.message_id) response.successful)
  send_entries_complete request queue uuids n entries db response after h =
      rw h at (send_entries-Complete request queue uuids n entries db)
