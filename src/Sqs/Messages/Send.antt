-- ===== src/Sqs/Messages/Send.antt =====
-- What `handle_send_message_typed` of hiraeth_sqs/src/actions/send_message.rs stores.
use hiraeth.Common.{
  as_bytes, ℕ, ◌+◌, ◌≤◌, String, true, List, [], ◌∷◌, ◌++◌, Option, none, some, ◌≡◌, refl, sym, ap,
  inl, inr, arith, Bool-cases, any, ◌==◌, step, done, Yields, Result, ok, err,
}
use hiraeth.Core.Request.{Map, ResolvedRequest}
use hiraeth.Sqlite.Sqs.{Db, MessageRow, has_queue, send_message, stored_attributes}
use hiraeth.Sqs.Attributes.{unwrap_or}
use hiraeth.Sqs.Digest.{calculate_message_attributes_md5, serialize_message_attributes}
use hiraeth.Sqs.Error.{SqsError, internal}
use hiraeth.Sqs.Messages.{
  Outcome, SendMessageRequest, SendMessageResponse, and_then, transpose, non_empty,
  handle_send_message, persist, prepare_message,
}
use hiraeth.Sqs.Util.Laws.{
  resolve_delay_seconds_iff, validate_message_body_iff, EveryChar, IsAllowed,
}
use hiraeth.Sqs.Util.{
  MessageAttributeValue, load_queue_from_url, validate_message_body, resolve_delay_seconds,
  extract_aws_trace_header,
}
use hiraeth.Store.Sqs.{SqsMessage, seconds}
use hiraeth.Store.{StoreError}

-- what the tables are after an operation that fails: as they were
abbrev Unchanged : {A E : Type 0} → Db → Result A E × Db → Type 0
Unchanged {A} {E} db outcome = (e : E) → outcome.0 ≡ err e → outcome.1 ≡ db

send_message-Unchanged :
    (unique_message foreign_key_message : String) (message : SqsMessage) (db : Db)
    → Unchanged db (send_message unique_message foreign_key_message message db)
unfolding send_message
send_message-Unchanged u f message db x h =
    elim (Bool-cases (any (λ row. row.message_id == message.message_id) db.messages)) [
      | inl e ↦ rw e refl
      | inr e ↦ elim (Bool-cases (has_queue message.queue_id db.queues)) [
        | inl q ↦ absurd (cc (rw (e, q) at h))
        | inr q ↦ rw (e, q) refl
      ]
    ]

persist-Unchanged :
    {A B : Type 0}
    → (to_error : StoreError → SqsError) (response : B) (db : Db) (r : Result A StoreError × Db)
    → Unchanged db r
    → Unchanged db (persist to_error response r)
persist-Unchanged to_error response db (ok a, after) u x h = absurd (cc h)
persist-Unchanged to_error response db (err e, after) u x h = u e refl

and_then-Unchanged :
    {A B : Type 0}
    → (db : Db) (r : Result A SqsError) (run : A → Outcome B) → ((a : A) → Unchanged db (run a))
    → Unchanged db (and_then db r run)
and_then-Unchanged db (ok a) run u x h = u a x h
and_then-Unchanged db (err e) run u x h = refl

and_then-ok :
    {A B : Type 0}
    → (db db' : Db) (r : Result A SqsError) (run : A → Outcome B) (b : B)
    → and_then db r run ≡ (ok b, db')
    → (a : A) × (r ≡ ok a) × (run a ≡ (ok b, db'))
and_then-ok db db' (ok a) run b h = (a, refl, h)
and_then-ok db db' (err e) run b h = absurd (cc h)

persist-ok :
    {A B : Type 0}
    → (to_error : StoreError → SqsError) (response b : B) (db' : Db) (r : Result A StoreError × Db)
    → persist to_error response r ≡ (ok b, db')
    → (a : A) × (r ≡ (ok a, db')) × (response ≡ b)
persist-ok to_error response b db' (ok a, after) h =
    (a, ap (λ d. (ok a, d)) (ap (λ x. x.1) h), cc h)
persist-ok to_error response b db' (err e, after) h = absurd (cc h)

-- The tables with one more message: every column but that of the attributes as given, which the store
-- fills in when there are none.
abbrev pub IsAppended : SqsMessage → Db → Db → Type 0
IsAppended message db db' =
    (row : MessageRow) × (db' ≡ record db { messages = db.messages ++ row ∷ [] })
    × (row.message ≡ record message { message_attributes = row.message.message_attributes })
    × (row.message.message_attributes ≡ some (unwrap_or "{}" message.message_attributes))
    × (has_queue message.queue_id db.queues ≡ true)

send_message-IsAppended :
    (unique_message foreign_key_message : String) (message : SqsMessage) (db db' : Db)
    → send_message unique_message foreign_key_message message db ≡ (ok tt, db')
    → IsAppended message db db'
unfolding send_message
send_message-IsAppended u f message db db' h =
    elim (Bool-cases (any (λ row. row.message_id == message.message_id) db.messages)) [
      | inl e ↦ absurd (cc (rw e at h))
      | inr e ↦ elim (Bool-cases (has_queue message.queue_id db.queues)) [
        | inr q ↦ absurd (cc (rw (e, q) at h))
        | inl q ↦
            (_, sym (ap (λ r. r.1) (rw (e, q) at h)), refl, filled message.message_attributes, q)
      ]
    ]
  where
    filled :
        (attributes : Option String)
        → stored_attributes attributes ≡ some (unwrap_or "{}" attributes)
    filled none = refl
    filled (some text) = refl

module _ (unique_message foreign_key_message : String)
    (parse_url : String → Option (String × List String))
    (to_json : Map MessageAttributeValue → Result String String)
    (decode_base64 : String → Result (List ℕ) String) (md5 : List ℕ → String) where
  abbrev send : ResolvedRequest → String → Db → SendMessageRequest → Outcome SendMessageResponse
  send = handle_send_message unique_message foreign_key_message parse_url to_json decode_base64 md5

  -- A message that cannot be sent leaves the tables as they were.
  pub handle_send_message_atomic :
      (request : ResolvedRequest) (uuid : String) (db : Db) (body : SendMessageRequest)
      (e : SqsError)
      → (send request uuid db body).0 ≡ err e
      → (send request uuid db body).1 ≡ db
  unfolding handle_send_message
  handle_send_message_atomic request uuid db body =
      and_then-Unchanged db
        (prepare_message unique_message foreign_key_message parse_url to_json decode_base64 md5
          request uuid db body)
        (λ (m, r). persist internal r (send_message unique_message foreign_key_message m db))
        (λ (m, r).
          persist-Unchanged internal r db (send_message unique_message foreign_key_message m db)
            (send_message-Unchanged unique_message foreign_key_message m db))

  -- The message that a send stores, and its answer: the body and id that it was given, to be visible
  -- within 900 seconds and never yet received, in an existing queue.
  pub record Stored (request : ResolvedRequest) (uuid : String) (body : SendMessageRequest)
      (sent : SqsMessage × SendMessageResponse) : Type 0 where
    pub same_body : sent.0.body ≡ body.message_body
    pub same_id : sent.0.message_id ≡ uuid
    pub answered_id : sent.1.message_id ≡ uuid
    pub answered_md5 : sent.1.md5_of_message_body ≡ md5 (as_bytes body.message_body)
    pub sent_now : sent.0.sent_at ≡ request.date
    pub visible_from : request.date ≤ sent.0.visible_at
    pub visible_soon : sent.0.visible_at ≤ request.date + seconds 900
    pub never_received :
        (sent.0.receive_count ≡ 0)
        × (sent.0.receipt_handle ≡ none)
        × (sent.0.first_received_at ≡ none)
    pub valid_body : EveryChar IsAllowed sent.0.body

  prepare_message-Stored :
      (request : ResolvedRequest) (uuid : String) (db : Db) (body : SendMessageRequest)
      → Yields (Stored request uuid body) (
          prepare_message unique_message foreign_key_message parse_url to_json decode_base64 md5
            request uuid db body)
  unfolding prepare_message
  prepare_message-Stored request uuid db body =
      let P = Stored request uuid body in
      step P (load_queue_from_url parse_url request.region db body.queue_url) (λ queue _.
        step P (validate_message_body body.message_body queue.maximum_message_size) (λ _ valid.
          step P (resolve_delay_seconds body.delay_seconds queue.delay_seconds) (λ delay bounded.
            step P (transpose (serialize_message_attributes to_json) body.message_attributes)
              (λ _ _.
                step P
                  (transpose (calculate_message_attributes_md5 decode_base64 md5)
                    (non_empty body.message_attributes))
                  (λ _ _. step P (extract_aws_trace_header body.message_system_attributes) (λ _ _.
                    step P
                      (transpose (calculate_message_attributes_md5 decode_base64 md5)
                        (non_empty body.message_system_attributes))
                      (λ _ _.
                        let (low, _) =
                          (resolve_delay_seconds_iff body.delay_seconds queue.delay_seconds delay).0
                            bounded in
                        let (_, _, allowed) =
                          (validate_message_body_iff body.message_body queue.maximum_message_size).0
                            valid in
                        done P _ (record {
                          same_body = refl;
                          same_id = refl;
                          answered_id = refl;
                          answered_md5 = refl;
                          sent_now = refl;
                          visible_from = omega arith;
                          visible_soon = omega arith;
                          never_received = (refl, refl, refl);
                          valid_body = allowed;
                        }))))))))

  -- A send that succeeds appends one row to the messages, in an existing queue. The row holds the body
  -- and the id of the answer, the time of the request and no other column than the message prepared,
  -- but "{}" for attributes that are missing: it becomes visible within 900 seconds, was never received,
  -- and has only characters that SQS allows.
  pub handle_send_message-Stored :
      (request : ResolvedRequest) (uuid : String) (db db' : Db) (body : SendMessageRequest)
      (response : SendMessageResponse)
      → send request uuid db body ≡ (ok response, db')
      → (message : SqsMessage) × Stored request uuid body (message, response)
        × IsAppended message db db'
  unfolding handle_send_message
  handle_send_message-Stored request uuid db db' body response h =
      let prepared =
        prepare_message unique_message foreign_key_message parse_url to_json decode_base64 md5
          request uuid db body in
      let store = send_message unique_message foreign_key_message in
      let ((message, answer), p, h1) =
        and_then-ok db db' prepared (λ (m, r). persist internal r (store m db)) response h in
      let (_, h2, same) = persist-ok internal answer response db' (store message db) h1 in
      (
        message,
        rw (← same) (prepare_message-Stored request uuid db body (message, answer) p),
        send_message-IsAppended unique_message foreign_key_message message db db' h2,
      )
