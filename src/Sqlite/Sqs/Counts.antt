-- ===== src/Sqlite/Sqs/Counts.antt =====
-- The three counters of hiraeth_store_sqlx/src/sqs.rs, and a message from its sending to its delivery.
use mathlib.Core.List.{Memᴰ}
use hiraeth.Common.{
  ℕ, zero, suc, ◌+◌, ◌≤◌, String, Bool, true, not, ◌&&◌, List, [], ◌∷◌, ◌≡◌, refl, ap, arith, eqb,
  ltb, keep, length, keep-mem, pos, Result, ok, err, map-mem, take,
}
use hiraeth.Sqlite.Sqs.Receive.Claims.{is_in_iff}
use hiraeth.Sqlite.Sqs.Receive.Delivery.{receive_messages-ok}
use hiraeth.Sqlite.Sqs.Receive.Laws.{order-mem}
use hiraeth.Sqlite.Sqs.Receive.{
  Faults, receive_messages, returning, lease, selected, order_by_sent, insert_by_sent,
}
use hiraeth.Sqlite.Sqs.{
  MessageRow, Db, is_delayed, is_eligible, is_null, get_message_count, get_messages_delayed_count,
  get_visible_message_count,
}
use hiraeth.Store.Sqs.{SqsMessage, seconds}
use hiraeth.Store.{StoreError}

-- a message that was received, and whose lease lasts
abbrev pub in_flight : ℕ → ℕ → MessageRow → Bool
in_flight now queue_id row =
    eqb row.queue_id queue_id
    && ltb now row.visible_at
    && ltb now row.expires_at
    && not (is_null row.receipt_handle)

split_counts :
    (now queue_id : ℕ) (rows : List MessageRow)
    → length (keep (λ row. eqb row.queue_id queue_id && ltb now row.expires_at) rows)
      ≡ length (keep (is_eligible now queue_id) rows)
        + length (keep (is_delayed now queue_id) rows)
        + length (keep (in_flight now queue_id) rows)
split_counts now queue_id [] = omega arith
split_counts now queue_id (row ∷ rows) = ground (arith, split_counts now queue_id rows)

value : Result ℕ StoreError → ℕ
value (ok m) = m
value (err e) = 0

ok-eq : {m n : ℕ} → ◌≡◌ {A = Result ℕ StoreError} (ok m) (ok n) → m ≡ n
unfolding value
ok-eq e = ap value e

-- The live messages of a queue are the visible ones, the delayed ones and those in flight, each counted
-- once; so there are never more visible messages than messages.
pub counts_split :
    (now queue_id : ℕ) (db : Db)
    → (visible delayed total : ℕ) → (get_visible_message_count now queue_id db).0 ≡ ok visible
    → (get_messages_delayed_count now queue_id db).0 ≡ ok delayed
    → (get_message_count now queue_id db).0 ≡ ok total
    → total ≡ visible + delayed + length (keep (in_flight now queue_id) db.messages)
unfolding get_visible_message_count get_messages_delayed_count get_message_count
counts_split now queue_id db visible delayed total v d t =
    let counted = split_counts now queue_id db.messages in
    rw (← ok-eq v, ← ok-eq d, ← ok-eq t) counted

take-all : {A : Type 0} → (n : ℕ) (xs : List A) → length xs ≤ n → take n xs ≡ xs
take-all zero [] h = refl
take-all zero (x ∷ xs) h = absurd (omega arith)
take-all (suc n) [] h = refl
take-all (suc n) (x ∷ xs) h = ap (λ ys. x ∷ ys) (take-all n xs (omega arith))

length-insert :
    (row : MessageRow) (rows : List MessageRow)
    → length (insert_by_sent row rows) ≡ suc (length rows)
unfolding insert_by_sent
length-insert row [] = refl
length-insert row (r ∷ rows) = ground (arith, length-insert row rows)

length-order : (rows : List MessageRow) → length (order_by_sent rows) ≡ length rows
unfolding order_by_sent
length-order [] = refl
length-order (row ∷ rows) = omega (arith, length-insert row (order_by_sent rows), length-order rows)

module _ (faults : Faults) (max_time now later : ℕ) (random : ℕ → String) (queue_id n timeout : ℕ)
    (db : Db) where
  -- When no more messages are visible than were asked for, a delivery that succeeds has them all.
  pub receive_messages_complete :
      (ms : List SqsMessage) (db' : Db)
      → receive_messages faults max_time now later random queue_id (pos n) timeout db ≡ (ok ms, db')
      → length (keep (is_eligible now queue_id) db.messages) ≤ n
      → (row : MessageRow) → Memᴰ row db.messages
      → is_eligible now queue_id row ≡ true
      → Memᴰ (lease now (later + seconds timeout) random row).message ms
  unfolding returning selected
  receive_messages_complete ms db' h few row m e =
      let (got, _) =
        receive_messages-ok faults max_time now later random queue_id (pos n) timeout db ms db' h in
      let all_taken =
        take-all n (order_by_sent (keep (is_eligible now queue_id) db.messages))
          (omega (arith, length-order (keep (is_eligible now queue_id) db.messages), few)) in
      let taken : Memᴰ row (take n (order_by_sent (keep (is_eligible now queue_id) db.messages))) =
        rw all_taken
          (order-mem (keep (is_eligible now queue_id) db.messages) (keep-mem _ db.messages m e)) in
      rw got (
        map-mem _ _
          (keep-mem _ db.messages m ((is_in_iff _ row).1 (map-mem (λ r. r.row_id) _ taken))))
