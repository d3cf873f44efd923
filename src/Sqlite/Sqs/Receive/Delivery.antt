-- ===== src/Sqlite/Sqs/Receive/Delivery.antt =====
-- What `receive_messages` of hiraeth_store_sqlx/src/sqs.rs delivers, and to whom.
use mathlib.Core.List.{Memᴰ}
use hiraeth.Common.{
  ℕ, suc, ◌+◌, ◌≤◌, ◌<◌, String, true, false, List, [], ◌∷◌, map, Option, none, some, ◌≡◌, refl, ap,
  ◌⊎◌, inl, inr, arith, keep, length, mem-keep, keep-mem, mem-map, map-mem, Bool-cases,
  if◌then◌else◌, ℤ, pos, length-keep_ids, Result, ok, err,
}
use hiraeth.Sqlite.Sqs.Receive.{
  Connection, Faults, lease, selected, is_in, update_selected, returning, leased_until, deliver,
  idle, begin_immediate, rollback_transaction, update_and_finish, receive_messages,
  receive_on_connection,
}
use hiraeth.Sqlite.Sqs.Receive.Claims.{claimed-eligible, claimed-oldest, length-selected}
use hiraeth.Sqlite.Sqs.Valid.{IsValid, map-IsValid}
use hiraeth.Sqlite.Sqs.{MessageRow, Db, is_eligible}
use hiraeth.Store.Sqs.{SqsMessage, seconds}
use hiraeth.Store.{StoreError}

-- A lease is not visible before it ends.
pub leased-not_eligible :
    (now until now' queue_id : ℕ) (random : ℕ → String) (row : MessageRow)
    → now' < until
    → is_eligible now' queue_id (lease now until random row) ≡ false
leased-not_eligible now until now' queue_id random row h = ground arith

length-returning :
    (f : MessageRow → MessageRow) (ids : List ℕ) (rows : List MessageRow)
    → length (returning f ids rows) ≡ length (keep (is_in ids) rows)
unfolding returning
length-returning f ids rows = go (keep (is_in ids) rows)
  where
    go : (xs : List MessageRow) → length (map (λ row. (f row).message) xs) ≡ length xs
    go [] = refl
    go (x ∷ xs) = ap suc (go xs)

module _ (faults : Faults) (max_time now later : ℕ) (random : ℕ → String) (queue_id : ℕ) (max : ℤ)
    (timeout : ℕ) (db : Db) where
  abbrev outcome : Result (List SqsMessage) StoreError × Db
  outcome = receive_messages faults max_time now later random queue_id max timeout db

  abbrev until : ℕ
  until = later + seconds timeout

  abbrev ids : List ℕ
  ids = selected queue_id now max db.messages

  leased_until-ok :
      (t : ℕ) → leased_until faults max_time now later random timeout ≡ ok t → t ≡ until
  unfolding leased_until
  leased_until-ok t h = ground arith

  abbrev on_connection : Result (List SqsMessage) StoreError × Connection
  on_connection =
      receive_on_connection faults max_time now later random queue_id max timeout (idle db)

  abbrev committed_of :
      Result (List SqsMessage) StoreError × Connection → Result (List SqsMessage) StoreError × Db
  committed_of (messages, conn) = (messages, conn.committed)

  finish-ok :
      (t : ℕ) (update : Option StoreError) (commit : Option String)
      → update ≡ faults.update
      → commit ≡ faults.commit
      → t ≡ until
      → (ms : List SqsMessage) (db' : Db)
      → committed_of (
          update_and_finish faults max_time now later random queue_id max t
            (begin_immediate (idle db))
            faults.update)
        ≡ (ok ms, db')
      → (ms ≡ returning (lease now until random) ids db.messages)
        × (db' ≡ record db { messages = update_selected (lease now until random) ids db.messages })
  finish-ok t none none eu ec is_until ms db' h =
      let shown = rw (← eu, ← ec) at h in rw (← is_until) (cc shown, cc shown)
  finish-ok t (some e) commit eu ec is_until ms db' h = absurd (cc (rw (← eu) at h))
  finish-ok t none (some e) eu ec is_until ms db' h = absurd (cc (rw (← eu, ← ec) at h))

  deliver-ok :
      (r : Result ℕ StoreError)
      → ((t : ℕ) → r ≡ ok t → t ≡ until)
      → (ms : List SqsMessage) (db' : Db)
      → committed_of (deliver faults max_time now later random queue_id max (idle db) r)
        ≡ (ok ms, db')
      → (ms ≡ returning (lease now until random) ids db.messages)
        × (db' ≡ record db { messages = update_selected (lease now until random) ids db.messages })
  deliver-ok (ok t) is_until ms db' h =
      finish-ok t faults.update faults.commit refl refl (is_until t refl) ms db' h
  deliver-ok (err e) is_until ms db' h = absurd (cc h)

  pub receive_messages-ok :
      (ms : List SqsMessage) (db' : Db)
      → outcome ≡ (ok ms, db')
      → (ms ≡ returning (lease now until random) ids db.messages)
        × (db' ≡ record db { messages = update_selected (lease now until random) ids db.messages })
  unfolding receive_messages
  receive_messages-ok =
      deliver-ok (leased_until faults max_time now later random timeout) leased_until-ok

  -- A delivered message is the lease of a row of the table that this delivery claims.
  pub delivered :
      (ms : List SqsMessage) (db' : Db)
      → outcome ≡ (ok ms, db')
      → {m : SqsMessage} → Memᴰ m ms
      → (row : MessageRow) × Memᴰ row db.messages
        × (is_in ids row ≡ true)
        × (m ≡ (lease now until random row).message)
  unfolding returning
  delivered ms db' h {m} k =
      let (e, _) = receive_messages-ok ms db' h in
      let (row, j, same) = mem-map _ _ (rw e at k) in
      let (i, claimed) = mem-keep _ db.messages j in (row, i, claimed, same)

  -- On a valid store a delivery that succeeds has at most as many messages as were asked for.
  pub receive_messages-length :
      (n : ℕ) (ms : List SqsMessage) (db' : Db)
      → IsValid db
      → max ≡ pos n
      → outcome ≡ (ok ms, db')
      → length ms ≤ n
  receive_messages-length n ms db' v asked h =
      let (e, _) = receive_messages-ok ms db' h in
      rw (e, length-returning, asked)
        (omega (
          arith,
          length-keep_ids (λ row. row.row_id) (selected queue_id now (pos n) db.messages)
              db.messages v.row_ids,
          length-selected queue_id now n db.messages,
        ))

  -- On a valid store, every message of a delivery that succeeds is the lease of a message that was in
  -- the queue, visible and not expired.
  pub receive_messages_sound :
      (ms : List SqsMessage) (db' : Db)
      → IsValid db
      → outcome ≡ (ok ms, db')
      → {m : SqsMessage} → Memᴰ m ms
      → (row : MessageRow) × Memᴰ row db.messages
        × (is_eligible now queue_id row ≡ true)
        × (m ≡ (lease now until random row).message)
  receive_messages_sound ms db' v h k =
      let (row, i, claimed, same) = delivered ms db' h k in
      (row, i, claimed-eligible queue_id now max db.messages v.row_ids row i claimed, same)

  -- On a valid store a delivery that succeeds is oldest first: a visible message of the queue is
  -- delivered too, or was sent no earlier than each message that is.
  pub receive_messages_oldest :
      (ms : List SqsMessage) (db' : Db) (other : MessageRow)
      → IsValid db
      → outcome ≡ (ok ms, db')
      → {m : SqsMessage} → Memᴰ m ms
      → Memᴰ other db.messages
      → is_eligible now queue_id other ≡ true
      → Memᴰ (lease now until random other).message ms ⊎ (m.sent_at ≤ other.sent_at)
  unfolding returning
  receive_messages_oldest ms db' other v h {m} k j e = elim (Bool-cases (is_in ids other)) [
    | inl claimed ↦
        inl (rw (receive_messages-ok ms db' h).0 (map-mem _ _ (keep-mem _ db.messages j claimed)))
    | inr left ↦
        let (row, i, claimed, same) = delivered ms db' h k in
        inr (
          rw same
            (claimed-oldest queue_id now max db.messages v.row_ids row other i claimed j e left))
  ]

  updated-IsValid :
      IsValid db
      → IsValid (record db { messages = update_selected (lease now until random) ids db.messages })
  unfolding update_selected
  updated-IsValid v =
      map-IsValid (λ row. if is_in ids row then lease now until random row else row) db
        (λ row. ground arith) (λ row. ground arith) (λ row. ground arith) v

  -- Closed, or left open by a ROLLBACK that failed.
  abbrev pub IsClosed : Connection → Type 0
  IsClosed conn = (conn.open_transaction ≡ none) ⊎ ((r : StoreError) × (faults.rollback ≡ some r))

  abbrev IsUndone : Result (List SqsMessage) StoreError × Connection → Type 0
  IsUndone (messages, conn) = (conn.committed ≡ db) × IsClosed conn

  rollback_transaction-IsUndone :
      (r : Option StoreError) (result : Result (List SqsMessage) StoreError) (conn : Connection)
      → r ≡ faults.rollback
      → conn.committed ≡ db
      → IsUndone (result, rollback_transaction faults.rollback conn)
  rollback_transaction-IsUndone none result conn e same = rw (← e) (same, inl refl)
  rollback_transaction-IsUndone (some x) result conn e same = rw (← e) (same, inr (x, refl))

  finish-IsUndone :
      (t : ℕ) (update : Option StoreError) (commit : Option String) (e : StoreError)
      → update ≡ faults.update
      → commit ≡ faults.commit
      → (update_and_finish faults max_time now later random queue_id max t
          (begin_immediate (idle db))
          faults.update).0
        ≡ err e
      → IsUndone (
          update_and_finish faults max_time now later random queue_id max t
            (begin_immediate (idle db))
            faults.update)
  finish-IsUndone t (some x) commit e eu ec h =
      rw (← eu) (rollback_transaction-IsUndone faults.rollback (err x) _ refl refl)
  finish-IsUndone t none (some x) e eu ec h =
      rw (← eu, ← ec) (rollback_transaction-IsUndone faults.rollback (err e) _ refl refl)
  finish-IsUndone t none none e eu ec h = absurd (cc (rw (← eu, ← ec) at h))

  deliver-IsUndone :
      (r : Result ℕ StoreError) (e : StoreError)
      → (deliver faults max_time now later random queue_id max (idle db) r).0 ≡ err e
      → IsUndone (deliver faults max_time now later random queue_id max (idle db) r)
  deliver-IsUndone (ok t) e h = finish-IsUndone t faults.update faults.commit e refl refl h
  deliver-IsUndone (err x) e h = (refl, inl refl)

  -- A delivery that fails, at whatever step and whatever its UPDATE had changed by then, leaves the
  -- committed tables as they were; and it leaves no transaction open on its connection, unless its
  -- ROLLBACK fails too.
  pub receive_messages_atomic :
      (e : StoreError) → outcome.0 ≡ err e → (outcome.1 ≡ db) × IsClosed on_connection.1
  unfolding receive_messages receive_on_connection
  receive_messages_atomic e h =
      deliver-IsUndone (leased_until faults max_time now later random timeout) e h

  -- A delivery keeps the keys and the owners of the messages.
  pub receive_messages-IsValid : IsValid db → IsValid outcome.1
  receive_messages-IsValid v = go outcome.0 refl
    where
      go : (r : Result (List SqsMessage) StoreError) → outcome.0 ≡ r → IsValid outcome.1
      go (err e) h = rw (receive_messages_atomic e h).0 v
      go (ok ms) h =
          let (_, changed) = receive_messages-ok ms outcome.1 (ap (λ r. (r, outcome.1)) h) in
          rw changed (updated-IsValid v)
