-- ===== src/Sqlite/Sqs/Receive/Exclusive.antt =====
-- While a lease lasts its message is not delivered again
-- (`receive_messages` of hiraeth_store_sqlx/src/sqs.rs).
use mathlib.Core.List.{Memᴰ}
use hiraeth.Common.{
  ℕ, ◌+◌, ◌<◌, String, true, false, List, ◌≡◌, ◌≢◌, sym, ap, ◌∙◌, arith, mem-map, Distinct, refl,
  Distinct-mem, ℤ, ok,
}
use hiraeth.Sqlite.Sqs.Receive.Delivery.{
  delivered, leased-not_eligible, receive_messages-IsValid, receive_messages-ok,
  receive_messages_sound,
}
use hiraeth.Sqlite.Sqs.Receive.{Faults, lease, is_in, selected, update_selected, receive_messages}
use hiraeth.Sqlite.Sqs.Valid.{IsValid}
use hiraeth.Sqlite.Sqs.{MessageRow, Db, is_eligible}
use hiraeth.Store.Sqs.{SqsMessage, seconds}

module _ (now until : ℕ) (random : ℕ → String) (ids : List ℕ) (db : Db) where
  -- A row that the update leased is not eligible before the lease ends.
  not_again :
      (now' queue_id' : ℕ) (row row2 : MessageRow)
      → Distinct (λ row. row.message.message_id) db.messages
      → now' < until
      → Memᴰ row db.messages
      → is_in ids row ≡ true
      → Memᴰ row2 (update_selected (lease now until random) ids db.messages)
      → is_eligible now' queue_id' row2 ≡ true
      → row.message.message_id ≢ row2.message.message_id
  unfolding update_selected
  not_again now' queue_id' row row2 d lasts i claimed k e same =
      let (row1, j, made) = mem-map _ _ k in
      let back : row1.message.message_id ≡ row2.message.message_id = rw made (ground arith) in
      let one : row ≡ row1 = Distinct-mem _ db.messages d i j (same ∙ sym back) in
      let leased : row2 ≡ lease now until random row1 = rw made (rw (← one, claimed) refl) in
      let no : is_eligible now' queue_id' row2 ≡ false =
        rw leased (leased-not_eligible now until now' queue_id' random row1 lasts) in
      cc (e, no)

module _ (f f' : Faults) (max_time now later now' later' : ℕ) (random random' : ℕ → String)
    (queue_id queue_id' : ℕ) (max max' : ℤ) (timeout timeout' : ℕ) (db : Db) where
  -- When two deliveries succeed one after the other on a valid store, and the second selects before
  -- the leases of the first end, no message id is in both.
  pub receive_messages_exclusive :
      (ms ms' : List SqsMessage) (db' db'' : Db)
      → IsValid db
      → receive_messages f max_time now later random queue_id max timeout db ≡ (ok ms, db')
      → receive_messages f' max_time now' later' random' queue_id' max' timeout' db'
        ≡ (ok ms', db'')
      → now' < later + seconds timeout
      → {m m' : SqsMessage} → Memᴰ m ms
      → Memᴰ m' ms'
      → m.message_id ≢ m'.message_id
  receive_messages_exclusive ms ms' db' db'' v h h' lasts {m} {m'} k k' same =
      let until = later + seconds timeout in
      let (row, i, claimed, d) =
        delivered f max_time now later random queue_id max timeout db ms db' h k in
      let next : IsValid db' =
        rw (← ap (λ r. r.1) h)
          (receive_messages-IsValid f max_time now later random queue_id max timeout db v) in
      let (row2, i2, e2, d2) =
        receive_messages_sound f' max_time now' later' random' queue_id' max' timeout' db' ms' db''
          next h' k' in
      let (_, stored) =
        receive_messages-ok f max_time now later random queue_id max timeout db ms db' h in
      not_again now until random (selected queue_id now max db.messages) db now' queue_id' row row2
        v.message_ids lasts i claimed (rw stored at i2) e2
        (sym (ap (λ x. x.message_id) d) ∙ same ∙ ap (λ x. x.message_id) d2)
