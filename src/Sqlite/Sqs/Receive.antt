-- ===== src/Sqlite/Sqs/Receive.antt =====
-- `receive_messages` of hiraeth_store_sqlx/src/sqs.rs: one transaction that selects the messages to
-- deliver, leases them and returns them. SQLite may return the updated rows in any order; here they
-- come in the order of their ids. Each `randomblob` is drawn from `random`, by row; `max_time` is the
-- last instant that chrono can name; `faults` says which steps fail. BEGIN IMMEDIATE takes the lock
-- that keeps other writers out, so the transaction reads what is committed.
pub mod Laws
pub mod Claims
pub mod Delivery
pub mod Exclusive
use hiraeth.Common.{
  ℕ, suc, ◌+◌, String, Bool, ◌&&◌, List, [], ◌∷◌, map, Option, none, some, ◌⊕◌, eqb, leb, ltb, any,
  keep, take, if◌then◌else◌, ℤ, pos, negsuc, Result, ok, err, ok_or, ◌>>=◌, ◌>>◌,
}
use hiraeth.Sqlite.Sqs.{MessageRow, Db, Query, is_eligible}
use hiraeth.Store.{StoreError, storage_failure}
use hiraeth.Store.Sqs.{SqsMessage, seconds}

-- ORDER BY sent_at, id of a table in the order of its ids: a stable sort by `sent_at`
unfoldable pub insert_by_sent : MessageRow → List MessageRow → List MessageRow
insert_by_sent row [] = row ∷ []
insert_by_sent row (r ∷ rows) =
    if leb row.sent_at r.sent_at then row ∷ r ∷ rows else r ∷ insert_by_sent row rows

unfoldable pub order_by_sent : List MessageRow → List MessageRow
unfolding insert_by_sent
order_by_sent [] = []
order_by_sent (row ∷ rows) = insert_by_sent row (order_by_sent rows)

-- LIMIT; a negative limit is none
abbrev pub limit {ℓ} : {A : Type ℓ} → ℤ → List A → List A
limit (pos n) rows = take n rows
limit (negsuc _) rows = rows

unfoldable pub selected : ℕ → ℕ → ℤ → List MessageRow → List ℕ
unfolding order_by_sent
selected queue_id now max_number_of_messages rows =
    map (λ row. row.row_id)
      (limit max_number_of_messages (order_by_sent (keep (is_eligible now queue_id) rows)))

abbrev pub first_received : ℕ → Option ℕ → Option ℕ
first_received now none = some now
first_received now (some t) = some t

-- the SET clause
abbrev pub lease : ℕ → ℕ → (ℕ → String) → MessageRow → MessageRow
lease now leased_until random row = record row {
  message = record row.message {
    visible_at = leased_until;
    receive_count = row.receive_count + 1;
    receipt_handle = some (random row.row_id);
    first_received_at = first_received now row.first_received_at;
  };
}

abbrev pub is_in : List ℕ → MessageRow → Bool
is_in ids row = any (λ id. eqb row.row_id id) ids

-- the rows after the UPDATE, and what it returns
unfoldable pub update_selected :
    (MessageRow → MessageRow) → List ℕ → List MessageRow → List MessageRow
update_selected change ids rows = map (λ row. if is_in ids row then change row else row) rows

unfoldable pub returning : (MessageRow → MessageRow) → List ℕ → List MessageRow → List SqsMessage
returning change ids rows = map (λ row. (change row).message) (keep (is_in ids) rows)

-- A connection: what is committed, which every other connection reads, and the tables as the open
-- transaction has them.
pub record Connection : Type 0 where
  pub committed : Db
  pub open_transaction : Option Db

abbrev pub idle : Db → Connection
idle db = record { committed = db; open_transaction = none }

abbrev pub begin_immediate : Connection → Connection
begin_immediate conn = record conn { open_transaction = some conn.committed }

-- a statement acts on the tables of the open transaction, or commits at once
abbrev pub execute : (Db → Db) → Connection → Connection
execute change conn = elim conn.open_transaction [
  | some working ↦ record conn { open_transaction = some (change working) }
  | none ↦ record conn { committed = change conn.committed }
]

abbrev pub commit_transaction : Connection → Connection
commit_transaction conn = elim conn.open_transaction [
  | some working ↦ record { committed = working; open_transaction = none }
  | none ↦ conn
]

-- `let _ = sqlx::query("ROLLBACK")...`: one that fails leaves the transaction open
abbrev pub rollback_transaction : Option StoreError → Connection → Connection
rollback_transaction none conn = record conn { open_transaction = none }
rollback_transaction (some _) conn = conn

-- Which steps fail; an UPDATE that fails may have changed the tables of its transaction by then.
pub record Faults : Type 0 where
  pub acquire : Option StoreError
  pub begin : Option StoreError
  pub update : Option StoreError
  pub left_behind : Db → Db
  pub commit : Option String
  pub rollback : Option StoreError

abbrev pub no_faults : Faults
no_faults = record {
  acquire = none;
  begin = none;
  update = none;
  left_behind = λ db. db;
  commit = none;
  rollback = none;
}

abbrev fail : Option StoreError → Result Unit StoreError
fail none = ok tt
fail (some e) = err e

abbrev checked_add_seconds : ℕ → ℕ → ℕ → Option ℕ
checked_add_seconds max_time time n =
    if leb (time + seconds n) max_time then some (time + seconds n) else none

-- The clock is read twice: `now` for the selection, `later` for the lease.
module _ (faults : Faults) (max_time now later : ℕ) (random : ℕ → String) where
  -- up to and with BEGIN IMMEDIATE
  unfoldable pub leased_until : ℕ → Result ℕ StoreError
  leased_until visibility_timeout_seconds = do
    fail faults.acquire
    until ←
        ok_or (storage_failure "failed to calculate leased_until")
          (checked_add_seconds max_time later visibility_timeout_seconds)
    fail faults.begin
    ok until

  abbrev pub finish :
      List SqsMessage
      → Connection
      → Option String
      → Result (List SqsMessage) StoreError × Connection
  finish messages conn none = (ok messages, commit_transaction conn)
  finish messages conn (some e) = (
    err (storage_failure ("failed to commit transaction: " ⊕ e)),
    rollback_transaction faults.rollback conn,
  )

  -- the UPDATE in the open transaction, and what follows it
  abbrev pub update_and_finish :
      ℕ → ℤ → ℕ → Connection → Option StoreError → Result (List SqsMessage) StoreError × Connection
  update_and_finish queue_id max_number_of_messages until conn none =
      let ids = selected queue_id now max_number_of_messages conn.committed.messages in
      finish (returning (lease now until random) ids conn.committed.messages)
        (execute
          (λ db. record db { messages = update_selected (lease now until random) ids db.messages })
          conn)
        faults.commit
  update_and_finish queue_id max_number_of_messages until conn (some e) =
      (err e, rollback_transaction faults.rollback (execute faults.left_behind conn))

  abbrev pub deliver :
      ℕ → ℤ → Connection → Result ℕ StoreError → Result (List SqsMessage) StoreError × Connection
  deliver queue_id max_number_of_messages conn (ok until) =
      update_and_finish queue_id max_number_of_messages until (begin_immediate conn) faults.update
  deliver queue_id max_number_of_messages conn (err e) = (err e, conn)

  unfoldable pub receive_on_connection :
      ℕ → ℤ → ℕ → Connection → Result (List SqsMessage) StoreError × Connection
  unfolding leased_until selected update_selected returning
  receive_on_connection queue_id max_number_of_messages visibility_timeout_seconds conn =
      deliver queue_id max_number_of_messages conn (leased_until visibility_timeout_seconds)

  -- on a connection of its own, as what the other connections see of it
  unfoldable pub receive_messages : ℕ → ℤ → ℕ → Query (List SqsMessage)
  unfolding receive_on_connection
  receive_messages queue_id max_number_of_messages visibility_timeout_seconds db =
      let (messages, conn) =
        receive_on_connection queue_id max_number_of_messages visibility_timeout_seconds
          (idle db) in
      (messages, conn.committed)
