-- ===== src/Sqlite/Sqs.antt =====
-- hiraeth_store_sqlx/src/sqs.rs: the queue store over three SQLite tables, each statement as what it
-- does to the rows. A table lists its rows in the order of their ids. Constraints are those of
-- hiraeth_store_sqlx/migrations: unique (name, region, account_id) and message_id, and rows of a
-- deleted queue deleted with it. That the database cannot be read or written is modelled where a
-- transaction can fail half way, in `receive_messages`; elsewhere a statement runs.
pub mod Valid
pub mod Receive
pub mod Admin
pub mod Tags
pub mod Changes
pub mod Reach
pub mod Outcomes
pub mod Counts
mod Examples
use hiraeth.Common.{
  ℕ, suc, ◌+◌, String, Bool, true, false, not, ◌&&◌, ◌||◌, List, [], ◌∷◌, ◌++◌, map, Option, none,
  some, ◌==◌, eqb, leb, ltb, any, find, keep, length, is_empty, if◌then◌else◌, Result, ok, err,
}
use hiraeth.Store.{StoreError, not_found, conflict, storage_failure}
use hiraeth.Store.Sqs.{SqsQueue, SqsMessage, SqsQueueAttributeUpdate}

pub record MessageRow : Type 0 where
  pub row_id : ℕ
  pub message : SqsMessage
  pub open message use *

pub record TagRow : Type 0 where
  pub queue_id : ℕ
  pub tag_key : String
  pub tag_value : String

pub record Db : Type 0 where
  pub queues : List SqsQueue
  pub messages : List MessageRow
  pub tags : List TagRow

-- A store operation on the database, with its error.
abbrev pub Query : Type 0 → Type 0
Query A = Db → Result A StoreError × Db

-- the id of a new row: one more than the largest in use
abbrev pub max_id {ℓ} : {A : Type ℓ} → (A → ℕ) → List A → ℕ
max_id id [] = 0
max_id id (x ∷ xs) = let m = max_id id xs in if ltb m (id x) then id x else m

abbrev pub has_queue : ℕ → List SqsQueue → Bool
has_queue queue_id queues = any (λ q. eqb q.id queue_id) queues

abbrev pub same_identity : SqsQueue → String → String → String → Bool
same_identity q name region account_id =
    q.name == name && q.region == region && q.account_id == account_id

abbrev pub stored_attributes : Option String → Option String
stored_attributes none = some "{}"
stored_attributes (some attributes) = some attributes

module _ (unique_message foreign_key_message : String) where
  -- `created_at` is left to its default, the time of the insertion
  unfoldable pub create_queue : ℕ → SqsQueue → Query Unit
  create_queue current_timestamp queue db =
      if any (λ q. same_identity q queue.name queue.region queue.account_id) db.queues
      then (err (conflict unique_message), db)
      else (
        ok tt,
        record db {
          queues =
              db.queues
              ++ record queue {
                id = suc (max_id (λ q. q.id) db.queues);
                created_at = current_timestamp;
              }
                ∷ [];
        },
      )

  unfoldable pub send_message : SqsMessage → Query Unit
  send_message message db =
      if any (λ row. row.message_id == message.message_id) db.messages
      then (err (conflict unique_message), db)
      else if not (has_queue message.queue_id db.queues)
      then (err (storage_failure foreign_key_message), db)
      else (
        ok tt,
        record db {
          messages =
              db.messages
              ++ record {
                row_id = suc (max_id (λ row. row.row_id) db.messages);
                message = record message {
                  message_attributes = stored_attributes message.message_attributes;
                };
              }
                ∷ [];
        },
      )

unfoldable pub delete_queue : ℕ → Query Unit
delete_queue queue_id db =
    if has_queue queue_id db.queues
    then (
      ok tt,
      record {
        queues = keep (λ q. not (eqb q.id queue_id)) db.queues;
        messages = keep (λ row. not (eqb row.queue_id queue_id)) db.messages;
        tags = keep (λ row. not (eqb row.queue_id queue_id)) db.tags;
      },
    )
    else (err (not_found "queue not found"), db)

unfoldable pub get_queue : String → String → String → Query (Option SqsQueue)
get_queue queue_name region account_id db =
    (ok (find (λ q. same_identity q queue_name region account_id) db.queues), db)

unfoldable pub get_queue_by_id : ℕ → Query (Option SqsQueue)
get_queue_by_id queue_id db = (ok (find (λ q. eqb q.id queue_id) db.queues), db)

unfoldable pub get_message_count : ℕ → ℕ → Query ℕ
get_message_count now queue_id db = (
  ok (length (keep (λ row. eqb row.queue_id queue_id && ltb now row.expires_at) db.messages)),
  db,
)

-- `visible_at <= ? AND expires_at > ?` in the queue
abbrev pub is_eligible : ℕ → ℕ → MessageRow → Bool
is_eligible now queue_id row =
    eqb row.queue_id queue_id && leb row.visible_at now && ltb now row.expires_at

unfoldable pub get_visible_message_count : ℕ → ℕ → Query ℕ
get_visible_message_count now queue_id db =
    (ok (length (keep (is_eligible now queue_id) db.messages)), db)

abbrev pub is_null : Option String → Bool
is_null none = true
is_null (some _) = false

abbrev pub is_delayed : ℕ → ℕ → MessageRow → Bool
is_delayed now queue_id row =
    eqb row.queue_id queue_id
    && ltb now row.visible_at
    && ltb now row.expires_at
    && is_null row.receipt_handle

unfoldable pub get_messages_delayed_count : ℕ → ℕ → Query ℕ
get_messages_delayed_count now queue_id db =
    (ok (length (keep (is_delayed now queue_id) db.messages)), db)

-- `receipt_handle = ?` is not true of NULL
abbrev pub holds_handle : String → Option String → Bool
holds_handle receipt_handle none = false
holds_handle receipt_handle (some h) = h == receipt_handle

abbrev pub has_receipt : ℕ → String → MessageRow → Bool
has_receipt queue_id receipt_handle row =
    eqb row.queue_id queue_id && holds_handle receipt_handle row.receipt_handle

unfoldable pub delete_message : ℕ → String → Query Unit
delete_message queue_id receipt_handle db =
    if any (has_receipt queue_id receipt_handle) db.messages
    then (
      ok tt,
      record db {
        messages = keep (λ row. not (has_receipt queue_id receipt_handle row)) db.messages;
      },
    )
    else (err (not_found "receipt handle not found"), db)

unfoldable pub delete_message_by_id : ℕ → String → Query Unit
delete_message_by_id queue_id message_id db =
    if any (λ row. eqb row.queue_id queue_id && row.message_id == message_id) db.messages
    then (
      ok tt,
      record db {
        messages =
            keep (λ row. not (eqb row.queue_id queue_id && row.message_id == message_id))
              db.messages;
      },
    )
    else (err (not_found "message not found"), db)

abbrev pub set_visible : ℕ → MessageRow → MessageRow
set_visible visible_at row = record row { message = record row.message { visible_at = visible_at } }

unfoldable pub set_message_visible_at : ℕ → String → ℕ → Query Unit
set_message_visible_at queue_id receipt_handle visible_at db =
    if any (has_receipt queue_id receipt_handle) db.messages
    then (
      ok tt,
      record db {
        messages =
            map
              (λ row.
                if has_receipt queue_id receipt_handle row then set_visible visible_at row else row)
              db.messages;
      },
    )
    else (err (not_found "receipt handle not found"), db)

unfoldable pub purge_queue : ℕ → Query Unit
purge_queue queue_id db =
    (ok tt, record db { messages = keep (λ row. not (eqb row.queue_id queue_id)) db.messages })
