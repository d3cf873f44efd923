-- ===== src/Sqlite/Sqs/Valid.antt =====
-- The invariant that the keys and the foreign key of the tables give
-- (hiraeth_store_sqlx/migrations, hiraeth_store_sqlx/src/sqs.rs).
use hiraeth.Common.{
  String, Bool, true, List, [], ◌∷◌, map, ◌≡◌, ◌∙◌, ap, keep, All, All-keep, Distinct,
  Distinct-keep, Distinct-map,
}
use hiraeth.Sqlite.Sqs.{MessageRow, Db, has_queue}
use hiraeth.Store.Sqs.{SqsQueue}

abbrev pub identity : SqsQueue → String × String × String
identity q = (q.name, q.region, q.account_id)

pub record IsValid (db : Db) : Type 0 where
  pub row_ids : Distinct (λ row. row.row_id) db.messages
  pub message_ids : Distinct (λ row. row.message.message_id) db.messages
  pub owned : All (λ row. has_queue row.message.queue_id db.queues ≡ true) db.messages
  pub queue_ids : Distinct (λ q. q.id) db.queues
  pub identities : Distinct identity db.queues

All-owned-map :
    (f : MessageRow → MessageRow) (queues : List SqsQueue) (rows : List MessageRow)
    → ((row : MessageRow) → (f row).message.queue_id ≡ row.message.queue_id)
    → All (λ row. has_queue row.message.queue_id queues ≡ true) rows
    → All (λ row. has_queue row.message.queue_id queues ≡ true) (map f rows)
All-owned-map f queues [] same h = tt
All-owned-map f queues (row ∷ rows) same (h, hs) =
    (ap (λ id. has_queue id queues) (same row) ∙ h, All-owned-map f queues rows same hs)

-- Changing other columns of messages keeps the store valid.
pub map-IsValid :
    (f : MessageRow → MessageRow) (db : Db)
    → ((row : MessageRow) → (f row).row_id ≡ row.row_id)
    → ((row : MessageRow) → (f row).message.message_id ≡ row.message.message_id)
    → ((row : MessageRow) → (f row).message.queue_id ≡ row.message.queue_id)
    → IsValid db
    → IsValid (record db { messages = map f db.messages })
map-IsValid f db same_row same_message same_queue v = record {
  row_ids = Distinct-map (λ row. row.row_id) f db.messages same_row v.row_ids;
  message_ids =
      Distinct-map (λ row. row.message.message_id) f db.messages same_message v.message_ids;
  owned = All-owned-map f db.queues db.messages same_queue v.owned;
  queue_ids = v.queue_ids;
  identities = v.identities;
}

-- Removing messages keeps the store valid.
pub keep-IsValid :
    (p : MessageRow → Bool) (db : Db)
    → IsValid db
    → IsValid (record db { messages = keep p db.messages })
keep-IsValid p db v = record {
  row_ids = Distinct-keep _ p db.messages v.row_ids;
  message_ids = Distinct-keep _ p db.messages v.message_ids;
  owned = All-keep _ p db.messages v.owned;
  queue_ids = v.queue_ids;
  identities = v.identities;
}
