-- ===== src/Sqlite/Sqs/Reach.antt =====
-- The sequences of store operations that change the tables (hiraeth_store_sqlx/src/sqs.rs).
use hiraeth.Common.{ℕ, String, List, [], Result, ok, err, ℤ}
use hiraeth.Sqlite.Sqs.Admin.{
  after_check, ensure_queue_exists, upsert_tags, remove_tags, set_queue_attributes, tag_queue,
  untag_queue,
}
use hiraeth.Sqlite.Sqs.Changes.{
  create_queue-IsValid, delete_message-IsValid, delete_message_by_id-IsValid, delete_queue-IsValid,
  purge_queue-IsValid, send_message-IsValid, set_message_visible_at-IsValid,
  set_queue_attributes-IsValid,
}
use hiraeth.Sqlite.Sqs.Receive.Delivery.{receive_messages-IsValid}
use hiraeth.Sqlite.Sqs.Receive.{Faults, receive_messages}
use hiraeth.Sqlite.Sqs.Valid.{IsValid}
use hiraeth.Sqlite.Sqs.{
  Db, TagRow, create_queue, send_message, delete_queue, delete_message, delete_message_by_id,
  set_message_visible_at, purge_queue,
}
use hiraeth.Store.Sqs.{SqsQueue, SqsMessage, SqsQueueAttributeUpdate}
use hiraeth.Store.{StoreError}

-- one operation, with what it reads of its surroundings
pub data Command : Type 0 where
  create : ℕ → SqsQueue → Command
  set_attributes : ℕ → ℕ → SqsQueueAttributeUpdate → Command
  tag : ℕ → List (String × String) → Command
  untag : ℕ → List String → Command
  delete : ℕ → Command
  purge : ℕ → Command
  send : SqsMessage → Command
  receive : Faults → ℕ → ℕ → ℕ → (ℕ → String) → ℕ → ℤ → ℕ → Command
  delete_one : ℕ → String → Command
  delete_by_id : ℕ → String → Command
  set_visibility : ℕ → String → ℕ → Command

abbrev pub empty_db : Db
empty_db = record { queues = []; messages = []; tags = [] }

module _ (unique_message foreign_key_message : String) where
  unfoldable pub run : Command → Db → Db
  run (create now queue) db = (create_queue unique_message foreign_key_message now queue db).1
  run (set_attributes now queue_id attributes) db =
      (set_queue_attributes now queue_id attributes db).1
  run (tag queue_id tags) db = (tag_queue queue_id tags db).1
  run (untag queue_id keys) db = (untag_queue queue_id keys db).1
  run (delete queue_id) db = (delete_queue queue_id db).1
  run (purge queue_id) db = (purge_queue queue_id db).1
  run (send message) db = (send_message unique_message foreign_key_message message db).1
  run (receive faults max_time now later random queue_id max timeout) db =
      (receive_messages faults max_time now later random queue_id max timeout db).1
  run (delete_one queue_id handle) db = (delete_message queue_id handle db).1
  run (delete_by_id queue_id message_id) db = (delete_message_by_id queue_id message_id db).1
  run (set_visibility queue_id handle visible_at) db =
      (set_message_visible_at queue_id handle visible_at db).1

  with_tags-IsValid :
      (tags : List TagRow) (db : Db) → IsValid db → IsValid (record db { tags = tags })
  with_tags-IsValid tags db v = record {
    row_ids = v.row_ids;
    message_ids = v.message_ids;
    owned = v.owned;
    queue_ids = v.queue_ids;
    identities = v.identities;
  }

  after_check-IsValid :
      (change : Db → List TagRow) (db : Db) (r : Result Unit StoreError)
      → IsValid db
      → IsValid (after_check (λ d. (tt, record d { tags = change d })) db r).1
  after_check-IsValid change db (ok _) v = with_tags-IsValid (change db) db v
  after_check-IsValid change db (err e) v = v

  tag_queue-IsValid :
      (queue_id : ℕ) (tags : List (String × String)) (db : Db)
      → IsValid db
      → IsValid (tag_queue queue_id tags db).1
  unfolding tag_queue
  tag_queue-IsValid queue_id tags db v =
      after_check-IsValid (λ d. upsert_tags queue_id tags d.tags) db
        (ensure_queue_exists queue_id db) v

  untag_queue-IsValid :
      (queue_id : ℕ) (keys : List String) (db : Db)
      → IsValid db
      → IsValid (untag_queue queue_id keys db).1
  unfolding untag_queue
  untag_queue-IsValid queue_id keys db v =
      after_check-IsValid (λ d. remove_tags queue_id keys d.tags) db
        (ensure_queue_exists queue_id db) v

  run-IsValid : (c : Command) (db : Db) → IsValid db → IsValid (run c db)
  unfolding run
  run-IsValid (create now queue) db v = create_queue-IsValid _ _ now queue db v
  run-IsValid (set_attributes now queue_id attributes) db v =
      set_queue_attributes-IsValid now queue_id attributes db v
  run-IsValid (tag queue_id tags) db v = tag_queue-IsValid queue_id tags db v
  run-IsValid (untag queue_id keys) db v = untag_queue-IsValid queue_id keys db v
  run-IsValid (delete queue_id) db v = delete_queue-IsValid queue_id db v
  run-IsValid (purge queue_id) db v = purge_queue-IsValid queue_id db v
  run-IsValid (send message) db v = send_message-IsValid _ _ message db v
  run-IsValid (receive faults max_time now later random queue_id max timeout) db v =
      receive_messages-IsValid faults max_time now later random queue_id max timeout db v
  run-IsValid (delete_one queue_id handle) db v = delete_message-IsValid queue_id handle db v
  run-IsValid (delete_by_id queue_id message_id) db v =
      delete_message_by_id-IsValid queue_id message_id db v
  run-IsValid (set_visibility queue_id handle visible_at) db v =
      set_message_visible_at-IsValid queue_id handle visible_at db v

  -- what a sequence of operations reaches from empty tables
  pub data Reachable : Db → Type 0 where
    start : Reachable empty_db
    next : {db : Db} (c : Command) → Reachable db → Reachable (run c db)

  -- Whatever operations run, in whatever order and with whatever failures, row ids, message ids,
  -- queue ids and queue identities stay unique and every message belongs to an existing queue.
  pub Reachable-IsValid : (db : Db) → Reachable db → IsValid db
  Reachable-IsValid db start = record {
    row_ids = tt;
    message_ids = tt;
    owned = tt;
    queue_ids = tt;
    identities = tt;
  }
  Reachable-IsValid db (next c r) = run-IsValid c _ (Reachable-IsValid _ r)
