-- ===== src/Sqlite/Sqs/Admin.antt =====
-- hiraeth_store_sqlx/src/sqs.rs: the listing of queues and messages, the update of a queue's
-- attributes and the tags of a queue. Text is ordered by code points, as SQLite's BINARY collation
-- orders UTF-8. A tag map comes in some order, each key once.
use hiraeth.Common.{
  text_ltb, order_by, ℕ, String, Bool, true, not, ◌&&◌, ◌||◌, List, [], ◌∷◌, map, Option, none,
  some, ◌==◌, eqb, ltb, keep, if◌then◌else◌, ℤ, pos, Result, ok, err, starts_with,
}
use hiraeth.Sqlite.Sqs.Receive.{limit}
use hiraeth.Sqlite.Sqs.{TagRow, Db, Query, has_queue}
use hiraeth.Store.Sqs.{SqsQueue, SqsMessage, SqsQueueAttributeUpdate}
use hiraeth.Store.{StoreError, not_found}

-- a condition that a NULL parameter drops
abbrev pub if_given : {A : Type 0} → Option A → (A → Bool) → Bool
if_given none test = true
if_given (some a) test = test a

abbrev pub max_results_or_default : Option ℤ → ℤ
max_results_or_default none = pos 1000
max_results_or_default (some n) = n

abbrev pub is_listed : String → String → Option String → Option String → SqsQueue → Bool
unfolding starts_with text_ltb
is_listed region account_id queue_name_prefix next_token q =
    q.region == region
    && q.account_id == account_id
    && if_given queue_name_prefix (λ prefix. starts_with prefix q.name)
    && if_given next_token (λ token. text_ltb token q.name)

unfoldable pub list_queues :
    String → String → Option String → Option ℤ → Option String → Query (List SqsQueue)
unfolding order_by text_ltb
list_queues region account_id queue_name_prefix max_results next_token db = (
  ok (
      limit (max_results_or_default max_results) (
        order_by (λ q r. text_ltb q.name r.name)
          (keep (is_listed region account_id queue_name_prefix next_token) db.queues))),
  db,
)

-- newest first, then by message id
abbrev pub newer : SqsMessage → SqsMessage → Bool
unfolding text_ltb
newer m n =
    ltb n.sent_at m.sent_at || (eqb m.sent_at n.sent_at && text_ltb m.message_id n.message_id)

unfoldable pub list_messages : ℕ → ℤ → Query (List SqsMessage)
unfolding order_by text_ltb
list_messages queue_id limit_ db = (
  ok (
      limit limit_ (
        order_by newer
          (map (λ row. row.message) (keep (λ row. eqb row.queue_id queue_id) db.messages)))),
  db,
)

abbrev pub coalesce : {A : Type 0} → Option A → A → A
coalesce none old = old
coalesce (some new) old = new

-- the SET clause of `set_queue_attributes`
abbrev pub update_queue : ℕ → SqsQueueAttributeUpdate → SqsQueue → SqsQueue
update_queue updated_at u q = record q {
  visibility_timeout_seconds = coalesce u.visibility_timeout_seconds q.visibility_timeout_seconds;
  delay_seconds = coalesce u.delay_seconds q.delay_seconds;
  maximum_message_size = coalesce u.maximum_message_size q.maximum_message_size;
  message_retention_period_seconds =
      coalesce u.message_retention_period_seconds q.message_retention_period_seconds;
  receive_message_wait_time_seconds =
      coalesce u.receive_message_wait_time_seconds q.receive_message_wait_time_seconds;
  policy = coalesce u.policy q.policy;
  redrive_policy = coalesce u.redrive_policy q.redrive_policy;
  content_based_deduplication =
      coalesce u.content_based_deduplication q.content_based_deduplication;
  kms_master_key_id = coalesce u.kms_master_key_id q.kms_master_key_id;
  kms_data_key_reuse_period_seconds =
      coalesce u.kms_data_key_reuse_period_seconds q.kms_data_key_reuse_period_seconds;
  deduplication_scope = coalesce u.deduplication_scope q.deduplication_scope;
  fifo_throughput_limit = coalesce u.fifo_throughput_limit q.fifo_throughput_limit;
  redrive_allow_policy = coalesce u.redrive_allow_policy q.redrive_allow_policy;
  sqs_managed_sse_enabled = coalesce u.sqs_managed_sse_enabled q.sqs_managed_sse_enabled;
  updated_at = updated_at;
}

unfoldable pub set_queue_attributes : ℕ → ℕ → SqsQueueAttributeUpdate → Query Unit
set_queue_attributes now queue_id attributes db =
    if has_queue queue_id db.queues
    then (
      ok tt,
      record db {
        queues =
            map (λ q. if eqb q.id queue_id then update_queue now attributes q else q) db.queues;
      },
    )
    else (err (not_found "queue not found"), db)

abbrev pub ensure_queue_exists : ℕ → Db → Result Unit StoreError
ensure_queue_exists queue_id db =
    if has_queue queue_id db.queues then ok tt else err (not_found "queue not found")

abbrev pub has_tag : ℕ → String → TagRow → Bool
has_tag queue_id key row = eqb row.queue_id queue_id && row.tag_key == key

-- INSERT ... ON CONFLICT (queue_id, tag_key) DO UPDATE
unfoldable pub upsert_tag : ℕ → String → String → List TagRow → List TagRow
upsert_tag queue_id key value [] =
    record { queue_id = queue_id; tag_key = key; tag_value = value } ∷ []
upsert_tag queue_id key value (row ∷ rows) =
    if has_tag queue_id key row
    then record row { tag_value = value } ∷ rows
    else row ∷ upsert_tag queue_id key value rows

unfoldable pub upsert_tags : ℕ → List (String × String) → List TagRow → List TagRow
unfolding upsert_tag
upsert_tags queue_id [] rows = rows
upsert_tags queue_id ((key, value) ∷ tags) rows =
    upsert_tags queue_id tags (upsert_tag queue_id key value rows)

unfoldable pub remove_tags : ℕ → List String → List TagRow → List TagRow
remove_tags queue_id [] rows = rows
remove_tags queue_id (key ∷ keys) rows =
    remove_tags queue_id keys (keep (λ row. not (has_tag queue_id key row)) rows)

abbrev pub after_check :
    {A : Type 0} → (Db → A × Db) → Db → Result Unit StoreError → Result A StoreError × Db
after_check run db (ok _) = (ok (run db).0, (run db).1)
after_check run db (err e) = (err e, db)

abbrev pub when_exists : {A : Type 0} → ℕ → (Db → A × Db) → Query A
when_exists queue_id run db = after_check run db (ensure_queue_exists queue_id db)

unfoldable pub list_queue_tags : ℕ → Query (List (String × String))
unfolding order_by text_ltb
list_queue_tags queue_id = when_exists queue_id λ db. (
  map (λ row. (row.tag_key, row.tag_value))
      (order_by (λ a b. text_ltb a.tag_key b.tag_key)
        (keep (λ row. eqb row.queue_id queue_id) db.tags)),
  db,
)

unfoldable pub tag_queue : ℕ → List (String × String) → Query Unit
unfolding upsert_tags
tag_queue queue_id tags =
    when_exists queue_id λ db. (tt, record db { tags = upsert_tags queue_id tags db.tags })

unfoldable pub untag_queue : ℕ → List String → Query Unit
unfolding remove_tags
untag_queue queue_id tag_keys =
    when_exists queue_id λ db. (tt, record db { tags = remove_tags queue_id tag_keys db.tags })
