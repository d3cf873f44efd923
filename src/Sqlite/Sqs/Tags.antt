-- ===== src/Sqlite/Sqs/Tags.antt =====
-- The tags of hiraeth_store_sqlx/src/sqs.rs as what they are for: a map from keys to values for each
-- queue.
pub mod Laws
mod Examples
use hiraeth.Common.{
  ℕ, String, Bool, true, false, not, ◌&&◌, List, [], ◌∷◌, Option, none, some, ◌==◌, eqb, eqb_iff,
  eq_iff, eq_refl, find, keep, if◌then◌else◌, ◌≡◌, ◌≢◌, refl, sym, ap, ◌∙◌, inl, inr, arith,
  Bool-cases, Result, ok, err,
}
use mathlib.Core.Path.{fun_ext}
use hiraeth.Sqlite.Sqs.Admin.{
  after_check, ensure_queue_exists, has_tag, remove_tags, tag_queue, untag_queue, upsert_tag,
  upsert_tags,
}
use hiraeth.Sqlite.Sqs.{Db, TagRow, has_queue}
use hiraeth.Store.{StoreError}

-- what tagging means, on the map of one queue
abbrev pub TagMap : Type 0
TagMap = String → Option String

abbrev pub insert : String → String → TagMap → TagMap
insert key value tags other = if key == other then some value else tags other

abbrev pub remove : String → TagMap → TagMap
remove key tags other = if key == other then none else tags other

abbrev pub insert_all : List (String × String) → TagMap → TagMap
insert_all [] tags = tags
insert_all ((key, value) ∷ rest) tags = insert_all rest (insert key value tags)

abbrev pub remove_all : List String → TagMap → TagMap
remove_all [] tags = tags
remove_all (key ∷ keys) tags = remove_all keys (remove key tags)

pub data TagCommand : Type 0 where
  tag : List (String × String) → TagCommand
  untag : List String → TagCommand

abbrev pub replay : List TagCommand → TagMap → TagMap
replay [] tags = tags
replay (tag pairs ∷ commands) tags = replay commands (insert_all pairs tags)
replay (untag keys ∷ commands) tags = replay commands (remove_all keys tags)

-- the same on the tables, by the operations of the store
unfoldable pub run_tags : ℕ → List TagCommand → Db → Db
unfolding tag_queue untag_queue
run_tags queue_id [] db = db
run_tags queue_id (tag pairs ∷ commands) db =
    run_tags queue_id commands (tag_queue queue_id pairs db).1
run_tags queue_id (untag keys ∷ commands) db =
    run_tags queue_id commands (untag_queue queue_id keys db).1

abbrev pub value_of : Option TagRow → Option String
value_of none = none
value_of (some row) = some row.tag_value

-- the map of a queue that the rows hold
unfoldable pub tags_of : ℕ → List TagRow → TagMap
tags_of queue_id rows key = value_of (find (has_tag queue_id key) rows)
