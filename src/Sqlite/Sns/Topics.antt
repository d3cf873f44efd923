-- ===== src/Sqlite/Sns/Topics.antt =====
-- hiraeth_store_sqlx/src/sns.rs: the attributes of a topic and its tags.
use hiraeth.Common.{
  ℕ, String, Bool, not, ◌&&◌, List, [], ◌∷◌, map, Option, none, some, ◌==◌, eqb, keep,
  if◌then◌else◌, ok, err, split, text_ltb, order_by, ◌⊕◌,
}
use hiraeth.Sqlite.Sqs.Admin.{coalesce}
use hiraeth.Sqlite.Sns.{Db, Query, TagRow, find_topic, topic_parts, or_old}
use hiraeth.Store.Sns.{SnsTopic, SnsTopicAttributeUpdate}
use hiraeth.Store.{not_found}

-- the rest of an operation on the topic that was looked up
abbrev pub on_topic : {A : Type 0} → (SnsTopic → Db → A × Db) → Option SnsTopic → Query A
on_topic run none db = (err (not_found "topic not found"), db)
on_topic run (some topic) db = (ok (run topic db).0, (run topic db).1)

-- `self.get_topic(topic_arn).await?.ok_or(..)?`, then the rest
abbrev pub with_topic : {A : Type 0} → String → (SnsTopic → Db → A × Db) → Query A
unfolding split
with_topic topic_arn run db =
    on_topic run (find_topic (topic_parts (split 58 topic_arn)) db.topics) db

-- the SET clause of `set_topic_attributes`; ids are unique, so the row is the one read
abbrev pub update_topic : SnsTopicAttributeUpdate → SnsTopic → SnsTopic
update_topic u t = record t {
  delivery_policy = or_old u.delivery_policy t.delivery_policy;
  display_name = or_old u.display_name t.display_name;
  policy = coalesce u.policy t.policy;
  tracing_config = or_old u.tracing_config t.tracing_config;
  kms_master_key_id = or_old u.kms_master_key_id t.kms_master_key_id;
  signature_version = or_old u.signature_version t.signature_version;
  fifo_topic = or_old u.fifo_topic t.fifo_topic;
  data_protection_policy = or_old u.data_protection_policy t.data_protection_policy;
  archive_policy = or_old u.archive_policy t.archive_policy;
  beginning_archive_time = or_old u.beginning_archive_time t.beginning_archive_time;
  content_based_deduplication = or_old u.content_based_deduplication t.content_based_deduplication;
}

unfoldable pub set_topic_attributes :
    String → String → String → SnsTopicAttributeUpdate → Query Unit
unfolding split
set_topic_attributes account_id region topic_name update =
    with_topic ("arn:aws:sns:" ⊕ region ⊕ ":" ⊕ account_id ⊕ ":" ⊕ topic_name) λ topic db. (
      tt,
      record db {
        topics = map (λ t. if eqb t.id topic.id then update_topic update t else t) db.topics;
      },
    )

unfoldable pub list_topic_tags : String → Query (List (String × String))
unfolding split order_by text_ltb
list_topic_tags topic_arn = with_topic topic_arn λ topic db. (
  map (λ row. (row.tag_key, row.tag_value))
      (order_by (λ a b. text_ltb a.tag_key b.tag_key)
        (keep (λ row. eqb row.topic_id topic.id) db.tags)),
  db,
)

abbrev pub has_tag : ℕ → String → TagRow → Bool
has_tag topic_id key row = eqb row.topic_id topic_id && row.tag_key == key

-- INSERT ... ON CONFLICT(topic_id, key) DO UPDATE
unfoldable pub upsert_tag : ℕ → String → String → List TagRow → List TagRow
upsert_tag topic_id key value [] =
    record { topic_id = topic_id; tag_key = key; tag_value = value } ∷ []
upsert_tag topic_id key value (row ∷ rows) =
    if has_tag topic_id key row
    then record row { tag_value = value } ∷ rows
    else row ∷ upsert_tag topic_id key value rows

unfoldable pub upsert_tags : ℕ → List (String × String) → List TagRow → List TagRow
upsert_tags topic_id [] rows = rows
upsert_tags topic_id ((key, value) ∷ tags) rows =
    upsert_tags topic_id tags (upsert_tag topic_id key value rows)

unfoldable pub remove_tags : ℕ → List String → List TagRow → List TagRow
remove_tags topic_id [] rows = rows
remove_tags topic_id (key ∷ keys) rows =
    remove_tags topic_id keys (keep (λ row. not (has_tag topic_id key row)) rows)

unfoldable pub tag_topic : String → List (String × String) → Query Unit
unfolding split
tag_topic topic_arn tags =
    with_topic topic_arn λ topic db. (tt, record db { tags = upsert_tags topic.id tags db.tags })

unfoldable pub untag_topic : String → List String → Query Unit
unfolding split
untag_topic topic_arn tag_keys =
    with_topic topic_arn
      λ topic db. (tt, record db { tags = remove_tags topic.id tag_keys db.tags })
