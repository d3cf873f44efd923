-- ===== src/Sqlite/Sns/Reach.antt =====
-- The sequences of operations that change the tables of hiraeth_store_sqlx/src/sns.rs.
use hiraeth.Common.{
  ℕ, String, true, List, [], ◌∷◌, Option, none, some, ◌==◌, eqb, find, if◌then◌else◌, ◌≡◌, refl,
  ◌∙◌, inl, inr, arith, Bool-cases, split, All, All-keep, All-mem, mem-All, Distinct-map,
}
use hiraeth.Sqlite.Sns.Changes.{
  delete_subscription-IsValid, delete_subscription_by_id-IsValid, delete_topic_rows-IsValid,
  find_topic-has_topic, update_subscriptions-IsValid, with_tags-IsValid,
}
use hiraeth.Sqlite.Sns.Topics.{
  on_topic, set_topic_attributes, update_topic, tag_topic, untag_topic, upsert_tag, upsert_tags,
  remove_tags, has_tag,
}
use hiraeth.Sqlite.Sns.Valid.{
  IsValid, identity, has_topic, given_map, any-map, create_topic-IsValid,
  create_subscription-IsValid,
}
use hiraeth.Sqlite.Sns.{
  Db, TagRow, create_subscription, create_topic, delete_subscription, delete_subscription_by_id,
  delete_topic, find_topic, set_subscription_attributes, topic_parts,
}
use hiraeth.Store.Sns.{
  SnsTopic, SnsSubscription, SnsTopicAttributeUpdate, SnsSubscriptionAttributeUpdate,
}

-- one operation, with what it reads of its surroundings
pub data Command : Type 0 where
  create : SnsTopic → Command
  delete : String → Command
  subscribe : SnsSubscription → Command
  unsubscribe : String → Command
  unsubscribe_by_id : ℕ → Command
  set_subscription : String → SnsSubscriptionAttributeUpdate → Command
  set_topic : String → String → String → SnsTopicAttributeUpdate → Command
  tag : String → List (String × String) → Command
  untag : String → List String → Command

abbrev pub empty_db : Db
empty_db = record {
  topics = [];
  last_topic_id = 0;
  subscriptions = [];
  last_subscription_id = 0;
  tags = [];
}

-- An operation on a topic keeps the tables valid when it does so on a topic that exists.
on_topic-IsValid :
    (change : SnsTopic → Db → Unit × Db) (parts : Option (String × String × String)) (db : Db)
    → ((topic : SnsTopic) → has_topic topic.id db.topics ≡ true → IsValid (change topic db).1)
    → IsValid db
    → IsValid (on_topic change (find_topic parts db.topics) db).1
on_topic-IsValid change parts db keeps v = go (find_topic parts db.topics) refl
  where
    go :
        (found : Option SnsTopic)
        → find_topic parts db.topics ≡ found
        → IsValid (on_topic change found db).1
    go none e = v
    go (some topic) e = keeps topic (find_topic-has_topic parts db.topics topic e)

set_topic_attributes-IsValid :
    (account_id region topic_name : String) (update : SnsTopicAttributeUpdate) (db : Db)
    → IsValid db
    → IsValid (set_topic_attributes account_id region topic_name update db).1
unfolding set_topic_attributes
set_topic_attributes-IsValid account_id region topic_name update db v =
    on_topic-IsValid _ _ db
      (λ topic h. record {
        topic_ids = Distinct-map (λ t. t.id) (after topic) db.topics (same_id topic) v.topic_ids;
        topic_ids_given =
            given_map (λ t. t.id) db.last_topic_id (after topic) db.topics (same_id topic)
              v.topic_ids_given;
        identities = Distinct-map identity (after topic) db.topics (λ t. ground arith) v.identities;
        subscription_ids = v.subscription_ids;
        subscription_ids_given = v.subscription_ids_given;
        subscription_arns = v.subscription_arns;
        tagged = mem-All _ db.tags (λ row m.
            any-map (λ t. t.id) row.topic_id (after topic) db.topics (same_id topic)
            ∙ All-mem _ db.tags v.tagged m);
      })
      v
  where
    after : SnsTopic → SnsTopic → SnsTopic
    after topic t = if eqb t.id topic.id then update_topic update t else t

    same_id : (topic t : SnsTopic) → (after topic t).id ≡ t.id
    same_id topic t = ground arith

module _ (topics : List SnsTopic) (topic_id : ℕ) (h : has_topic topic_id topics ≡ true) where
  upsert_tag-tagged :
      (key value : String) (rows : List TagRow)
      → All (λ row. has_topic row.topic_id topics ≡ true) rows
      → All (λ row. has_topic row.topic_id topics ≡ true) (upsert_tag topic_id key value rows)
  unfolding upsert_tag
  upsert_tag-tagged key value [] k = (h, tt)
  upsert_tag-tagged key value (row ∷ rows) (k, ks) = elim (Bool-cases (has_tag topic_id key row)) [
    | inl e ↦ rw e (k, ks)
    | inr e ↦ rw e (k, upsert_tag-tagged key value rows ks)
  ]

  upsert_tags-tagged :
      (tags : List (String × String)) (rows : List TagRow)
      → All (λ row. has_topic row.topic_id topics ≡ true) rows
      → All (λ row. has_topic row.topic_id topics ≡ true) (upsert_tags topic_id tags rows)
  unfolding upsert_tags
  upsert_tags-tagged [] rows k = k
  upsert_tags-tagged ((key, value) ∷ tags) rows k =
      upsert_tags-tagged tags (upsert_tag topic_id key value rows)
        (upsert_tag-tagged key value rows k)

remove_tags-All :
    (P : TagRow → Type 0) (topic_id : ℕ) (keys : List String) (rows : List TagRow)
    → All P rows
    → All P (remove_tags topic_id keys rows)
unfolding remove_tags
remove_tags-All P topic_id [] rows h = h
remove_tags-All P topic_id (key ∷ keys) rows h =
    remove_tags-All P topic_id keys _ (All-keep P _ rows h)

module _ (unique_message : String) where
  unfoldable pub run : Command → Db → Db
  run (create topic) db = (create_topic unique_message topic db).1
  run (delete topic_arn) db = (delete_topic topic_arn db).1
  run (subscribe subscription) db = (create_subscription unique_message subscription db).1
  run (unsubscribe arn) db = (delete_subscription arn db).1
  run (unsubscribe_by_id id) db = (delete_subscription_by_id id db).1
  run (set_subscription arn update) db = (set_subscription_attributes arn update db).1
  run (set_topic account_id region name update) db =
      (set_topic_attributes account_id region name update db).1
  run (tag topic_arn tags) db = (tag_topic topic_arn tags db).1
  run (untag topic_arn keys) db = (untag_topic topic_arn keys db).1

  run-IsValid : (c : Command) (db : Db) → IsValid db → IsValid (run c db)
  unfolding run delete_topic set_subscription_attributes tag_topic untag_topic
  run-IsValid (create topic) db v = create_topic-IsValid _ topic db v
  run-IsValid (delete topic_arn) db v =
      delete_topic_rows-IsValid topic_arn (topic_parts (split 58 topic_arn)) db v
  run-IsValid (subscribe subscription) db v = create_subscription-IsValid _ subscription db v
  run-IsValid (unsubscribe arn) db v = delete_subscription-IsValid arn db v
  run-IsValid (unsubscribe_by_id id) db v = delete_subscription_by_id-IsValid id db v
  run-IsValid (set_subscription arn update) db v =
      update_subscriptions-IsValid update (find (λ s. s.subscription_arn == arn) db.subscriptions)
        db v
  run-IsValid (set_topic account_id region name update) db v =
      set_topic_attributes-IsValid account_id region name update db v
  run-IsValid (tag topic_arn tags) db v =
      on_topic-IsValid (λ topic d. (tt, record d { tags = upsert_tags topic.id tags d.tags }))
        (topic_parts (split 58 topic_arn)) db
        (λ topic h.
          with_tags-IsValid _ db v (upsert_tags-tagged db.topics topic.id h tags db.tags v.tagged))
        v
  run-IsValid (untag topic_arn keys) db v =
      on_topic-IsValid (λ topic d. (tt, record d { tags = remove_tags topic.id keys d.tags }))
        (topic_parts (split 58 topic_arn)) db
        (λ topic h. with_tags-IsValid _ db v (remove_tags-All _ topic.id keys db.tags v.tagged)) v

  -- what a sequence of operations reaches from empty tables
  pub data Reachable : Db → Type 0 where
    start : Reachable empty_db
    next : {db : Db} (c : Command) → Reachable db → Reachable (run c db)

  -- Whatever operations run on the topic store, in whatever order, the ids of topics and of
  -- subscriptions, the identities of topics and the ARNs of subscriptions stay unique, no id exceeds
  -- the last one given, and every tag is on a topic that exists.
  pub topics-Reachable-IsValid : (db : Db) → Reachable db → IsValid db
  topics-Reachable-IsValid db start = record {
    topic_ids = tt;
    topic_ids_given = tt;
    identities = tt;
    subscription_ids = tt;
    subscription_ids_given = tt;
    subscription_arns = tt;
    tagged = tt;
  }
  topics-Reachable-IsValid db (next c r) = run-IsValid c _ (topics-Reachable-IsValid _ r)
