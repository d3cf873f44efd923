-- ===== src/Sqlite/Sns/Changes.antt =====
-- hiraeth_store_sqlx/src/sns.rs: what deletions and changes of rows keep of the tables' keys.
use hiraeth.Common.{
  ℕ, String, Bool, true, not, ◌&&◌, List, Option, none, some, ◌==◌, eqb, any, keep, if◌then◌else◌,
  ◌≡◌, inl, inr, arith, Bool-cases, All, All-keep, All-mem, mem-All, Distinct-keep, Distinct-map,
  find-some, Some-any, any-Some, keep-mem, mem-keep,
}
use hiraeth.Sqlite.Sns.Valid.{IsValid, identity, has_topic, given_map}
use hiraeth.Sqlite.Sns.{
  Db, TagRow, delete_subscription, delete_subscription_by_id, delete_topic_rows, find_topic,
  is_topic, update_subscription, update_subscriptions,
}
use hiraeth.Store.Sns.{SnsTopic, SnsSubscription, SnsSubscriptionAttributeUpdate}

keep_subscriptions-IsValid :
    (p : SnsSubscription → Bool) (db : Db)
    → IsValid db
    → IsValid (record db { subscriptions = keep p db.subscriptions })
keep_subscriptions-IsValid p db v = record {
  topic_ids = v.topic_ids;
  topic_ids_given = v.topic_ids_given;
  identities = v.identities;
  subscription_ids = Distinct-keep _ p db.subscriptions v.subscription_ids;
  subscription_ids_given = All-keep _ p db.subscriptions v.subscription_ids_given;
  subscription_arns = Distinct-keep _ p db.subscriptions v.subscription_arns;
  tagged = v.tagged;
}

pub with_tags-IsValid :
    (tags : List TagRow) (db : Db)
    → IsValid db
    → All (λ row. has_topic row.topic_id db.topics ≡ true) tags
    → IsValid (record db { tags = tags })
with_tags-IsValid tags db v h = record {
  topic_ids = v.topic_ids;
  topic_ids_given = v.topic_ids_given;
  identities = v.identities;
  subscription_ids = v.subscription_ids;
  subscription_ids_given = v.subscription_ids_given;
  subscription_arns = v.subscription_arns;
  tagged = h;
}

pub delete_subscription-IsValid :
    (arn : String) (db : Db) → IsValid db → IsValid (delete_subscription arn db).1
unfolding delete_subscription
delete_subscription-IsValid arn db v =
    elim (Bool-cases (any (λ s. s.subscription_arn == arn) db.subscriptions)) [
      | inl e ↦ rw e (keep_subscriptions-IsValid _ db v)
      | inr e ↦ rw e v
    ]

pub delete_subscription_by_id-IsValid :
    (id : ℕ) (db : Db) → IsValid db → IsValid (delete_subscription_by_id id db).1
unfolding delete_subscription_by_id
delete_subscription_by_id-IsValid id db v =
    elim (Bool-cases (any (λ s. eqb s.id id) db.subscriptions)) [
      | inl e ↦ rw e (keep_subscriptions-IsValid _ db v)
      | inr e ↦ rw e v
    ]

pub update_subscriptions-IsValid :
    (update : SnsSubscriptionAttributeUpdate) (found : Option SnsSubscription) (db : Db)
    → IsValid db
    → IsValid (update_subscriptions update found db).1
update_subscriptions-IsValid update none db v = v
update_subscriptions-IsValid update (some subscription) db v = record {
  topic_ids = v.topic_ids;
  topic_ids_given = v.topic_ids_given;
  identities = v.identities;
  subscription_ids = Distinct-map _ after db.subscriptions same_id v.subscription_ids;
  subscription_ids_given =
      given_map (λ s. s.id) db.last_subscription_id after db.subscriptions same_id
        v.subscription_ids_given;
  subscription_arns =
      Distinct-map (λ s. s.subscription_arn) after db.subscriptions (λ s. ground arith)
        v.subscription_arns;
  tagged = v.tagged;
}
  where
    after : SnsSubscription → SnsSubscription
    after s = if eqb s.id subscription.id then update_subscription update s else s

    same_id : (s : SnsSubscription) → (after s).id ≡ s.id
    same_id s = ground arith

-- no row of tags is left without its topic
pub delete_topic_rows-IsValid :
    (arn : String) (parts : Option (String × String × String)) (db : Db)
    → IsValid db
    → IsValid (delete_topic_rows arn parts db).1
delete_topic_rows-IsValid arn none db v = v
delete_topic_rows-IsValid arn (some (region, account_id, name)) db v =
    elim (Bool-cases (any (is_topic name region account_id) db.topics)) [
      | inr e ↦ rw e (with_tags-IsValid _ db v (All-keep _ _ db.tags v.tagged))
      | inl e ↦ rw e (record {
        topic_ids = Distinct-keep (λ t. t.id) _ db.topics v.topic_ids;
        topic_ids_given = All-keep _ _ db.topics v.topic_ids_given;
        identities = Distinct-keep identity _ db.topics v.identities;
        subscription_ids = Distinct-keep (λ s. s.id) _ db.subscriptions v.subscription_ids;
        subscription_ids_given = All-keep _ _ db.subscriptions v.subscription_ids_given;
        subscription_arns =
            Distinct-keep (λ s. s.subscription_arn) _ db.subscriptions v.subscription_arns;
        tagged = mem-All _ _ (λ row m.
            let (there, free) = mem-keep _ db.tags m in
            still row (All-mem _ db.tags v.tagged there) free);
      })
    ]
  where
    still :
        (row : TagRow)
        → has_topic row.topic_id db.topics ≡ true
        → not (any (λ t. is_topic name region account_id t && eqb t.id row.topic_id) db.topics)
          ≡ true
        → has_topic row.topic_id (keep (λ t. not (is_topic name region account_id t)) db.topics)
          ≡ true
    still row h free =
        let (t, m, same) = any-Some (λ t. eqb t.id row.topic_id) db.topics h in
        elim (Bool-cases (is_topic name region account_id t)) [
          | inr e ↦
              let other : not (is_topic name region account_id t) ≡ true = rw e in
              Some-any _ _ (t, keep-mem _ db.topics m other, same)
          | inl e ↦
              let both : (is_topic name region account_id t && eqb t.id row.topic_id) ≡ true =
                rw (e, same) in
              let owner : any (λ u. is_topic name region account_id u && eqb u.id row.topic_id)
                    db.topics
                  ≡ true =
                Some-any _ db.topics (t, m, both) in
              absurd (cc (rw owner at free))
        ]

pub find_topic-has_topic :
    (parts : Option (String × String × String)) (topics : List SnsTopic) (topic : SnsTopic)
    → find_topic parts topics ≡ some topic
    → has_topic topic.id topics ≡ true
find_topic-has_topic none topics topic h = absurd (cc h)
find_topic-has_topic (some (region, account_id, name)) topics topic h =
    Some-any _ topics (topic, (find-some _ topics topic h).0, ground arith)
