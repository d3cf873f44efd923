-- ===== src/Sqlite/Sns.antt =====
-- hiraeth_store_sqlx/src/sns.rs: the topic store over three SQLite tables, each statement as what it
-- does to the rows. A table lists its rows in the order of their ids, which AUTOINCREMENT gives out
-- once. Constraints are those of hiraeth_store_sqlx/migrations. A statement runs unless it breaks
-- one. LIKE is SQLite's, so it is a parameter: the value, then the pattern.
pub mod Topics
pub mod Updated
pub mod Laws
pub mod Valid
pub mod Changes
pub mod Reach
mod Examples
use hiraeth.Common.{
  ℕ, suc, String, Bool, not, ◌&&◌, List, [], ◌∷◌, ◌++◌, map, Option, none, some, ◌==◌, eqb, any,
  find, keep, if◌then◌else◌, ℤ, pos, Result, ok, err, split, text_ltb, order_by, ◌⊕◌,
}
use hiraeth.Sqlite.Sqs.Admin.{if_given}
use hiraeth.Sqlite.Sqs.Receive.{limit}
use hiraeth.Store.Sns.{
  SnsTopic, SnsSubscription, SnsTopicAttributeUpdate, SnsSubscriptionAttributeUpdate,
}
use hiraeth.Store.{StoreError, not_found, conflict}

pub record TagRow : Type 0 where
  pub topic_id : ℕ
  pub tag_key : String
  pub tag_value : String

pub record Db : Type 0 where
  pub topics : List SnsTopic
  pub last_topic_id : ℕ
  pub subscriptions : List SnsSubscription
  pub last_subscription_id : ℕ
  pub tags : List TagRow

abbrev pub Query : Type 0 → Type 0
Query A = Db → Result A StoreError × Db

abbrev pub is_topic : String → String → String → SnsTopic → Bool
is_topic name region account_id t =
    t.name == name && t.region == region && t.account_id == account_id

-- the region, the account and the name in the parts of an ARN, when there are six
abbrev pub topic_parts : List String → Option (String × String × String)
topic_parts (_ ∷ _ ∷ _ ∷ region ∷ account_id ∷ name ∷ []) = some (region, account_id, name)
topic_parts _ = none

abbrev pub find_topic : Option (String × String × String) → List SnsTopic → Option SnsTopic
find_topic none topics = none
find_topic (some (region, account_id, name)) topics = find (is_topic name region account_id) topics

unfoldable pub get_topic : String → Query (Option SnsTopic)
unfolding split
get_topic topic_arn db = (ok (find_topic (topic_parts (split 58 topic_arn)) db.topics), db)

unfoldable pub get_topic_by_id : ℕ → Query (Option SnsTopic)
get_topic_by_id id db = (ok (find (λ t. eqb t.id id) db.topics), db)

abbrev pub limit_or_max : Option ℤ → ℤ
limit_or_max none = pos 9223372036854775807
limit_or_max (some n) = n

module _ (like : String → String → Bool) where
  unfoldable pub list_topics : String → String → Option String → Option ℤ → Query (List SnsTopic)
  unfolding order_by text_ltb
  list_topics region account_id prefix limit_ db = (
    ok (
        limit (limit_or_max limit_) (
          order_by (λ t u. text_ltb t.name u.name)
            (keep
              (λ t.
                t.region == region
                && t.account_id == account_id
                && if_given prefix (λ p. like t.name (p ⊕ "%")))
              db.topics))),
    db,
  )

  unfoldable pub list_subscriptions : String → String → Option ℤ → Query (List SnsSubscription)
  unfolding order_by text_ltb
  list_subscriptions region account_id limit_ db = (
    ok (
        limit (limit_or_max limit_) (
          order_by (λ s r. text_ltb s.subscription_arn r.subscription_arn)
            (keep
              (λ s.
                s.owner_account_id == account_id
                && like s.topic_arn ("arn:aws:sns:" ⊕ region ⊕ ":" ⊕ account_id ⊕ ":%"))
              db.subscriptions))),
    db,
  )

unfoldable pub list_subscriptions_by_topic : String → Query (List SnsSubscription)
list_subscriptions_by_topic topic_arn db =
    (ok (keep (λ s. s.topic_arn == topic_arn) db.subscriptions), db)

module _ (unique_message : String) where
  unfoldable pub create_topic : SnsTopic → Query Unit
  create_topic topic db =
      if any (is_topic topic.name topic.region topic.account_id) db.topics
      then (err (conflict unique_message), db)
      else (
        ok tt,
        record db {
          topics = db.topics ++ record topic { id = suc db.last_topic_id } ∷ [];
          last_topic_id = suc db.last_topic_id;
        },
      )

  unfoldable pub create_subscription : SnsSubscription → Query Unit
  create_subscription subscription db =
      if any (λ s. s.subscription_arn == subscription.subscription_arn) db.subscriptions
      then (err (conflict unique_message), db)
      else (
        ok tt,
        record db {
          subscriptions =
              db.subscriptions ++ record subscription { id = suc db.last_subscription_id } ∷ [];
          last_subscription_id = suc db.last_subscription_id;
        },
      )

-- the tags first, then the topic, then the subscriptions under this very ARN
abbrev pub delete_topic_rows : String → Option (String × String × String) → Query Unit
delete_topic_rows topic_arn none db = (err (not_found "topic not found"), db)
delete_topic_rows topic_arn (some (region, account_id, name)) db =
    let tags =
      keep
        (λ row.
          not (any (λ t. is_topic name region account_id t && eqb t.id row.topic_id) db.topics))
        db.tags in
    if any (is_topic name region account_id) db.topics
    then (
      ok tt,
      record db {
        topics = keep (λ t. not (is_topic name region account_id t)) db.topics;
        subscriptions = keep (λ s. not (s.topic_arn == topic_arn)) db.subscriptions;
        tags = tags;
      },
    )
    else (err (not_found "topic not found"), record db { tags = tags })

unfoldable pub delete_topic : String → Query Unit
unfolding split
delete_topic topic_arn = delete_topic_rows topic_arn (topic_parts (split 58 topic_arn))

unfoldable pub get_subscription : String → Query (Option SnsSubscription)
get_subscription subscription_arn db =
    (ok (find (λ s. s.subscription_arn == subscription_arn) db.subscriptions), db)

unfoldable pub get_subscription_by_id : ℕ → Query (Option SnsSubscription)
get_subscription_by_id id db = (ok (find (λ s. eqb s.id id) db.subscriptions), db)

unfoldable pub delete_subscription : String → Query Unit
delete_subscription subscription_arn db =
    if any (λ s. s.subscription_arn == subscription_arn) db.subscriptions
    then (
      ok tt,
      record db {
        subscriptions = keep (λ s. not (s.subscription_arn == subscription_arn)) db.subscriptions;
      },
    )
    else (err (not_found "subscription not found"), db)

unfoldable pub delete_subscription_by_id : ℕ → Query Unit
delete_subscription_by_id id db =
    if any (λ s. eqb s.id id) db.subscriptions
    then (ok tt, record db { subscriptions = keep (λ s. not (eqb s.id id)) db.subscriptions })
    else (err (not_found "subscription not found"), db)

-- `Option::or`
abbrev pub or_old : Option String → Option String → Option String
or_old none old = old
or_old (some new) old = some new

-- the SET clause of `set_subscription_attributes`; ids are unique, so the row is the one read
abbrev pub update_subscription : SnsSubscriptionAttributeUpdate → SnsSubscription → SnsSubscription
update_subscription u s = record s {
  delivery_policy = or_old u.delivery_policy s.delivery_policy;
  filter_policy = or_old u.filter_policy s.filter_policy;
  filter_policy_scope = or_old u.filter_policy_scope s.filter_policy_scope;
  raw_message_delivery = or_old u.raw_message_delivery s.raw_message_delivery;
  redrive_policy = or_old u.redrive_policy s.redrive_policy;
  subscription_role_arn = or_old u.subscription_role_arn s.subscription_role_arn;
  replay_policy = or_old u.replay_policy s.replay_policy;
}

abbrev pub update_subscriptions :
    SnsSubscriptionAttributeUpdate → Option SnsSubscription → Query Unit
update_subscriptions update none db = (err (not_found "subscription not found"), db)
update_subscriptions update (some subscription) db = (
  ok tt,
  record db {
    subscriptions =
        map (λ s. if eqb s.id subscription.id then update_subscription update s else s)
          db.subscriptions;
  },
)

unfoldable pub set_subscription_attributes : String → SnsSubscriptionAttributeUpdate → Query Unit
set_subscription_attributes subscription_arn update db =
    update_subscriptions update
      (find (λ s. s.subscription_arn == subscription_arn) db.subscriptions) db
