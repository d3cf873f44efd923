-- ===== src/Sqlite/Sns/Examples.antt =====
-- A topic with a subscription, its attributes set, tagged and deleted.
use hiraeth.Common.{Option, [], ◌∷◌, none, some, ◌≡◌, refl, ok, err}
use hiraeth.Sqlite.Sns.Laws.{
  NoTags, delete_topic-found, delete_topic-missing, set_topic_attributes-get_topic,
}
use hiraeth.Sqlite.Sns.Reach.{
  create, empty_db, next, run, start, subscribe, tag, topics-Reachable-IsValid,
}
use hiraeth.Sqlite.Sns.Topics.{
  list_topic_tags, set_topic_attributes, tag_topic, upsert_tag, upsert_tags,
}
use hiraeth.Sqlite.Sns.Updated.{IsSetOn}
use hiraeth.Sqlite.Sns.Valid.{IsValid}
use hiraeth.Sqlite.Sns.{
  Db, create_subscription, create_topic, delete_topic, get_topic, list_subscriptions_by_topic,
}
use hiraeth.Store.Sns.{SnsTopic, SnsSubscription, topic_update}
use hiraeth.Store.{not_found}

abbrev topic : SnsTopic
topic = record {
  id = 0;
  name = "t";
  region = "r";
  account_id = "1";
  display_name = none;
  policy = "{}";
  delivery_policy = none;
  fifo_topic = none;
  signature_version = none;
  tracing_config = none;
  kms_master_key_id = none;
  data_protection_policy = none;
  archive_policy = none;
  beginning_archive_time = none;
  content_based_deduplication = none;
  created_at = 0;
}

abbrev subscription : SnsSubscription
subscription = record {
  id = 0;
  topic_arn = "arn:aws:sns:r:1:t";
  protocol = "sqs";
  endpoint = "arn:aws:sqs:r:1:q";
  owner_account_id = "1";
  subscription_arn = "arn:aws:sns:r:1:t:s";
  delivery_policy = none;
  filter_policy = none;
  filter_policy_scope = none;
  raw_message_delivery = none;
  redrive_policy = none;
  subscription_role_arn = none;
  replay_policy = none;
  created_at = 0;
}

abbrev one_topic : Db
one_topic =
    run "unique" (tag "arn:aws:sns:r:1:t" (("env", "dev") ∷ []))
      (run "unique" (subscribe subscription) (run "unique" (create topic) empty_db))

abbrev stored_topic : SnsTopic
stored_topic = record topic { id = 1 }

one_topic-get : (get_topic "arn:aws:sns:r:1:t" one_topic).0 ≡ ok (some stored_topic)
unfolding get_topic run create_topic create_subscription tag_topic
one_topic-get = refl

one_topic-tags : (list_topic_tags "arn:aws:sns:r:1:t" one_topic).0 ≡ ok (("env", "dev") ∷ [])
unfolding list_topic_tags run create_topic create_subscription tag_topic upsert_tags upsert_tag
one_topic-tags = refl

topics-Reachable-IsValid_example : IsValid one_topic
topics-Reachable-IsValid_example = topics-Reachable-IsValid "unique" one_topic (
    next (tag "arn:aws:sns:r:1:t" (("env", "dev") ∷ []))
      (next (subscribe subscription) (next (create topic) start)))

delete_topic-found_example :
    ((delete_topic "arn:aws:sns:r:1:t" one_topic).0 ≡ ok tt)
    × ((get_topic "arn:aws:sns:r:1:t" (delete_topic "arn:aws:sns:r:1:t" one_topic).1).0 ≡ ok none)
    × ((list_subscriptions_by_topic "arn:aws:sns:r:1:t"
          (delete_topic "arn:aws:sns:r:1:t" one_topic).1).0
        ≡ ok [])
    × NoTags 1 (delete_topic "arn:aws:sns:r:1:t" one_topic).1.tags
delete_topic-found_example =
    delete_topic-found "arn:aws:sns:r:1:t" stored_topic one_topic one_topic-get

absent : (get_topic "arn:aws:sns:r:1:u" one_topic).0 ≡ ok none
unfolding get_topic run create_topic create_subscription tag_topic
absent = refl

delete_topic-missing_example :
    delete_topic "arn:aws:sns:r:1:u" one_topic ≡ (err (not_found "topic not found"), one_topic)
delete_topic-missing_example = delete_topic-missing "arn:aws:sns:r:1:u" one_topic absent

set_topic_attributes-get_topic_example :
    ((set_topic_attributes "1" "r" "t" (topic_update "DisplayName" "T") one_topic).0 ≡ ok tt)
    × ((after : Option SnsTopic) × ((get_topic "arn:aws:sns:r:1:t"
            (set_topic_attributes "1" "r" "t" (topic_update "DisplayName" "T") one_topic).1).0
          ≡ ok after)
        × IsSetOn (topic_update "DisplayName" "T") stored_topic (some stored_topic) after)
set_topic_attributes-get_topic_example =
    set_topic_attributes-get_topic "1" "r" "t" (topic_update "DisplayName" "T") stored_topic
      "arn:aws:sns:r:1:t" (some stored_topic) one_topic one_topic-get one_topic-get

-- The topic is found by the region, the account and the name in an ARN, its subscriptions by the
-- whole text: deleted under another partition, the topic leaves its subscription.
subscription_left :
    ((get_topic "arn:aws:sns:r:1:t" (delete_topic "arn:other:sns:r:1:t" one_topic).1).0 ≡ ok none)
    × ((list_subscriptions_by_topic "arn:aws:sns:r:1:t"
          (delete_topic "arn:other:sns:r:1:t" one_topic).1).0
        ≡ ok (record subscription { id = 1 } ∷ []))
unfolding get_topic run create_topic create_subscription tag_topic delete_topic
    list_subscriptions_by_topic
subscription_left = (refl, refl)
