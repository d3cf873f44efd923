-- ===== src/Store/Sns.antt =====
-- hiraeth_store/src/sns.rs: topics, subscriptions and the updates of their attributes. Row ids and
-- times are natural numbers.
use hiraeth.Common.{ℕ, String, Option, none, some, ◌==◌, if◌then◌else◌}

pub record SnsTopic : Type 0 where
  pub id : ℕ
  pub name : String
  pub region : String
  pub account_id : String
  pub display_name : Option String
  pub policy : String
  pub delivery_policy : Option String
  pub fifo_topic : Option String
  pub signature_version : Option String
  pub tracing_config : Option String
  pub kms_master_key_id : Option String
  pub data_protection_policy : Option String
  pub archive_policy : Option String
  pub beginning_archive_time : Option String
  pub content_based_deduplication : Option String
  pub created_at : ℕ

pub record SnsSubscription : Type 0 where
  pub id : ℕ
  pub topic_arn : String
  pub protocol : String
  pub endpoint : String
  pub owner_account_id : String
  pub subscription_arn : String
  pub delivery_policy : Option String
  pub filter_policy : Option String
  pub filter_policy_scope : Option String
  pub raw_message_delivery : Option String
  pub redrive_policy : Option String
  pub subscription_role_arn : Option String
  pub replay_policy : Option String
  pub created_at : ℕ

pub record SnsSubscriptionAttributeUpdate : Type 0 where
  pub delivery_policy : Option String
  pub filter_policy : Option String
  pub filter_policy_scope : Option String
  pub raw_message_delivery : Option String
  pub redrive_policy : Option String
  pub subscription_role_arn : Option String
  pub replay_policy : Option String

-- `SnsSubscriptionAttributeUpdate::default()`
abbrev pub no_subscription_update : SnsSubscriptionAttributeUpdate
no_subscription_update = record {
  delivery_policy = none;
  filter_policy = none;
  filter_policy_scope = none;
  raw_message_delivery = none;
  redrive_policy = none;
  subscription_role_arn = none;
  replay_policy = none;
}

-- `SnsSubscriptionAttributeUpdate::from_attribute_name_and_value`
unfoldable pub subscription_update : String → String → SnsSubscriptionAttributeUpdate
subscription_update attribute_name attribute_value =
    if attribute_name == "DeliveryPolicy"
    then record no_subscription_update { delivery_policy = some attribute_value }
    else if attribute_name == "FilterPolicy"
    then record no_subscription_update { filter_policy = some attribute_value }
    else if attribute_name == "FilterPolicyScope"
    then record no_subscription_update { filter_policy_scope = some attribute_value }
    else if attribute_name == "RawMessageDelivery"
    then record no_subscription_update { raw_message_delivery = some attribute_value }
    else if attribute_name == "RedrivePolicy"
    then record no_subscription_update { redrive_policy = some attribute_value }
    else if attribute_name == "SubscriptionRoleArn"
    then record no_subscription_update { subscription_role_arn = some attribute_value }
    else if attribute_name == "ReplayPolicy"
    then record no_subscription_update { replay_policy = some attribute_value }
    else no_subscription_update

pub record SnsTopicAttributeUpdate : Type 0 where
  pub delivery_policy : Option String
  pub display_name : Option String
  pub policy : Option String
  pub tracing_config : Option String
  pub kms_master_key_id : Option String
  pub signature_version : Option String
  pub fifo_topic : Option String
  pub data_protection_policy : Option String
  pub archive_policy : Option String
  pub beginning_archive_time : Option String
  pub content_based_deduplication : Option String

-- `SnsTopicAttributeUpdate::default()`
abbrev pub no_topic_update : SnsTopicAttributeUpdate
no_topic_update = record {
  delivery_policy = none;
  display_name = none;
  policy = none;
  tracing_config = none;
  kms_master_key_id = none;
  signature_version = none;
  fifo_topic = none;
  data_protection_policy = none;
  archive_policy = none;
  beginning_archive_time = none;
  content_based_deduplication = none;
}

-- `SnsTopicAttributeUpdate::from_attribute_name_and_value`
unfoldable pub topic_update : String → String → SnsTopicAttributeUpdate
topic_update attribute_name attribute_value =
    if attribute_name == "DeliveryPolicy"
    then record no_topic_update { delivery_policy = some attribute_value }
    else if attribute_name == "DisplayName"
    then record no_topic_update { display_name = some attribute_value }
    else if attribute_name == "Policy"
    then record no_topic_update { policy = some attribute_value }
    else if attribute_name == "TracingConfig"
    then record no_topic_update { tracing_config = some attribute_value }
    else if attribute_name == "KmsMasterKeyId"
    then record no_topic_update { kms_master_key_id = some attribute_value }
    else if attribute_name == "SignatureVersion"
    then record no_topic_update { signature_version = some attribute_value }
    else if attribute_name == "FifoTopic"
    then record no_topic_update { fifo_topic = some attribute_value }
    else if attribute_name == "DataProtectionPolicy"
    then record no_topic_update { data_protection_policy = some attribute_value }
    else if attribute_name == "ArchivePolicy"
    then record no_topic_update { archive_policy = some attribute_value }
    else if attribute_name == "ContentBasedDeduplication"
    then record no_topic_update { content_based_deduplication = some attribute_value }
    else no_topic_update
