-- ===== src/Sqlite/Sns/Updated.antt =====
-- What the SET clause of `set_topic_attributes` of hiraeth_store_sqlx/src/sns.rs does to a row.
use hiraeth.Common.{
  Option, none, some, String, eqb, eqb_iff, if◌then◌else◌, ◌≡◌, ◌≢◌, ◌⊎◌, refl, inl, inr, arith,
  Bool-cases, map_option,
}
use hiraeth.Sqlite.Sns.Topics.{update_topic}
use hiraeth.Sqlite.Sns.{or_old}
use hiraeth.Sqlite.Sqs.Admin.{coalesce}
use hiraeth.Store.Sns.{SnsTopic, SnsTopicAttributeUpdate}

-- the row after the update of the attributes of a topic
abbrev pub after_update : SnsTopicAttributeUpdate → SnsTopic → SnsTopic → SnsTopic
after_update update topic t = if eqb t.id topic.id then update_topic update t else t

-- a column after an update: the value given, or else the one before
abbrev pub Becomes : Option String → Option String → Option String → Type 0
Becomes none before after = after ≡ before
Becomes (some value) before after = after ≡ some value

abbrev pub BecomesText : Option String → String → String → Type 0
BecomesText none before after = after ≡ before
BecomesText (some value) before after = after ≡ value

-- Each column that can be updated is set, and the others are kept.
pub record IsUpdated (u : SnsTopicAttributeUpdate) (before after : SnsTopic) : Type 0 where
  pub kept_id : after.id ≡ before.id
  pub kept_name : after.name ≡ before.name
  pub kept_region : after.region ≡ before.region
  pub kept_account_id : after.account_id ≡ before.account_id
  pub kept_created_at : after.created_at ≡ before.created_at
  pub display_name : Becomes u.display_name before.display_name after.display_name
  pub policy : BecomesText u.policy before.policy after.policy
  pub delivery_policy : Becomes u.delivery_policy before.delivery_policy after.delivery_policy
  pub fifo_topic : Becomes u.fifo_topic before.fifo_topic after.fifo_topic
  pub signature_version :
      Becomes u.signature_version before.signature_version after.signature_version
  pub tracing_config : Becomes u.tracing_config before.tracing_config after.tracing_config
  pub kms_master_key_id :
      Becomes u.kms_master_key_id before.kms_master_key_id after.kms_master_key_id
  pub data_protection_policy :
      Becomes u.data_protection_policy before.data_protection_policy after.data_protection_policy
  pub archive_policy : Becomes u.archive_policy before.archive_policy after.archive_policy
  pub beginning_archive_time :
      Becomes u.beginning_archive_time before.beginning_archive_time after.beginning_archive_time
  pub content_based_deduplication :
      Becomes u.content_based_deduplication before.content_based_deduplication
        after.content_based_deduplication

or_old-Becomes : (u before : Option String) → Becomes u before (or_old u before)
or_old-Becomes none before = refl
or_old-Becomes (some value) before = refl

coalesce-BecomesText :
    (u : Option String) (before : String) → BecomesText u before (coalesce u before)
coalesce-BecomesText none before = refl
coalesce-BecomesText (some value) before = refl

update_topic-IsUpdated :
    (u : SnsTopicAttributeUpdate) (t : SnsTopic) → IsUpdated u t (update_topic u t)
update_topic-IsUpdated u t = record {
  kept_id = refl;
  kept_name = refl;
  kept_region = refl;
  kept_account_id = refl;
  kept_created_at = refl;
  display_name = or_old-Becomes u.display_name t.display_name;
  policy = coalesce-BecomesText u.policy t.policy;
  delivery_policy = or_old-Becomes u.delivery_policy t.delivery_policy;
  fifo_topic = or_old-Becomes u.fifo_topic t.fifo_topic;
  signature_version = or_old-Becomes u.signature_version t.signature_version;
  tracing_config = or_old-Becomes u.tracing_config t.tracing_config;
  kms_master_key_id = or_old-Becomes u.kms_master_key_id t.kms_master_key_id;
  data_protection_policy = or_old-Becomes u.data_protection_policy t.data_protection_policy;
  archive_policy = or_old-Becomes u.archive_policy t.archive_policy;
  beginning_archive_time = or_old-Becomes u.beginning_archive_time t.beginning_archive_time;
  content_based_deduplication =
      or_old-Becomes u.content_based_deduplication t.content_based_deduplication;
}

-- What an ARN names after the attributes of a topic are set: nothing as before, the topic updated, or
-- another topic as before.
abbrev pub IsSetOn : SnsTopicAttributeUpdate → SnsTopic → Option SnsTopic → Option SnsTopic → Type 0
IsSetOn update topic none none = Unit
IsSetOn update topic (some before) (some after) =
    ((before.id ≡ topic.id) × IsUpdated update before after)
    ⊎ ((before.id ≢ topic.id) × (after ≡ before))
IsSetOn update topic none (some after) = ⊥
IsSetOn update topic (some before) none = ⊥

pub after_update-IsSetOn :
    (update : SnsTopicAttributeUpdate) (topic : SnsTopic) (found : Option SnsTopic)
    → IsSetOn update topic found (map_option (after_update update topic) found)
after_update-IsSetOn update topic none = tt
after_update-IsSetOn update topic (some t) = elim (Bool-cases (eqb t.id topic.id)) [
  | inl e ↦ rw e (inl ((eqb_iff t.id topic.id).0 e, update_topic-IsUpdated update t))
  | inr e ↦ rw e (inr ((λ same. ground arith), refl))
]
