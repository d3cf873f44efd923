-- ===== src/Sqs/Attributes/Update.antt =====
-- `parse_queue_attribute_update` of hiraeth_sqs/src/actions/queue_attribute_support.rs.
use hiraeth.Common.{
  String, Option, none, some, ◌==◌, if◌then◌else◌, Result, ok, ◌>>=◌, ◌>>◌, [], ◌∷◌,
}
use hiraeth.Core.Request.{Map, get}
use hiraeth.Sqs.Attributes.{
  set_queue_attribute_names, parse_allowed_string_attribute, parse_bool_attribute,
  parse_i64_attribute, parse_json_string_attribute, validate_supported_attributes,
}
use hiraeth.Sqs.Error.{SqsError}
use hiraeth.Store.Sqs.{SqsQueueAttributeUpdate}

-- An empty key id takes the key away.
abbrev pub key_update : Option String → Option (Option String)
key_update none = none
key_update (some value) = some (if value == "" then none else some value)

module _ (json_error policy_error : String → Option String) where
  unfoldable pub parse_queue_attribute_update : Map String → Result SqsQueueAttributeUpdate SqsError
  unfolding validate_supported_attributes parse_i64_attribute parse_bool_attribute
      parse_allowed_string_attribute parse_json_string_attribute get
  parse_queue_attribute_update attributes = do
    validate_supported_attributes attributes set_queue_attribute_names
    visibility_timeout ← parse_i64_attribute attributes "VisibilityTimeout" 0 43200
    delay ← parse_i64_attribute attributes "DelaySeconds" 0 900
    size ← parse_i64_attribute attributes "MaximumMessageSize" 1024 1048576
    retention ← parse_i64_attribute attributes "MessageRetentionPeriod" 60 1209600
    wait_time ← parse_i64_attribute attributes "ReceiveMessageWaitTimeSeconds" 0 20
    policy ← parse_json_string_attribute json_error policy_error attributes "Policy"
    redrive_policy ← parse_json_string_attribute json_error policy_error attributes "RedrivePolicy"
    deduplication ← parse_bool_attribute attributes "ContentBasedDeduplication"
    reuse_period ← parse_i64_attribute attributes "KmsDataKeyReusePeriodSeconds" 60 86400
    scope ←
        parse_allowed_string_attribute attributes "DeduplicationScope"
          ("queue" ∷ "messageGroup" ∷ [])
    limit ←
        parse_allowed_string_attribute attributes "FifoThroughputLimit"
          ("perQueue" ∷ "perMessageGroupId" ∷ [])
    redrive_allow_policy ←
        parse_json_string_attribute json_error policy_error attributes "RedriveAllowPolicy"
    sse ← parse_bool_attribute attributes "SqsManagedSseEnabled"
    ok (record {
      visibility_timeout_seconds = visibility_timeout;
      delay_seconds = delay;
      maximum_message_size = size;
      message_retention_period_seconds = retention;
      receive_message_wait_time_seconds = wait_time;
      policy = policy;
      redrive_policy = redrive_policy;
      content_based_deduplication = deduplication;
      kms_master_key_id = key_update (get "KmsMasterKeyId" attributes);
      kms_data_key_reuse_period_seconds = reuse_period;
      deduplication_scope = scope;
      fifo_throughput_limit = limit;
      redrive_allow_policy = redrive_allow_policy;
      sqs_managed_sse_enabled = sse;
    })
