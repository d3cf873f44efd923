-- ===== src/Sqs/Attributes.antt =====
-- hiraeth_sqs/src/actions/queue_attribute_support.rs: the attributes of a queue, read from the map of
-- a request. serde_json is `json_error` and `policy_error`, what it HasEffect of a text that is no JSON
-- value or no policy. A map comes in some order, each name once.
pub mod Update
pub mod Laws
use hiraeth.Common.{
  ℕ, String, Bool, true, false, not, ◌&&◌, ◌||◌, List, [], ◌∷◌, Option, none, some, ◌==◌, ◌⊕◌, any,
  if◌then◌else◌, ℤ, in_range, to_nat, Result, ok, err, ◌>>=◌, ◌>>◌, parse_i64, eq_ignore_ascii_case,
  trim, decimal, is_some,
}
use hiraeth.Core.Request.{Map, get}
use hiraeth.Sqs.Error.{SqsError, bad_request}
use hiraeth.Store.Sqs.{SqsQueueAttributeUpdate}

pub record QueueAttributeValues : Type 0 where
  pub visibility_timeout_seconds : ℕ
  pub delay_seconds : ℕ
  pub maximum_message_size : ℕ
  pub message_retention_period_seconds : ℕ
  pub receive_message_wait_time_seconds : ℕ
  pub policy : String
  pub redrive_policy : String
  pub fifo_queue : Bool
  pub content_based_deduplication : Bool
  pub kms_master_key_id : Option String
  pub kms_data_key_reuse_period_seconds : ℕ
  pub deduplication_scope : String
  pub fifo_throughput_limit : String
  pub redrive_allow_policy : String
  pub sqs_managed_sse_enabled : Bool

abbrev pub set_queue_attribute_names : List String
set_queue_attribute_names =
    "VisibilityTimeout" ∷ "DelaySeconds" ∷ "MaximumMessageSize" ∷ "MessageRetentionPeriod"
    ∷ "ReceiveMessageWaitTimeSeconds" ∷ "Policy" ∷ "RedrivePolicy" ∷ "ContentBasedDeduplication"
    ∷ "KmsMasterKeyId" ∷ "KmsDataKeyReusePeriodSeconds" ∷ "DeduplicationScope"
    ∷ "FifoThroughputLimit" ∷ "RedriveAllowPolicy" ∷ "SqsManagedSseEnabled" ∷ []

abbrev pub create_queue_attribute_names : List String
create_queue_attribute_names =
    "VisibilityTimeout" ∷ "DelaySeconds" ∷ "MaximumMessageSize" ∷ "MessageRetentionPeriod"
    ∷ "ReceiveMessageWaitTimeSeconds" ∷ "Policy" ∷ "RedrivePolicy" ∷ "FifoQueue"
    ∷ "ContentBasedDeduplication" ∷ "KmsMasterKeyId" ∷ "KmsDataKeyReusePeriodSeconds"
    ∷ "DeduplicationScope" ∷ "FifoThroughputLimit" ∷ "RedriveAllowPolicy" ∷ "SqsManagedSseEnabled"
    ∷ []

-- `QueueAttributeValues::default()`
abbrev pub default_values : QueueAttributeValues
default_values = record {
  visibility_timeout_seconds = 30;
  delay_seconds = 0;
  maximum_message_size = 1048576;
  message_retention_period_seconds = 345600;
  receive_message_wait_time_seconds = 0;
  policy = "{}";
  redrive_policy = "{}";
  fifo_queue = false;
  content_based_deduplication = false;
  kms_master_key_id = none;
  kms_data_key_reuse_period_seconds = 300;
  deduplication_scope = "queue";
  fifo_throughput_limit = "perQueue";
  redrive_allow_policy = "{}";
  sqs_managed_sse_enabled = false;
}

unfoldable pub validate_supported_attributes : Map String → List String → Result Unit SqsError
validate_supported_attributes [] supported = ok tt
validate_supported_attributes ((attribute, _) ∷ rest) supported =
    let checked = validate_supported_attributes rest supported in
    if any (λ s. s == attribute) supported
    then checked
    else err (bad_request ("Unsupported queue attribute: " ⊕ attribute))

abbrev pub unwrap_or : {A : Type 0} → A → Option A → A
unwrap_or default none = default
unwrap_or default (some a) = a

-- `Ok(parse(attributes, name)?.unwrap_or(default))`
abbrev pub or_default : {A : Type 0} → A → Result (Option A) SqsError → Result A SqsError
or_default default parsed = do value ← parsed; ok (unwrap_or default value)

abbrev pub check_i64 : String → ℕ → ℕ → Option ℤ → Result (Option ℕ) SqsError
check_i64 name min max none =
    err (bad_request (name ⊕ " must be an integer between " ⊕ decimal min ⊕ " and " ⊕ decimal max))
check_i64 name min max (some value) =
    if in_range min max value
    then ok (some (to_nat value))
    else err (bad_request (name ⊕ " must be between " ⊕ decimal min ⊕ " and " ⊕ decimal max))

unfoldable pub read_i64 : String → ℕ → ℕ → Option String → Result (Option ℕ) SqsError
unfolding parse_i64
read_i64 name min max none = ok none
read_i64 name min max (some raw) = check_i64 name min max (parse_i64 raw)

unfoldable pub parse_i64_attribute : Map String → String → ℕ → ℕ → Result (Option ℕ) SqsError
unfolding get parse_i64
parse_i64_attribute attributes name min max = read_i64 name min max (get name attributes)

abbrev read_bool : String → Option String → Result (Option Bool) SqsError
unfolding eq_ignore_ascii_case
read_bool name none = ok none
read_bool name (some raw) =
    if eq_ignore_ascii_case raw "true"
    then ok (some true)
    else if eq_ignore_ascii_case raw "false"
    then ok (some false)
    else err (bad_request (name ⊕ " must be either true or false"))

unfoldable pub parse_bool_attribute : Map String → String → Result (Option Bool) SqsError
unfolding get eq_ignore_ascii_case
parse_bool_attribute attributes name = read_bool name (get name attributes)

abbrev join : List String → String
join [] = ""
join (x ∷ []) = x
join (x ∷ y ∷ xs) = x ⊕ ", " ⊕ join (y ∷ xs)

abbrev read_allowed : String → List String → Option String → Result (Option String) SqsError
read_allowed name allowed none = ok none
read_allowed name allowed (some raw) =
    if any (λ s. s == raw) allowed
    then ok (some raw)
    else err (bad_request (name ⊕ " must be one of: " ⊕ join allowed))

unfoldable pub parse_allowed_string_attribute :
    Map String → String → List String → Result (Option String) SqsError
unfolding get
parse_allowed_string_attribute attributes name allowed =
    read_allowed name allowed (get name attributes)

abbrev fail_with : (String → String) → Option String → Result Unit SqsError
fail_with message none = ok tt
fail_with message (some e) = err (bad_request (message e))

module _ (json_error policy_error : String → Option String) where
  abbrev check_policy : String → String → Result Unit SqsError
  unfolding trim
  check_policy name raw =
      if name == "Policy" && not (trim raw == "{}")
      then fail_with (λ e. "Policy must be a valid queue policy: " ⊕ e) (policy_error raw)
      else ok tt

  abbrev read_json : String → Option String → Result (Option String) SqsError
  unfolding trim
  read_json name none = ok none
  read_json name (some raw) = do
    fail_with (λ e. name ⊕ " must be valid JSON: " ⊕ e) (json_error raw)
    check_policy name raw
    ok (some raw)

  unfoldable pub parse_json_string_attribute : Map String → String → Result (Option String) SqsError
  unfolding get trim
  parse_json_string_attribute attributes name = read_json name (get name attributes)

  unfoldable pub from_attribute_map : Map String → Result QueueAttributeValues SqsError
  unfolding validate_supported_attributes parse_i64_attribute parse_bool_attribute
      parse_allowed_string_attribute parse_json_string_attribute get
  from_attribute_map attributes = do
    validate_supported_attributes attributes create_queue_attribute_names
    visibility_timeout ← or_default 30 (parse_i64_attribute attributes "VisibilityTimeout" 0 43200)
    delay ← or_default 0 (parse_i64_attribute attributes "DelaySeconds" 0 900)
    size ← or_default 1048576 (parse_i64_attribute attributes "MaximumMessageSize" 1024 1048576)
    retention ←
        or_default 345600 (parse_i64_attribute attributes "MessageRetentionPeriod" 60 1209600)
    wait_time ← or_default 0 (parse_i64_attribute attributes "ReceiveMessageWaitTimeSeconds" 0 20)
    policy ← or_default "{}" (parse_json_string_attribute attributes "Policy")
    redrive_policy ← or_default "{}" (parse_json_string_attribute attributes "RedrivePolicy")
    fifo_queue ← or_default false (parse_bool_attribute attributes "FifoQueue")
    deduplication ← or_default false (parse_bool_attribute attributes "ContentBasedDeduplication")
    reuse_period ←
        or_default 300 (parse_i64_attribute attributes "KmsDataKeyReusePeriodSeconds" 60 86400)
    scope ← or_default "queue" (
        parse_allowed_string_attribute attributes "DeduplicationScope"
          ("queue" ∷ "messageGroup" ∷ []))
    limit ← or_default "perQueue" (
        parse_allowed_string_attribute attributes "FifoThroughputLimit"
          ("perQueue" ∷ "perMessageGroupId" ∷ []))
    redrive_allow_policy ←
        or_default "{}" (parse_json_string_attribute attributes "RedriveAllowPolicy")
    sse ← or_default false (parse_bool_attribute attributes "SqsManagedSseEnabled")
    ok (record {
      visibility_timeout_seconds = visibility_timeout;
      delay_seconds = delay;
      maximum_message_size = size;
      message_retention_period_seconds = retention;
      receive_message_wait_time_seconds = wait_time;
      policy = policy;
      redrive_policy = redrive_policy;
      fifo_queue = fifo_queue;
      content_based_deduplication = deduplication;
      kms_master_key_id = get "KmsMasterKeyId" attributes;
      kms_data_key_reuse_period_seconds = reuse_period;
      deduplication_scope = scope;
      fifo_throughput_limit = limit;
      redrive_allow_policy = redrive_allow_policy;
      sqs_managed_sse_enabled = sse;
    })
