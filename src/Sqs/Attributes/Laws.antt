-- ===== src/Sqs/Attributes/Laws.antt =====
-- What hiraeth_sqs/src/actions/queue_attribute_support.rs lets into a queue.
use hiraeth.Common.{
  ℕ, ◌≤◌, String, true, false, [], ◌∷◌, Option, none, some, ◌≡◌, inl, inr, arith, ℤ, pos, negsuc,
  in_range, to_nat, ok, step, done, >>=-eq-ok, Bool-cases,
}
use hiraeth.Core.Request.{Map, get}
use hiraeth.Sqs.Attributes.{
  QueueAttributeValues, create_queue_attribute_names, check_i64, read_i64, from_attribute_map,
  or_default, parse_allowed_string_attribute, parse_bool_attribute, parse_i64_attribute,
  parse_json_string_attribute, unwrap_or, validate_supported_attributes,
}

-- the limits that SQS sets to the numbers of a queue
pub record HasLimits (visibility delay size retention wait_time reuse : ℕ) : Type 0 where
  pub visibility_limit : visibility ≤ 43200
  pub delay_limit : delay ≤ 900
  pub size_low : 1024 ≤ size
  pub size_high : size ≤ 1048576
  pub retention_low : 60 ≤ retention
  pub retention_high : retention ≤ 1209600
  pub wait_limit : wait_time ≤ 20
  pub reuse_low : 60 ≤ reuse
  pub reuse_high : reuse ≤ 86400

-- an optional number, between the bounds if it is there
abbrev pub Within : ℕ → ℕ → Option ℕ → Type 0
Within min max none = Unit
Within min max (some n) = (min ≤ n) × (n ≤ max)

checked-Within :
    (name : String) (min max : ℕ) (v : Option ℤ) (value : Option ℕ)
    → check_i64 name min max v ≡ ok value
    → Within min max value
checked-Within name min max none value h = absurd (cc h)
checked-Within name min max (some v) value h = elim (Bool-cases (in_range min max v)) [
  | inr e ↦ absurd (cc (rw e at h))
  | inl e ↦ let same : some (to_nat v) ≡ value = cc (rw e at h) in rw (← same) (bounds v e)
]
  where
    bounds : (v : ℤ) → in_range min max v ≡ true → (min ≤ to_nat v) × (to_nat v ≤ max)
    bounds (pos n) e = (ground arith, ground arith)
    bounds (negsuc n) e = absurd (cc e)

read-Within :
    (name : String) (min max : ℕ) (raw : Option String) (value : Option ℕ)
    → read_i64 name min max raw ≡ ok value
    → Within min max value
unfolding read_i64
read-Within name min max none none h = tt
read-Within name min max none (some n) h = absurd (cc h)
read-Within name min max (some raw) value h = checked-Within name min max _ value h

pub i64-Within :
    (attributes : Map String) (name : String) (min max : ℕ) (value : Option ℕ)
    → parse_i64_attribute attributes name min max ≡ ok value
    → Within min max value
unfolding parse_i64_attribute
i64-Within attributes name min max value h = read-Within name min max (get name attributes) value h

unwrap-Within :
    (min max default : ℕ) (value : Option ℕ)
    → min ≤ default
    → default ≤ max
    → Within min max value
    → (min ≤ unwrap_or default value) × (unwrap_or default value ≤ max)
unwrap-Within min max default none l u w = (l, u)
unwrap-Within min max default (some n) l u w = w

default-within :
    (attributes : Map String) (name : String) (min max default value : ℕ)
    → min ≤ default
    → default ≤ max
    → or_default default (parse_i64_attribute attributes name min max) ≡ ok value
    → (min ≤ value) × (value ≤ max)
default-within attributes name min max default value l u h =
    let (parsed, e, same) = >>=-eq-ok _ _ h in
    let eq : unwrap_or default parsed ≡ value = cc same in
    rw (← eq)
      (unwrap-Within min max default parsed l u (i64-Within attributes name min max parsed e))

module _ (json_error policy_error : String → Option String) where
  abbrev P : QueueAttributeValues → Type 0
  P v =
      HasLimits v.visibility_timeout_seconds v.delay_seconds v.maximum_message_size
        v.message_retention_period_seconds v.receive_message_wait_time_seconds
        v.kms_data_key_reuse_period_seconds

  -- Attributes that a queue is created with are within the limits of SQS.
  pub from_attribute_map-HasLimits :
      (attributes : Map String) (v : QueueAttributeValues)
      → from_attribute_map json_error policy_error attributes ≡ ok v
      → HasLimits v.visibility_timeout_seconds v.delay_seconds v.maximum_message_size
          v.message_retention_period_seconds v.receive_message_wait_time_seconds
          v.kms_data_key_reuse_period_seconds
  unfolding from_attribute_map
  from_attribute_map-HasLimits attributes =
      step P (validate_supported_attributes attributes create_queue_attribute_names) (λ _ _.
        step P (or_default 30 (parse_i64_attribute attributes "VisibilityTimeout" 0 43200))
          (λ visibility e1.
            step P (or_default 0 (parse_i64_attribute attributes "DelaySeconds" 0 900)) (λ delay e2.
              step P
                (or_default 1048576
                  (parse_i64_attribute attributes "MaximumMessageSize" 1024 1048576))
                (λ size e3.
                  step P
                    (or_default 345600
                      (parse_i64_attribute attributes "MessageRetentionPeriod" 60 1209600))
                    (λ retention e4.
                      step P
                        (or_default 0
                          (parse_i64_attribute attributes "ReceiveMessageWaitTimeSeconds" 0 20))
                        (λ wait_time e5.
                          step P
                            (or_default "{}" (
                              parse_json_string_attribute json_error policy_error attributes
                                "Policy"))
                            (λ _ _.
                              step P
                                (or_default "{}" (
                                  parse_json_string_attribute json_error policy_error attributes
                                    "RedrivePolicy"))
                                (λ _ _.
                                  step P
                                    (or_default false (parse_bool_attribute attributes "FifoQueue"))
                                    (λ _ _.
                                      step P
                                        (or_default false (
                                          parse_bool_attribute attributes
                                            "ContentBasedDeduplication"))
                                        (λ _ _.
                                          step P
                                            (or_default 300 (
                                              parse_i64_attribute attributes
                                                "KmsDataKeyReusePeriodSeconds" 60 86400))
                                            (λ reuse e6.
                                              step P
                                                (or_default "queue" (
                                                  parse_allowed_string_attribute attributes
                                                    "DeduplicationScope"
                                                    ("queue" ∷ "messageGroup" ∷ [])))
                                                (λ _ _.
                                                  step P
                                                    (or_default "perQueue" (
                                                      parse_allowed_string_attribute attributes
                                                        "FifoThroughputLimit"
                                                        ("perQueue" ∷ "perMessageGroupId" ∷ [])))
                                                    (λ _ _.
                                                      step P
                                                        (or_default "{}" (
                                                          parse_json_string_attribute json_error
                                                            policy_error attributes
                                                            "RedriveAllowPolicy"))
                                                        (λ _ _.
                                                          step P
                                                            (or_default false (
                                                            parse_bool_attribute attributes
                                                            "SqsManagedSseEnabled"))
                                                            (λ _ _.
                                                            let limit = default-within attributes in
                                                            let (_, visibility_limit) =
                                                            limit "VisibilityTimeout" 0 43200 30
                                                            visibility (omega arith) (omega arith)
                                                            e1 in
                                                            let (_, delay_limit) =
                                                            limit "DelaySeconds" 0 900 0 delay
                                                            (omega arith) (omega arith) e2 in
                                                            let (size_low, size_high) =
                                                            limit "MaximumMessageSize" 1024 1048576
                                                            1048576 size (omega arith) (omega arith)
                                                            e3 in
                                                            let (retention_low, retention_high) =
                                                            limit "MessageRetentionPeriod" 60
                                                            1209600 345600 retention (omega arith)
                                                            (omega arith) e4 in
                                                            let (_, wait_limit) =
                                                            limit "ReceiveMessageWaitTimeSeconds" 0
                                                            20 0 wait_time (omega arith)
                                                            (omega arith) e5 in
                                                            let (reuse_low, reuse_high) =
                                                            limit "KmsDataKeyReusePeriodSeconds" 60
                                                            86400 300 reuse (omega arith)
                                                            (omega arith) e6 in
                                                            done P _ (record {
                                                            visibility_limit = visibility_limit;
                                                            delay_limit = delay_limit;
                                                            size_low = size_low;
                                                            size_high = size_high;
                                                            retention_low = retention_low;
                                                            retention_high = retention_high;
                                                            wait_limit = wait_limit;
                                                            reuse_low = reuse_low;
                                                            reuse_high = reuse_high;
                                                            }))))))))))))))))
