-- ===== src/Sqs/Create/Updates.antt =====
-- The limits of the queues that `handle_set_queue_attributes_typed` of
-- hiraeth_sqs/src/actions/set_queue_attributes.rs changes.
use hiraeth.Common.{
  ℕ, ◌≤◌, String, true, false, List, [], ◌∷◌, map, Option, none, some, refl, arith, inl, inr, eqb,
  if◌then◌else◌, Bool-cases, All, Result, ok, err, step, done, Yields, ◌>>=◌,
}
use hiraeth.Core.Request.{Map, ResolvedRequest}
use hiraeth.Sqlite.Sqs.Admin.{coalesce, set_queue_attributes, update_queue}
use hiraeth.Sqlite.Sqs.{Db, has_queue}
use hiraeth.Sqs.Attributes.Laws.{Within, i64-Within}
use hiraeth.Sqs.Attributes.Update.{parse_queue_attribute_update}
use hiraeth.Sqs.Attributes.{
  parse_allowed_string_attribute, parse_bool_attribute, parse_i64_attribute,
  parse_json_string_attribute, set_queue_attribute_names, validate_supported_attributes,
}
use hiraeth.Sqs.Create.Limits.{InLimits, persist-after}
use hiraeth.Sqs.Create.{handle_set_queue_attributes}
use hiraeth.Sqs.Error.{SqsError, map_store_error}
use hiraeth.Sqs.Messages.{and_then, persist}
use hiraeth.Sqs.Util.{load_queue_from_url}
use hiraeth.Store.Sqs.{SqsQueue, SqsQueueAttributeUpdate}

-- an update whose numbers are within the limits
record KeepsLimits (u : SqsQueueAttributeUpdate) : Type 0 where
  visibility : Within 0 43200 u.visibility_timeout_seconds
  delay : Within 0 900 u.delay_seconds
  size : Within 1024 1048576 u.maximum_message_size
  retention : Within 60 1209600 u.message_retention_period_seconds
  wait_time : Within 0 20 u.receive_message_wait_time_seconds
  reuse : Within 60 86400 u.kms_data_key_reuse_period_seconds

module _ (json_error policy_error : String → Option String) (attributes : Map String) where
  parsed-KeepsLimits :
      Yields KeepsLimits (parse_queue_attribute_update json_error policy_error attributes)
  unfolding parse_queue_attribute_update
  parsed-KeepsLimits =
      let P = KeepsLimits in
      let json = parse_json_string_attribute json_error policy_error attributes in
      let number = parse_i64_attribute attributes in
      let limit = i64-Within attributes in
      step P (validate_supported_attributes attributes set_queue_attribute_names) (λ _ _.
        step P (number "VisibilityTimeout" 0 43200) (λ v e1.
          step P (number "DelaySeconds" 0 900) (λ d e2.
            step P (number "MaximumMessageSize" 1024 1048576) (λ s e3.
              step P (number "MessageRetentionPeriod" 60 1209600) (λ r e4.
                step P (number "ReceiveMessageWaitTimeSeconds" 0 20) (λ w e5.
                  step P (json "Policy") (λ _ _. step P (json "RedrivePolicy") (λ _ _.
                    step P (parse_bool_attribute attributes "ContentBasedDeduplication") (λ _ _.
                      step P (number "KmsDataKeyReusePeriodSeconds" 60 86400) (λ k e6.
                        step P
                          (parse_allowed_string_attribute attributes "DeduplicationScope"
                            ("queue" ∷ "messageGroup" ∷ []))
                          (λ _ _.
                            step P
                              (parse_allowed_string_attribute attributes "FifoThroughputLimit"
                                ("perQueue" ∷ "perMessageGroupId" ∷ []))
                              (λ _ _. step P (json "RedriveAllowPolicy") (λ _ _.
                                step P (parse_bool_attribute attributes "SqsManagedSseEnabled")
                                  (λ _ _. done P _ (record {
                                    visibility = limit "VisibilityTimeout" 0 43200 v e1;
                                    delay = limit "DelaySeconds" 0 900 d e2;
                                    size = limit "MaximumMessageSize" 1024 1048576 s e3;
                                    retention = limit "MessageRetentionPeriod" 60 1209600 r e4;
                                    wait_time = limit "ReceiveMessageWaitTimeSeconds" 0 20 w e5;
                                    reuse = limit "KmsDataKeyReusePeriodSeconds" 60 86400 k e6;
                                  })))))))))))))))

coalesce-Within :
    (min max old : ℕ) (new : Option ℕ)
    → Within min max new
    → min ≤ old
    → old ≤ max
    → (min ≤ coalesce new old) × (coalesce new old ≤ max)
coalesce-Within min max old none w l u = (l, u)
coalesce-Within min max old (some n) w l u = w

update_queue-InLimits :
    (now : ℕ) (u : SqsQueueAttributeUpdate) (q : SqsQueue)
    → KeepsLimits u
    → InLimits q
    → InLimits (update_queue now u q)
update_queue-InLimits now u q k h =
    let (_, visibility) =
      coalesce-Within 0 43200 _ u.visibility_timeout_seconds k.visibility (omega arith)
        h.visibility_limit in
    let (_, delay) = coalesce-Within 0 900 _ u.delay_seconds k.delay (omega arith) h.delay_limit in
    let (size_low, size_high) =
      coalesce-Within 1024 1048576 _ u.maximum_message_size k.size h.size_low h.size_high in
    let (retention_low, retention_high) =
      coalesce-Within 60 1209600 _ u.message_retention_period_seconds k.retention h.retention_low
        h.retention_high in
    let (_, wait) =
      coalesce-Within 0 20 _ u.receive_message_wait_time_seconds k.wait_time (omega arith)
        h.wait_limit in
    let (reuse_low, reuse_high) =
      coalesce-Within 60 86400 _ u.kms_data_key_reuse_period_seconds k.reuse h.reuse_low
        h.reuse_high in
    record {
      visibility_limit = visibility;
      delay_limit = delay;
      size_low = size_low;
      size_high = size_high;
      retention_low = retention_low;
      retention_high = retention_high;
      wait_limit = wait;
      reuse_low = reuse_low;
      reuse_high = reuse_high;
    }

map-InLimits :
    (now queue_id : ℕ) (u : SqsQueueAttributeUpdate) (qs : List SqsQueue)
    → KeepsLimits u
    → All InLimits qs
    → All InLimits (map (λ q. if eqb q.id queue_id then update_queue now u q else q) qs)
map-InLimits now queue_id u [] k h = tt
map-InLimits now queue_id u (q ∷ qs) k (h, hs) = (
  elim (eqb q.id queue_id) as (λ b. InLimits (if b then update_queue now u q else q)) [
    | true ↦ update_queue-InLimits now u q k h
    | false ↦ h
  ],
  map-InLimits now queue_id u qs k hs,
)

set_queue_attributes-InLimits :
    (now queue_id : ℕ) (u : SqsQueueAttributeUpdate) (db : Db)
    → KeepsLimits u
    → All InLimits db.queues
    → All InLimits (set_queue_attributes now queue_id u db).1.queues
unfolding set_queue_attributes
set_queue_attributes-InLimits now queue_id u db k h =
    elim (Bool-cases (has_queue queue_id db.queues)) [
      | inl e ↦ rw e (map-InLimits now queue_id u db.queues k h)
      | inr e ↦ rw e h
    ]

module _ (parse_url : String → Option (String × List String))
    (json_error policy_error : String → Option String) (request : ResolvedRequest) (now : ℕ)
    (db : Db) (queue_url : String) (attributes : Map String) where
  abbrev requested : Result (SqsQueue × SqsQueueAttributeUpdate) SqsError
  requested = do
    queue ← load_queue_from_url parse_url request.region db queue_url
    update ← parse_queue_attribute_update json_error policy_error attributes
    ok (queue, update)

  requested-KeepsLimits : Yields (λ r. KeepsLimits r.1) requested
  requested-KeepsLimits =
      step _ (load_queue_from_url parse_url request.region db queue_url) (λ queue _.
        step _ (parse_queue_attribute_update json_error policy_error attributes) (λ update read.
          done _ (queue, update)
            (parsed-KeepsLimits json_error policy_error attributes update read)))

  updated-InLimits :
      (r : Result (SqsQueue × SqsQueueAttributeUpdate) SqsError)
      → Yields (λ r. KeepsLimits r.1) r
      → All InLimits db.queues
      → All InLimits
          (and_then db r (λ (queue, update).
            persist map_store_error tt (set_queue_attributes now queue.id update db))).1.queues
  updated-InLimits (err e) y hs = hs
  updated-InLimits (ok (queue, update)) y hs =
      rw (persist-after map_store_error tt (set_queue_attributes now queue.id update db))
        (set_queue_attributes-InLimits now queue.id update db (y (queue, update) refl) hs)

  -- When every stored queue is within the limits of SQS, so is every queue after a request to change
  -- the attributes of one, whatever attributes the request asks for.
  pub handle_set_queue_attributes-InLimits :
      All InLimits db.queues
      → All InLimits
          (handle_set_queue_attributes parse_url json_error policy_error request now db queue_url
            attributes).1.queues
  unfolding handle_set_queue_attributes
  handle_set_queue_attributes-InLimits = updated-InLimits requested requested-KeepsLimits
