-- ===== src/Sns/Publish.antt =====
-- hiraeth_sns/src/actions/publish.rs: the delivery of a published message to the subscribed queues.
-- Trace spans and log lines are left out. `json_object` is serde_json's text of an object of texts,
-- `rfc3339` chrono's text of a time; each delivery reads the clock and draws a uuid of its own.
use hiraeth.Auth.Eval.{PolicyEvalResult, allowed, authorize_cross_service}
use hiraeth.Auth.Policy.{Policy, default_policy}
use hiraeth.Auth.Principal.{service}
use hiraeth.Common.{
  ℕ, suc, String, Bool, false, ◌||◌, List, [], ◌∷◌, Option, none, some, ◌==◌, trim, if◌then◌else◌,
  Result, ok, err, ok_or, map_err, ◌>>=◌, ◌>>◌, ◌⊕◌,
}
use hiraeth.Core.Request.{Map}
use hiraeth.Iam.Authorize.{AuthorizationMode, AuthorizationResult, allow, deny, effective}
use hiraeth.Sns.Error.{
  SnsError, bad_request, from_store_error, internal_error, not_authorized_to_queue, topic_not_found,
}
use hiraeth.Sns.Support.{parse_sqs_endpoint_arn}
use hiraeth.Sqlite.Sns as Sns
use hiraeth.Sqlite.Sns.{get_topic, list_subscriptions_by_topic}
use hiraeth.Sqlite.Sqs.{Db, get_queue}
use hiraeth.Sqs.Batches.{enqueue_message}
use hiraeth.Sqs.Error.{SqsError, error_text}
use hiraeth.Sqs.Util.{MessageAttributeValue}
use hiraeth.Store.Sns.{SnsSubscription, SnsTopic}
use hiraeth.Store.Sqs.{SqsQueue}

pub record PublishRequest : Type 0 where
  pub topic_arn : String
  pub message : String
  pub subject : Option String

abbrev pub queue_arn_of : SqsQueue → String
queue_arn_of q = "arn:aws:sqs:" ⊕ q.region ⊕ ":" ⊕ q.account_id ⊕ ":" ⊕ q.name

abbrev pub resolved_topic_arn : SnsTopic → String
resolved_topic_arn t = "arn:aws:sns:" ⊕ t.region ⊕ ":" ⊕ t.account_id ⊕ ":" ⊕ t.name

abbrev pub decision_of : PolicyEvalResult → AuthorizationResult
decision_of allowed = allow
decision_of _ = deny

abbrev pub require_allow : String → AuthorizationResult → Result Unit SnsError
require_allow queue_arn allow = ok tt
require_allow queue_arn deny = err (not_authorized_to_queue queue_arn)

abbrev pub unwrap_subject : Option String → String
unwrap_subject none = ""
unwrap_subject (some subject) = subject

abbrev pub is_raw : Option String → Bool
is_raw none = false
is_raw (some value) = value == "true"

-- the response of `enqueue_message`, with its message id dropped
abbrev pub delivered : Result String SqsError × Db → Result Unit SnsError × Db
delivered (ok _, after) = (ok tt, after)
delivered (err e, after) = (err (internal_error ("sqs delivery failed: " ⊕ error_text e)), after)

abbrev pub deliver_checked :
    Db
    → Result SqsQueue SnsError
    → (SqsQueue → Result Unit SnsError × Db)
    → Result Unit SnsError × Db
deliver_checked db (ok queue) send = send queue
deliver_checked db (err e) send = (err e, db)

module _ (wild : String → String → Bool) (parse_policy : String → Result Policy String) where
  unfoldable pub parse_sqs_resource_policy : String → Result Policy SnsError
  unfolding trim
  parse_sqs_resource_policy policy =
      if trim policy == "" || trim policy == "{}"
      then ok default_policy
      else map_err (λ e. internal_error ("invalid queue policy: " ⊕ e)) (parse_policy policy)

  -- the lookup of the queue and the check of its policy
  unfoldable pub checked_delivery :
      AuthorizationMode → SnsSubscription → Db → Result SqsQueue SnsError
  unfolding parse_sqs_resource_policy parse_sqs_endpoint_arn
  checked_delivery auth_mode subscription db = do
    queue_id ←
        ok_or (bad_request ("Invalid SQS endpoint: " ⊕ subscription.endpoint))
          (parse_sqs_endpoint_arn subscription.endpoint)
    found ←
        map_err from_store_error (get_queue queue_id.name queue_id.region queue_id.account_id db).0
    queue ← ok_or (bad_request ("SQS queue not found: " ⊕ subscription.endpoint)) found
    resource_policy ← parse_sqs_resource_policy queue.policy
    require_allow (queue_arn_of queue) (
        effective auth_mode (
          decision_of (
            authorize_cross_service wild (service "sns.amazonaws.com") "sqs:SendMessage"
              (queue_arn_of queue) resource_policy)))
    ok queue

module _ (wild : String → String → Bool) (parse_policy : String → Result Policy String)
    (json_object : List (String × String) → String) (rfc3339 : ℕ → String)
    (unique_message foreign_key_message : String)
    (parse_url : String → Option (String × List String))
    (to_json : Map MessageAttributeValue → Result String String)
    (decode_base64 : String → Result (List ℕ) String) (md5 : List ℕ → String) where
  abbrev pub body_of : SnsSubscription → SnsTopic → PublishRequest → String → ℕ → String
  body_of subscription topic request_body message_id now =
      if is_raw subscription.raw_message_delivery
      then request_body.message
      else json_object (
          ("Type", "Notification")
          ∷ ("MessageId", message_id)
          ∷ ("TopicArn", resolved_topic_arn topic)
          ∷ ("Subject", unwrap_subject request_body.subject)
          ∷ ("Message", request_body.message)
          ∷ ("Timestamp", rfc3339 now)
          ∷ [])

  unfoldable pub deliver_to_sqs :
      AuthorizationMode
      → SnsSubscription
      → SnsTopic
      → PublishRequest
      → String
      → ℕ
      → ℕ
      → String
      → Db
      → Result Unit SnsError × Db
  deliver_to_sqs auth_mode subscription topic request_body message_id now delivery_date uuid db =
      deliver_checked db (checked_delivery wild parse_policy auth_mode subscription db) (λ queue.
        delivered (
          enqueue_message unique_message foreign_key_message parse_url to_json decode_base64 md5
            queue uuid (body_of subscription topic request_body message_id now) none none none none
            delivery_date db))

  -- one turn of the loop over the subscriptions; its error is logged and dropped
  unfoldable pub deliver_one :
      AuthorizationMode
      → SnsTopic
      → PublishRequest
      → String
      → ℕ × ℕ × String
      → SnsSubscription
      → Db
      → Db
  unfolding deliver_to_sqs
  deliver_one auth_mode topic request_body message_id (now, delivery_date, uuid) subscription db =
      if subscription.protocol == "sqs"
      then (deliver_to_sqs auth_mode subscription topic request_body message_id now delivery_date
          uuid db).1
      else db

  -- `now`, `delivery_date` and `uuid` of the delivery by its number
  unfoldable pub deliver_all :
      AuthorizationMode
      → SnsTopic
      → PublishRequest
      → String
      → (ℕ → ℕ × ℕ × String)
      → ℕ
      → List SnsSubscription
      → Db
      → Db
  deliver_all auth_mode topic request_body message_id draws n [] db = db
  deliver_all auth_mode topic request_body message_id draws n (subscription ∷ subscriptions) db =
      deliver_all auth_mode topic request_body message_id draws (suc n) subscriptions
        (deliver_one auth_mode topic request_body message_id (draws n) subscription db)

  -- what is published, and to whom
  unfoldable pub published : String → Sns.Db → Result (SnsTopic × List SnsSubscription) SnsError
  unfolding get_topic list_subscriptions_by_topic
  published topic_arn sns = do
    found ← map_err from_store_error (get_topic topic_arn sns).0
    topic ← ok_or topic_not_found found
    subscriptions ←
        map_err from_store_error (list_subscriptions_by_topic (resolved_topic_arn topic) sns).0
    ok (topic, subscriptions)

  unfoldable pub publish_to :
      AuthorizationMode
      → PublishRequest
      → String
      → (ℕ → ℕ × ℕ × String)
      → Db
      → Result (SnsTopic × List SnsSubscription) SnsError
      → Result String SnsError × Db
  publish_to auth_mode request_body message_id draws db (err e) = (err e, db)
  publish_to auth_mode request_body message_id draws db (ok (topic, subscriptions)) =
      (ok message_id, deliver_all auth_mode topic request_body message_id draws 0 subscriptions db)

  -- the message id that is answered, and the tables of the queues after the deliveries
  unfoldable pub handle_publish :
      AuthorizationMode
      → Sns.Db
      → PublishRequest
      → String
      → (ℕ → ℕ × ℕ × String)
      → Db
      → Result String SnsError × Db
  handle_publish auth_mode sns request_body message_id draws db =
      publish_to auth_mode request_body message_id draws db (published request_body.topic_arn sns)
