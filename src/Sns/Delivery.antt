-- ===== src/Sns/Delivery.antt =====
-- What publishing does to the queues (hiraeth_sns/src/actions/publish.rs).
use hiraeth.Auth.Eval.{PolicyEvalResult, allowed, denied, not_applicable, authorize_cross_service}
use hiraeth.Auth.Policy.{Policy}
use hiraeth.Auth.Principal.{service}
use hiraeth.Common.{
  ℕ, suc, String, Bool, List, [], ◌∷◌, Option, none, some, ◌==◌, find, ◌≡◌, refl, ◌∙◌, ◌⊎◌, inl,
  inr, Bool-cases, Result, ok, err, ok_or, map_err, ok_or-eq-ok, find-some, Yields, step, done,
}
use hiraeth.Core.Request.{Map}
use hiraeth.Iam.Authorize.{enforce, effective}
use hiraeth.Sns.Error.{SnsError, from_store_error}
use hiraeth.Sns.Publish.{
  PublishRequest, checked_delivery, decision_of, deliver_one, deliver_all, deliver_checked,
  deliver_to_sqs, delivered, handle_publish, parse_sqs_resource_policy, publish_to, published,
  queue_arn_of, require_allow, body_of,
}
use hiraeth.Sns.Support.{parse_sqs_endpoint_arn}
use hiraeth.Sqlite.Sns as Sns
use hiraeth.Sqlite.Sqs.{Db, MessageRow, get_queue, same_identity}
use hiraeth.Sqs.Batches.{enqueue_message}
use hiraeth.Sqs.Messages.{Outcome}
use hiraeth.Sqs.Error.{SqsError}
use hiraeth.Sqs.Util.{QueueId, MessageAttributeValue}
use hiraeth.Store.Sns.{SnsSubscription, SnsTopic}
use hiraeth.Store.Sqs.{SqsQueue}
use mathlib.Core.List.{Memᴰ}
use hiraeth.Sns.Enqueue.{enqueue_message-Adds}

get_queue-mem :
    (id : QueueId) (db : Db) (found : Option SqsQueue) (queue : SqsQueue)
    → map_err from_store_error (get_queue id.name id.region id.account_id db).0 ≡ ok found
    → found ≡ some queue
    → Memᴰ queue db.queues
unfolding get_queue
get_queue-mem id db found queue looked_up is_found =
    let seen : find (λ q. same_identity q id.name id.region id.account_id) db.queues ≡ found =
      cc looked_up in
    (find-some _ db.queues queue (seen ∙ is_found)).0

require_allow-allowed :
    (queue_arn : String) (result : PolicyEvalResult) (u : Unit)
    → require_allow queue_arn (effective enforce (decision_of result)) ≡ ok u
    → result ≡ allowed
require_allow-allowed queue_arn allowed u h = refl
require_allow-allowed queue_arn denied u h = absurd (cc h)
require_allow-allowed queue_arn not_applicable u h = absurd (cc h)

module _ (wild : String → String → Bool) (parse_policy : String → Result Policy String) where
  -- a queue with this id, whose policy lets the notification service send to it
  abbrev pub IsPermitted : List SqsQueue → ℕ → Type 0
  IsPermitted queues queue_id =
      (queue : SqsQueue) × (policy : Policy) × Memᴰ queue queues
      × (queue.id ≡ queue_id)
      × (parse_sqs_resource_policy wild parse_policy queue.policy ≡ ok policy)
      × (authorize_cross_service wild (service "sns.amazonaws.com") "sqs:SendMessage"
            (queue_arn_of queue) policy
          ≡ allowed)

  checked_delivery-IsPermitted :
      (subscription : SnsSubscription) (db : Db)
      → Yields
          (λ queue. IsPermitted db.queues queue.id)
          (checked_delivery wild parse_policy enforce subscription db)
  unfolding checked_delivery
  checked_delivery-IsPermitted subscription db =
      let P : SqsQueue → Type 0 = λ queue. IsPermitted db.queues queue.id in
      step P (ok_or _ (parse_sqs_endpoint_arn subscription.endpoint)) (λ id _.
        step P (map_err from_store_error (get_queue id.name id.region id.account_id db).0)
          (λ found looked_up. step P (ok_or _ found) (λ queue is_found.
            step P (parse_sqs_resource_policy wild parse_policy queue.policy) (λ policy parsed.
              step P _ (λ u permitted. done P queue (
                queue,
                policy,
                get_queue-mem id db found queue looked_up (ok_or-eq-ok _ found is_found),
                refl,
                parsed,
                require_allow-allowed _ _ u permitted,
              ))))))

module _ (wild : String → String → Bool) (parse_policy : String → Result Policy String)
    (json_object : List (String × String) → String) (rfc3339 : ℕ → String)
    (unique_message foreign_key_message : String)
    (parse_url : String → Option (String × List String))
    (to_json : Map MessageAttributeValue → Result String String)
    (decode_base64 : String → Result (List ℕ) String) (md5 : List ℕ → String) where
  -- The queues are as before, and every message is one from before or in a queue that permits it.
  abbrev pub AddsPermitted : Db → Db → Type 0
  AddsPermitted before after =
      (after.queues ≡ before.queues)
      × ((row : MessageRow)
          → Memᴰ row after.messages
          → Memᴰ row before.messages
            ⊎ IsPermitted wild parse_policy before.queues row.message.queue_id)

  AddsPermitted-trans :
      (first second third : Db)
      → AddsPermitted first second
      → AddsPermitted second third
      → AddsPermitted first third
  AddsPermitted-trans first second third (same, from) (same2, from2) = (
    same2 ∙ same,
    λ row m. elim (from2 row m) [ inl k ↦ from row k | inr p ↦ inr (rw same at p) ],
  )

  delivered-1 : (r : Result String SqsError × Db) → (delivered r).1 ≡ r.1
  delivered-1 (ok _, after) = refl
  delivered-1 (err e, after) = refl

  deliver_to_sqs-AddsPermitted :
      (subscription : SnsSubscription) (topic : SnsTopic) (request_body : PublishRequest)
      (message_id : String) (now delivery_date : ℕ) (uuid : String) (db : Db)
      → AddsPermitted db
          (deliver_to_sqs wild parse_policy json_object rfc3339 unique_message foreign_key_message
            parse_url to_json decode_base64 md5 enforce subscription topic request_body message_id
            now delivery_date uuid db).1
  unfolding deliver_to_sqs
  deliver_to_sqs-AddsPermitted subscription topic request_body message_id now delivery_date uuid
        db =
      go (checked_delivery wild parse_policy enforce subscription db)
        (checked_delivery-IsPermitted wild parse_policy subscription db)
    where
      body : String
      body =
          body_of wild parse_policy json_object rfc3339 unique_message foreign_key_message parse_url
            to_json decode_base64 md5 subscription topic request_body message_id now

      sent : SqsQueue → Outcome String
      sent queue =
          enqueue_message unique_message foreign_key_message parse_url to_json decode_base64 md5
            queue uuid body none none none none delivery_date db

      go :
          (r : Result SqsQueue SnsError)
          → Yields (λ queue. IsPermitted wild parse_policy db.queues queue.id) r
          → AddsPermitted db (deliver_checked db r (λ queue. delivered (sent queue))).1
      go (err e) y = (refl, λ row m. inl m)
      go (ok queue) y =
          let (same, from) =
            enqueue_message-Adds unique_message foreign_key_message parse_url to_json decode_base64
              md5 queue uuid body delivery_date db in
          rw (delivered-1 (sent queue)) (
            same,
            λ row m. elim (from row m) [ inl k ↦ inl k | inr here ↦ inr (rw here (y queue refl)) ],
          )

  deliver_one-AddsPermitted :
      (topic : SnsTopic) (request_body : PublishRequest) (message_id : String)
      (draw : ℕ × ℕ × String) (subscription : SnsSubscription) (db : Db)
      → AddsPermitted db (
          deliver_one wild parse_policy json_object rfc3339 unique_message foreign_key_message
            parse_url to_json decode_base64 md5 enforce topic request_body message_id draw
            subscription db)
  unfolding deliver_one
  deliver_one-AddsPermitted topic request_body message_id (now, date, uuid) subscription db =
      elim (Bool-cases (subscription.protocol == "sqs")) [
        | inr e ↦ rw e (refl, λ row m. inl m)
        | inl e ↦ rw e (
            deliver_to_sqs-AddsPermitted subscription topic request_body message_id now date uuid
              db)
      ]

  deliver_all-AddsPermitted :
      (topic : SnsTopic) (request_body : PublishRequest) (message_id : String)
      (draws : ℕ → ℕ × ℕ × String) (n : ℕ) (subscriptions : List SnsSubscription) (db : Db)
      → AddsPermitted db (
          deliver_all wild parse_policy json_object rfc3339 unique_message foreign_key_message
            parse_url to_json decode_base64 md5 enforce topic request_body message_id draws n
            subscriptions db)
  unfolding deliver_all
  deliver_all-AddsPermitted topic request_body message_id draws n [] db = (refl, λ row m. inl m)
  deliver_all-AddsPermitted topic request_body message_id draws n (subscription ∷ rest) db =
      let after =
        deliver_one wild parse_policy json_object rfc3339 unique_message foreign_key_message
          parse_url to_json decode_base64 md5 enforce topic request_body message_id (draws n)
          subscription db in
      AddsPermitted-trans db after
        (deliver_all wild parse_policy json_object rfc3339 unique_message foreign_key_message
          parse_url to_json decode_base64 md5 enforce topic request_body message_id draws (suc n)
          rest after)
        (deliver_one-AddsPermitted topic request_body message_id (draws n) subscription db)
        (deliver_all-AddsPermitted topic request_body message_id draws (suc n) rest after)

  handle_publish-AddsPermitted :
      (sns : Sns.Db) (request_body : PublishRequest) (message_id : String)
      (draws : ℕ → ℕ × ℕ × String) (db : Db)
      → AddsPermitted db
          (handle_publish wild parse_policy json_object rfc3339 unique_message foreign_key_message
            parse_url to_json decode_base64 md5 enforce sns request_body message_id draws db).1
  unfolding handle_publish publish_to
  handle_publish-AddsPermitted sns request_body message_id draws db = go (
      published wild parse_policy json_object rfc3339 unique_message foreign_key_message parse_url
        to_json decode_base64 md5 request_body.topic_arn sns)
    where
      go :
          (r : Result (SnsTopic × List SnsSubscription) SnsError)
          → AddsPermitted db
              (publish_to wild parse_policy json_object rfc3339 unique_message foreign_key_message
                parse_url to_json decode_base64 md5 enforce request_body message_id draws db r).1
      go (err e) = (refl, λ row m. inl m)
      go (ok (topic, subscriptions)) =
          deliver_all-AddsPermitted topic request_body message_id draws 0 subscriptions db

  -- With authorization enforced, every message in the queues after publishing was there before, or
  -- is in a queue whose policy allows the notification service to send to it, whoever subscribed it.
  pub handle_publish-IsPermitted :
      (sns : Sns.Db) (request_body : PublishRequest) (message_id : String)
      (draws : ℕ → ℕ × ℕ × String) (db : Db) (row : MessageRow)
      → Memᴰ row
          (handle_publish wild parse_policy json_object rfc3339 unique_message foreign_key_message
            parse_url to_json decode_base64 md5 enforce sns request_body message_id draws
            db).1.messages
      → Memᴰ row db.messages ⊎ IsPermitted wild parse_policy db.queues row.message.queue_id
  handle_publish-IsPermitted sns request_body message_id draws db row m =
      (handle_publish-AddsPermitted sns request_body message_id draws db).1 row m
