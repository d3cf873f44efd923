-- ===== src/Sns/Subscriptions.antt =====
-- hiraeth_sns/src/actions/subscribe.rs, unsubscribe.rs and delete_topic.rs: their handlers on the
-- topic store. The clock and the uuid are arguments.
use hiraeth.Common.{ℕ, String, not, ◌==◌, Result, ok, err, ok_or, map_err, ◌>>=◌, ◌>>◌, reject, ◌⊕◌}
use hiraeth.Core.Request.{Map, ResolvedRequest, get}
use hiraeth.Sns.Error.{
  SnsError, bad_request, from_store_error, internal_error, subscription_not_found, topic_not_found,
}
use hiraeth.Sqlite.Sns.{
  Db, create_subscription, delete_subscription, delete_topic, get_subscription, get_topic,
}
use hiraeth.Store.Sns.{SnsSubscription}
use hiraeth.Store.{StoreError, conflict, not_found, storage_failure, store_error_text}

pub record SubscribeRequest : Type 0 where
  pub topic_arn : String
  pub protocol : String
  pub endpoint : String
  pub attributes : Map String

abbrev pub Outcome : Type 0 → Type 0
Outcome A = Result A SnsError × Db

-- a change of the store, and what is answered when it succeeds
abbrev pub persist :
    {A B : Type 0} → (StoreError → SnsError) → B → Result A StoreError × Db → Outcome B
persist to_error response (ok _, after) = (ok response, after)
persist to_error response (err e, after) = (err (to_error e), after)

abbrev pub and_then : {A B : Type 0} → Db → Result A SnsError → (A → Outcome B) → Outcome B
and_then db (ok a) run = run a
and_then db (err e) run = (err e, db)

unfoldable pub new_subscription :
    ResolvedRequest → String → ℕ → SubscribeRequest → Db → Result SnsSubscription SnsError
unfolding get_topic get
new_subscription request uuid now body db = do
  found ← map_err (λ e. internal_error (store_error_text e)) (get_topic body.topic_arn db).0
  topic ← ok_or topic_not_found found
  reject (not (body.protocol == "sqs"))
      (bad_request ("Protocol '" ⊕ body.protocol ⊕ "' is not supported in this slice"))
  ok (record {
    id = 0;
    topic_arn = body.topic_arn;
    protocol = body.protocol;
    endpoint = body.endpoint;
    owner_account_id = request.auth_context.principal.account_id;
    subscription_arn =
        "arn:aws:sns:" ⊕ topic.region ⊕ ":" ⊕ topic.account_id ⊕ ":" ⊕ topic.name ⊕ ":" ⊕ uuid;
    delivery_policy = get "DeliveryPolicy" body.attributes;
    filter_policy = get "FilterPolicy" body.attributes;
    filter_policy_scope = get "FilterPolicyScope" body.attributes;
    raw_message_delivery = get "RawMessageDelivery" body.attributes;
    redrive_policy = get "RedrivePolicy" body.attributes;
    subscription_role_arn = get "SubscriptionRoleArn" body.attributes;
    replay_policy = get "ReplayPolicy" body.attributes;
    created_at = now;
  })

-- the ARN of the subscription is answered
unfoldable pub handle_subscribe :
    String → ResolvedRequest → String → ℕ → Db → SubscribeRequest → Outcome String
unfolding create_subscription
handle_subscribe unique_message request uuid now db body =
    and_then db (new_subscription request uuid now body db) (λ subscription.
      persist from_store_error subscription.subscription_arn
        (create_subscription unique_message subscription db))

abbrev pub map_unsubscribe_error : StoreError → SnsError
map_unsubscribe_error (not_found _) = subscription_not_found
map_unsubscribe_error (conflict msg) = from_store_error (conflict msg)
map_unsubscribe_error (storage_failure msg) = from_store_error (storage_failure msg)

unfoldable pub handle_unsubscribe : Db → String → Outcome Unit
unfolding get_subscription delete_subscription
handle_unsubscribe db subscription_arn =
    and_then db
      (do
        found ← map_err from_store_error (get_subscription subscription_arn db).0
        ok_or subscription_not_found found)
      (λ _. persist map_unsubscribe_error tt (delete_subscription subscription_arn db))

unfoldable pub handle_delete_topic : Db → String → Outcome Unit
unfolding delete_topic
handle_delete_topic db topic_arn = persist from_store_error tt (delete_topic topic_arn db)
