-- ===== src/Sns/Examples.antt =====
-- A message published to a queue that lets the notification service in.
use hiraeth.Auth.Policy.{Policy}
use hiraeth.Auth.Principal.{service}
use hiraeth.Auth.Eval.{authorize_cross_service, principal_matches_pattern}
use hiraeth.Common.{
  ℕ, String, Bool, ◌||◌, ◌==◌, List, [], ◌∷◌, Option, none, some, ◌≡◌, refl, ◌⊎◌, Result, ok,
}
use hiraeth.Iam.Authorize.{enforce}
use hiraeth.Sns.Delivery.{IsPermitted, handle_publish-IsPermitted}
use hiraeth.Sns.Publish.{
  PublishRequest, checked_delivery, deliver_all, deliver_one, deliver_to_sqs, handle_publish,
  publish_to, published,
}
use hiraeth.Sqs.Batches.{enqueue_message}
use hiraeth.Sns.Subscriptions.{handle_unsubscribe}
use hiraeth.Sns.Support.{validate_raw_message_delivery}
use hiraeth.Sqlite.Sns as Sns
use hiraeth.Sqlite.Sqs.{Db, MessageRow, get_queue}
use hiraeth.Core.Request.{Map}
use hiraeth.Sqs.Util.{MessageAttributeValue}
use hiraeth.Store.Sns.{SnsSubscription, SnsTopic}
use hiraeth.Store.Sqs.{default_queue}
use mathlib.Core.List.{Memᴰ}

abbrev wild : String → String → Bool
wild pattern value = pattern == "*" || pattern == value

abbrev to_service : Policy
to_service = record {
  version = "2012-10-17";
  statement =
      record {
        effect = "Allow";
        action = "sqs:SendMessage" ∷ [];
        resource = "*" ∷ [];
        principal = service "sns.amazonaws.com" ∷ [];
      }
      ∷ [];
}

abbrev parse_policy : String → Result Policy String
parse_policy text = ok to_service

abbrev parse_url : String → Option (String × List String)
parse_url text = none

abbrev to_json : Map MessageAttributeValue → Result String String
to_json attributes = ok "{}"

abbrev decode_base64 : String → Result (List ℕ) String
decode_base64 text = ok []

abbrev md5 : List ℕ → String
md5 bytes = "0"

abbrev json_object : List (String × String) → String
json_object fields = "wrapped"

abbrev rfc3339 : ℕ → String
rfc3339 now = "now"

abbrev topic : SnsTopic
topic = record {
  id = 1;
  name = "t";
  region = "r";
  account_id = "1";
  display_name = none;
  policy = "{}";
  delivery_policy = none;
  fifo_topic = none;
  signature_version = none;
  tracing_config = none;
  kms_master_key_id = none;
  data_protection_policy = none;
  archive_policy = none;
  beginning_archive_time = none;
  content_based_deduplication = none;
  created_at = 0;
}

-- asks for the message as it is, in capital letters
abbrev subscription : SnsSubscription
subscription = record {
  id = 1;
  topic_arn = "arn:aws:sns:r:1:t";
  protocol = "sqs";
  endpoint = "arn:aws:sqs:r:1:q";
  owner_account_id = "1";
  subscription_arn = "arn:aws:sns:r:1:t:s";
  delivery_policy = none;
  filter_policy = none;
  filter_policy_scope = none;
  raw_message_delivery = some "True";
  redrive_policy = none;
  subscription_role_arn = none;
  replay_policy = none;
  created_at = 0;
}

abbrev topics : Sns.Db
topics = record {
  topics = topic ∷ [];
  last_topic_id = 1;
  subscriptions = subscription ∷ [];
  last_subscription_id = 1;
  tags = [];
}

abbrev queues : Db
queues = record {
  queues =
      record default_queue { id = 1; name = "q"; region = "r"; account_id = "1"; policy = "p" }
      ∷ [];
  messages = [];
  tags = [];
}

abbrev hello : PublishRequest
hello = record { topic_arn = "arn:aws:sns:r:1:t"; message = "hello"; subject = none }

abbrev published_queues : Db
published_queues =
    (handle_publish wild parse_policy json_object rfc3339 "unique" "foreign key" parse_url to_json
      decode_base64 md5 enforce topics hello "id" (λ n. (0, 0, "uuid")) queues).1

-- "True" is accepted, and the message arrives wrapped all the same.
accepted : validate_raw_message_delivery "True" ≡ ok tt
accepted = refl

abbrev row : MessageRow
row = record {
  row_id = 1;
  message = record {
    message_id = "uuid";
    queue_id = 1;
    body = "wrapped";
    message_attributes = some "{}";
    aws_trace_header = none;
    sent_at = 0;
    visible_at = 0;
    expires_at = 345600000000000;
    receive_count = 0;
    receipt_handle = none;
    first_received_at = none;
    message_group_id = none;
    message_deduplication_id = none;
  };
}

wrapped : published_queues.messages ≡ row ∷ []
unfolding handle_publish published publish_to deliver_all deliver_one deliver_to_sqs enqueue_message
    checked_delivery get_queue authorize_cross_service principal_matches_pattern
wrapped = refl

row-published : Memᴰ row published_queues.messages
row-published = rw wrapped (Memᴰ.head refl)

handle_publish-IsPermitted_example : Memᴰ row [] ⊎ IsPermitted wild parse_policy queues.queues 1
handle_publish-IsPermitted_example =
    handle_publish-IsPermitted wild parse_policy json_object rfc3339 "unique" "foreign key"
      parse_url to_json decode_base64 md5 topics hello "id" (λ n. (0, 0, "uuid")) queues row
      row-published

unsubscribed : (handle_unsubscribe topics "arn:aws:sns:r:1:t:s").1.subscriptions ≡ []
unfolding handle_unsubscribe
unsubscribed = refl
