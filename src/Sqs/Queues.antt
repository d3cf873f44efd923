-- ===== src/Sqs/Queues.antt =====
-- The remaining queue handlers of hiraeth_sqs/src/actions: delete_queue.rs, purge_queue.rs,
-- get_queue_url.rs, list_queues.rs, get_queue_attributes.rs, list_queue_tags.rs and untag_queue.rs.
-- Each reading of the clock is an argument.
use hiraeth.Common.{
  ℕ, suc, ◌-◌, String, Bool, true, false, not, ◌&&◌, ◌||◌, List, [], ◌∷◌, ◌++◌, map, Option, none,
  some, ◌==◌, ◌⊕◌, ltb, leb, any, length, take, is_empty, if◌then◌else◌, ℤ, pos, negsuc, in_range,
  to_nat, ends_with, decimal, Result, ok, err, map_err, reject, ◌>>=◌, ◌>>◌,
}
use Prim.Native.Nat.{zero, ◌^◌}
use hiraeth.Core.Request.{Map, ResolvedRequest}
use hiraeth.Sqlite.Sqs.Admin.{list_queue_tags, list_queues, untag_queue}
use hiraeth.Sqlite.Sqs.{
  Db, delete_queue, get_message_count, get_messages_delayed_count, get_queue,
  get_visible_message_count, purge_queue,
}
use hiraeth.Sqs.Attributes.{unwrap_or}
use hiraeth.Sqs.Create.{validate_queue_name, validate_tag_key}
use hiraeth.Sqs.Error.{SqsError, bad_request, internal, map_store_error, queue_not_found}
use hiraeth.Sqs.Messages.{Outcome, and_then, persist}
use hiraeth.Sqs.Receive.{epoch_millis}
use hiraeth.Sqs.Util.{get_queue_arn, load_queue_from_url, queue_url}
use hiraeth.Store.Sqs.{SqsQueue}

abbrev check_tag_keys : List String → Result Unit SqsError
unfolding validate_tag_key
check_tag_keys [] = ok tt
check_tag_keys (key ∷ keys) = do validate_tag_key key; check_tag_keys keys

unfoldable pub validate_tag_keys : List String → Bool → Result Unit SqsError
unfolding validate_tag_key
validate_tag_keys tag_keys allow_empty = do
  reject (not allow_empty && is_empty tag_keys)
      (bad_request "TagKeys must contain at least one entry")
  reject (ltb 50 (length tag_keys)) (bad_request "TagKeys can contain at most 50 entries")
  check_tag_keys tag_keys

module _ (parse_url : String → Option (String × List String)) where
  unfoldable pub handle_delete_queue : ResolvedRequest → Db → String → Outcome Unit
  unfolding load_queue_from_url delete_queue
  handle_delete_queue request db queue_url =
      and_then db (load_queue_from_url parse_url request.region db queue_url)
        (λ queue. persist map_store_error tt (delete_queue queue.id db))

  unfoldable pub handle_purge_queue : ResolvedRequest → Db → String → Outcome Unit
  unfolding load_queue_from_url purge_queue
  handle_purge_queue request db queue_url =
      and_then db (load_queue_from_url parse_url request.region db queue_url)
        (λ queue. persist map_store_error tt (purge_queue queue.id db))

  unfoldable pub handle_untag_queue : ResolvedRequest → Db → String → List String → Outcome Unit
  unfolding load_queue_from_url validate_tag_keys untag_queue
  handle_untag_queue request db queue_url tag_keys =
      and_then db
        (do
          validate_tag_keys tag_keys false
          load_queue_from_url parse_url request.region db queue_url)
        (λ queue. persist map_store_error tt (untag_queue queue.id tag_keys db))

  unfoldable pub handle_list_queue_tags :
      ResolvedRequest → Db → String → Result (Map String) SqsError
  unfolding load_queue_from_url list_queue_tags
  handle_list_queue_tags request db queue_url = do
    queue ← load_queue_from_url parse_url request.region db queue_url
    map_err map_store_error (list_queue_tags queue.id db).0

-- the answer for a queue that was looked up
abbrev pub url_of : String → String → String → Option SqsQueue → Result String SqsError
unfolding queue_url
url_of host account_id queue_name none = err queue_not_found
url_of host account_id queue_name (some _) = ok (queue_url host account_id queue_name)

unfoldable pub handle_get_queue_url :
    ResolvedRequest → Db → String → Option String → Result String SqsError
unfolding validate_queue_name ends_with get_queue queue_url
handle_get_queue_url request db queue_name queue_owner_aws_account_id = do
  validate_queue_name queue_name (ends_with ".fifo" queue_name)
  let account_id = unwrap_or request.auth_context.principal.account_id queue_owner_aws_account_id
  queue ← map_err internal (get_queue queue_name request.region account_id db).0
  url_of request.request.host account_id queue_name queue

pub record ListQueuesRequest : Type 0 where
  pub max_results : Option ℤ
  pub next_token : Option String
  pub queue_name_prefix : Option String

pub record ListQueuesResponse : Type 0 where
  pub queue_urls : List String
  pub next_token : Option String

abbrev out_of_range : Option ℤ → Bool
out_of_range none = false
out_of_range (some max_results) = not (in_range 1 1000 max_results)

unfoldable pub validate_list_queues_request : ListQueuesRequest → Result Unit SqsError
validate_list_queues_request request_body =
    reject (out_of_range request_body.max_results)
      (bad_request "MaxResults must be between 1 and 1000")

-- `saturating_add(1)` of an i64
abbrev pub saturating_succ : ℤ → ℤ
saturating_succ (pos n) = if ltb (suc n) (2 ^ 63) then pos (suc n) else pos n
saturating_succ (negsuc zero) = pos 0
saturating_succ (negsuc (suc n)) = negsuc n

abbrev pub store_max_results : Option ℤ → Option ℤ
store_max_results none = none
store_max_results (some max_results) = some (saturating_succ max_results)

-- `queues.last().map(|q| q.name.clone())`
abbrev pub last_name : List SqsQueue → Option String
last_name [] = none
last_name (q ∷ []) = some q.name
last_name (q ∷ r ∷ qs) = last_name (r ∷ qs)

-- `len() as i64 > max_results`
abbrev pub exceeds : ℕ → ℤ → Bool
exceeds n (pos max_results) = ltb max_results n
exceeds n (negsuc _) = true

-- the queues of the page, and the token for the next one
abbrev pub page : Option ℤ → List SqsQueue → List SqsQueue × Option String
page none queues = (queues, none)
page (some max_results) queues =
    let truncated = take (to_nat max_results) queues in
    if exceeds (length queues) max_results then (truncated, last_name truncated) else (queues, none)

unfoldable pub handle_list_queues :
    ResolvedRequest → Db → ListQueuesRequest → Result ListQueuesResponse SqsError
unfolding validate_list_queues_request list_queues queue_url
handle_list_queues request db request_body = do
  validate_list_queues_request request_body
  let account_id = request.auth_context.principal.account_id
  queues ←
      map_err internal
        (list_queues request.region account_id request_body.queue_name_prefix
          (store_max_results request_body.max_results) request_body.next_token db).0
  let listed = page request_body.max_results queues
  ok (record {
    queue_urls = map (λ q. queue_url request.request.host account_id q.name) listed.0;
    next_token = listed.1;
  })

abbrev pub is_requested_attribute : List String → String → Bool
is_requested_attribute requested_attributes attribute_name =
    any (λ requested. requested == attribute_name || requested == "All") requested_attributes

-- `insert` of a value whose name was asked for
abbrev pub attribute : List String → String → String → Map String
attribute requested name value =
    if is_requested_attribute requested name then (name, value) ∷ [] else []

abbrev bool_text : Bool → String
bool_text true = "true"
bool_text false = "false"

-- `(a - b).to_string()` of two i64
abbrev pub difference : ℕ → ℕ → String
unfolding decimal
difference a b = if leb b a then decimal (a - b) else "-" ⊕ decimal (b - a)

abbrev kms_attribute : List String → Option String → Map String
kms_attribute requested none = []
kms_attribute requested (some id) = attribute requested "KmsMasterKeyId" id

-- what the queue's own columns answer, after the counts
abbrev stored_queue_attributes : List String → SqsQueue → Map String
unfolding decimal
stored_queue_attributes requested queue =
    attribute requested "DelaySeconds" (decimal queue.delay_seconds)
    ++ attribute requested "ReceiveMessageWaitTimeSeconds"
        (decimal queue.receive_message_wait_time_seconds)
    ++ attribute requested "RedrivePolicy" queue.redrive_policy
    ++ attribute requested "FifoQueue" (bool_text (queue.queue_type == "fifo"))
    ++ attribute requested "ContentBasedDeduplication" (bool_text queue.content_based_deduplication)
    ++ kms_attribute requested queue.kms_master_key_id
    ++ attribute requested "KmsDataKeyReusePeriodSeconds"
        (decimal queue.kms_data_key_reuse_period_seconds)
    ++ attribute requested "DeduplicationScope" queue.deduplication_scope
    ++ attribute requested "FifoThroughputLimit" queue.fifo_throughput_limit
    ++ attribute requested "RedriveAllowPolicy" queue.redrive_allow_policy
    ++ attribute requested "SqsManagedSseEnabled" (bool_text queue.sqs_managed_sse_enabled)

-- the counts are taken one after the other: `counted` for all messages, then `seen` and `recounted`
-- for those not visible, then `delayed`
unfoldable pub collect_queue_attributes :
    ℕ → ℕ → ℕ → ℕ → Db → SqsQueue → List String → Result (Map String) SqsError
unfolding decimal epoch_millis get_queue_arn get_message_count get_visible_message_count
    get_messages_delayed_count
collect_queue_attributes counted seen recounted delayed db queue requested = do
  message_count ← map_err internal (get_message_count counted queue.id db).0
  visible_message_count ← map_err internal (get_visible_message_count seen queue.id db).0
  message_count_again ← map_err internal (get_message_count recounted queue.id db).0
  delayed_message_count ← map_err internal (get_messages_delayed_count delayed queue.id db).0
  ok (
      attribute requested "Policy" queue.policy
      ++ attribute requested "VisibilityTimeout" (decimal queue.visibility_timeout_seconds)
      ++ attribute requested "MaximumMessageSize" (decimal queue.maximum_message_size)
      ++ attribute requested "MessageRetentionPeriod"
          (decimal queue.message_retention_period_seconds)
      ++ attribute requested "ApproximateNumberOfMessages" (decimal message_count)
      ++ attribute requested "ApproximateNumberOfMessagesNotVisible"
          (difference message_count_again visible_message_count)
      ++ attribute requested "CreatedTimestamp" (epoch_millis queue.created_at)
      ++ attribute requested "LastModifiedTimestamp" (epoch_millis queue.updated_at)
      ++ attribute requested "QueueArn" (get_queue_arn queue)
      ++ attribute requested "ApproximateNumberOfMessagesDelayed" (decimal delayed_message_count)
      ++ stored_queue_attributes requested queue)

module _ (parse_url : String → Option (String × List String)) where
  unfoldable pub handle_get_queue_attributes :
      ResolvedRequest → ℕ → ℕ → ℕ → ℕ → Db → String → List String → Result (Map String) SqsError
  unfolding load_queue_from_url collect_queue_attributes
  handle_get_queue_attributes request counted seen recounted delayed db queue_url attribute_names =
      do
        queue ← load_queue_from_url parse_url request.region db queue_url
        collect_queue_attributes counted seen recounted delayed db queue attribute_names
