-- ===== src/Sqs/Create.antt =====
-- hiraeth_sqs/src/actions: queue_support.rs, tag_support.rs, create_queue.rs, set_queue_attributes.rs
-- and the tagging of tag_queue.rs, on the tables of the store.
pub mod Limits
pub mod Updates
use hiraeth.Common.{
  ℕ, String, Bool, true, false, not, ◌&&◌, ◌||◌, List, [], ◌∷◌, ◌++◌, Option, none, some, ◌==◌, ◌⊕◌,
  Char, code, eqb, ltb, length, is_empty, if◌then◌else◌, is_alphanumeric, all_chars, starts_with,
  ends_with, strip_suffix, byte_length, count_chars, Result, ok, err, map_err, ok_or, reject, ◌>>=◌,
  ◌>>◌, keep, any,
}
use hiraeth.Core.Request.{Map, ResolvedRequest}
use hiraeth.Sqlite.Sqs.Admin.{list_queue_tags, set_queue_attributes, tag_queue}
use hiraeth.Sqlite.Sqs.{Db, create_queue, get_queue}
use hiraeth.Sqs.Attributes.Update.{parse_queue_attribute_update}
use hiraeth.Sqs.Attributes.{QueueAttributeValues, from_attribute_map, unwrap_or}
use hiraeth.Sqs.Error.{
  SqsError, bad_request, internal, internal_error, map_store_error, queue_already_exists,
}
use hiraeth.Sqs.Messages.{Outcome, and_then, persist}
use hiraeth.Sqs.Util.{load_queue_from_url, queue_url}
use hiraeth.Store.Sqs.{SqsQueue}
use hiraeth.Store.{StoreError, conflict, not_found, storage_failure}

abbrev is_name_char : Char → Bool
is_name_char ch = is_alphanumeric (code ch) || eqb (code ch) b'-' || eqb (code ch) b'_'

unfoldable pub validate_queue_name : String → Bool → Result Unit SqsError
unfolding byte_length all_chars strip_suffix ends_with
validate_queue_name queue_name fifo_queue = do
  reject (queue_name == "" || ltb 80 (byte_length queue_name))
      (bad_request "QueueName must be between 1 and 80 characters")
  reject (not (all_chars is_name_char (unwrap_or queue_name (strip_suffix ".fifo" queue_name))))
      (bad_request "QueueName may only contain alphanumeric characters, hyphens, and underscores")
  reject (fifo_queue && not (ends_with ".fifo" queue_name))
      (bad_request "FIFO queue names must end with .fifo")
  reject (not fifo_queue && ends_with ".fifo" queue_name)
      (bad_request "Queue names ending with .fifo must set FifoQueue=true")

abbrev bool_eq : Bool → Bool → Bool
bool_eq true b = b
bool_eq false b = not b

abbrev option_eq : Option String → Option String → Bool
option_eq none none = true
option_eq none (some _) = false
option_eq (some _) none = false
option_eq (some a) (some b) = a == b

unfoldable pub queue_configuration_matches : SqsQueue → SqsQueue → Bool
queue_configuration_matches existing requested =
    existing.queue_type == requested.queue_type
    && eqb existing.visibility_timeout_seconds requested.visibility_timeout_seconds
    && eqb existing.delay_seconds requested.delay_seconds
    && eqb existing.maximum_message_size requested.maximum_message_size
    && eqb existing.message_retention_period_seconds requested.message_retention_period_seconds
    && eqb existing.receive_message_wait_time_seconds requested.receive_message_wait_time_seconds
    && existing.policy == requested.policy
    && existing.redrive_policy == requested.redrive_policy
    && bool_eq existing.content_based_deduplication requested.content_based_deduplication
    && option_eq existing.kms_master_key_id requested.kms_master_key_id
    && eqb existing.kms_data_key_reuse_period_seconds requested.kms_data_key_reuse_period_seconds
    && existing.deduplication_scope == requested.deduplication_scope
    && existing.fifo_throughput_limit == requested.fifo_throughput_limit
    && existing.redrive_allow_policy == requested.redrive_allow_policy
    && bool_eq existing.sqs_managed_sse_enabled requested.sqs_managed_sse_enabled

unfoldable pub validate_tag_key : String → Result Unit SqsError
unfolding count_chars starts_with
validate_tag_key key = do
  reject (eqb (count_chars key) 0 || ltb 128 (count_chars key))
      (bad_request "Tag keys must be between 1 and 128 characters")
  reject (starts_with "aws:" key)
      (bad_request "Tag keys cannot start with the reserved aws: prefix")

abbrev check_tags : Map String → Result Unit SqsError
unfolding validate_tag_key count_chars
check_tags [] = ok tt
check_tags ((key, value) ∷ rest) = do
  validate_tag_key key
  reject (ltb 256 (count_chars value))
      (bad_request ("Tag value for '" ⊕ key ⊕ "' must be at most 256 characters"))
  check_tags rest

unfoldable pub validate_tags : Map String → Bool → Result Unit SqsError
unfolding validate_tag_key count_chars
validate_tags tags allow_empty = do
  reject (not allow_empty && is_empty tags) (bad_request "Tags must contain at least one entry")
  reject (ltb 50 (length tags)) (bad_request "A queue can have at most 50 tags")
  check_tags tags

unfoldable pub new_queue : ResolvedRequest → ℕ → String → QueueAttributeValues → SqsQueue
new_queue request now queue_name values = record {
  id = 0;
  name = queue_name;
  region = request.region;
  account_id = request.auth_context.principal.account_id;
  queue_type = if values.fifo_queue then "fifo" else "standard";
  visibility_timeout_seconds = values.visibility_timeout_seconds;
  delay_seconds = values.delay_seconds;
  maximum_message_size = values.maximum_message_size;
  message_retention_period_seconds = values.message_retention_period_seconds;
  receive_message_wait_time_seconds = values.receive_message_wait_time_seconds;
  policy = values.policy;
  redrive_policy = values.redrive_policy;
  content_based_deduplication = values.content_based_deduplication;
  kms_master_key_id = values.kms_master_key_id;
  kms_data_key_reuse_period_seconds = values.kms_data_key_reuse_period_seconds;
  deduplication_scope = values.deduplication_scope;
  fifo_throughput_limit = values.fifo_throughput_limit;
  redrive_allow_policy = values.redrive_allow_policy;
  sqs_managed_sse_enabled = values.sqs_managed_sse_enabled;
  created_at = now;
  updated_at = now;
}

-- what the handler answers when the queue is there already
abbrev existing_outcome : String → String → SqsQueue → Option SqsQueue → Result String SqsError
unfolding queue_configuration_matches
existing_outcome url queue_name queue (some existing) =
    if queue_configuration_matches existing queue
    then ok url
    else err (
        queue_already_exists
          ("A queue named '" ⊕ queue_name ⊕ "' already exists with different attributes."))
existing_outcome url queue_name queue none =
    err (internal_error "queue creation conflicted but existing queue could not be loaded")

abbrev pub tag_created : String → Map String → Db → Result SqsQueue SqsError → Outcome String
unfolding tag_queue
tag_created url tags db found =
    and_then db found (λ q. persist map_store_error url (tag_queue q.id tags db))

abbrev pub created :
    ResolvedRequest → String → Map String → SqsQueue → Result Unit StoreError × Db → Outcome String
unfolding get_queue queue_url tag_queue queue_configuration_matches
created request name tags queue (ok _, db) =
    let account_id = request.auth_context.principal.account_id in
    let url = queue_url request.request.host account_id name in
    let found = map_err internal (get_queue name request.region account_id db).0 in
    if is_empty tags
    then (ok url, db)
    else tag_created url tags db (do
      maybe_queue ← found
      ok_or (internal_error "created queue could not be loaded for tagging") maybe_queue)
created request name tags queue (err (conflict _), db) =
    let account_id = request.auth_context.principal.account_id in
    (
      (do
        existing ← map_err internal (get_queue name request.region account_id db).0
        existing_outcome (queue_url request.request.host account_id name) name queue existing),
      db,
    )
created request name tags queue (err (not_found e), db) = (err (internal (not_found e)), db)
created request name tags queue (err (storage_failure e), db) =
    (err (internal (storage_failure e)), db)

module _ (unique_message foreign_key_message : String)
    (json_error policy_error : String → Option String) where
  -- `now` is the handler's clock, `current_timestamp` that of the database
  unfoldable pub handle_create_queue :
      ResolvedRequest → ℕ → ℕ → Db → String → Map String → Map String → Outcome String
  unfolding from_attribute_map validate_queue_name validate_tags new_queue create_queue get_queue
      tag_queue queue_url queue_configuration_matches
  handle_create_queue request now current_timestamp db queue_name attributes tags =
      and_then db
        (do
          values ← from_attribute_map json_error policy_error attributes
          validate_queue_name queue_name values.fifo_queue
          validate_tags tags true
          ok (new_queue request now queue_name values))
        (λ queue.
          created request queue_name tags queue
            (create_queue unique_message foreign_key_message current_timestamp queue db))

module _ (parse_url : String → Option (String × List String)) where
  unfoldable pub handle_set_queue_attributes :
      (String → Option String)
      → (String → Option String)
      → ResolvedRequest
      → ℕ
      → Db
      → String
      → Map String
      → Outcome Unit
  unfolding load_queue_from_url parse_queue_attribute_update set_queue_attributes
  handle_set_queue_attributes json_error policy_error request now db queue_url attributes =
      and_then db
        (do
          queue ← load_queue_from_url parse_url request.region db queue_url
          update ← parse_queue_attribute_update json_error policy_error attributes
          ok (queue, update))
        (λ (queue, update).
          persist map_store_error tt (set_queue_attributes now queue.id update db))

  -- `merged_tags.extend(tags)`: the old tags whose keys are not given anew, then the new ones
  abbrev extend : Map String → Map String → Map String
  extend old new = keep (λ entry. not (any (λ other. other.0 == entry.0) new)) old ++ new

  unfoldable pub handle_tag_queue : ResolvedRequest → Db → String → Map String → Outcome Unit
  unfolding validate_tags load_queue_from_url list_queue_tags tag_queue
  handle_tag_queue request db queue_url tags =
      and_then db
        (do
          validate_tags tags false
          queue ← load_queue_from_url parse_url request.region db queue_url
          old ← map_err map_store_error (list_queue_tags queue.id db).0
          validate_tags (extend old tags) true
          ok queue)
        (λ queue. persist map_store_error tt (tag_queue queue.id tags db))
