-- ===== src/Sqs/Dispatch.antt =====
-- hiraeth_sqs/src/auth.rs, actions/mod.rs and the `Service` of lib.rs: which action a request is for,
-- what it needs to be allowed, and how it reaches the action. The readers of serde_json are
-- `parse_get_queue_url`, `queue_url_field` and `parse_policy`, its writer of errors `to_vec`.
pub mod Laws
mod Examples
pub mod Named
pub mod Access
use hiraeth.Common.{
  ℕ, String, Bool, true, false, ◌||◌, List, [], ◌∷◌, map, Option, none, some, ◌==◌, ◌⊕◌, any,
  strip_prefix, if◌then◌else◌, Result, ok, err, map_err, ok_or, ◌>>=◌,
}
use hiraeth.Auth.Policy.{Policy, default_policy}
use hiraeth.Core.Action.{AwsAction, AwsActionRegistry, get_action, handle_action, validate_action}
use hiraeth.Core.Protocol.{
  ApiError, AwsJsonErrorBody, ServiceResponse, not_found, render_aws_json_error,
}
use hiraeth.Core.Request.{ResolvedRequest, get}
use hiraeth.Iam.Authorize.{AuthorizationCheck}
use hiraeth.Router.{Service}
use hiraeth.Sqlite.Sqs.{Db, get_queue}
use hiraeth.Sqs.Attributes.{unwrap_or}
use hiraeth.Sqs.Error.{SqsError, bad_request, internal, sqs_service_error, unsupported_operation}
use hiraeth.Sqs.Util.{get_queue_arn, load_queue_from_url}
use hiraeth.Store.Sqs.{SqsQueue}

-- the operations of `target_to_operation_name`
abbrev pub operation_names : List String
operation_names =
    "CreateQueue" ∷ "DeleteQueue" ∷ "GetQueueAttributes" ∷ "GetQueueUrl" ∷ "ListQueueTags"
    ∷ "ListQueues" ∷ "PurgeQueue" ∷ "ReceiveMessage" ∷ "SendMessage" ∷ "SendMessageBatch"
    ∷ "SetQueueAttributes" ∷ "TagQueue" ∷ "UntagQueue" ∷ "ChangeMessageVisibility"
    ∷ "ChangeMessageVisibilityBatch" ∷ "DeleteMessage" ∷ "DeleteMessageBatch" ∷ []

abbrev pub known_operation : String → String → Result String SqsError
known_operation target action =
    if any (λ name. action == name) operation_names
    then ok action
    else err (unsupported_operation target)

abbrev pub operation_of : String → Option String → Result String SqsError
operation_of target none = err (unsupported_operation target)
operation_of target (some action) = known_operation target action

unfoldable pub target_to_operation_name : String → Result String SqsError
unfolding strip_prefix
target_to_operation_name target = operation_of target (strip_prefix "AmazonSQS." target)

abbrev pub operation_of_header : Option String → Result String SqsError
unfolding target_to_operation_name
operation_of_header none = err (bad_request "Missing x-amz-target header")
operation_of_header (some value) = target_to_operation_name value

unfoldable pub get_action_name_for_request : ResolvedRequest → Result String SqsError
unfolding get target_to_operation_name
get_action_name_for_request request =
    operation_of_header (get "x-amz-target" request.request.headers)

-- The names under which `registry` registers its actions, in its order.
abbrev pub registered_names : List String
registered_names =
    "ChangeMessageVisibility" ∷ "ChangeMessageVisibilityBatch" ∷ "CreateQueue" ∷ "DeleteMessage"
    ∷ "DeleteMessageBatch" ∷ "DeleteQueue" ∷ "GetQueueAttributes" ∷ "GetQueueUrl" ∷ "ListQueueTags"
    ∷ "ListQueues" ∷ "PurgeQueue" ∷ "ReceiveMessage" ∷ "SendMessage" ∷ "SendMessageBatch"
    ∷ "SetQueueAttributes" ∷ "TagQueue" ∷ "UntagQueue" ∷ []

module _ (parse_url : String → Option (String × List String))
    (parse_get_queue_url : List ℕ → Result (String × Option String) String)
    (queue_url_field : List ℕ → Result (Option String) String)
    (parse_policy : String → Option Policy) where
  unfoldable pub get_queue_url_from_request : ResolvedRequest → Result String SqsError
  get_queue_url_from_request request = do
    field ←
        map_err (λ e. bad_request ("Invalid JSON body: " ⊕ e))
          (queue_url_field request.request.body)
    ok_or (bad_request "Missing QueueUrl in request body") field

  unfoldable pub get_queue_from_request : ResolvedRequest → Db → Result SqsQueue SqsError
  unfolding get_queue_url_from_request load_queue_from_url
  get_queue_from_request request db = do
    queue_url ← get_queue_url_from_request request
    load_queue_from_url parse_url request.region db queue_url

  unfoldable pub get_queue_by_request : ResolvedRequest → Db → Result (Option SqsQueue) SqsError
  unfolding get_queue
  get_queue_by_request request db = do
    body ← map_err (λ e. bad_request e) (parse_get_queue_url request.request.body)
    map_err internal
        (get_queue body.0 request.region
          (unwrap_or request.auth_context.principal.account_id body.1) db).0

  unfoldable pub get_relevant_queue_for_action :
      String → ResolvedRequest → Db → Result (Option SqsQueue) SqsError
  unfolding get_queue_by_request get_queue_from_request
  get_relevant_queue_for_action action request db =
      if action == "sqs:ListQueues" || action == "sqs:CreateQueue"
      then ok none
      else if action == "sqs:GetQueueUrl"
      then get_queue_by_request request db
      else get_queue_from_request request db >>= (λ queue. ok (some queue))

  abbrev pub resource_of : ResolvedRequest → Option SqsQueue → String
  unfolding get_queue_arn
  resource_of request none =
      "arn:aws:sqs:" ⊕ request.region ⊕ ":" ⊕ request.auth_context.principal.account_id ⊕ ":*"
  resource_of request (some queue) = get_queue_arn queue

  abbrev pub policy_of : Option SqsQueue → Option Policy
  policy_of none = none
  policy_of (some queue) = some (unwrap_or default_policy (parse_policy queue.policy))

  unfoldable pub resolve_authorization :
      String → ResolvedRequest → Db → Result AuthorizationCheck SqsError
  unfolding get_relevant_queue_for_action get_queue_arn
  resolve_authorization authorization_action request db = do
    relevant_queue ← get_relevant_queue_for_action authorization_action request db
    ok (record {
      action = authorization_action;
      resource = resource_of request relevant_queue;
      resource_policy = policy_of relevant_queue;
    })

module _ {S : Type 0} (to_vec : AwsJsonErrorBody → List ℕ) (actions : AwsActionRegistry S) where
  -- `ServiceResponse::from`
  abbrev pub error_response : SqsError → ServiceResponse
  unfolding render_aws_json_error
  error_response error = render_aws_json_error to_vec error

  abbrev pub or_unsupported :
      String → Option ServiceResponse × S → Result ServiceResponse ApiError × S
  unfolding render_aws_json_error
  or_unsupported name (some response, after) = (ok response, after)
  or_unsupported name (none, after) = (ok (error_response (unsupported_operation name)), after)

  -- a request without the header is not found; other errors are answered
  abbrev pub unnamed : SqsError → Result ServiceResponse ApiError
  unfolding render_aws_json_error
  unnamed (bad_request message) =
      if message == "Missing x-amz-target header"
      then err (not_found message)
      else ok (error_response (bad_request message))
  unnamed e = ok (error_response e)

  abbrev pub run_named :
      ResolvedRequest → S → Result String SqsError → Result ServiceResponse ApiError × S
  unfolding handle_action render_aws_json_error
  run_named request store (err e) = (unnamed e, store)
  run_named request store (ok name) = or_unsupported name (handle_action actions name request store)

  unfoldable pub sqs_service : Service S
  unfolding get_action_name_for_request handle_action validate_action get_action
      render_aws_json_error
  sqs_service = record {
    can_handle = λ request. request.service == "sqs";
    handle_request = λ request store. run_named request store (get_action_name_for_request request);
    resolve_authorization = λ request store. do
      name ← map_err error_response (get_action_name_for_request request)
      action ← ok_or (error_response (unsupported_operation name)) (get_action actions name)
      action.resolve_authorization request store;
    validate_request = λ request store. do
      name ← map_err error_response (get_action_name_for_request request)
      result ←
          ok_or (error_response (unsupported_operation name))
            (validate_action actions name request store)
      result;
  }
