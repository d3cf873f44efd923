-- ===== src/Sns/Error.antt =====
-- hiraeth_sns/src/error.rs: the errors of the notification service and where they come from.
use hiraeth.Common.{String, ◌⊕◌}
use hiraeth.Core.Protocol.{AwsServiceError, sender, server}
use hiraeth.Store.{StoreError, conflict, not_found, storage_failure}

pub data SnsError : Type 0 where
  topic_not_found : SnsError
  subscription_not_found : SnsError
  bad_request : String → SnsError
  internal_error : String → SnsError
  unsupported_operation : String → SnsError
  not_authorized_to_queue : String → SnsError

abbrev pub error_code : SnsError → String
error_code topic_not_found = "NotFound"
error_code subscription_not_found = "NotFound"
error_code (bad_request _) = "InvalidParameter"
error_code (internal_error _) = "InternalError"
error_code (unsupported_operation _) = "InvalidAction"
error_code (not_authorized_to_queue _) = "AuthorizationError"

abbrev pub error_text : SnsError → String
error_text topic_not_found = "Topic does not exist"
error_text subscription_not_found = "Subscription does not exist"
error_text (bad_request msg) = msg
error_text (internal_error msg) = msg
error_text (unsupported_operation msg) = msg
error_text (not_authorized_to_queue arn) = "SNS is not authorized to access SQS queue: " ⊕ arn

-- `query_code` is the code, as the trait has it
instance abbrev pub sns_service_error : AwsServiceError SnsError
sns_service_error = record {
  status_code = λ e. elim e [ internal_error _ ↦ 500 | _ ↦ 400 ];
  namespace = λ e. "com.amazonaws.sns";
  error_code = error_code;
  query_error_prefix = λ e. "AWS.SimpleNotificationService";
  fault = λ e. elim e [ internal_error _ ↦ server | _ ↦ sender ];
  query_code = error_code;
  to_text = error_text;
}

-- `From<StoreError>`
abbrev pub from_store_error : StoreError → SnsError
from_store_error (not_found _) = topic_not_found
from_store_error (conflict msg) = bad_request msg
from_store_error (storage_failure msg) = internal_error msg
