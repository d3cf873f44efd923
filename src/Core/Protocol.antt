-- ===== src/Core/Protocol.antt =====
-- hiraeth_core/src/protocol.rs and lib.rs: service responses, the errors of a service and how they
-- are rendered. `to_vec` is serde_json's writer for the error body.
use hiraeth.Common.{ℕ, String, Bool, true, false, List, [], ◌∷◌, ◌⊕◌}

pub record ServiceResponse : Type 0 where
  pub status_code : ℕ
  pub headers : List (String × String)
  pub body : List ℕ

pub data ApiError : Type 0 where
  not_found : String → ApiError
  internal_server_error : String → ApiError
  bad_request : String → ApiError
  not_authorized : String → ApiError
  not_authenticated : String → ApiError

abbrev pub api_status_code : ApiError → ℕ
api_status_code (not_found _) = 404
api_status_code (internal_server_error _) = 500
api_status_code (bad_request _) = 400
api_status_code (not_authorized _) = 403
api_status_code (not_authenticated _) = 401

pub data AwsErrorFault : Type 0 where
  sender server : AwsErrorFault

abbrev pub as_query_type : AwsErrorFault → String
as_query_type sender = "Sender"
as_query_type server = "Server"

abbrev pub sender_fault : AwsErrorFault → Bool
sender_fault sender = true
sender_fault server = false

-- The trait `AwsServiceError` with its `Display`, for the error type `E`.
pub record AwsServiceError (E : Type 0) : Type 0 where
  pub status_code : E → ℕ
  pub namespace : E → String
  pub error_code : E → String
  pub query_error_prefix : E → String
  pub fault : E → AwsErrorFault
  pub query_code : E → String
  pub to_text : E → String

pub record AwsJsonErrorBody : Type 0 where
  pub error_type : String
  pub message : String

module _ {E : Type 0} ⦃e : AwsServiceError E⦄ where
  abbrev pub aws_batch_error_details : E → String × Bool
  aws_batch_error_details error = (e.error_code error, sender_fault (e.fault error))

  unfoldable pub render_aws_json_error : (AwsJsonErrorBody → List ℕ) → E → ServiceResponse
  render_aws_json_error to_vec error = record {
    status_code = e.status_code error;
    headers =
        ("content-type", "application/x-amz-json-1.0")
        ∷ (
          "x-amzn-query-error",
          e.query_error_prefix error
              ⊕ "."
              ⊕ e.query_code error
              ⊕ ";"
              ⊕ as_query_type (e.fault error),
        )
        ∷ [];
    body = to_vec (record {
      error_type = e.namespace error ⊕ "#" ⊕ e.error_code error;
      message = e.to_text error;
    });
  }

abbrev pub empty_response : ServiceResponse
empty_response = record { status_code = 200; headers = []; body = [] }
