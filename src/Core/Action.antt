-- ===== src/Core/Action.antt =====
-- hiraeth_core/src/action.rs, with the responses of protocol.rs that it renders: actions with typed
-- payloads, the adapter that makes them actions on requests, and the registry. An action acts on a
-- state `S`. The readers and writers of serde are arguments of the adapter, and the text of their
-- errors is what they return.
use hiraeth.Common.{
  ℕ, String, List, [], ◌∷◌, ◌++◌, Option, none, some, ◌==◌, find, Result, ok, err, map_err, ◌>>=◌,
}
use hiraeth.Core.Protocol.{ServiceResponse, empty_response}
use hiraeth.Core.Request.{IncomingRequest, ResolvedRequest}
use hiraeth.Iam.Authorize.{AuthorizationCheck}

pub record AwsAction (S : Type 0) : Type 0 where
  pub name : String
  pub validate : ResolvedRequest → S → Result Unit ServiceResponse
  pub handle : ResolvedRequest → S → ServiceResponse × S
  pub resolve_authorization : ResolvedRequest → S → Result AuthorizationCheck ServiceResponse

pub data AwsActionPayloadFormat : Type 0 where
  aws_query json : AwsActionPayloadFormat

pub data AwsActionResponseFormat : Type 0 where
  json xml empty : AwsActionResponseFormat

pub data AwsActionPayloadParseError : Type 0 where
  aws_query : String → AwsActionPayloadParseError
  json : String → AwsActionPayloadParseError

pub record TypedAwsAction (S Request Response Error : Type 0) : Type 0 where
  pub name : String
  pub payload_format : AwsActionPayloadFormat
  pub response_format : AwsActionResponseFormat
  pub parse_error : AwsActionPayloadParseError → Error
  pub validate : ResolvedRequest → Request → S → Result Unit Error
  pub handle : ResolvedRequest → Request → S → Result Response Error × S
  pub resolve_authorization : ResolvedRequest → Request → S → Result AuthorizationCheck Error

-- What serde and the error type give an action: `from_error` is `From<ResponseSerializationError>` and
-- `into_response` is `Into<ServiceResponse>`.
pub record Serde (Request Response Error : Type 0) : Type 0 where
  pub parse_query : IncomingRequest → Result Request String
  pub parse_json : List ℕ → Result Request String
  pub json_body : Response → Result (List ℕ) String
  pub xml_body : Response → Result (List ℕ) String
  pub from_error : String → Error
  pub into_response : Error → ServiceResponse

module _ {Request Response Error : Type 0} (serde : Serde Request Response Error) where
  unfoldable pub parse_payload :
      AwsActionPayloadFormat → ResolvedRequest → Result Request AwsActionPayloadParseError
  parse_payload AwsActionPayloadFormat.aws_query request =
      map_err (λ e. AwsActionPayloadParseError.aws_query e) (serde.parse_query request.request)
  parse_payload AwsActionPayloadFormat.json request =
      map_err (λ e. AwsActionPayloadParseError.json e) (serde.parse_json request.request.body)

  unfoldable pub json_response : Response → Result ServiceResponse String
  json_response response = do
    body ← serde.json_body response
    ok (record { status_code = 200; headers = []; body = body })

  unfoldable pub xml_response : Response → Result ServiceResponse String
  xml_response response = do
    body ← serde.xml_body response
    ok (record {
      status_code = 200;
      headers = ("content-type", "text/xml; charset=utf-8") ∷ [];
      body = body;
    })

  unfoldable pub render_response :
      AwsActionResponseFormat → Response → Result ServiceResponse String
  unfolding json_response xml_response
  render_response AwsActionResponseFormat.json response = json_response response
  render_response AwsActionResponseFormat.xml response = xml_response response
  render_response AwsActionResponseFormat.empty response = ok empty_response

  abbrev pub rendered : Result ServiceResponse String → ServiceResponse
  rendered (ok response) = response
  rendered (err e) = serde.into_response (serde.from_error e)

  abbrev pub answered : AwsActionResponseFormat → Result Response Error → ServiceResponse
  unfolding render_response
  answered format (ok response) = rendered (render_response format response)
  answered format (err e) = serde.into_response e

module _ {S Request Response Error : Type 0} (serde : Serde Request Response Error) where
  abbrev pub with_payload :
      TypedAwsAction S Request Response Error
      → ResolvedRequest
      → S
      → Result Request AwsActionPayloadParseError
      → ServiceResponse × S
  unfolding render_response
  with_payload action request store (err e) = (serde.into_response (action.parse_error e), store)
  with_payload action request store (ok payload) =
      let (result, after) = action.handle request payload store in
      (answered serde action.response_format result, after)

  -- `TypedAwsActionAdapter`
  unfoldable pub adapt : TypedAwsAction S Request Response Error → AwsAction S
  unfolding parse_payload render_response
  adapt action = record {
    name = action.name;
    validate = λ request store. do
      payload ←
          map_err (λ e. serde.into_response (action.parse_error e))
            (parse_payload serde action.payload_format request)
      map_err serde.into_response (action.validate request payload store);
    handle = λ request store.
        with_payload action request store (parse_payload serde action.payload_format request);
    resolve_authorization = λ request store. do
      payload ←
          map_err (λ e. serde.into_response (action.parse_error e))
            (parse_payload serde action.payload_format request)
      map_err serde.into_response (action.resolve_authorization request payload store);
  }

-- `AwsActionRegistry`
abbrev pub AwsActionRegistry : Type 0 → Type 0
AwsActionRegistry S = List (AwsAction S)

module _ {S : Type 0} where
  abbrev pub register : AwsActionRegistry S → AwsAction S → AwsActionRegistry S
  register actions action = actions ++ action ∷ []

  unfoldable pub get_action : AwsActionRegistry S → String → Option (AwsAction S)
  get_action actions name = find (λ action. action.name == name) actions

  abbrev pub handle_by : ResolvedRequest → S → Option (AwsAction S) → Option ServiceResponse × S
  handle_by request store none = (none, store)
  handle_by request store (some action) =
      let (response, after) = action.handle request store in (some response, after)

  unfoldable pub handle_action :
      AwsActionRegistry S → String → ResolvedRequest → S → Option ServiceResponse × S
  unfolding get_action
  handle_action actions name request store = handle_by request store (get_action actions name)

  abbrev pub validate_by :
      ResolvedRequest → S → Option (AwsAction S) → Option (Result Unit ServiceResponse)
  validate_by request store none = none
  validate_by request store (some action) = some (action.validate request store)

  unfoldable pub validate_action :
      AwsActionRegistry S → String → ResolvedRequest → S → Option (Result Unit ServiceResponse)
  unfolding get_action
  validate_action actions name request store = validate_by request store (get_action actions name)
