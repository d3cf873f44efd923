-- ===== src/Router.antt =====
-- hiraeth_router/src: the services, the authorizer and `ServiceRouter::route`. A service and the
-- authorizer act on a state `S` that the stores share; the trace context, which carries no decision,
-- is left out.
mod Laws
mod Examples
use hiraeth.Common.{
  Bool, true, false, List, [], ◌∷◌, ◌++◌, Option, none, some, find, Result, ok, err,
}
use hiraeth.Core.Protocol.{ServiceResponse, ApiError, not_found}
use hiraeth.Core.Request.{ResolvedRequest}
use hiraeth.Iam.Authorize.{AuthorizationCheck, AuthorizationResult, allow, deny}

pub data ServiceRouterError : Type 0 where
  no_service_found : ServiceRouterError

abbrev pub api_error : ServiceRouterError → ApiError
api_error no_service_found = not_found "No service found to handle the request"

pub record Service (S : Type 0) : Type 0 where
  pub can_handle : ResolvedRequest → Bool
  pub handle_request : ResolvedRequest → S → Result ServiceResponse ApiError × S
  pub resolve_authorization : ResolvedRequest → S → Result AuthorizationCheck ServiceResponse
  pub validate_request : ResolvedRequest → S → Result Unit ServiceResponse

pub record Authorizer (S : Type 0) : Type 0 where
  pub authorize : ResolvedRequest → AuthorizationCheck → S → AuthorizationResult
  pub unauthorized_response : ServiceResponse

pub record ServiceRouter (S : Type 0) : Type 0 where
  pub authorizer : Authorizer S
  pub services : List (Service S)

module _ {S : Type 0} where
  abbrev pub new_router : Authorizer S → ServiceRouter S
  new_router authorizer = record { authorizer = authorizer; services = [] }

  abbrev pub register_service : Service S → ServiceRouter S → ServiceRouter S
  register_service service router = record router { services = router.services ++ service ∷ [] }

  abbrev pub run_validated :
      Service S
      → ResolvedRequest
      → S
      → Result Unit ServiceResponse
      → Result ServiceResponse ApiError × S
  run_validated service request s (ok _) = service.handle_request request s
  run_validated service request s (err response) = (ok response, s)

  abbrev pub run_authorized :
      ServiceResponse
      → Service S
      → ResolvedRequest
      → S
      → AuthorizationResult
      → Result ServiceResponse ApiError × S
  run_authorized unauthorized service request s allow =
      run_validated service request s (service.validate_request request s)
  run_authorized unauthorized service request s deny = (ok unauthorized, s)

  abbrev pub run_resolved :
      Authorizer S
      → Service S
      → ResolvedRequest
      → S
      → Result AuthorizationCheck ServiceResponse
      → Result ServiceResponse ApiError × S
  run_resolved authorizer service request s (ok check) =
      run_authorized authorizer.unauthorized_response service request s
        (authorizer.authorize request check s)
  run_resolved authorizer service request s (err response) = (ok response, s)

  abbrev pub run_found :
      Authorizer S → ResolvedRequest → S → Option (Service S) → Result ServiceResponse ApiError × S
  run_found authorizer request s (some service) =
      run_resolved authorizer service request s (service.resolve_authorization request s)
  run_found authorizer request s none = (err (api_error no_service_found), s)

  unfoldable pub route : ServiceRouter S → ResolvedRequest → S → Result ServiceResponse ApiError × S
  route router request s =
      run_found router.authorizer request s
        (find (λ service. service.can_handle request) router.services)
