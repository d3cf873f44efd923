-- ===== src/Router/Laws.antt =====
-- What `ServiceRouter::route` of hiraeth_router/src/lib.rs lets through.
use hiraeth.Common.{Bool, Option, none, some, ◌≡◌, ◌⊎◌, inl, inr, refl, find, Result, ok, err}
use hiraeth.Core.Protocol.{ServiceResponse, ApiError}
use hiraeth.Core.Request.{ResolvedRequest}
use hiraeth.Iam.Authorize.{AuthorizationCheck, AuthorizationResult, allow, deny}
use hiraeth.Router.{
  Authorizer, Service, ServiceRouter, route, run_authorized, run_found, run_resolved, run_validated,
}

module _ {S : Type 0} where
  abbrev handles : ResolvedRequest → Service S → Bool
  handles request service = service.can_handle request

  -- A request gets as far as the handler of `service`.
  abbrev pub IsAdmitted : ServiceRouter S → ResolvedRequest → S → Service S → Type 0
  IsAdmitted router request s service =
      (find (handles request) router.services ≡ some service)
      × ((check : AuthorizationCheck) × (service.resolve_authorization request s ≡ ok check)
          × (router.authorizer.authorize request check s ≡ allow))
      × (service.validate_request request s ≡ ok tt)

  -- what a stage of the routing ends with: the handler ran, or the state is as it was
  abbrev Guarded :
      ServiceRouter S → ResolvedRequest → S → Result ServiceResponse ApiError × S → Type 0
  Guarded router request s outcome =
      ((service : Service S) × IsAdmitted router request s service
        × (outcome ≡ service.handle_request request s))
      ⊎ (outcome.1 ≡ s)

  module _ (router : ServiceRouter S) (request : ResolvedRequest) (s : S) where
    abbrev authorizer : Authorizer S
    authorizer = router.authorizer

    validated :
        (service : Service S) (check : AuthorizationCheck)
        → find (handles request) router.services ≡ some service
        → service.resolve_authorization request s ≡ ok check
        → authorizer.authorize request check s ≡ allow
        → (v : Result Unit ServiceResponse) → service.validate_request request s ≡ v
        → Guarded router request s (run_validated service request s v)
    validated service check f c a (ok _) v = inl (service, (f, (check, c, a), v), refl)
    validated service check f c a (err response) v = inr refl

    authorized :
        (service : Service S) (check : AuthorizationCheck)
        → find (handles request) router.services ≡ some service
        → service.resolve_authorization request s ≡ ok check
        → (a : AuthorizationResult) → authorizer.authorize request check s ≡ a
        → Guarded router request s
            (run_authorized authorizer.unauthorized_response service request s a)
    authorized service check f c allow a = validated service check f c a _ refl
    authorized service check f c deny a = inr refl

    resolved :
        (service : Service S)
        → find (handles request) router.services ≡ some service
        → (c : Result AuthorizationCheck ServiceResponse)
        → service.resolve_authorization request s ≡ c
        → Guarded router request s (run_resolved authorizer service request s c)
    resolved service f (ok check) c = authorized service check f c _ refl
    resolved service f (err response) c = inr refl

    found :
        (f : Option (Service S))
        → find (handles request) router.services ≡ f
        → Guarded router request s (run_found authorizer request s f)
    found (some service) f = resolved service f _ refl
    found none f = inr refl

  -- The state of the stores changes only by the handler of the first service that can handle the
  -- request, and only after its authorization was resolved and allowed and the request was valid;
  -- in that case the handler's answer is the answer.
  pub route_guarded :
      (router : ServiceRouter S) (request : ResolvedRequest) (s : S)
      → ((service : Service S) × IsAdmitted router request s service
          × (route router request s ≡ service.handle_request request s))
        ⊎ ((route router request s).1 ≡ s)
  unfolding route
  route_guarded router request s = found router request s _ refl
