-- ===== src/Sqs/Dispatch/Laws.antt =====
-- How hiraeth_sqs/src/lib.rs and auth.rs reach the actions that actions/mod.rs registers.
use hiraeth.Common.{
  ℕ, String, Bool, true, false, ◌&&◌, List, [], ◌∷◌, Option, none, some, ◌==◌, ◌⊕◌, eq_iff, any,
  all, strip_prefix, strip_prefix-append, strip_prefix-eq-some, ◌≡◌, ◌↔◌, refl, inl, inr,
  Bool-cases, ok, err,
}
use hiraeth.Core.Action.{AwsActionRegistry}
use hiraeth.Core.Protocol.{AwsJsonErrorBody}
use hiraeth.Core.Request.{ResolvedRequest}
use hiraeth.Sqs.Dispatch.{
  error_response, get_action_name_for_request, operation_names, operation_of, registered_names,
  sqs_service, target_to_operation_name,
}
use hiraeth.Sqs.Error.{SqsError}

-- the name is one of the list
abbrev pub IsListed : String → List String → Type 0
IsListed name names = any (λ other. name == other) names ≡ true

and_split : (a b : Bool) → (a && b) ≡ true → (a ≡ true) × (b ≡ true)
and_split true b h = (refl, h)
and_split false b h = absurd (cc h)

all-any :
    (ps qs : List String) (x : String)
    → all (λ p. any (λ q. p == q) qs) ps ≡ true
    → IsListed x ps
    → IsListed x qs
all-any [] qs x h m = absurd (cc m)
all-any (p ∷ ps) qs x h m =
    let (here, later) = and_split (any (λ q. p == q) qs) _ h in
    elim (Bool-cases (x == p)) [
      | inl e ↦ rw ((eq_iff x p).0 e) here
      | inr e ↦ all-any ps qs x later (rw e at m)
    ]

operation-IsListed : (x : String) → IsListed x operation_names ↔ IsListed x registered_names
operation-IsListed x = (
  all-any operation_names registered_names x refl,
  all-any registered_names operation_names x refl,
)

-- A target names an operation exactly when it is "AmazonSQS." before the name of a registered action.
pub target_to_operation_name_iff :
    (target name : String)
    → (target_to_operation_name target ≡ ok name)
      ↔ ((target ≡ "AmazonSQS." ⊕ name) × IsListed name registered_names)
unfolding target_to_operation_name
target_to_operation_name_iff target name = (
  λ h. forth (strip_prefix "AmazonSQS." target) refl h,
  λ (e, m).
      let known : any (λ other. name == other) operation_names ≡ true =
        (operation-IsListed name).1 m in
      rw (e, strip_prefix-append "AmazonSQS." name, known),
)
  where
    forth :
        (o : Option String)
        → strip_prefix "AmazonSQS." target ≡ o
        → operation_of target o ≡ ok name
        → (target ≡ "AmazonSQS." ⊕ name) × IsListed name registered_names
    forth none e h = absurd (cc h)
    forth (some found) e h = elim (Bool-cases (any (λ other. found == other) operation_names)) [
      | inr f ↦ absurd (cc (rw f at h))
      | inl f ↦
          let same : found ≡ name = cc (rw f at h) in
          (
            rw (← same) (strip_prefix-eq-some "AmazonSQS." target found e),
            rw (← same) ((operation-IsListed found).0 f),
          )
    ]

-- A request with any other target, or with none, leaves the state as it is, and is neither authorized
-- nor valid.
pub sqs_service_rejects :
    {S : Type 0}
    → (to_vec : AwsJsonErrorBody → List ℕ) (actions : AwsActionRegistry S)
      (request : ResolvedRequest) (store : S) (e : SqsError)
    → get_action_name_for_request request ≡ err e
    → let service = sqs_service to_vec actions in
      ((service.handle_request request store).1 ≡ store)
      × (service.resolve_authorization request store ≡ err (error_response to_vec actions e))
      × (service.validate_request request store ≡ err (error_response to_vec actions e))
unfolding sqs_service
sqs_service_rejects to_vec actions request store e h = (rw h refl, rw h refl, rw h refl)
