-- ===== src/Iam/Authorize.antt =====
-- hiraeth_iam/src/authorize.rs: what the caller's inline and managed policies and the resource's
-- policy decide together, and what each authorization mode makes of it. Recording the decision as a
-- trace span and logging it are left out. `parse_policy` is serde_json's reader of a document.
pub mod Laws
pub mod Loading
pub mod Says
pub mod Three
pub mod Enforce
mod Examples
use hiraeth.Auth.Eval.{
  PolicyEvalResult, allowed, denied, not_applicable, fold_results, evaluate_resource_policy,
  evaluate_identity_policy,
}
use hiraeth.Auth.Policy.{Policy}
use hiraeth.Auth.Principal.{PolicyPrincipal, user}
use hiraeth.Common.{
  ℕ, String, Bool, List, [], ◌∷◌, map, Option, none, some, ◌==◌, ◌⊕◌, if◌then◌else◌, Result, ok,
  err, map_err, ◌>>=◌,
}
use hiraeth.Core.Protocol.{ServiceResponse}
use hiraeth.Core.Request.{Principal, ResolvedRequest}
use hiraeth.Store.{StoreError, store_error_text}

-- the columns of an inline policy that the authorizer reads
pub record InlinePolicy : Type 0 where
  pub policy_name : String
  pub policy_document : String

pub record ManagedPolicy : Type 0 where
  pub id : ℕ
  pub policy_id : String
  pub account_id : String
  pub policy_name : String
  pub policy_path : Option String
  pub policy_document : String
  pub created_at : ℕ
  pub updated_at : ℕ

-- the methods of the trait `IamStore` that the authorizer calls
pub record IamStore : Type 0 where
  pub get_inline_policies_for_principal : ℕ → Result (List InlinePolicy) StoreError
  pub get_managed_policies_attached_to_principal : ℕ → Result (List ManagedPolicy) StoreError

pub data AuthorizationMode : Type 0 where
  enforce audit off : AuthorizationMode

pub data AuthorizationResult : Type 0 where
  allow deny : AuthorizationResult

pub record AuthorizationCheck : Type 0 where
  pub action : String
  pub resource : String
  pub resource_policy : Option Policy

unfoldable pub combine_policy_results : List PolicyEvalResult → PolicyEvalResult
unfolding fold_results
combine_policy_results results = fold_results not_applicable results

unfoldable pub policy_principal_from_request : ResolvedRequest → Option PolicyPrincipal
policy_principal_from_request request =
    let principal = request.auth_context.principal in
    if principal.kind == "user" then some (user principal.account_id principal.name) else none

-- `unwrap_or_else(|error| Denied)`
abbrev pub or_denied : Result PolicyEvalResult String → PolicyEvalResult
or_denied (ok result) = result
or_denied (err _) = denied

abbrev pub decision : PolicyEvalResult → AuthorizationResult
decision allowed = allow
decision denied = deny
decision not_applicable = deny

abbrev pub effective : AuthorizationMode → AuthorizationResult → AuthorizationResult
effective enforce authz_result = authz_result
effective audit _ = allow
effective off _ = allow

module _ (wild : String → String → Bool) where
  abbrev pub resource_policy_result :
      Option PolicyPrincipal → AuthorizationCheck → Option Policy → PolicyEvalResult
  resource_policy_result (some principal) check (some policy) =
      evaluate_resource_policy wild principal check.resource check.action policy
  resource_policy_result (some _) check none = not_applicable
  resource_policy_result none check _ = not_applicable

module _ (wild : String → String → Bool) (parse_policy : String → Result Policy String) where
  -- the closure over the inline policies, collected into a `Result`
  unfoldable pub inline_results :
      String → String → List InlinePolicy → Result (List PolicyEvalResult) String
  inline_results resource action [] = ok []
  inline_results resource action (policy ∷ policies) = do
    document ←
        map_err (λ e. "invalid policy document for inline policy " ⊕ policy.policy_name ⊕ ": " ⊕ e)
          (parse_policy policy.policy_document)
    results ← inline_results resource action policies
    ok (evaluate_identity_policy wild resource action document ∷ results)

  unfoldable pub managed_results :
      String → String → List ManagedPolicy → Result (List PolicyEvalResult) String
  managed_results resource action [] = ok []
  managed_results resource action (policy ∷ policies) = do
    document ←
        map_err (λ e. "invalid policy document for managed policy " ⊕ policy.policy_name ⊕ ": " ⊕ e)
          (parse_policy policy.policy_document)
    results ← managed_results resource action policies
    ok (evaluate_identity_policy wild resource action document ∷ results)

  module _ (store : IamStore) where
    unfoldable pub evaluate_principal_inline_policies :
        ℕ → String → String → Result PolicyEvalResult String
    unfolding inline_results combine_policy_results
    evaluate_principal_inline_policies principal_id resource action = do
      policies ← map_err store_error_text (store.get_inline_policies_for_principal principal_id)
      policy_results ← inline_results resource action policies
      ok (combine_policy_results policy_results)

    unfoldable pub evaluate_managed_policies : ℕ → String → String → Result PolicyEvalResult String
    unfolding managed_results combine_policy_results
    evaluate_managed_policies principal_id resource action = do
      policies ←
          map_err store_error_text (store.get_managed_policies_attached_to_principal principal_id)
      policy_results ← managed_results resource action policies
      ok (combine_policy_results policy_results)

    unfoldable pub policy_result : ResolvedRequest → AuthorizationCheck → PolicyEvalResult
    unfolding evaluate_principal_inline_policies evaluate_managed_policies
        policy_principal_from_request
    policy_result request check =
        let principal_id = request.auth_context.principal.id in
        combine_policy_results (
          or_denied (evaluate_principal_inline_policies principal_id check.resource check.action)
          ∷ or_denied (evaluate_managed_policies principal_id check.resource check.action)
          ∷ resource_policy_result wild (policy_principal_from_request request) check
              check.resource_policy
          ∷ [])

    unfoldable pub authorize :
        AuthorizationMode → ResolvedRequest → AuthorizationCheck → AuthorizationResult
    unfolding policy_result
    authorize mode request check = effective mode (decision (policy_result request check))

abbrev pub unauthorized_response : ServiceResponse
unauthorized_response = record { status_code = 403; headers = []; body = [] }
