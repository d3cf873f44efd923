-- ===== src/Auth/Eval.antt =====
-- hiraeth_core/src/auth/eval.rs: evaluation of resource and identity policies. The `wildmatch`
-- crate is the parameter `wild` (pattern first), as in `WildMatch::new(pattern).matches(value)`.
pub mod Laws
pub mod Outcome
mod Examples
use hiraeth.Auth.Policy.{Policy, PolicyStatement}
use hiraeth.Auth.Principal.{PolicyPrincipal, any, account, user, role, assumed_role, service}
use hiraeth.Common.{
  String, Bool, true, false, not, ◌&&◌, List, [], ◌∷◌, map, Option, none, some, ◌==◌, is_empty,
  if◌then◌else◌,
}
use hiraeth.Common as Common

pub data PolicyEvalResult : Type 0 where
  allowed denied not_applicable : PolicyEvalResult

-- The closure of both folds, here and in hiraeth_iam/src/authorize.rs.
abbrev pub combine : PolicyEvalResult → PolicyEvalResult → PolicyEvalResult
combine denied _ = denied
combine allowed denied = denied
combine not_applicable denied = denied
combine allowed _ = allowed
combine not_applicable allowed = allowed
combine not_applicable not_applicable = not_applicable

unfoldable pub fold_results : PolicyEvalResult → List PolicyEvalResult → PolicyEvalResult
fold_results acc [] = acc
fold_results acc (result ∷ results) = fold_results (combine acc result) results

unfoldable pub principal_account_id : PolicyPrincipal → Option String
principal_account_id any = none
principal_account_id (account account_id) = some account_id
principal_account_id (user account_id _) = some account_id
principal_account_id (role account_id _) = some account_id
principal_account_id (assumed_role account_id _ _) = some account_id
principal_account_id (service _) = none

abbrev effect_result : String → PolicyEvalResult
effect_result effect =
    if effect == "Allow" then allowed else if effect == "Deny" then denied else not_applicable

unfoldable pub evaluate_statement : PolicyStatement → (PolicyStatement → Bool) → PolicyEvalResult
evaluate_statement statement matches_statement =
    if matches_statement statement then effect_result statement.effect else not_applicable

unfoldable pub evaluate_matching_statements : Policy → (PolicyStatement → Bool) → PolicyEvalResult
unfolding fold_results evaluate_statement
evaluate_matching_statements policy matches_statement =
    fold_results not_applicable
      (map (λ statement. evaluate_statement statement matches_statement) policy.statement)

module _ (wild : String → String → Bool) where
  abbrev account_matches : String → Option String → Bool
  account_matches pattern none = false
  account_matches pattern (some account_id) = wild pattern account_id

  unfoldable pub principal_matches_pattern : PolicyPrincipal → PolicyPrincipal → Bool
  unfolding principal_account_id
  principal_matches_pattern any principal = true
  principal_matches_pattern (account pattern) principal =
      account_matches pattern (principal_account_id principal)
  principal_matches_pattern (user a n) (user account_id user_name) =
      wild a account_id && wild n user_name
  principal_matches_pattern (role a n) (role account_id role_name) =
      wild a account_id && wild n role_name
  principal_matches_pattern (assumed_role a n s) (assumed_role account_id role_name session_name) =
      wild a account_id && wild n role_name && wild s session_name
  principal_matches_pattern (service pattern) (service name) = wild pattern name
  principal_matches_pattern _ _ = false

  abbrev pub matches_any : List String → String → Bool
  matches_any patterns value = Common.any (λ pattern. wild pattern value) patterns

  -- the closure of `evaluate_resource_policy`
  unfoldable pub resource_statement_matches :
      PolicyPrincipal → String → String → PolicyStatement → Bool
  resource_statement_matches principal resource action statement =
      (not (is_empty statement.principal)
        && Common.any (λ pattern. principal_matches_pattern pattern principal) statement.principal)
      && matches_any statement.action action
      && matches_any statement.resource resource

  -- the closure of `evaluate_identity_policy`
  unfoldable pub identity_statement_matches : String → String → PolicyStatement → Bool
  identity_statement_matches resource action statement =
      is_empty statement.principal
      && matches_any statement.action action
      && matches_any statement.resource resource

  unfoldable pub evaluate_resource_policy :
      PolicyPrincipal → String → String → Policy → PolicyEvalResult
  unfolding evaluate_matching_statements resource_statement_matches
  evaluate_resource_policy principal resource action policy =
      evaluate_matching_statements policy (resource_statement_matches principal resource action)

  unfoldable pub evaluate_identity_policy : String → String → Policy → PolicyEvalResult
  unfolding evaluate_matching_statements identity_statement_matches
  evaluate_identity_policy resource action policy =
      evaluate_matching_statements policy (identity_statement_matches resource action)

  -- `authorize_cross_service` of hiraeth_core/src/auth/mod.rs
  unfoldable pub authorize_cross_service :
      PolicyPrincipal → String → String → Policy → PolicyEvalResult
  unfolding evaluate_resource_policy
  authorize_cross_service caller action resource resource_policy =
      evaluate_resource_policy caller resource action resource_policy
