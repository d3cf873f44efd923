-- ===== src/Iam/Authorize/Enforce.antt =====
-- What a request needs to pass in each authorization mode (hiraeth_iam/src/authorize.rs).
use hiraeth.Auth.Eval.{PolicyEvalResult, allowed, evaluate_identity_policy}
use hiraeth.Auth.Policy.{Policy}
use hiraeth.Common.{String, Bool, List, [], ◌∷◌, map, ◌≡◌, ◌≢◌, sym, ◌∙◌, ◌↔◌, ◌⊎◌, arith, Result}
use hiraeth.Core.Request.{ResolvedRequest}
use hiraeth.Iam.Authorize.{
  IamStore, AuthorizationMode, enforce, allow, AuthorizationCheck, combine_policy_results,
  or_denied, evaluate_principal_inline_policies, evaluate_managed_policies, policy_result,
  authorize,
}
use hiraeth.Iam.Authorize.Loading.{
  InlineLoaded, ManagedLoaded, evaluate_inline-ok, evaluate_managed-ok, evaluate_inline_of,
  evaluate_managed_of,
}
use hiraeth.Iam.Authorize.Says.{
  IdentitySays, ResourceSays, identity_deny, identity_allow, resource_result, resource_deny,
  resource_allow, or_denied-ne, decision-allow,
}
use hiraeth.Iam.Authorize.Three.{three_iff, three_not_denied}

module _ (wild : String → String → Bool) (parse_policy : String → Result Policy String)
    (store : IamStore) (request : ResolvedRequest) (check : AuthorizationCheck) where
  abbrev HasEffect : String → List Policy → Type 0
  HasEffect effect policies = IdentitySays wild check.resource check.action effect policies

  -- Some policy that counts for the request has a statement with this effect that applies.
  abbrev pub Says : String → List Policy → List Policy → Type 0
  Says effect inline managed =
      HasEffect effect inline ⊎ HasEffect effect managed ⊎ ResourceSays wild request check effect

  pub record IsPermitted : Type 0 where
    pub inline : List Policy
    pub managed : List Policy
    pub inline_loaded :
        InlineLoaded wild parse_policy check.resource check.action store
          request.auth_context.principal.id inline
    pub managed_loaded :
        ManagedLoaded wild parse_policy check.resource check.action store
          request.auth_context.principal.id managed
    pub is_allowed : Says "Allow" inline managed
    pub not_denied : ¬ Says "Deny" inline managed

  abbrev results : List Policy → List Policy → List PolicyEvalResult
  results inline managed =
      combine_policy_results
        (map (evaluate_identity_policy wild check.resource check.action) inline)
      ∷ combine_policy_results
          (map (evaluate_identity_policy wild check.resource check.action) managed)
      ∷ resource_result wild request check
      ∷ []

  results_iff :
      (inline managed : List Policy)
      → (combine_policy_results (results inline managed) ≡ allowed)
        ↔ (Says "Allow" inline managed × ¬ Says "Deny" inline managed)
  results_iff inline managed =
      let r = check.resource in
      let a = check.action in
      three_iff _ _ _ _ _ _ _ _ _ (identity_deny wild r a inline) (identity_deny wild r a managed)
        (resource_deny wild request check) (identity_allow wild r a inline)
        (identity_allow wild r a managed) (resource_allow wild request check)

  policy_result_of :
      (inline managed : List Policy)
      → InlineLoaded wild parse_policy check.resource check.action store
          request.auth_context.principal.id inline
      → ManagedLoaded wild parse_policy check.resource check.action store
          request.auth_context.principal.id managed
      → policy_result wild parse_policy store request check
        ≡ combine_policy_results (results inline managed)
  unfolding policy_result
  policy_result_of inline managed i m =
      rw (evaluate_inline_of _ _ _ _ _ _ inline i, evaluate_managed_of _ _ _ _ _ _ managed m)

  policy_result-loaded :
      policy_result wild parse_policy store request check ≡ allowed
      → (inline : List Policy) × (managed : List Policy) × InlineLoaded wild parse_policy
          check.resource check.action store request.auth_context.principal.id inline
        × ManagedLoaded wild parse_policy check.resource check.action store
            request.auth_context.principal.id managed
  unfolding policy_result
  policy_result-loaded h =
      let id = request.auth_context.principal.id in
      let x =
        evaluate_principal_inline_policies wild parse_policy store id check.resource check.action in
      let y = evaluate_managed_policies wild parse_policy store id check.resource check.action in
      let (n, n') =
        three_not_denied (or_denied x) (or_denied y) (resource_result wild request check) h in
      let (r, e, _) = or_denied-ne x n in
      let (r', e', _) = or_denied-ne y n' in
      let (inline, i, _) = evaluate_inline-ok wild parse_policy _ _ store _ r e in
      let (managed, m, _) = evaluate_managed-ok wild parse_policy _ _ store _ r' e' in
      (inline, managed, i, m)

  -- Enforcing, a request passes exactly when the caller's policies can all be read and parsed, some
  -- statement that counts allows it and none denies it.
  pub authorize_enforce_iff :
      (authorize wild parse_policy store enforce request check ≡ allow) ↔ IsPermitted
  unfolding authorize
  authorize_enforce_iff = (
    (λ h.
        let p = decision-allow _ h in
        let (inline, managed, i, m) = policy_result-loaded p in
        let (a, d) =
          (results_iff inline managed).0 (sym (policy_result_of inline managed i m) ∙ p) in
        record {
          inline = inline;
          managed = managed;
          inline_loaded = i;
          managed_loaded = m;
          is_allowed = a;
          not_denied = d;
        }),
    (λ w. rw (
      policy_result_of w.inline w.managed w.inline_loaded w.managed_loaded,
      (results_iff w.inline w.managed).1 (w.is_allowed, w.not_denied),
    )),
  )

  -- Auditing, or with authorization off, every request passes.
  pub authorize_lenient :
      (mode : AuthorizationMode)
      → mode ≢ enforce
      → authorize wild parse_policy store mode request check ≡ allow
  unfolding authorize
  authorize_lenient mode h = ground arith
