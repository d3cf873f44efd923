-- ===== src/Iam/Authorize/Says.antt =====
-- The results that the authorizer combines, said through the statements of the caller's policies
-- and of the resource's policy (hiraeth_iam/src/authorize.rs).
use mathlib.Core.List.Memᴰ
use mathlib.Core.List.{Memᴰ}
use hiraeth.Auth.Eval.{
  PolicyEvalResult, allowed, denied, not_applicable, evaluate_resource_policy,
  evaluate_identity_policy,
}
use hiraeth.Auth.Eval.Outcome.{
  StatesFor, IdentityApplies, ResourceApplies, evaluate_identity_policy_iff,
  evaluate_resource_policy_iff,
}
use hiraeth.Auth.Policy.{Policy}
use hiraeth.Auth.Principal.{PolicyPrincipal}
use hiraeth.Common.{
  String, Bool, List, [], ◌∷◌, map, Option, none, some, ◌≡◌, ◌≢◌, refl, sym, ap, ◌∙◌, ◌↔◌, arith,
  Result, ok, err,
}
use hiraeth.Core.Request.{ResolvedRequest}
use hiraeth.Iam.Authorize.{
  allow, AuthorizationCheck, combine_policy_results, policy_principal_from_request, or_denied,
  decision, resource_policy_result,
}
use hiraeth.Iam.Authorize.Laws.{combine_policy_results_iff}

module _ (wild : String → String → Bool) (resource action : String) where
  -- One of the identity policies has a statement with this effect that applies.
  abbrev pub IdentitySays : String → List Policy → Type 0
  IdentitySays effect policies =
      (p : Policy) × Memᴰ p policies × StatesFor (IdentityApplies wild resource action) effect p

  mem-eval_all :
      (r : PolicyEvalResult) (ps : List Policy)
      → Memᴰ r (map (evaluate_identity_policy wild resource action) ps)
      → (p : Policy) × Memᴰ p ps × (r ≡ evaluate_identity_policy wild resource action p)
  mem-eval_all r [] m = absurd (Memᴰ.not-nil m)
  mem-eval_all r (p ∷ ps) (Memᴰ.head e) = (p, Memᴰ.head refl, e)
  mem-eval_all r (p ∷ ps) (Memᴰ.tail m) = let (q, n, e) = mem-eval_all r ps m in (q, Memᴰ.tail n, e)

  eval_all-mem :
      (r : PolicyEvalResult) (p : Policy) (ps : List Policy)
      → Memᴰ p ps
      → r ≡ evaluate_identity_policy wild resource action p
      → Memᴰ r (map (evaluate_identity_policy wild resource action) ps)
  eval_all-mem r p [] m e = absurd (Memᴰ.not-nil m)
  eval_all-mem r p (q ∷ ps) (Memᴰ.head e') e =
      Memᴰ.head (e ∙ ap (evaluate_identity_policy wild resource action) e')
  eval_all-mem r p (q ∷ ps) (Memᴰ.tail m) e = Memᴰ.tail (eval_all-mem r p ps m e)

  pub identity_denied_iff :
      (ps : List Policy)
      → Memᴰ denied (map (evaluate_identity_policy wild resource action) ps)
        ↔ IdentitySays "Deny" ps
  identity_denied_iff ps = (
    (λ m.
        let (p, n, e) = mem-eval_all denied ps m in
        (p, n, (evaluate_identity_policy_iff wild resource action p).0.0 (sym e))),
    (λ (p, n, s).
        eval_all-mem denied p ps n
          (sym ((evaluate_identity_policy_iff wild resource action p).0.1 s))),
  )

  pub identity_allowed_iff :
      (ps : List Policy)
      → (Memᴰ allowed (map (evaluate_identity_policy wild resource action) ps)
          × ¬ Memᴰ denied (map (evaluate_identity_policy wild resource action) ps))
        ↔ (IdentitySays "Allow" ps × ¬ IdentitySays "Deny" ps)
  identity_allowed_iff ps = (
    (λ (m, n).
        let (p, k, e) = mem-eval_all allowed ps m in
        (
          (p, k, ((evaluate_identity_policy_iff wild resource action p).1.0 (sym e)).0),
          λ d. n ((identity_denied_iff ps).1 d),
        )),
    (λ (s, n). (identity_allowed s n, λ d. n ((identity_denied_iff ps).0 d))),
  )
    where
      identity_allowed :
          IdentitySays "Allow" ps
          → ¬ IdentitySays "Deny" ps
          → Memᴰ allowed (map (evaluate_identity_policy wild resource action) ps)
      identity_allowed (p, k, s) n =
          eval_all-mem allowed p ps k
            (sym ((evaluate_identity_policy_iff wild resource action p).1.1 (s, λ d. n (p, k, d))))

  pub identity_deny :
      (ps : List Policy)
      → (combine_policy_results (map (evaluate_identity_policy wild resource action) ps) ≡ denied)
        ↔ IdentitySays "Deny" ps
  identity_deny ps =
      let c =
        (combine_policy_results_iff (map (evaluate_identity_policy wild resource action) ps)).0 in
      ((λ h. (identity_denied_iff ps).0 (c.0 h)), (λ s. c.1 ((identity_denied_iff ps).1 s)))

  pub identity_allow :
      (ps : List Policy)
      → (combine_policy_results (map (evaluate_identity_policy wild resource action) ps) ≡ allowed)
        ↔ (IdentitySays "Allow" ps × ¬ IdentitySays "Deny" ps)
  identity_allow ps =
      let c =
        (combine_policy_results_iff (map (evaluate_identity_policy wild resource action) ps)).1 in
      ((λ h. (identity_allowed_iff ps).0 (c.0 h)), (λ s. c.1 ((identity_allowed_iff ps).1 s)))

pub or_denied-ne :
    (x : Result PolicyEvalResult String)
    → or_denied x ≢ denied
    → (r : PolicyEvalResult) × (x ≡ ok r) × (or_denied x ≡ r)
or_denied-ne (ok r) h = (r, refl, refl)
or_denied-ne (err e) h = absurd (h refl)

pub decision-allow : (r : PolicyEvalResult) → decision r ≡ allow → r ≡ allowed
decision-allow r h = ground arith

module _ (wild : String → String → Bool) (request : ResolvedRequest)
    (check : AuthorizationCheck) where
  -- The resource has a policy, the caller is a user, and a statement of the policy with this effect
  -- applies to the caller.
  pub record ResourceSays (effect : String) : Type 0 where
    pub caller : PolicyPrincipal
    pub policy : Policy
    pub is_caller : policy_principal_from_request request ≡ some caller
    pub is_policy : check.resource_policy ≡ some policy
    pub says : StatesFor (ResourceApplies wild caller check.resource check.action) effect policy

  abbrev pub resource_result : PolicyEvalResult
  resource_result =
      resource_policy_result wild (policy_principal_from_request request) check
        check.resource_policy

  says_result :
      (r : PolicyEvalResult) (caller : Option PolicyPrincipal) (policy : Option Policy)
      → r ≢ not_applicable
      → resource_policy_result wild caller check policy ≡ r
      → (u : PolicyPrincipal) × (q : Policy) × (caller ≡ some u)
        × (policy ≡ some q)
        × (evaluate_resource_policy wild u check.resource check.action q ≡ r)
  says_result r (some u) (some q) n h = (u, q, refl, refl, h)
  says_result r (some u) none n h = absurd (n (sym h))
  says_result r none policy n h = absurd (n (sym h))

  resource_of :
      (effect : String) (s : ResourceSays effect)
      → resource_result
        ≡ evaluate_resource_policy wild s.caller check.resource check.action s.policy
  resource_of effect s = rw (s.is_caller, s.is_policy)

  pub resource_deny : (resource_result ≡ denied) ↔ ResourceSays "Deny"
  resource_deny = (
    (λ h.
        let (u, q, e, e', r) = says_result denied _ _ (λ x. cc x) h in
        record {
          caller = u;
          policy = q;
          is_caller = e;
          is_policy = e';
          says = (evaluate_resource_policy_iff wild u check.resource check.action q).0.0 r;
        }),
    (λ s.
        resource_of "Deny" s
        ∙ (evaluate_resource_policy_iff wild s.caller check.resource check.action s.policy).0.1
            s.says),
  )

  pub resource_allow : (resource_result ≡ allowed) ↔ (ResourceSays "Allow" × ¬ ResourceSays "Deny")
  resource_allow = (
    (λ h.
        let (u, q, e, e', r) = says_result allowed _ _ (λ x. cc x) h in
        let (s, _) = (evaluate_resource_policy_iff wild u check.resource check.action q).1.0 r in
        (
          record { caller = u; policy = q; is_caller = e; is_policy = e'; says = s },
          λ d. cc (h, resource_deny.1 d),
        )),
    (λ (s, n).
        resource_of "Allow" s
        ∙ (evaluate_resource_policy_iff wild s.caller check.resource check.action s.policy).1.1 (
          s.says,
          λ d. n (record {
            caller = s.caller;
            policy = s.policy;
            is_caller = s.is_caller;
            is_policy = s.is_policy;
            says = d;
          }),
        )),
  )
