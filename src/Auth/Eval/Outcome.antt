-- ===== src/Auth/Eval/Outcome.antt =====
-- What a resource policy and an identity policy decide, said without the evaluation
-- (hiraeth_core/src/auth/eval.rs).
use mathlib.Core.List.{Memᴰ}
use hiraeth.Auth.Eval.{
  allowed, denied, evaluate_matching_statements, principal_matches_pattern,
  resource_statement_matches, identity_statement_matches, evaluate_resource_policy,
  evaluate_identity_policy,
}
use hiraeth.Auth.Eval.Laws.{denied_iff, allowed_iff}
use hiraeth.Auth.Policy.{Policy, PolicyStatement}
use hiraeth.Auth.Principal.{PolicyPrincipal}
use hiraeth.Common.{
  String, Bool, true, not, ◌&&◌, List, [], ◌∷◌, ◌==◌, eq_iff, ◌≡◌, refl, ◌↔◌, any, Some, any-Some,
  Some-any, is_empty, arith,
}

and_iff : (a b : Bool) → ((a && b) ≡ true) ↔ ((a ≡ true) × (b ≡ true))
and_iff a b = ground arith

and₃_iff : (a b c : Bool) → ((a && b && c) ≡ true) ↔ ((a ≡ true) × (b ≡ true) × (c ≡ true))
and₃_iff a b c = ground arith

-- The test for an empty list adds nothing to `any`.
guarded_any {ℓ} :
    {A : Type ℓ} (p : A → Bool) (xs : List A) → ((not (is_empty xs) && any p xs) ≡ true) ↔ Some p xs
guarded_any p [] = ((λ h. absurd (cc h)), (λ h. absurd (cc (Some-any p [] h))))
guarded_any p (x ∷ xs) = (any-Some p (x ∷ xs), Some-any p (x ∷ xs))

is_empty_iff {ℓ} : {A : Type ℓ} (xs : List A) → (is_empty xs ≡ true) ↔ (xs ≡ [])
is_empty_iff [] = ((λ _. refl), (λ _. refl))
is_empty_iff (x ∷ xs) = ((λ h. absurd (cc h)), (λ h. absurd (cc h)))

module _ (wild : String → String → Bool) where
  pub record ResourceApplies (principal : PolicyPrincipal) (resource action : String)
      (s : PolicyStatement) : Type 0 where
    pub by_principal : Some (λ p. principal_matches_pattern wild p principal) s.principal
    pub by_action : Some (λ p. wild p action) s.action
    pub by_resource : Some (λ p. wild p resource) s.resource

  pub record IdentityApplies (resource action : String) (s : PolicyStatement) : Type 0 where
    pub no_principal : s.principal ≡ []
    pub by_action : Some (λ p. wild p action) s.action
    pub by_resource : Some (λ p. wild p resource) s.resource

-- A statement of the policy has this effect, and applies.
abbrev pub StatesFor : (PolicyStatement → Type 0) → String → Policy → Type 0
StatesFor Applies effect policy =
    (s : PolicyStatement) × Memᴰ s policy.statement × Applies s × (s.effect ≡ effect)

module _ (test : PolicyStatement → Bool) (Applies : PolicyStatement → Type 0)
    (means : (s : PolicyStatement) → (test s ≡ true) ↔ Applies s) where
  StatesFor-iff :
      (effect : String) (policy : Policy)
      → Some (λ s. test s && s.effect == effect) policy.statement ↔ StatesFor Applies effect policy
  StatesFor-iff effect policy = (
    (λ (s, m, h).
        let (t, e) = (and_iff _ _).0 h in (s, m, (means s).0 t, (eq_iff s.effect effect).0 e)),
    (λ (s, m, a, e). (s, m, (and_iff _ _).1 ((means s).1 a, (eq_iff s.effect effect).1 e))),
  )

  decides :
      (policy : Policy)
      → ((evaluate_matching_statements policy test ≡ denied) ↔ StatesFor Applies "Deny" policy)
        × ((evaluate_matching_statements policy test ≡ allowed)
            ↔ (StatesFor Applies "Allow" policy × ¬ StatesFor Applies "Deny" policy))
  decides policy =
      let deny = StatesFor-iff "Deny" policy in
      let allow = StatesFor-iff "Allow" policy in
      let d = denied_iff test policy in
      let a = allowed_iff test policy in
      (
        ((λ h. deny.0 (d.0 h)), (λ h. d.1 (deny.1 h))),
        (
          (λ h. (allow.0 (a.0 h).0, λ x. (a.0 h).1 (deny.1 x))),
          (λ h. a.1 (allow.1 h.0, λ x. h.1 (deny.0 x))),
        ),
      )

module _ (wild : String → String → Bool) (principal : PolicyPrincipal)
    (resource action : String) where
  resource_means :
      (s : PolicyStatement)
      → (resource_statement_matches wild principal resource action s ≡ true)
        ↔ ResourceApplies wild principal resource action s
  unfolding resource_statement_matches
  resource_means s = (
    (λ h.
        let (p, a, r) = (and₃_iff _ _ _).0 h in
        record {
          by_principal = (guarded_any _ _).0 p;
          by_action = any-Some _ _ a;
          by_resource = any-Some _ _ r;
        }),
    (λ h.
        (and₃_iff _ _ _).1 (
          (guarded_any _ _).1 h.by_principal,
          Some-any _ _ h.by_action,
          Some-any _ _ h.by_resource,
        )),
  )

  -- A resource policy denies exactly when one of its "Deny" statements applies, and allows exactly
  -- when an "Allow" statement applies and no "Deny" statement does, wherever they stand.
  pub evaluate_resource_policy_iff :
      (policy : Policy)
      → ((evaluate_resource_policy wild principal resource action policy ≡ denied)
          ↔ StatesFor (ResourceApplies wild principal resource action) "Deny" policy)
        × ((evaluate_resource_policy wild principal resource action policy ≡ allowed) ↔ (
            StatesFor (ResourceApplies wild principal resource action) "Allow" policy
            × ¬ StatesFor (ResourceApplies wild principal resource action) "Deny" policy))
  unfolding evaluate_resource_policy
  evaluate_resource_policy_iff policy =
      decides (resource_statement_matches wild principal resource action)
        (ResourceApplies wild principal resource action) resource_means policy

module _ (wild : String → String → Bool) (resource action : String) where
  identity_means :
      (s : PolicyStatement)
      → (identity_statement_matches wild resource action s ≡ true)
        ↔ IdentityApplies wild resource action s
  unfolding identity_statement_matches
  identity_means s = (
    (λ h.
        let (e, a, r) = (and₃_iff _ _ _).0 h in
        record {
          no_principal = (is_empty_iff _).0 e;
          by_action = any-Some _ _ a;
          by_resource = any-Some _ _ r;
        }),
    (λ h.
        (and₃_iff _ _ _).1 (
          (is_empty_iff _).1 h.no_principal,
          Some-any _ _ h.by_action,
          Some-any _ _ h.by_resource,
        )),
  )

  -- An identity policy denies exactly when one of its "Deny" statements applies, and allows exactly
  -- when an "Allow" statement applies and no "Deny" statement does. A statement that names a
  -- principal never applies.
  pub evaluate_identity_policy_iff :
      (policy : Policy)
      → ((evaluate_identity_policy wild resource action policy ≡ denied)
          ↔ StatesFor (IdentityApplies wild resource action) "Deny" policy)
        × ((evaluate_identity_policy wild resource action policy ≡ allowed) ↔ (
            StatesFor (IdentityApplies wild resource action) "Allow" policy
            × ¬ StatesFor (IdentityApplies wild resource action) "Deny" policy))
  unfolding evaluate_identity_policy
  evaluate_identity_policy_iff policy =
      decides (identity_statement_matches wild resource action)
        (IdentityApplies wild resource action) identity_means policy
