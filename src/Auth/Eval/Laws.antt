-- ===== src/Auth/Eval/Laws.antt =====
-- The outcome of a policy: an explicit deny wins, an allow is needed, and order does not matter
-- (hiraeth_core/src/auth/eval.rs).
use hiraeth.Auth.Eval.{
  PolicyEvalResult, allowed, denied, not_applicable, combine, fold_results, evaluate_statement,
  evaluate_matching_statements,
}
use hiraeth.Auth.Policy.{Policy, PolicyStatement}
use hiraeth.Common.{
  Bool, true, false, ◌&&◌, ◌||◌, List, [], ◌∷◌, map, ◌==◌, eq_iff, ◌≡◌, refl, ◌↔◌, any, Some,
  any-Some, Some-any, Bool-cases, inl, inr, arith,
}

-- The two questions that decide a policy.
abbrev pub has_deny : (PolicyStatement → Bool) → List PolicyStatement → Bool
has_deny test statements = any (λ s. test s && s.effect == "Deny") statements

abbrev pub has_allow : (PolicyStatement → Bool) → List PolicyStatement → Bool
has_allow test statements = any (λ s. test s && s.effect == "Allow") statements

abbrev pub verdict : Bool → Bool → PolicyEvalResult
verdict true _ = denied
verdict false true = allowed
verdict false false = not_applicable

combine_assoc : (a b c : PolicyEvalResult) → combine (combine a b) c ≡ combine a (combine b c)
combine_assoc a b c = ground arith

pub combine_comm : (a b : PolicyEvalResult) → combine a b ≡ combine b a
combine_comm a b = ground arith

pub fold_results-combine :
    (a : PolicyEvalResult) (rs : List PolicyEvalResult)
    → fold_results a rs ≡ combine a (fold_results not_applicable rs)
unfolding fold_results
fold_results-combine a [] = ground arith
fold_results-combine a (r ∷ rs) = ground (
  arith,
  fold_results-combine (combine a r) rs,
  fold_results-combine (combine not_applicable r) rs,
  combine_assoc a r (fold_results not_applicable rs),
)

combine-verdict :
    (a b c d : Bool)
    → combine (combine not_applicable (verdict a b)) (verdict c d) ≡ verdict (a || c) (b || d)
combine-verdict a b c d = ground arith

verdict-denied : (a b : Bool) → verdict a b ≡ denied → a ≡ true
verdict-denied a b h = ground arith

verdict-allowed : (a b : Bool) → verdict a b ≡ allowed → (a ≡ false) × (b ≡ true)
verdict-allowed a b h = ground arith

any-false {ℓ} : {A : Type ℓ} (p : A → Bool) (xs : List A) → ¬ Some p xs → any p xs ≡ false
any-false p xs h = elim (Bool-cases (any p xs)) [ inl e ↦ absurd (h (any-Some p xs e)) | inr e ↦ e ]

module _ (test : PolicyStatement → Bool) where
  evaluate_statement-verdict :
      (s : PolicyStatement)
      → evaluate_statement s test
        ≡ verdict (test s && s.effect == "Deny") (test s && s.effect == "Allow")
  unfolding evaluate_statement
  evaluate_statement-verdict s =
      ground (arith, eq_iff s.effect "Allow", eq_iff s.effect "Deny", eq_iff "Allow" "Deny")

  fold-verdict :
      (ss : List PolicyStatement)
      → fold_results not_applicable (map (λ s. evaluate_statement s test) ss)
        ≡ verdict (has_deny test ss) (has_allow test ss)
  unfolding fold_results
  fold-verdict [] = refl
  fold-verdict (s ∷ ss) =
      rw
        (
          fold_results-combine (combine not_applicable (evaluate_statement s test)),
          evaluate_statement-verdict,
          fold-verdict ss,
        )
        (combine-verdict _ _ _ _)

  pub evaluate-verdict :
      (policy : Policy)
      → evaluate_matching_statements policy test
        ≡ verdict (has_deny test policy.statement) (has_allow test policy.statement)
  unfolding evaluate_matching_statements
  evaluate-verdict policy = fold-verdict policy.statement

  pub denied_iff :
      (policy : Policy)
      → (evaluate_matching_statements policy test ≡ denied)
        ↔ Some (λ s. test s && s.effect == "Deny") policy.statement
  denied_iff policy =
      rw evaluate-verdict ((λ h. any-Some _ _ (verdict-denied _ _ h)), (λ h. rw (Some-any _ _ h)))

  pub allowed_iff :
      (policy : Policy)
      → (evaluate_matching_statements policy test ≡ allowed) ↔ (
          Some (λ s. test s && s.effect == "Allow") policy.statement
          × ¬ Some (λ s. test s && s.effect == "Deny") policy.statement)
  allowed_iff policy = rw evaluate-verdict (
    (λ h. (
      any-Some _ _ (verdict-allowed _ _ h).1,
      λ d. cc ((verdict-allowed _ _ h).0, Some-any _ _ d),
    )),
    (λ h. rw (Some-any _ _ h.0, any-false _ _ h.1)),
  )
