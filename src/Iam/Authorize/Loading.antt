-- ===== src/Iam/Authorize/Loading.antt =====
-- Reading a principal's policies: the evaluation of stored policies succeeds exactly when the store
-- answers and every document parses (hiraeth_iam/src/authorize.rs).
use hiraeth.Auth.Eval.{PolicyEvalResult, evaluate_identity_policy}
use hiraeth.Auth.Policy.{Policy}
use hiraeth.Common.{
  ℕ, String, Bool, List, [], ◌∷◌, map, ◌≡◌, refl, ap, ◌∙◌, arith, Result, ok, err, map_err, ◌>>=◌,
}
use hiraeth.Iam.Authorize.{
  InlinePolicy, ManagedPolicy, IamStore, combine_policy_results, inline_results, managed_results,
  evaluate_principal_inline_policies, evaluate_managed_policies,
}
use hiraeth.Store.{store_error_text}

step-ok {ℓ} :
    {D R E : Type ℓ} (eval : D → R) (f : E → E) (x : Result D E) (y : Result (List R) E)
    (out : List R)
    → (map_err f x >>= λ d. y >>= λ rs. ok (eval d ∷ rs)) ≡ ok out
    → (d : D) × (rs : List R) × (x ≡ ok d) × (y ≡ ok rs) × (out ≡ eval d ∷ rs)
step-ok eval f (ok d) (ok rs) out h = (d, rs, refl, refl, cc)
step-ok eval f (ok d) (err e) out h = absurd (cc h)
step-ok eval f (err e) y out h = absurd (cc h)

bind-ok {ℓ} :
    {R S E : Type ℓ} (y : Result R E) (c : R → S) (out : S)
    → (y >>= λ rs. ok (c rs)) ≡ ok out
    → (rs : R) × (y ≡ ok rs) × (out ≡ c rs)
bind-ok (ok rs) c out h = (rs, refl, cc)
bind-ok (err e) c out h = absurd (cc h)

read-ok {ℓ} :
    {P R S E F : Type ℓ} (f : F → E) (x : Result P F) (k : P → Result R E) (c : R → S) (out : S)
    → (map_err f x >>= λ ps. k ps >>= λ rs. ok (c rs)) ≡ ok out
    → (ps : P) × (rs : R) × (x ≡ ok ps) × (k ps ≡ ok rs) × (out ≡ c rs)
read-ok f (ok ps) k c out h = let (rs, e, e') = bind-ok (k ps) c out h in (ps, rs, refl, e, e')
read-ok f (err e) k c out h = absurd (cc h)

module _ (wild : String → String → Bool) (parse_policy : String → Result Policy String)
    (resource action : String) where
  abbrev pub eval_all : List Policy → List PolicyEvalResult
  eval_all policies = map (evaluate_identity_policy wild resource action) policies

  abbrev pub InlineParsed : List InlinePolicy → List Policy → Type 0
  InlineParsed rows policies = map (λ row. parse_policy row.policy_document) rows ≡ map ok policies

  abbrev pub ManagedParsed : List ManagedPolicy → List Policy → Type 0
  ManagedParsed rows policies = map (λ row. parse_policy row.policy_document) rows ≡ map ok policies

  inline_results-ok :
      (rows : List InlinePolicy) (rs : List PolicyEvalResult)
      → inline_results wild parse_policy resource action rows ≡ ok rs
      → (ps : List Policy) × InlineParsed rows ps × (rs ≡ eval_all ps)
  unfolding inline_results
  inline_results-ok [] rs h = ([], refl, cc)
  inline_results-ok (row ∷ rows) rs h =
      let (d, rest, parsed, later, e) =
        step-ok (evaluate_identity_policy wild resource action) _ (parse_policy row.policy_document)
          (inline_results wild parse_policy resource action rows) rs h in
      let (ps, all_parsed, same) = inline_results-ok rows rest later in (d ∷ ps, cc, cc)

  managed_results-ok :
      (rows : List ManagedPolicy) (rs : List PolicyEvalResult)
      → managed_results wild parse_policy resource action rows ≡ ok rs
      → (ps : List Policy) × ManagedParsed rows ps × (rs ≡ eval_all ps)
  unfolding managed_results
  managed_results-ok [] rs h = ([], refl, cc)
  managed_results-ok (row ∷ rows) rs h =
      let (d, rest, parsed, later, e) =
        step-ok (evaluate_identity_policy wild resource action) _ (parse_policy row.policy_document)
          (managed_results wild parse_policy resource action rows) rs h in
      let (ps, all_parsed, same) = managed_results-ok rows rest later in (d ∷ ps, cc, cc)

  inline_results_of :
      (rows : List InlinePolicy) (ps : List Policy)
      → InlineParsed rows ps
      → inline_results wild parse_policy resource action rows ≡ ok (eval_all ps)
  unfolding inline_results
  inline_results_of [] [] h = refl
  inline_results_of [] (p ∷ ps) h = absurd (cc h)
  inline_results_of (row ∷ rows) [] h = absurd (cc h)
  inline_results_of (row ∷ rows) (p ∷ ps) h = ground (arith, inline_results_of rows ps)

  managed_results_of :
      (rows : List ManagedPolicy) (ps : List Policy)
      → ManagedParsed rows ps
      → managed_results wild parse_policy resource action rows ≡ ok (eval_all ps)
  unfolding managed_results
  managed_results_of [] [] h = refl
  managed_results_of [] (p ∷ ps) h = absurd (cc h)
  managed_results_of (row ∷ rows) [] h = absurd (cc h)
  managed_results_of (row ∷ rows) (p ∷ ps) h = ground (arith, managed_results_of rows ps)

  module _ (store : IamStore) (principal_id : ℕ) where
    -- The store answers with inline policies whose documents parse to these.
    pub record InlineLoaded (ps : List Policy) : Type 0 where
      pub rows : List InlinePolicy
      pub was_read : store.get_inline_policies_for_principal principal_id ≡ ok rows
      pub parsed : InlineParsed rows ps

    pub record ManagedLoaded (ps : List Policy) : Type 0 where
      pub rows : List ManagedPolicy
      pub was_read : store.get_managed_policies_attached_to_principal principal_id ≡ ok rows
      pub parsed : ManagedParsed rows ps

    pub evaluate_inline-ok :
        (r : PolicyEvalResult)
        → evaluate_principal_inline_policies wild parse_policy store principal_id resource action
          ≡ ok r
        → (ps : List Policy) × InlineLoaded ps × (r ≡ combine_policy_results (eval_all ps))
    unfolding evaluate_principal_inline_policies
    evaluate_inline-ok r h =
        let (rows, rs, was_read, results, e) =
          read-ok store_error_text (store.get_inline_policies_for_principal principal_id)
            (inline_results wild parse_policy resource action) combine_policy_results r h in
        let (ps, parsed, same) = inline_results-ok rows rs results in
        (
          ps,
          record { rows = rows; was_read = was_read; parsed = parsed },
          e ∙ ap combine_policy_results same,
        )

    pub evaluate_managed-ok :
        (r : PolicyEvalResult)
        → evaluate_managed_policies wild parse_policy store principal_id resource action ≡ ok r
        → (ps : List Policy) × ManagedLoaded ps × (r ≡ combine_policy_results (eval_all ps))
    unfolding evaluate_managed_policies
    evaluate_managed-ok r h =
        let (rows, rs, was_read, results, e) =
          read-ok store_error_text (store.get_managed_policies_attached_to_principal principal_id)
            (managed_results wild parse_policy resource action) combine_policy_results r h in
        let (ps, parsed, same) = managed_results-ok rows rs results in
        (
          ps,
          record { rows = rows; was_read = was_read; parsed = parsed },
          e ∙ ap combine_policy_results same,
        )

    pub evaluate_inline_of :
        (ps : List Policy)
        → InlineLoaded ps
        → evaluate_principal_inline_policies wild parse_policy store principal_id resource action
          ≡ ok (combine_policy_results (eval_all ps))
    unfolding evaluate_principal_inline_policies
    evaluate_inline_of ps l = rw (l.was_read, inline_results_of l.rows ps l.parsed)

    pub evaluate_managed_of :
        (ps : List Policy)
        → ManagedLoaded ps
        → evaluate_managed_policies wild parse_policy store principal_id resource action
          ≡ ok (combine_policy_results (eval_all ps))
    unfolding evaluate_managed_policies
    evaluate_managed_of ps l = rw (l.was_read, managed_results_of l.rows ps l.parsed)
