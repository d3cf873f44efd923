-- ===== src/Iam/Authorize/Laws.antt =====
-- When the authorizer lets a request through (hiraeth_iam/src/authorize.rs).
use mathlib.Core.List.Memᴰ
use mathlib.Core.List.{Memᴰ}
use hiraeth.Auth.Eval.{PolicyEvalResult, allowed, denied, not_applicable, combine}
use hiraeth.Auth.Eval.Laws.{fold_results-combine}
use hiraeth.Common.{List, [], ◌∷◌, ◌≡◌, ◌≢◌, sym, ◌∙◌, ◌↔◌, ◌⊎◌, inl, inr, arith}
use hiraeth.Iam.Authorize.{combine_policy_results}

combine-cons :
    (r : PolicyEvalResult) (rs : List PolicyEvalResult)
    → combine_policy_results (r ∷ rs) ≡ combine r (combine_policy_results rs)
unfolding combine_policy_results
combine-cons allowed rs = fold_results-combine allowed rs
combine-cons denied rs = fold_results-combine denied rs
combine-cons not_applicable rs = fold_results-combine not_applicable rs

combine-denied : (a b : PolicyEvalResult) → combine a b ≡ denied → (denied ≡ a) ⊎ (b ≡ denied)
combine-denied a b h = ground arith

combine-allowed :
    (a b : PolicyEvalResult)
    → combine a b ≡ allowed
    → (a ≢ denied) × (b ≢ denied) × ((allowed ≡ a) ⊎ (b ≡ allowed))
combine-allowed a b h = ground arith

not_denied : (r : PolicyEvalResult) → r ≢ denied → (r ≡ allowed) ⊎ (r ≡ not_applicable)
not_denied r h = ground arith

denied-mem : (rs : List PolicyEvalResult) → combine_policy_results rs ≡ denied → Memᴰ denied rs
unfolding combine_policy_results
denied-mem [] h = absurd (cc h)
denied-mem (r ∷ rs) h =
    elim (combine-denied r (combine_policy_results rs) (sym (combine-cons r rs) ∙ h)) [
      | inl e ↦ Memᴰ.head e
      | inr e ↦ Memᴰ.tail (denied-mem rs e)
    ]

mem-denied : (rs : List PolicyEvalResult) → Memᴰ denied rs → combine_policy_results rs ≡ denied
mem-denied [] m = absurd (Memᴰ.not-nil m)
mem-denied (r ∷ rs) (Memᴰ.head e) = rw combine-cons (ground arith)
mem-denied (r ∷ rs) (Memᴰ.tail m) = rw (combine-cons, mem-denied rs m) (ground arith)

allowed-mem : (rs : List PolicyEvalResult) → combine_policy_results rs ≡ allowed → Memᴰ allowed rs
unfolding combine_policy_results
allowed-mem [] h = absurd (cc h)
allowed-mem (r ∷ rs) h =
    let (_, _, either) =
      combine-allowed r (combine_policy_results rs) (sym (combine-cons r rs) ∙ h) in
    elim either [ inl e ↦ Memᴰ.head e | inr e ↦ Memᴰ.tail (allowed-mem rs e) ]

mem-allowed :
    (rs : List PolicyEvalResult)
    → Memᴰ allowed rs
    → ¬ Memᴰ denied rs
    → combine_policy_results rs ≡ allowed
mem-allowed [] m n = absurd (Memᴰ.not-nil m)
mem-allowed (r ∷ rs) (Memᴰ.head e) n =
    rw combine-cons
      (ground (arith, λ (d : combine_policy_results rs ≡ denied). n (Memᴰ.tail (denied-mem rs d))))
mem-allowed (r ∷ rs) (Memᴰ.tail m) n =
    rw (combine-cons, mem-allowed rs m (λ d. n (Memᴰ.tail d)))
      (ground (arith, λ (d : denied ≡ r). n (Memᴰ.head d)))

-- One denial denies; without one, one permission allows.
pub combine_policy_results_iff :
    (rs : List PolicyEvalResult)
    → ((combine_policy_results rs ≡ denied) ↔ Memᴰ denied rs)
      × ((combine_policy_results rs ≡ allowed) ↔ (Memᴰ allowed rs × ¬ Memᴰ denied rs))
combine_policy_results_iff rs = (
  (denied-mem rs, mem-denied rs),
  ((λ h. (allowed-mem rs h, λ d. cc (h, mem-denied rs d))), (λ (m, n). mem-allowed rs m n)),
)
