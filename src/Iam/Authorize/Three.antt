-- ===== src/Iam/Authorize/Three.antt =====
-- The three results that the authorizer combines, together (hiraeth_iam/src/authorize.rs).
use mathlib.Core.List.Memᴰ
use mathlib.Core.List.{Memᴰ}
use hiraeth.Auth.Eval.{PolicyEvalResult, allowed, denied}
use hiraeth.Common.{[], ◌∷◌, ◌≡◌, ◌≢◌, sym, ◌↔◌, ◌⊎◌, inl, inr}
use hiraeth.Iam.Authorize.{combine_policy_results}
use hiraeth.Iam.Authorize.Laws.{combine_policy_results_iff}

mem_of_three :
    (r a b c : PolicyEvalResult) → Memᴰ r (a ∷ b ∷ c ∷ []) ↔ ((a ≡ r) ⊎ (b ≡ r) ⊎ (c ≡ r))
mem_of_three r a b c = (
  to,
  λ s. elim s [
    | inl e ↦ Memᴰ.head (sym e)
    | inr (inl e) ↦ Memᴰ.tail (Memᴰ.head (sym e))
    | inr (inr e) ↦ Memᴰ.tail (Memᴰ.tail (Memᴰ.head (sym e)))
  ],
)
  where
    to : Memᴰ r (a ∷ b ∷ c ∷ []) → (a ≡ r) ⊎ (b ≡ r) ⊎ (c ≡ r)
    to (Memᴰ.head e) = inl (sym e)
    to (Memᴰ.tail (Memᴰ.head e)) = inr (inl (sym e))
    to (Memᴰ.tail (Memᴰ.tail (Memᴰ.head e))) = inr (inr (sym e))
    to (Memᴰ.tail (Memᴰ.tail (Memᴰ.tail m))) = absurd (Memᴰ.not-nil m)

pub three_not_denied :
    (a b c : PolicyEvalResult)
    → combine_policy_results (a ∷ b ∷ c ∷ []) ≡ allowed
    → (a ≢ denied) × (b ≢ denied)
three_not_denied a b c h =
    let n = ((combine_policy_results_iff (a ∷ b ∷ c ∷ [])).1.0 h).1 in
    (
      (λ e. n ((mem_of_three denied a b c).1 (inl e))),
      (λ e. n ((mem_of_three denied a b c).1 (inr (inl e)))),
    )

-- Three results, each with what its denial and its permission mean.
module _ (a b c : PolicyEvalResult) (A B C D E F : Type 0) (da : (a ≡ denied) ↔ D)
    (db : (b ≡ denied) ↔ E) (dc : (c ≡ denied) ↔ F) (pa : (a ≡ allowed) ↔ (A × ¬ D))
    (pb : (b ≡ allowed) ↔ (B × ¬ E)) (pc : (c ≡ allowed) ↔ (C × ¬ F)) where
  three_denied : Memᴰ denied (a ∷ b ∷ c ∷ []) ↔ (D ⊎ E ⊎ F)
  three_denied = (
    (λ m. elim ((mem_of_three denied a b c).0 m) [
      | inl e ↦ inl (da.0 e)
      | inr (inl e) ↦ inr (inl (db.0 e))
      | inr (inr e) ↦ inr (inr (dc.0 e))
    ]),
    (λ s. (mem_of_three denied a b c).1 (elim s [
      | inl d ↦ inl (da.1 d)
      | inr (inl d) ↦ inr (inl (db.1 d))
      | inr (inr d) ↦ inr (inr (dc.1 d))
    ])),
  )

  pub three_iff :
      (combine_policy_results (a ∷ b ∷ c ∷ []) ≡ allowed) ↔ ((A ⊎ B ⊎ C) × ¬ (D ⊎ E ⊎ F))
  three_iff = (
    (λ h.
        let (m, n) = (combine_policy_results_iff (a ∷ b ∷ c ∷ [])).1.0 h in
        (
          elim ((mem_of_three allowed a b c).0 m) [
            | inl e ↦ inl (pa.0 e).0
            | inr (inl e) ↦ inr (inl (pb.0 e).0)
            | inr (inr e) ↦ inr (inr (pc.0 e).0)
          ],
          λ s. n (three_denied.1 s),
        )),
    (λ (s, n). (combine_policy_results_iff (a ∷ b ∷ c ∷ [])).1.1 (
      (mem_of_three allowed a b c).1 (elim s [
        | inl x ↦ inl (pa.1 (x, λ d. n (inl d)))
        | inr (inl x) ↦ inr (inl (pb.1 (x, λ d. n (inr (inl d)))))
        | inr (inr x) ↦ inr (inr (pc.1 (x, λ d. n (inr (inr d)))))
      ]),
      λ m. n (three_denied.0 m),
    )),
  )
