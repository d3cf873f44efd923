-- ===== src/Common/Keys.antt =====
-- Lists with pairwise different keys, and what they keep under filters and maps.
use Prim.Native.Nat.{ℕ, ◌+◌, ◌≤◌}
use mathlib.Core.Bool.{Bool, true, false, ◌||◌}
use mathlib.Core.List.Memᴰ
use mathlib.Core.List.{List, [], ◌∷◌, ◌++◌, map, Memᴰ}
use mathlib.Core.Logic.{◌≢◌, inl, inr}
use mathlib.Core.Path.{◌≡◌, refl, sym, ap, ◌∙◌}
use native.Mathlib.Omega.{arith}
use hiraeth.Common.Lists.{length, any, keep, All, All-keep, All-append}
use hiraeth.Common.Tests.{eqb, eqb_iff, if◌then◌else◌, Bool-cases}

module _ {ℓ} {A : Type ℓ} where
  -- membership in a filtered list
  pub mem-keep :
      (p : A → Bool) (xs : List A) {x : A} → Memᴰ x (keep p xs) → Memᴰ x xs × (p x ≡ true)
  mem-keep p [] m = absurd (Memᴰ.not-nil m)
  mem-keep p (y ∷ xs) {x} m = elim (Bool-cases (p y)) [
    | inl e ↦ elim (Memᴰ.cases_cons (rw e at m)) [
      | inl same ↦ (Memᴰ.head same, rw same e)
      | inr later ↦ let (k, q) = mem-keep p xs later in (Memᴰ.tail k, q)
    ]
    | inr e ↦ let (k, q) = mem-keep p xs (rw e at m) in (Memᴰ.tail k, q)
  ]

  pub keep-mem : (p : A → Bool) (xs : List A) {x : A} → Memᴰ x xs → p x ≡ true → Memᴰ x (keep p xs)
  keep-mem p [] m e = absurd (Memᴰ.not-nil m)
  keep-mem p (y ∷ xs) {x} (Memᴰ.head same) e = rw (sym (ap p same) ∙ e) (Memᴰ.head same)
  keep-mem p (y ∷ xs) {x} (Memᴰ.tail m) e = elim (Bool-cases (p y)) [
    | inl t ↦ rw t (Memᴰ.tail (keep-mem p xs m e))
    | inr t ↦ rw t (keep-mem p xs m e)
  ]

  pub length-keep : (p : A → Bool) (xs : List A) → length (keep p xs) ≤ length xs
  length-keep p [] = omega arith
  length-keep p (x ∷ xs) = ground (arith, length-keep p xs)

  pub length-keep_mono :
      (p q : A → Bool) (xs : List A)
      → ((x : A) → p x ≡ true → q x ≡ true)
      → length (keep p xs) ≤ length (keep q xs)
  length-keep_mono p q [] imp = omega arith
  length-keep_mono p q (x ∷ xs) imp = ground (arith, imp x, length-keep_mono p q xs imp)

  pub length-keep_or :
      (p q : A → Bool) (xs : List A)
      → length (keep (λ x. p x || q x) xs) ≤ length (keep p xs) + length (keep q xs)
  length-keep_or p q [] = omega arith
  length-keep_or p q (x ∷ xs) = ground (arith, length-keep_or p q xs)

module _ {ℓ κ} {A : Type ℓ} {B : Type κ} where
  pub mem-map :
      (f : A → B) (xs : List A) {y : B} → Memᴰ y (map f xs) → (x : A) × Memᴰ x xs × (y ≡ f x)
  mem-map f [] m = absurd (Memᴰ.not-nil m)
  mem-map f (x ∷ xs) (Memᴰ.head e) = (x, Memᴰ.head refl, e)
  mem-map f (x ∷ xs) (Memᴰ.tail m) = let (z, k, e) = mem-map f xs m in (z, Memᴰ.tail k, e)

  pub map-mem : (f : A → B) (xs : List A) {x : A} → Memᴰ x xs → Memᴰ (f x) (map f xs)
  map-mem f [] m = absurd (Memᴰ.not-nil m)
  map-mem f (x ∷ xs) (Memᴰ.head e) = Memᴰ.head (ap f e)
  map-mem f (x ∷ xs) (Memᴰ.tail m) = Memᴰ.tail (map-mem f xs m)

module _ {ℓ κ} {A : Type ℓ} (P : A → Type κ) where
  pub All-mem : (xs : List A) {x : A} → All P xs → Memᴰ x xs → P x
  All-mem [] h m = absurd (Memᴰ.not-nil m)
  All-mem (y ∷ xs) h (Memᴰ.head e) = rw e h.0
  All-mem (y ∷ xs) h (Memᴰ.tail m) = All-mem xs h.1 m

  pub mem-All : (xs : List A) → ((x : A) → Memᴰ x xs → P x) → All P xs
  mem-All [] h = tt
  mem-All (x ∷ xs) h = (h x (Memᴰ.head refl), mem-All xs (λ y m. h y (Memᴰ.tail m)))

module _ {ℓ κ} {A : Type ℓ} {K : Type κ} (key : A → K) where
  abbrev pub Distinct : List A → Type (ℓ ⊔ κ)
  Distinct [] = Unit
  Distinct (x ∷ xs) = All (λ y. key y ≢ key x) xs × Distinct xs

  pub Distinct-keep : (p : A → Bool) (xs : List A) → Distinct xs → Distinct (keep p xs)
  Distinct-keep p [] d = tt
  Distinct-keep p (x ∷ xs) (h, d) =
      elim (p x) as (λ b. Distinct (if b then x ∷ keep p xs else keep p xs)) [
        | true ↦ (All-keep _ p xs h, Distinct-keep p xs d)
        | false ↦ Distinct-keep p xs d
      ]

  pub Distinct-mem :
      (xs : List A) {x y : A} → Distinct xs → Memᴰ x xs → Memᴰ y xs → key x ≡ key y → x ≡ y
  Distinct-mem [] d m n e = absurd (Memᴰ.not-nil m)
  Distinct-mem (z ∷ xs) d (Memᴰ.head p) (Memᴰ.head q) e = p ∙ sym q
  Distinct-mem (z ∷ xs) d (Memᴰ.head p) (Memᴰ.tail n) e =
      absurd (All-mem _ xs d.0 n (sym e ∙ ap key p))
  Distinct-mem (z ∷ xs) d (Memᴰ.tail m) (Memᴰ.head q) e = absurd (All-mem _ xs d.0 m (e ∙ ap key q))
  Distinct-mem (z ∷ xs) d (Memᴰ.tail m) (Memᴰ.tail n) e = Distinct-mem xs d.1 m n e

  pub Distinct-concat :
      (xs : List A) (x : A) → Distinct xs → All (λ y. key y ≢ key x) xs → Distinct (xs ++ x ∷ [])
  Distinct-concat [] x d h = (tt, tt)
  Distinct-concat (y ∷ xs) x (k, d) (n, h) = (
    All-append (λ z. key z ≢ key y) xs (x ∷ []) k ((λ e. n (sym e)), tt),
    Distinct-concat xs x d h,
  )

  -- A map that keeps the keys keeps them different.
  pub Distinct-map :
      (f : A → A) (xs : List A) → ((x : A) → key (f x) ≡ key x) → Distinct xs → Distinct (map f xs)
  Distinct-map f [] same d = tt
  Distinct-map f (x ∷ xs) same (h, d) = (go xs h, Distinct-map f xs same d)
    where
      go : (ys : List A) → All (λ y. key y ≢ key x) ys → All (λ y. key y ≢ key (f x)) (map f ys)
      go [] h = tt
      go (y ∷ ys) (n, h) = ((λ e. n (sym (same y) ∙ e ∙ same x)), go ys h)

module _ {ℓ} {A : Type ℓ} (id : A → ℕ) where
  length-keep_key :
      (i : ℕ) (xs : List A) → All (λ y. id y ≢ i) xs → length (keep (λ x. eqb (id x) i) xs) ≡ 0
  length-keep_key i [] h = refl
  length-keep_key i (x ∷ xs) (n, h) = ground (arith, length-keep_key i xs h)

  length-keep_id : (i : ℕ) (xs : List A) → Distinct id xs → length (keep (λ x. eqb (id x) i) xs) ≤ 1
  length-keep_id i [] d = omega arith
  length-keep_id i (x ∷ xs) (h, d) = elim (Bool-cases (eqb (id x) i)) [
    | inl e ↦ rw e (omega (arith, length-keep_key i xs (rw ((eqb_iff _ _).0 e) at h)))
    | inr e ↦ rw e (length-keep_id i xs d)
  ]

  length-keep-false : (xs : List A) → length (keep (λ x. false) xs) ≡ 0
  length-keep-false [] = refl
  length-keep-false (x ∷ xs) = length-keep-false xs

  -- With different keys, at most one item for each key that is asked for.
  pub length-keep_ids :
      (is : List ℕ) (xs : List A)
      → Distinct id xs
      → length (keep (λ x. any (λ i. eqb (id x) i) is) xs) ≤ length is
  length-keep_ids [] xs d = omega (arith, length-keep-false xs)
  length-keep_ids (i ∷ is) xs d = omega (
    arith,
    length-keep_or (λ x. eqb (id x) i) (λ x. any (λ j. eqb (id x) j) is) xs,
    length-keep_id i xs d,
    length-keep_ids is xs d,
  )
