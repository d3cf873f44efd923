-- ===== src/Common/FindLaws.antt =====
-- What `find`, `any`, `keep` and `map` have to do with each other.
use mathlib.Core.Bool.{Bool, true, false, not}
use mathlib.Core.List.{List, [], ◌∷◌, ◌++◌, map, Memᴰ}
use mathlib.Core.Logic.{inl, inr}
use mathlib.Core.Option.{Option, none, some}
use mathlib.Core.Path.{◌≡◌, refl}
use hiraeth.Common.Keys.{mem-All}
use hiraeth.Common.Lists.{All, Some-any, any, find, keep}
use hiraeth.Common.Tests.{Bool-cases}

-- `Option::map`
abbrev pub map_option : {A B : Type 0} → (A → B) → Option A → Option B
map_option f none = none
map_option f (some a) = some (f a)

module _ {A : Type 0} (p : A → Bool) where
  pub any-false-All : (xs : List A) → any p xs ≡ false → All (λ x. p x ≡ false) xs
  any-false-All xs h = mem-All _ xs (λ x m. elim (Bool-cases (p x)) [
    | inl e ↦ absurd (cc (h, Some-any p xs (x, m, e)))
    | inr e ↦ e
  ])

  pub any-append : (xs ys : List A) → any p xs ≡ true → any p (xs ++ ys) ≡ true
  any-append [] ys h = absurd (cc h)
  any-append (x ∷ xs) ys h = elim (Bool-cases (p x)) [
    | inl e ↦ rw e refl
    | inr e ↦ rw e (any-append xs ys (rw e at h))
  ]

  pub find-some : (xs : List A) (x : A) → find p xs ≡ some x → Memᴰ x xs × (p x ≡ true)
  find-some [] x h = absurd (cc h)
  find-some (y ∷ xs) x h = elim (Bool-cases (p y)) [
    | inl e ↦ let same : some y ≡ some x = rw e at h in (Memᴰ.head (cc same), cc (e, same))
    | inr e ↦ let (m, q) = find-some xs x (rw e at h) in (Memᴰ.tail m, q)
  ]

  pub find-none : (xs : List A) → find p xs ≡ none → any p xs ≡ false
  find-none [] h = refl
  find-none (y ∷ xs) h = elim (Bool-cases (p y)) [
    | inl e ↦ absurd (cc (rw e at h))
    | inr e ↦ rw e (find-none xs (rw e at h))
  ]

  pub find-keep-not : (xs : List A) → find p (keep (λ x. not (p x)) xs) ≡ none
  find-keep-not [] = refl
  find-keep-not (x ∷ xs) = elim (Bool-cases (p x)) [
    | inl e ↦ rw e (find-keep-not xs)
    | inr e ↦ rw (e, e) (find-keep-not xs)
  ]

  pub keep-keep-not : (xs : List A) → keep p (keep (λ x. not (p x)) xs) ≡ []
  keep-keep-not [] = refl
  keep-keep-not (x ∷ xs) = elim (Bool-cases (p x)) [
    | inl e ↦ rw e (keep-keep-not xs)
    | inr e ↦ rw (e, e) (keep-keep-not xs)
  ]

  pub keep-All : (xs : List A) → All (λ x. p x ≡ true) xs → keep p xs ≡ xs
  keep-All [] h = refl
  keep-All (x ∷ xs) (h, hs) = rw (h, keep-All xs hs)

  -- A map that keeps the test is found through.
  pub find-map :
      (f : A → A) (xs : List A)
      → ((x : A) → p (f x) ≡ p x)
      → find p (map f xs) ≡ map_option f (find p xs)
  find-map f [] same = refl
  find-map f (x ∷ xs) same = elim (Bool-cases (p x)) [
    | inl e ↦ rw (same x, e)
    | inr e ↦ rw (same x, e) (find-map f xs same)
  ]
