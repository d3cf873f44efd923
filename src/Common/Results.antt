-- ===== src/Common/Results.antt =====
-- `Result<A, E>` and `?`.
use mathlib.Core.Path.{◌≡◌, refl}
use mathlib.Core.Bool.{Bool, true, false}
use mathlib.Core.Option.{Option, none, some}

pub data Result {ℓ} (A E : Type ℓ) : Type ℓ where
  ok : A → Result A E
  err : E → Result A E

-- `?` inside a function that returns a result
infixl 5 ◌>>=◌ ◌>>◌
abbrev pub ◌>>=◌ {ℓ} : {A B E : Type ℓ} → Result A E → (A → Result B E) → Result B E
err error >>= next = err error
ok value >>= next = next value

abbrev pub ◌>>◌ {ℓ} : {A B E : Type ℓ} → Result A E → Result B E → Result B E
first >> second = first >>= (λ _. second)

module _ {ℓ} {A E : Type ℓ} where
  abbrev pub ok_or : E → Option A → Result A E
  ok_or e none = err e
  ok_or e (some a) = ok a

module _ {ℓ} {A E F : Type ℓ} where
  abbrev pub map_err : (E → F) → Result A E → Result A F
  map_err f (ok a) = ok a
  map_err f (err e) = err (f e)

module _ {ℓ} {A B E : Type ℓ} where
  -- a chain that succeeds: its first step did, and the rest on the value of that
  pub >>=-eq-ok :
      (first : Result A E) (rest : A → Result B E) {final : B}
      → (first >>= rest) ≡ ok final
      → (middle : A) × (first ≡ ok middle) × (rest middle ≡ ok final)
  >>=-eq-ok (err error) rest succeeds = absurd (cc succeeds)
  >>=-eq-ok (ok middle) rest succeeds = (middle, refl, succeeds)

-- `if test { return Err(e); }`
abbrev pub reject {ℓ} : {E : Type ℓ} → Bool → E → Result Unit E
reject test error = elim test [ true ↦ err error | false ↦ ok tt ]

-- what holds of the value of a result, if there is one
abbrev pub Yields : {A E : Type 0} → (A → Type 0) → Result A E → Type 0
Yields {A} {E} P r = (v : A) → r ≡ ok v → P v

pub step :
    {A B E : Type 0}
    → (P : B → Type 0) (m : Result A E) {f : A → Result B E} → ((a : A) → m ≡ ok a → Yields P (f a))
    → Yields P (m >>= f)
step P (ok a) k = k a refl
step P (err e) k = λ v h. absurd (cc h)

pub done : {A E : Type 0} → (P : A → Type 0) (a : A) → P a → Yields {E = E} P (ok a)
done P a p v h = let same : a ≡ v = cc h in rw (← same) p

-- what it takes for the small steps to succeed
pub reject-eq-ok :
    {E : Type 0} → (test : Bool) (error : E) {u : Unit} → reject test error ≡ ok u → test ≡ false
reject-eq-ok true error h = absurd (cc h)
reject-eq-ok false error h = refl

pub ok_or-eq-ok :
    {A E : Type 0} → (error : E) (o : Option A) {a : A} → ok_or error o ≡ ok a → o ≡ some a
ok_or-eq-ok error none h = absurd (cc h)
ok_or-eq-ok error (some b) h = cc h

pub map_err-eq-ok :
    {A E F : Type 0} → (f : E → F) (r : Result A E) {a : A} → map_err f r ≡ ok a → r ≡ ok a
map_err-eq-ok f (ok b) h = cc h
map_err-eq-ok f (err e) h = absurd (cc h)
