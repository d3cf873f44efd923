-- ===== src/Common/TextLaws.antt =====
-- Laws of the text functions: characters of a concatenation, and splitting at a separator.
use Prim.Native.Char.{Char, code}
use Prim.Native.Nat.{ℕ, suc}
use Prim.Native.String.{String}
use mathlib.Core.Bool.{Bool, true, not, ◌&&◌}
use mathlib.Core.List.{◌∷◌}
use mathlib.Core.Option.{some}
use mathlib.Core.Path.{◌≡◌, refl}
use native.Mathlib.Omega.{arith}
use text.Mathlib.TextLemmas.{nil-append, cons-append}
use hiraeth.Common.Tests.{eqb}
use hiraeth.Common.Text.{◌◂◌, ◌⊕◌, all_chars, split_at_most, split_once}

pub all_chars-append :
    (p : Char → Bool) (s t : String) → all_chars p (s ⊕ t) ≡ (all_chars p s && all_chars p t)
unfolding all_chars
all_chars-append p String.[] t = rw nil-append
all_chars-append p (c ◂ s) t = rw cons-append (ground (arith, all_chars-append p s t))

pub all_chars_mono :
    (p q : Char → Bool) (s : String)
    → ((c : Char) → p c ≡ true → q c ≡ true)
    → all_chars p s ≡ true
    → all_chars q s ≡ true
unfolding all_chars
all_chars_mono p q String.[] imp h = refl
all_chars_mono p q (c ◂ s) imp h = ground (arith, imp c, all_chars_mono p q s imp)

-- The separator does not occur in the text.
abbrev pub lacks : ℕ → String → Bool
lacks sep s = all_chars (λ c. not (eqb (code c) sep)) s

eqb_refl : (n : ℕ) → eqb n n ≡ true
eqb_refl n = ground arith

-- Up to the first separator a text is one part.
pub split_at_most-append :
    (n : ℕ) (sep : Char) (w s : String)
    → lacks (code sep) w ≡ true
    → split_at_most (suc n) (code sep) (w ⊕ (sep ◂ s)) ≡ w ∷ split_at_most n (code sep) s
unfolding split_at_most all_chars
split_at_most-append n sep String.[] s h = rw (nil-append, split_at_most, eqb_refl (code sep))
split_at_most-append n sep (c ◂ w) s h =
    rw cons-append (ground (arith, split_at_most-append n sep w s))

pub split_once-append :
    (sep : Char) (l r : String)
    → lacks (code sep) l ≡ true
    → split_once (code sep) (l ⊕ (sep ◂ r)) ≡ some (l, r)
unfolding split_once all_chars
split_once-append sep String.[] r h = rw nil-append (ground arith)
split_once-append sep (c ◂ l) r h = rw cons-append (ground (arith, split_once-append sep l r))
