-- ===== src/Common/Text.antt =====
-- Text: the native `String`, walked by clauses where the source walks it with `str` methods.
use Prim.Native.Nat.{ℕ, zero, suc}
use Prim.Native.Char.{Char, code}
use Prim.Native.String
use Prim.Native.String.{String}
use mathlib.Core.Path.{◌≡◌}
use mathlib.Core.Logic.{inl, inr}
use mathlib.Core.Bool.{Bool, true, false, ◌&&◌, ◌||◌}
use mathlib.Core.Option.{Option, none, some}
use mathlib.Core.List.{List, [], ◌∷◌}
use native.Mathlib.Omega.{arith}
use text.Mathlib.Text.{◌==◌}
use text.Mathlib.TextEquality.{Char-path}
use text.Mathlib.TextLemmas.{nil-append, cons-append}
use hiraeth.Common.Tests.{eqb, leb, if◌then◌else◌, Bool-cases, is_some}

-- A text from its first character and the rest.
infixr 67 ◌◂◌
pattern abbrev pub ◌◂◌ : Char → String → String
c ◂ s = String.◌∷◌ c s

infixr 65 ◌⊕◌
-- `push_str`, and the pieces of a `format!`
abbrev pub ◌⊕◌ : String → String → String
s ⊕ t = String.◌++◌ s t

-- `s.strip_prefix(p)`
unfoldable pub strip_prefix : String → String → Option String
strip_prefix String.[] s = some s
strip_prefix (c ◂ p) String.[] = none
strip_prefix (c ◂ p) (d ◂ s) = if eqb (code c) (code d) then strip_prefix p s else none

-- `s.starts_with(p)`
unfoldable pub starts_with : String → String → Bool
unfolding strip_prefix
starts_with p s = is_some (strip_prefix p s)

pub strip_prefix-append : (p s : String) → strip_prefix p (p ⊕ s) ≡ some s
unfolding strip_prefix
strip_prefix-append String.[] s = rw nil-append
strip_prefix-append (c ◂ p) s = rw cons-append (ground (arith, strip_prefix-append p s))

pub strip_prefix-eq-some : (p s r : String) → strip_prefix p s ≡ some r → s ≡ p ⊕ r
unfolding strip_prefix
strip_prefix-eq-some String.[] s r h = rw nil-append (ground arith)
strip_prefix-eq-some (c ◂ p) String.[] r h = cc
strip_prefix-eq-some (c ◂ p) (d ◂ s) r h = elim (Bool-cases (eqb (code c) (code d))) [
  | inl e ↦ rw (
    cons-append,
    Char-path c d (ground arith),
    strip_prefix-eq-some p s r (rw (e, strip_prefix) at h),
  )
  | inr e ↦ absurd (cc (rw (e, strip_prefix) at h))
]

prepend : Char → Option String → Option String
prepend c none = none
prepend c (some r) = some (c ◂ r)

-- `s.strip_suffix(p)`
unfoldable pub strip_suffix : String → String → Option String
unfolding prepend
strip_suffix p String.[] = elim p [ String.[] ↦ some "" | _ ↦ none ]
strip_suffix p (c ◂ s) = if p == c ◂ s then some "" else prepend c (strip_suffix p s)

-- `s.ends_with(p)`
unfoldable pub ends_with : String → String → Bool
unfolding strip_suffix
ends_with p s = is_some (strip_suffix p s)

-- `s.chars().all(p)`
unfoldable pub all_chars : (Char → Bool) → String → Bool
all_chars p String.[] = true
all_chars p (c ◂ s) = p c && all_chars p s

abbrev pub push_front : Char → List String → List String
push_front c [] = (c ◂ "") ∷ []
push_front c (x ∷ xs) = (c ◂ x) ∷ xs

-- `s.split(sep)`, for one ASCII separator
unfoldable pub split : ℕ → String → List String
split sep String.[] = "" ∷ []
split sep (c ◂ s) =
    let parts = split sep s in if eqb (code c) sep then "" ∷ parts else push_front c parts

-- `s.splitn(n + 1, sep)`: at most `n` splits
unfoldable pub split_at_most : ℕ → ℕ → String → List String
split_at_most zero sep s = s ∷ []
split_at_most (suc n) sep String.[] = "" ∷ []
split_at_most (suc n) sep (c ◂ s) = elim (eqb (code c) sep) [
  | true ↦ "" ∷ split_at_most n sep s
  | false ↦ push_front c (split_at_most (suc n) sep s)
]

abbrev push_left : Char → Option (String × String) → Option (String × String)
push_left c none = none
push_left c (some (l, r)) = some (c ◂ l, r)

-- `s.split_once(sep)`
unfoldable pub split_once : ℕ → String → Option (String × String)
split_once sep String.[] = none
split_once sep (c ◂ s) = if eqb (code c) sep then some ("", s) else push_left c (split_once sep s)

-- ASCII classes, on code points
abbrev pub is_digit : ℕ → Bool
is_digit c = leb b'0' c && leb c b'9'

abbrev pub is_alphanumeric : ℕ → Bool
is_alphanumeric c = is_digit c || (leb b'A' c && leb c b'Z') || (leb b'a' c && leb c b'z')
