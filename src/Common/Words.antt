-- ===== src/Common/Words.antt =====
-- Characters from bytes, the case and the words of a text, and joining.
use Prim.Native.Char.{Char, char, code, nul}
use Prim.Native.Nat.{ℕ, ◌+◌, ◌<◌, Ordering, compare}
use Prim.Native.String.{String}
use mathlib.Core.Bool.{Bool, false, not, ◌&&◌}
use mathlib.Core.List.{List, [], ◌∷◌}
use mathlib.Core.Path.{◌≡◌, refl}
use native.Mathlib.Omega.{arith}
use text.Mathlib.Text.{◌==◌}
use hiraeth.Common.Chars.{is_whitespace}
use hiraeth.Common.Tests.{leb, if◌then◌else◌}
use hiraeth.Common.Text.{◌◂◌, ◌⊕◌, push_front}

-- `byte as char`
abbrev pub scalar : (n : ℕ) (o : Ordering) → compare n 55296 ≡ o → Char
scalar n Ordering.lt e = char n (rw e tt)
scalar n _ e = nul

unfoldable pub from_byte : ℕ → Char
from_byte n = scalar n (compare n 55296) refl

code-scalar : (n : ℕ) (o : Ordering) (e : compare n 55296 ≡ o) → n < 55296 → code (scalar n o e) ≡ n
code-scalar n Ordering.lt e h = refl
code-scalar n Ordering.eq e h = ground arith
code-scalar n Ordering.gt e h = ground arith

pub code-from_byte : (b : ℕ) → b < 55296 → code (from_byte b) ≡ b
unfolding from_byte
code-from_byte b h = code-scalar b (compare b 55296) refl h

-- `s.to_ascii_lowercase()`
unfoldable pub to_ascii_lowercase : String → String
unfolding from_byte
to_ascii_lowercase String.[] = ""
to_ascii_lowercase (c ◂ s) =
    let rest = to_ascii_lowercase s in
    if leb b'A' (code c) && leb (code c) b'Z' then from_byte (code c + 32) ◂ rest else c ◂ rest

abbrev pub starts_word : String → Bool
starts_word String.[] = false
starts_word (c ◂ s) = not (is_whitespace (code c))

-- `s.split_whitespace()`
unfoldable pub split_whitespace : String → List String
split_whitespace String.[] = []
split_whitespace (c ◂ s) =
    let rest = split_whitespace s in
    if is_whitespace (code c)
    then rest
    else if starts_word s
    then push_front c rest
    else (c ◂ "") ∷ rest

abbrev join_rest : String → List String → String
join_rest separator [] = ""
join_rest separator (s ∷ ss) = separator ⊕ s ⊕ join_rest separator ss

-- `parts.join(separator)`
unfoldable pub join : String → List String → String
join separator [] = ""
join separator (s ∷ ss) = s ⊕ join_rest separator ss

-- `dedup()`: of equal neighbours the first
abbrev pub dedup_after : String → List String → List String
dedup_after x [] = []
dedup_after x (y ∷ ys) =
    let skipped = dedup_after x ys in
    let kept = dedup_after y ys in if x == y then skipped else y ∷ kept

unfoldable pub dedup : List String → List String
dedup [] = []
dedup (x ∷ xs) = x ∷ dedup_after x xs
