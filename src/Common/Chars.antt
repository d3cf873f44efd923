-- ===== src/Common/Chars.antt =====
-- The `str` methods that count, trim and read numbers, and numbers in decimal.
use Prim.Native.Nat.{ℕ, zero, suc, ◌+◌, ◌-◌, ◌*◌, ◌/◌, ◌%◌, ◌^◌}
use Prim.Native.Char.{code}
use Prim.Native.String.{String}
use mathlib.Core.Bool.{Bool, true, false, ◌&&◌, ◌||◌}
use mathlib.Core.Option.{Option, none, some}
use text.Mathlib.Text.{◌==◌}
use hiraeth.Common.Int.{ℤ, pos, negsuc}
use hiraeth.Common.Tests.{eqb, leb, ltb, if◌then◌else◌}
use hiraeth.Common.Text.{◌◂◌, ◌⊕◌, is_digit}

-- the bytes of a code point in UTF-8
abbrev utf8_width : ℕ → ℕ
utf8_width c = if ltb c 128 then 1 else if ltb c 2048 then 2 else if ltb c 65536 then 3 else 4

-- `s.len()`
unfoldable pub byte_length : String → ℕ
byte_length String.[] = 0
byte_length (c ◂ s) = utf8_width (code c) + byte_length s

-- `s.chars().count()`
unfoldable pub count_chars : String → ℕ
count_chars String.[] = 0
count_chars (c ◂ s) = suc (count_chars s)

-- `s.contains(p)`
abbrev is_prefix : String → String → Bool
is_prefix String.[] s = true
is_prefix (c ◂ p) String.[] = false
is_prefix (c ◂ p) (d ◂ s) = eqb (code c) (code d) && is_prefix p s

unfoldable pub contains : String → String → Bool
contains p String.[] = p == ""
contains p (c ◂ s) = is_prefix p (c ◂ s) || contains p s

abbrev lower : ℕ → ℕ
lower c = if leb b'A' c && leb c b'Z' then c + 32 else c

-- `a.eq_ignore_ascii_case(b)`, and `a.to_ascii_lowercase() == b` for a lower-case `b`
unfoldable pub eq_ignore_ascii_case : String → String → Bool
eq_ignore_ascii_case String.[] String.[] = true
eq_ignore_ascii_case String.[] (d ◂ t) = false
eq_ignore_ascii_case (c ◂ s) String.[] = false
eq_ignore_ascii_case (c ◂ s) (d ◂ t) =
    eqb (lower (code c)) (lower (code d)) && eq_ignore_ascii_case s t

-- the Unicode property White_Space
abbrev pub is_whitespace : ℕ → Bool
is_whitespace c =
    (leb 9 c && leb c 13)
    || eqb c 32
    || eqb c 133
    || eqb c 160
    || eqb c 5760
    || (leb 8192 c && leb c 8202)
    || eqb c 8232
    || eqb c 8233
    || eqb c 8239
    || eqb c 8287
    || eqb c 12288

abbrev trim_start : String → String
trim_start String.[] = ""
trim_start (c ◂ s) = let rest = trim_start s in if is_whitespace (code c) then rest else c ◂ s

abbrev trim_end : String → String
trim_end String.[] = ""
trim_end (c ◂ s) =
    let rest = trim_end s in if is_whitespace (code c) && (rest == "") then "" else c ◂ rest

-- `s.trim()`
unfoldable pub trim : String → String
trim s = trim_start (trim_end s)

-- the value of a text of digits, after the digits already read
abbrev read_digits : ℕ → String → Option ℕ
read_digits n String.[] = some n
read_digits n (c ◂ s) =
    let rest = read_digits (n * 10 + (code c - b'0')) s in if is_digit (code c) then rest else none

abbrev digits : String → Option ℕ
digits String.[] = none
digits (c ◂ s) = read_digits 0 (c ◂ s)

abbrev non_negative : Option ℕ → Option ℤ
non_negative none = none
non_negative (some n) = if ltb n (2 ^ 63) then some (pos n) else none

abbrev negative : Option ℕ → Option ℤ
negative none = none
negative (some zero) = some (pos 0)
negative (some (suc n)) = if ltb n (2 ^ 63) then some (negsuc n) else none

-- `s.parse::<i64>().ok()`
unfoldable pub parse_i64 : String → Option ℤ
parse_i64 String.[] = none
parse_i64 (c ◂ s) =
    if eqb (code c) b'-'
    then negative (digits s)
    else if eqb (code c) b'+'
    then non_negative (digits s)
    else non_negative (digits (c ◂ s))

abbrev digit : ℕ → String
digit n =
    if eqb n 0
    then "0"
    else if eqb n 1
    then "1"
    else if eqb n 2
    then "2"
    else if eqb n 3
    then "3"
    else if eqb n 4
    then "4"
    else if eqb n 5
    then "5"
    else if eqb n 6
    then "6"
    else if eqb n 7
    then "7"
    else if eqb n 8
    then "8"
    else "9"

-- `n` divided by 10 more often than `fuel` leaves nothing of a number below `10 ^ fuel`
abbrev decimal_from : ℕ → ℕ → String
decimal_from zero n = digit (n % 10)
decimal_from (suc fuel) n =
    let rest = decimal_from fuel (n / 10) in if ltb n 10 then digit n else rest ⊕ digit (n % 10)

-- the decimal text of a number below 10 ^ 20, as all 64-bit numbers are
unfoldable pub decimal : ℕ → String
decimal n = decimal_from 20 n
