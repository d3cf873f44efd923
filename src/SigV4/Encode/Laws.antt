-- ===== src/SigV4/Encode/Laws.antt =====
-- Percent encoding can be undone: a reader of percent-encoded text finds the bytes again.
use hiraeth.Common.{
  from_byte, code-from_byte, ◌∙◌, All, ℕ, refl, leb, ◌+◌, ◌-◌, ◌*◌, ◌<◌, ◌/◌, ◌%◌, ◌≡◌, String,
  Char, code, Bool, true, false, not, ◌&&◌, ◌||◌, List, [], ◌∷◌, Option, none, some, inl, inr, ◌◂◌,
  eqb, ltb, if◌then◌else◌, as_bytes, Bool-cases, arith,
}
use Prim.Native.Char.{char, IsScalar}
use Prim.Native.Nat.{Ordering, compare}
use hiraeth.Common.{as_bytes, utf8, All-append}
use hiraeth.SigV4.Encode.{hex_digit, is_unreserved, encode_bytes, aws_uri_encode}

-- What a reader of percent-encoded text makes of it: the bytes, if every "%" has two digits after it.
unfoldable pub digit_value : ℕ → Option ℕ
digit_value c =
    if leb b'0' c && leb c b'9'
    then some (c - b'0')
    else if leb b'A' c && leb c b'F'
    then some (c - 55)
    else none

abbrev add_byte : ℕ → Option (List ℕ) → Option (List ℕ)
add_byte b none = none
add_byte b (some bytes) = some (b ∷ bytes)

-- what was read of an escape
pub data Pending : Type 0 where
  start : Pending
  percent : Pending
  high : ℕ → Pending

unfoldable pub decode_from : Pending → String → Option (List ℕ)
decode_from start String.[] = some []
decode_from percent String.[] = none
decode_from (high h) String.[] = none
decode_from start (c ◂ s) =
    let escape = decode_from percent s in
    let plain = decode_from start s in if eqb (code c) b'%' then escape else add_byte (code c) plain
decode_from percent (c ◂ s) = elim (digit_value (code c)) [
  | none ↦ none
  | some h ↦ decode_from (high h) s
]
decode_from (high h) (c ◂ s) =
    let rest = decode_from start s in
    elim (digit_value (code c)) [ none ↦ none | some l ↦ add_byte (h * 16 + l) rest ]

unfoldable pub percent_decode : String → Option (List ℕ)
unfolding decode_from
percent_decode s = decode_from start s

digit_value-hex_digit : (n : ℕ) → n < 16 → digit_value (code (hex_digit n)) ≡ some n
unfolding digit_value hex_digit
digit_value-hex_digit n h = elim (Bool-cases (ltb n 10)) [
  | inl e ↦ rw (e, code-from_byte (n + 48) (omega arith)) (ground arith)
  | inr e ↦ rw (e, code-from_byte (n + 55) (omega arith)) (ground arith)
]

plain_not_percent :
    (slash : Bool) (b : ℕ)
    → (is_unreserved b || (eqb b b'/' && not slash)) ≡ true
    → eqb b b'%' ≡ false
unfolding is_unreserved
plain_not_percent slash b h = ground arith

rebuilt : (b : ℕ) (bytes : List ℕ) → some ((b / 16 * 16 + b % 16) ∷ bytes) ≡ some (b ∷ bytes)
rebuilt b bytes = let same : b / 16 * 16 + b % 16 ≡ b = omega arith in rw same

decode_from-nil : decode_from start "" ≡ some []
unfolding decode_from
decode_from-nil = refl

decode_from-plain :
    (c : Char) (s : String)
    → eqb (code c) b'%' ≡ false
    → decode_from start (c ◂ s) ≡ add_byte (code c) (decode_from start s)
unfolding decode_from
decode_from-plain c s h = rw h

decode_from-percent :
    (c : Char) (s : String) (h : ℕ)
    → digit_value (code c) ≡ some h
    → decode_from percent (c ◂ s) ≡ decode_from (high h) s
unfolding decode_from
decode_from-percent c s h p = rw (p, decode_from)

decode_from-high :
    (c : Char) (s : String) (h l : ℕ)
    → digit_value (code c) ≡ some l
    → decode_from (high h) (c ◂ s) ≡ add_byte (h * 16 + l) (decode_from start s)
unfolding decode_from
decode_from-high c s h l p = rw (p, decode_from)

decode_from-escape :
    (c d : Char) (s : String) (h l : ℕ)
    → digit_value (code c) ≡ some h
    → digit_value (code d) ≡ some l
    → decode_from start ("%" ◂ c ◂ d ◂ s) ≡ add_byte (h * 16 + l) (decode_from start s)
unfolding decode_from
decode_from-escape c d s h l p q = decode_from-percent c (d ◂ s) h p ∙ decode_from-high d s h l q

decode_from-encode_bytes :
    (encode_slash : Bool) (bytes : List ℕ)
    → All (λ b. b < 256) bytes
    → decode_from start (encode_bytes encode_slash bytes) ≡ some bytes
unfolding encode_bytes
decode_from-encode_bytes slash [] h = decode_from-nil
decode_from-encode_bytes slash (b ∷ bytes) (h, hs) =
    elim (Bool-cases (is_unreserved b || (eqb b b'/' && not slash))) [
      | inl e ↦ rw (
        e,
        decode_from-plain (from_byte b) _
            (rw (code-from_byte b (omega arith)) (plain_not_percent slash b e)),
        code-from_byte b (omega arith),
        decode_from-encode_bytes slash bytes hs,
      )
      | inr e ↦
          rw
            (
              e,
              decode_from-escape (hex_digit (b / 16)) (hex_digit (b % 16)) _ (b / 16) (b % 16)
                  (digit_value-hex_digit (b / 16) (omega arith))
                  (digit_value-hex_digit (b % 16) (omega arith)),
              decode_from-encode_bytes slash bytes hs,
            )
            (rebuilt b bytes)
    ]

code_bound_by :
    (n : ℕ) (o p q : Ordering)
    → compare n 55296 ≡ o
    → compare 57343 n ≡ p
    → compare n 1114112 ≡ q
    → IsScalar n
    → n < 1114112
code_bound_by n Ordering.lt p q e f g h = ground arith
code_bound_by n o p Ordering.lt e f g h = ground arith
code_bound_by n Ordering.eq p q e f g h = ground arith
code_bound_by n Ordering.gt Ordering.lt Ordering.eq e f g h = absurd (rw (e, f, g) at h)
code_bound_by n Ordering.gt Ordering.lt Ordering.gt e f g h = absurd (rw (e, f, g) at h)
code_bound_by n Ordering.gt Ordering.eq q e f g h = absurd (rw (e, f) at h)
code_bound_by n Ordering.gt Ordering.gt q e f g h = absurd (rw (e, f) at h)

code_bound : (c : Char) → code c < 1114112
code_bound (char n p) = code_bound_by n _ _ _ refl refl refl p

utf8_bound : (n : ℕ) → n < 1114112 → All (λ b. b < 256) (utf8 n)
utf8_bound n h = elim (Bool-cases (ltb n 128)) [
  | inl e ↦ rw e (ground arith, tt)
  | inr e ↦ elim (Bool-cases (ltb n 2048)) [
    | inl f ↦ rw (e, f) (ground arith, (omega arith, tt))
    | inr f ↦ elim (Bool-cases (ltb n 65536)) [
      | inl g ↦ rw (e, f, g) (ground arith, (omega arith, (omega arith, tt)))
      | inr g ↦ rw (e, f, g) (ground arith, (omega arith, (omega arith, (omega arith, tt))))
    ]
  ]
]

as_bytes_bound : (s : String) → All (λ b. b < 256) (as_bytes s)
unfolding as_bytes
as_bytes_bound String.[] = tt
as_bytes_bound (c ◂ s) = All-append _ _ _ (utf8_bound (code c) (code_bound c)) (as_bytes_bound s)

-- Whatever the text and whether slashes are encoded, reading the percent encoding of a text gives
-- the bytes of the text.
pub percent_decode-aws_uri_encode :
    (value : String) (encode_slash : Bool)
    → percent_decode (aws_uri_encode value encode_slash) ≡ some (as_bytes value)
unfolding percent_decode aws_uri_encode
percent_decode-aws_uri_encode value encode_slash =
    decode_from-encode_bytes encode_slash (as_bytes value) (as_bytes_bound value)
