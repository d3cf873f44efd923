-- ===== src/SigV4/Encode.antt =====
-- hiraeth_auth/src/sig_v4.rs: the percent encoding of canonical requests.
pub mod Laws
use hiraeth.Common.{
  from_byte, All, ℕ, refl, leb, ◌+◌, ◌-◌, ◌*◌, ◌<◌, ◌/◌, ◌%◌, ◌≡◌, String, Char, code, Bool, true,
  false, not, ◌&&◌, ◌||◌, List, [], ◌∷◌, Option, none, some, inl, inr, ◌◂◌, eqb, ltb, if◌then◌else◌,
  is_alphanumeric, as_bytes, Bool-cases, arith,
}
use Prim.Native.Char.{char, nul, IsScalar}
use Prim.Native.Nat.{Ordering, compare}
use text.Mathlib.Text.{get?}

-- `HEX[n]`
unfoldable pub hex_digit : ℕ → Char
unfolding from_byte
hex_digit n = if ltb n 10 then from_byte (n + b'0') else from_byte (n + 55)

-- the bytes that stand for themselves
unfoldable pub is_unreserved : ℕ → Bool
is_unreserved b = is_alphanumeric b || eqb b b'-' || eqb b b'_' || eqb b b'.' || eqb b b'~'

unfoldable pub encode_bytes : Bool → List ℕ → String
unfolding from_byte hex_digit is_unreserved
encode_bytes encode_slash [] = ""
encode_bytes encode_slash (byte ∷ bytes) =
    let rest = encode_bytes encode_slash bytes in
    if is_unreserved byte || (eqb byte b'/' && not encode_slash)
    then from_byte byte ◂ rest
    else "%" ◂ hex_digit (byte / 16) ◂ hex_digit (byte % 16) ◂ rest

unfoldable pub aws_uri_encode : String → Bool → String
unfolding encode_bytes as_bytes
aws_uri_encode value encode_slash = encode_bytes encode_slash (as_bytes value)
