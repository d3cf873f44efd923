-- ===== src/SigV4/Canonical.antt =====
-- hiraeth_auth/src/sig_v4.rs: the canonical request that a signature is made over. `sha256` is the
-- sha2 crate and `hex` the hex crate's `encode`.
pub mod Laws
use hiraeth.Common.{
  ℕ, String, Bool, true, false, List, [], ◌∷◌, Option, none, some, map, ◌==◌, ◌⊕◌, ◌||◌, ◌&&◌,
  text_ltb, order_by, split, split_once, split_whitespace, join, dedup, to_ascii_lowercase, Result,
  ok, ok_or, ◌>>=◌, if◌then◌else◌,
}
use hiraeth.Core.Request.{IncomingRequest, Map, get}
use hiraeth.SigV4.Encode.{aws_uri_encode}
use hiraeth.SigV4.Error.{AuthError, missing_signed_header}

abbrev or_whole : String → Option (String × String) → String × String
or_whole pair none = (pair, "")
or_whole pair (some parts) = parts

-- a key and its value, which is empty without "="
unfoldable pub split_pair : String → String × String
unfolding split_once
split_pair pair = or_whole pair (split_once b'=' pair)

unfoldable pub encoded_pair : String × String → String × String
unfolding aws_uri_encode
encoded_pair pair = (aws_uri_encode pair.0 true, aws_uri_encode pair.1 true)

-- by the first text, then by the second
unfoldable pub pair_ltb : String × String → String × String → Bool
unfolding text_ltb
pair_ltb (k, v) (l, w) = if text_ltb k l then true else if text_ltb l k then false else text_ltb v w

unfoldable pub by_encoding : String × String → String × String → Bool
unfolding encoded_pair pair_ltb
by_encoding left right = pair_ltb (encoded_pair left) (encoded_pair right)

unfoldable pub sorted_params : List String → List (String × String)
unfolding order_by by_encoding split_pair
sorted_params pairs = order_by by_encoding (map split_pair pairs)

unfoldable pub query_params : Option String → List (String × String)
unfolding sorted_params split
query_params none = []
query_params (some query) = sorted_params (split b'&' query)

unfoldable pub extract_query_params : IncomingRequest → List (String × String)
unfolding query_params
extract_query_params request = query_params request.query

abbrev pub equation : String × String → String
equation pair = pair.0 ⊕ "=" ⊕ pair.1

unfoldable pub query_text : List (String × String) → String
unfolding encoded_pair join
query_text params = join "&" (map (λ pair. equation (encoded_pair pair)) params)

unfoldable pub canonical_query_string : IncomingRequest → String
unfolding extract_query_params query_text
canonical_query_string request = query_text (extract_query_params request)

unfoldable pub normalize_header_value : String → String
unfolding split_whitespace join
normalize_header_value value = join " " (split_whitespace value)

unfoldable pub header_lines : Map String → List String → Result (List String) AuthError
unfolding get normalize_header_value
header_lines headers [] = ok []
header_lines headers (header ∷ names) = do
  value ← ok_or (missing_signed_header header) (get header headers)
  rest ← header_lines headers names
  ok ((header ⊕ ":" ⊕ normalize_header_value value) ∷ rest)

unfoldable pub extract_signed_headers : IncomingRequest → List String → Result String AuthError
unfolding header_lines join
extract_signed_headers request signed_headers = do
  headers ← header_lines request.headers signed_headers
  ok (join "\n" headers)

unfoldable pub canonical_uri : String → String
unfolding aws_uri_encode
canonical_uri path = if path == "" then "/" else aws_uri_encode path false

unfoldable pub canonicalize_signed_headers : List String → List String
unfolding to_ascii_lowercase order_by text_ltb dedup
canonicalize_signed_headers signed_headers =
    dedup (order_by text_ltb (map to_ascii_lowercase signed_headers))

unfoldable pub create_canonical_request :
    (List ℕ → List ℕ) → (List ℕ → String) → IncomingRequest → List String → Result String AuthError
unfolding canonical_uri canonical_query_string canonicalize_signed_headers extract_signed_headers
    join
create_canonical_request sha256 hex request signed_headers =
    let canonical = canonicalize_signed_headers signed_headers in
    do
      signed_headers_str ← extract_signed_headers request canonical
      ok (
          request.method
          ⊕ "\n"
          ⊕ canonical_uri request.path
          ⊕ "\n"
          ⊕ canonical_query_string request
          ⊕ "\n"
          ⊕ signed_headers_str
          ⊕ "\n\n"
          ⊕ join ";" canonical
          ⊕ "\n"
          ⊕ hex (sha256 request.body))
