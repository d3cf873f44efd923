-- ===== src/SigV4/Examples.antt =====
-- A request signed with toy digests: `hmac` puts the key before the data, `hex` writes the length.
use hiraeth.Common.{
  ◌↔◌, SameTexts, Increasing, ℕ, String, true, false, List, [], ◌∷◌, ◌++◌, Option, none, some, ◌==◌,
  ◌≡◌, inl, inr, refl, length, take, decimal, map, if◌then◌else◌, split, Result, ok,
  to_ascii_lowercase, as_bytes,
}
use mathlib.Core.List.{Memᴰ, Permᴰ}
use mathlib.Core.List.Memᴰ
use hiraeth.Core.Request.{IncomingRequest, get}
use hiraeth.SigV4.Authenticate.{AuthenticatedRequest, authenticate_request}
use hiraeth.SigV4.Authenticate.Laws.{IsAuthentic, authenticate_request-IsAuthentic}
use hiraeth.SigV4.Canonical.{canonical_query_string, canonicalize_signed_headers}
use hiraeth.SigV4.Canonical.Laws.{canonical_query_string-Permᴰ, canonicalize_signed_headers_ext}
use hiraeth.SigV4.Encode.{aws_uri_encode}
use hiraeth.SigV4.Encode.Laws.{percent_decode, percent_decode-aws_uri_encode}
use hiraeth.SigV4.Params.{SigV4AuthParameters, extract_sigv4_params}
use hiraeth.SigV4.Verify
use hiraeth.SigV4.Canonical
use hiraeth.SigV4.Verify.{AccessKey}
use hiraeth.SigV4.Verify.Laws.{IsSigned, authenticate_request_iff}
use hiraeth.Store.{StoreError}

abbrev toy_sha256 : List ℕ → List ℕ
toy_sha256 bytes = take 4 bytes

abbrev toy_hmac : List ℕ → List ℕ → List ℕ
toy_hmac key message = key ++ message

abbrev toy_hex : List ℕ → String
toy_hex bytes = decimal (length bytes)

abbrev toy_date : String → Option ℕ
toy_date text = some 7

abbrev stored_key : AccessKey
stored_key = record { key_id = "AKIA"; principal_id = 3; secret_key = "secret"; created_at = 0 }

abbrev toy_store : String → Result (Option AccessKey) StoreError
toy_store access_key = ok (if access_key == "AKIA" then some stored_key else none)

abbrev request : IncomingRequest
request = record {
  host = "localhost";
  method = "POST";
  path = "/a b";
  query = some "b=2&a=1";
  headers =
      (
        "authorization",
        "AWS4-HMAC-SHA256 Credential=AKIA/20260330/us-east-1/sqs/aws4_request, SignedHeaders=host;x-amz-date, Signature=113",
      )
      ∷ ("host", " local  host ")
      ∷ ("x-amz-date", "20260330T120000Z")
      ∷ [];
  body = 1 ∷ 2 ∷ [];
}

abbrev params : SigV4AuthParameters
params = record {
  algorithm = "AWS4-HMAC-SHA256";
  access_key = "AKIA";
  date = "20260330";
  region = "us-east-1";
  service = "sqs";
  signed_headers = "host" ∷ "x-amz-date" ∷ [];
  signature = "113";
}

abbrev authenticated : AuthenticatedRequest
authenticated = record {
  request = request;
  service = "sqs";
  region = "us-east-1";
  auth_context = record { access_key = "AKIA"; principal_id = 3 };
  date = 7;
}

canonical_query_string_test : canonical_query_string request ≡ "a=1&b=2"
unfolding canonical_query_string
canonical_query_string_test = refl

aws_uri_encode_test : aws_uri_encode "a b/é" false ≡ "a%20b/%C3%A9"
unfolding aws_uri_encode
aws_uri_encode_test = refl

extract_sigv4_params_test : extract_sigv4_params request ≡ ok params
unfolding extract_sigv4_params
extract_sigv4_params_test = refl

authenticate_request_test :
    Verify.authenticate_request toy_sha256 toy_hmac toy_hex toy_store request
    ≡ ok (params, stored_key)
unfolding Verify.authenticate_request Verify.hash_request extract_sigv4_params
    Canonical.create_canonical_request Verify.string_to_sign Verify.derive_signing_key decimal
authenticate_request_test = refl

authenticate_request_accepts :
    authenticate_request toy_sha256 toy_hmac toy_hex toy_date toy_store request ≡ ok authenticated
unfolding authenticate_request get
authenticate_request_accepts = rw authenticate_request_test

authenticate_request-IsAuthentic_example :
    IsAuthentic toy_sha256 toy_hmac toy_hex toy_date toy_store request authenticated
authenticate_request-IsAuthentic_example =
    authenticate_request-IsAuthentic toy_sha256 toy_hmac toy_hex toy_date toy_store request
      authenticated authenticate_request_accepts

authenticate_request_iff_example :
    (Verify.authenticate_request toy_sha256 toy_hmac toy_hex toy_store request
      ≡ ok (params, stored_key))
    ↔ ((extract_sigv4_params request ≡ ok params)
        × (toy_store "AKIA" ≡ ok (some stored_key))
        × IsSigned toy_sha256 toy_hmac toy_hex request params stored_key)
authenticate_request_iff_example =
    authenticate_request_iff toy_sha256 toy_hmac toy_hex toy_store request params stored_key

swapped : Permᴰ (split b'&' "b=2&a=1") (split b'&' "a=1&b=2")
unfolding split
swapped = Permᴰ.swap refl refl

canonical_query_string-Permᴰ_example :
    canonical_query_string (record request { query = some "b=2&a=1" })
    ≡ canonical_query_string (record request { query = some "a=1&b=2" })
canonical_query_string-Permᴰ_example =
    canonical_query_string-Permᴰ request "b=2&a=1" "a=1&b=2" swapped

same_names :
    SameTexts (map to_ascii_lowercase ("Host" ∷ "host" ∷ [])) (map to_ascii_lowercase ("host" ∷ []))
unfolding to_ascii_lowercase
same_names z = (
  λ m. elim (Memᴰ.cases_cons m) [ inl same ↦ Memᴰ.head same | inr later ↦ later ],
  λ m. Memᴰ.tail m,
)

canonicalize_signed_headers_ext_example :
    Increasing (canonicalize_signed_headers ("Host" ∷ "host" ∷ []))
    × (canonicalize_signed_headers ("Host" ∷ "host" ∷ [])
        ≡ canonicalize_signed_headers ("host" ∷ []))
canonicalize_signed_headers_ext_example =
    canonicalize_signed_headers_ext ("Host" ∷ "host" ∷ []) ("host" ∷ []) same_names

percent_decode-aws_uri_encode_example :
    percent_decode (aws_uri_encode "a/é" true) ≡ some (as_bytes "a/é")
percent_decode-aws_uri_encode_example = percent_decode-aws_uri_encode "a/é" true
