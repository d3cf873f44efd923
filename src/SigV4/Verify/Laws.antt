-- ===== src/SigV4/Verify/Laws.antt =====
-- hiraeth_auth/src/sig_v4.rs: what a signature that passes proves.
use hiraeth.Common.{
  ℕ, String, true, not, List, Option, some, ◌≡◌, ◌==◌, as_bytes, starts_with, Result, ok, ok_or,
  map_err, reject, >>=-eq-ok, eq_iff, eq_refl, ◌↔◌, reject-eq-ok, Yields, step, done, sym, ap, ◌∙◌,
  ◌⊕◌, ok_or-eq-ok, map_err-eq-ok, not-eq-false,
}
use hiraeth.Core.Request.{IncomingRequest, get}
use hiraeth.SigV4.Canonical.{create_canonical_request}
use hiraeth.SigV4.Error.{key_store_error, missing_signed_header, secret_key_not_found}
use hiraeth.SigV4.Params.{SigV4AuthParameters, extract_sigv4_params}
use hiraeth.SigV4.Verify.{
  AccessKey, authenticate_request, derive_signing_key, hash_request, string_to_sign,
}
use hiraeth.Store.{StoreError}

module _ (sha256 : List ℕ → List ℕ) (hmac : List ℕ → List ℕ → List ℕ) (hex : List ℕ → String) where
  -- The signature of the parameters is the one that Signature Version 4 defines, by the chain of keys
  -- from the secret over the day, the region, the service and "aws4_request", and of a text of the
  -- algorithm, the time of the request, the scope and the hash of the canonical request; the time is on
  -- the day of the credential.
  pub record IsSigned (request : IncomingRequest) (params : SigV4AuthParameters) (key : AccessKey)
      : Type 0 where
    pub canonical : String
    pub timestamp : String
    pub canonical_is :
        create_canonical_request sha256 hex request params.signed_headers ≡ ok canonical
    pub timestamp_is : get "x-amz-date" request.headers ≡ some timestamp
    pub on_that_day : starts_with params.date timestamp ≡ true
    pub signature_is :
        params.signature
        ≡ hex (
            hmac
              (hmac
                (hmac
                  (hmac
                    (hmac (as_bytes ("AWS4" ⊕ key.secret_key)) (as_bytes params.date))
                    (as_bytes params.region))
                  (as_bytes params.service))
                (as_bytes "aws4_request"))
              (as_bytes (
                params.algorithm
                ⊕ "\n"
                ⊕ timestamp
                ⊕ "\n"
                ⊕ params.date
                ⊕ "/"
                ⊕ params.region
                ⊕ "/"
                ⊕ params.service
                ⊕ "/aws4_request\n"
                ⊕ hex (sha256 (as_bytes canonical)))))

  hash_request-IsSigned :
      (request : IncomingRequest) (params : SigV4AuthParameters) (key : AccessKey)
      → extract_sigv4_params request ≡ ok params
      → hash_request sha256 hmac hex request key ≡ ok params.signature
      → IsSigned request params key
  unfolding hash_request derive_signing_key string_to_sign
  hash_request-IsSigned request params key e h =
      let (canonical, c, h₁) =
        >>=-eq-ok (create_canonical_request sha256 hex request params.signed_headers) _
          (rw e at h) in
      let (timestamp, t, h₂) =
        >>=-eq-ok (ok_or (missing_signed_header "x-amz-date") (get "x-amz-date" request.headers)) _
          h₁ in
      let (u, d, h₃) = >>=-eq-ok (reject (not (starts_with params.date timestamp)) _) _ h₂ in
      record {
        canonical = canonical;
        timestamp = timestamp;
        canonical_is = c;
        timestamp_is = ok_or-eq-ok _ _ t;
        on_that_day = not-eq-false _ (reject-eq-ok _ _ d);
        signature_is = cc h₃;
      }

  hash_request-signed :
      (request : IncomingRequest) (params : SigV4AuthParameters) (key : AccessKey)
      → extract_sigv4_params request ≡ ok params
      → IsSigned request params key
      → hash_request sha256 hmac hex request key ≡ ok params.signature
  unfolding hash_request derive_signing_key string_to_sign
  hash_request-signed request params key e s =
      rw (e, s.canonical_is, s.timestamp_is, s.on_that_day, s.signature_is)

  abbrev Proves :
      (String → Result (Option AccessKey) StoreError)
      → IncomingRequest
      → SigV4AuthParameters × AccessKey
      → Type 0
  Proves get_secret_key request (params, key) =
      (extract_sigv4_params request ≡ ok params)
      × (get_secret_key params.access_key ≡ ok (some key))
      × IsSigned request params key

  authenticate_request-Proves :
      (get_secret_key : String → Result (Option AccessKey) StoreError) (request : IncomingRequest)
      → Yields
          (Proves get_secret_key request)
          (authenticate_request sha256 hmac hex get_secret_key request)
  unfolding authenticate_request
  authenticate_request-Proves get_secret_key request =
      let P = Proves get_secret_key request in
      step P (extract_sigv4_params request) (λ p e.
        step P (map_err key_store_error (get_secret_key p.access_key)) (λ found f.
          step P (ok_or secret_key_not_found found) (λ k g.
            step P (hash_request sha256 hmac hex request k) (λ signature c.
              step P (reject (not (p.signature == signature)) _) (λ u r.
                let s : p.signature ≡ signature =
                  (eq_iff _ _).0 (not-eq-false _ (reject-eq-ok _ _ r)) in
                done P (p, k)
                  (
                    e,
                    map_err-eq-ok _ _ f ∙ ap (λ o. ok o) (ok_or-eq-ok _ _ g),
                    hash_request-IsSigned request p k e (c ∙ ap (λ t. ok t) (sym s)),
                  ))))))

  -- A request is authenticated with parameters and a key exactly when the parameters are those of its
  -- authorization header, the key is the stored one under the access key that they name, and the
  -- provided signature is the one that Signature Version 4 defines, written out from HMAC and SHA-256,
  -- for the secret, the scope, the canonical request and the time, which is on the day of the
  -- credential.
  pub authenticate_request_iff :
      (get_secret_key : String → Result (Option AccessKey) StoreError) (request : IncomingRequest)
      (params : SigV4AuthParameters) (key : AccessKey)
      → (authenticate_request sha256 hmac hex get_secret_key request ≡ ok (params, key)) ↔ (
          (extract_sigv4_params request ≡ ok params)
          × (get_secret_key params.access_key ≡ ok (some key))
          × IsSigned request params key)
  unfolding authenticate_request
  authenticate_request_iff get_secret_key request params key = (
    authenticate_request-Proves get_secret_key request (params, key),
    λ (e, g, s). rw (e, g, hash_request-signed request params key e s, eq_refl),
  )
