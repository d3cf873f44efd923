-- ===== src/SigV4/Authenticate/Laws.antt =====
-- hiraeth_auth: what the context of an authenticated request comes from.
use hiraeth.Common.{
  ℕ, String, List, Option, some, ◌≡◌, refl, ap, sym, ◌∙◌, Result, ok, ok_or, ok_or-eq-ok, step,
  done,
}
use hiraeth.Core.Request.{IncomingRequest, get}
use hiraeth.SigV4.Authenticate.{AuthenticatedRequest, authenticate_request}
use hiraeth.SigV4.Error.{invalid_authorization_header, missing_signed_header}
use hiraeth.SigV4.Params.{SigV4AuthParameters, extract_sigv4_params}
use hiraeth.SigV4.Verify
use hiraeth.SigV4.Verify.{AccessKey}
use hiraeth.SigV4.Verify.Laws.{IsSigned, authenticate_request_iff}
use hiraeth.Store.{StoreError}

module _ (sha256 : List ℕ → List ℕ) (hmac : List ℕ → List ℕ → List ℕ) (hex : List ℕ → String)
    (parse_date : String → Option ℕ)
    (get_secret_key : String → Result (Option AccessKey) StoreError)
    (request : IncomingRequest) where
  -- Whom the context names: the owner of a stored key whose secret signed the request, with the region
  -- and the service of the credential and the time of the request.
  pub record IsAuthentic (outcome : AuthenticatedRequest) : Type 0 where
    pub params : SigV4AuthParameters
    pub key : AccessKey
    pub params_are : extract_sigv4_params request ≡ ok params
    pub key_is_stored : get_secret_key params.access_key ≡ ok (some key)
    pub signed : IsSigned sha256 hmac hex request params key
    pub date_is : parse_date signed.timestamp ≡ some outcome.date
    pub request_is : outcome.request ≡ request
    pub scope_is : (outcome.region ≡ params.region) × (outcome.service ≡ params.service)
    pub access_key_is : outcome.auth_context.access_key ≡ key.key_id
    pub principal_is : outcome.auth_context.principal_id ≡ key.principal_id

  -- A request that is authenticated, is so as the principal of a stored key whose secret signed its
  -- canonical form and its time; nothing of the context comes from elsewhere.
  pub authenticate_request-IsAuthentic :
      (outcome : AuthenticatedRequest)
      → authenticate_request sha256 hmac hex parse_date get_secret_key request ≡ ok outcome
      → IsAuthentic outcome
  unfolding authenticate_request
  authenticate_request-IsAuthentic =
      step IsAuthentic (Verify.authenticate_request sha256 hmac hex get_secret_key request) (λ v e.
        step IsAuthentic
          (ok_or (missing_signed_header "x-amz-date") (get "x-amz-date" request.headers))
          (λ t f.
            step IsAuthentic
              (ok_or (invalid_authorization_header "Date format incorrect") (parse_date t))
              (λ d g.
                let (p, k, s) =
                  (authenticate_request_iff sha256 hmac hex get_secret_key request v.0 v.1).0 e in
                let same : t ≡ s.timestamp = cc (ok_or-eq-ok _ _ f, s.timestamp_is) in
                done IsAuthentic _ (record {
                  params = v.0;
                  key = v.1;
                  params_are = p;
                  key_is_stored = k;
                  signed = s;
                  date_is = ap parse_date (sym same) ∙ ok_or-eq-ok _ _ g;
                  request_is = refl;
                  scope_is = (refl, refl);
                  access_key_is = refl;
                  principal_is = refl;
                }))))
