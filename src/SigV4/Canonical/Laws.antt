-- ===== src/SigV4/Canonical/Laws.antt =====
-- hiraeth_auth/src/sig_v4.rs: what the canonical request does not depend on.
use hiraeth.Common.{
  String, true, false, List, [], ◌∷◌, some, map, ◌≡◌, ◌∙◌, ap, refl, sym, inl, inr, Bool-cases,
  text_ltb, order_by, split, join, to_ascii_lowercase, arith, order_by-Permᴰ, map-order_by,
  map-Permᴰ, text_ltb_asymm, text_ltb_trans, text_ltb_connected, Increasing, SameTexts,
  Increasing-ext, Increasing-dedup, mem-dedup,
}
use mathlib.Core.List.{Permᴰ}
use hiraeth.Core.Request.{IncomingRequest}
use hiraeth.SigV4.Canonical.{
  equation, encoded_pair, pair_ltb, by_encoding, split_pair, sorted_params, query_params,
  query_text, extract_query_params, canonical_query_string, canonicalize_signed_headers,
}

pair_ltb_asymm : (p q : String × String) → pair_ltb p q ≡ true → pair_ltb q p ≡ false
unfolding pair_ltb
pair_ltb_asymm (k, v) (l, w) h = ground (arith, text_ltb_asymm k l, text_ltb_asymm v w)

pair_ltb_connected : (p q : String × String) → pair_ltb p q ≡ false → pair_ltb q p ≡ false → p ≡ q
unfolding pair_ltb
pair_ltb_connected (k, v) (l, w) h g =
    let e : k ≡ l = text_ltb_connected k l (ground arith) (ground arith) in
    let f : v ≡ w = text_ltb_connected v w (ground arith) (ground arith) in rw (e, f)

pair_ltb_trans :
    (p q r : String × String) → pair_ltb p q ≡ true → pair_ltb q r ≡ true → pair_ltb p r ≡ true
unfolding pair_ltb
pair_ltb_trans (k, v) (l, w) (m, x) g h = elim (Bool-cases (text_ltb k l)) [
  | inl kl ↦ elim (Bool-cases (text_ltb l m)) [
    | inl lm ↦ rw (text_ltb_trans k l m kl lm)
    | inr lm ↦
        let same : l ≡ m = text_ltb_connected l m lm (ground arith) in
        let km : text_ltb k m ≡ true = rw (← same) kl in rw km
  ]
  | inr kl ↦
      let same : k ≡ l = text_ltb_connected k l kl (ground arith) in
      let vw : text_ltb v w ≡ true = ground arith in
      rw same (ground (arith, vw, text_ltb_trans v w x))
]

map-map_lem :
    {A B C : Type 0} (g : B → C) (f : A → B) (xs : List A)
    → map (λ x. g (f x)) xs ≡ map g (map f xs)
map-map_lem g f [] = refl
map-map_lem g f (x ∷ xs) = rw (map-map_lem g f xs)

-- The canonical query is that of the encoded pairs in order.
query_text-sorted_params :
    (pairs : List String)
    → query_text (sorted_params pairs)
      ≡ join "&" (map equation (order_by pair_ltb (map encoded_pair (map split_pair pairs))))
unfolding query_text sorted_params by_encoding
query_text-sorted_params pairs = ap (join "&") (
    map-map_lem equation encoded_pair _
    ∙ ap (map equation) (map-order_by encoded_pair pair_ltb (map split_pair pairs)))

-- The order in which a query lists its parameters does not matter to the canonical query.
pub canonical_query_string-Permᴰ :
    (request : IncomingRequest) (query other : String)
    → Permᴰ (split b'&' query) (split b'&' other)
    → canonical_query_string (record request { query = some query })
      ≡ canonical_query_string (record request { query = some other })
unfolding canonical_query_string extract_query_params query_params
canonical_query_string-Permᴰ request query other p =
    query_text-sorted_params (split b'&' query)
    ∙ ap (λ pairs. join "&" (map equation pairs))
        (order_by-Permᴰ pair_ltb pair_ltb_asymm pair_ltb_trans pair_ltb_connected
          (map-Permᴰ encoded_pair (map-Permᴰ split_pair p)))
    ∙ sym (query_text-sorted_params (split b'&' other))

-- The canonical signed headers are in increasing order, none twice, and depend only on which header
-- names are listed: not on their order, their repetitions or the case of their letters.
pub canonicalize_signed_headers_ext :
    (xs ys : List String)
    → SameTexts (map to_ascii_lowercase xs) (map to_ascii_lowercase ys)
    → Increasing (canonicalize_signed_headers xs)
      × (canonicalize_signed_headers xs ≡ canonicalize_signed_headers ys)
unfolding canonicalize_signed_headers
canonicalize_signed_headers_ext xs ys same = (
  Increasing-dedup (map to_ascii_lowercase xs),
  Increasing-ext _ _ (Increasing-dedup (map to_ascii_lowercase xs))
      (Increasing-dedup (map to_ascii_lowercase ys))
      (λ z. (
        λ m.
            (mem-dedup (map to_ascii_lowercase ys) z).1
              ((same z).0 ((mem-dedup (map to_ascii_lowercase xs) z).0 m)),
        λ m.
            (mem-dedup (map to_ascii_lowercase xs) z).1
              ((same z).1 ((mem-dedup (map to_ascii_lowercase ys) z).0 m)),
      )),
)
