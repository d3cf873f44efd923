-- ===== src/Sqs/Util/Laws.antt =====
-- What the checks of hiraeth_sqs/src/util.rs let through.
use hiraeth.Common.{
  Char, code, ◌◂◌, ℕ, ◌≤◌, String, Bool, true, not, List, [], ◌∷◌, Option, none, some, ◌==◌, ◌≡◌,
  ◌≢◌, ◌↔◌, refl, sym, ap, inl, inr, arith, eq_iff, eq_refl, ltb, any, length, ℤ, pos, negsuc,
  all_chars, Bool-cases, All, All-mem, mem-All, Distinct, ok, reject, ◌>>◌, ◌⊎◌, >>=-eq-ok,
  byte_length, is_empty,
}
use hiraeth.Sqs.Error.{empty_batch_request, too_many_entries_in_batch_request}
use hiraeth.Sqs.Util.{
  check_distinct, is_valid_sqs_message_character, resolve_delay_seconds, validate_batch_request,
  validate_message_body,
}

abbrev is_fresh : List String → String → Bool
is_fresh seen id = not (any (λ s. s == id) seen)

check_distinct-ok :
    (seen ids : List String)
    → check_distinct seen ids ≡ ok tt
    → Distinct (λ id. id) ids × All (λ id. is_fresh seen id ≡ true) ids
unfolding check_distinct
check_distinct-ok seen [] h = (tt, tt)
check_distinct-ok seen (id ∷ ids) h = elim (Bool-cases (any (λ s. s == id) seen)) [
  | inl e ↦ absurd (cc (rw e at h))
  | inr e ↦
      let (d, f) = check_distinct-ok (id ∷ seen) ids (rw e at h) in
      (
        (
          mem-All _ ids (λ x m same.
              let g = All-mem _ ids f m in
              let eq : (id == x) ≡ true = rw same (eq_refl id) in absurd (cc (rw eq at g))),
          d,
        ),
        (rw e refl, mem-All _ ids (λ x m. let g = All-mem _ ids f m in ground arith)),
      )
]

Distinct-check :
    (seen ids : List String)
    → Distinct (λ id. id) ids
    → All (λ id. is_fresh seen id ≡ true) ids
    → check_distinct seen ids ≡ ok tt
unfolding check_distinct
Distinct-check seen [] d f = refl
Distinct-check seen (id ∷ ids) (n, d) (f, fs) =
    let later = Distinct-check (id ∷ seen) ids d (
      mem-All _ ids (λ x m.
        let g = All-mem _ ids fs m in
        let k = All-mem _ ids n m in
        elim (Bool-cases (id == x)) [
          | inl e ↦ absurd (k (sym ((eq_iff id x).0 e)))
          | inr e ↦ rw e g
        ])) in
    elim (Bool-cases (any (λ s. s == id) seen)) [
      | inl e ↦ absurd (cc (rw e at f))
      | inr e ↦ rw e later
    ]

sizes-ok :
    (ids : List String)
    → (reject (is_empty ids) empty_batch_request
        >> reject (ltb 10 (length ids)) too_many_entries_in_batch_request)
      ≡ ok tt
    → (1 ≤ length ids) × (length ids ≤ 10)
sizes-ok [] h = absurd (cc h)
sizes-ok (x ∷ xs) h = ground arith

ok-sizes :
    (ids : List String)
    → 1 ≤ length ids
    → length ids ≤ 10
    → (reject (is_empty ids) empty_batch_request
        >> reject (ltb 10 (length ids)) too_many_entries_in_batch_request)
      ≡ ok tt
ok-sizes [] l u = absurd (omega arith)
ok-sizes (x ∷ xs) l u = ground arith

-- A batch passes exactly when it has one to ten entries and no two of them share an id.
pub validate_batch_request_iff :
    (ids : List String)
    → (validate_batch_request ids ≡ ok tt)
      ↔ (Distinct (λ id. id) ids × (1 ≤ length ids) × (length ids ≤ 10))
unfolding validate_batch_request
validate_batch_request_iff ids = (
  (λ h.
      let (_, distinct, rest) = >>=-eq-ok _ _ h in
      let (few, many) = sizes-ok ids rest in ((check_distinct-ok [] ids distinct).0, few, many)),
  λ (d, l, u). rw (Distinct-check [] ids d (mem-All _ ids (λ x m. refl))) (ok-sizes ids l u),
)

-- the characters that SQS documents: tab, line feed, carriage return and three ranges
abbrev pub IsAllowed : Char → Type 0
IsAllowed c =
    (code c ≡ 9)
    ⊎ ((code c ≡ 10)
        ⊎ ((code c ≡ 13)
            ⊎ (((32 ≤ code c) × (code c ≤ 55295))
                ⊎ (((57344 ≤ code c) × (code c ≤ 65533))
                    ⊎ ((65536 ≤ code c) × (code c ≤ 1114111))))))

-- The property holds of every character of the text.
unfoldable pub EveryChar : (Char → Type 0) → String → Type 0
EveryChar P String.[] = Unit
EveryChar P (c ◂ s) = P c × EveryChar P s

is_valid_sqs_message_character_iff :
    (c : Char) → (is_valid_sqs_message_character c ≡ true) ↔ IsAllowed c
is_valid_sqs_message_character_iff c = ground arith

all_chars-EveryChar :
    (s : String) → (all_chars is_valid_sqs_message_character s ≡ true) ↔ EveryChar IsAllowed s
unfolding all_chars EveryChar
all_chars-EveryChar String.[] = ((λ h. tt), λ h. refl)
all_chars-EveryChar (c ◂ s) = (
  λ h. elim (Bool-cases (is_valid_sqs_message_character c)) [
    | inl e ↦ ((is_valid_sqs_message_character_iff c).0 e, (all_chars-EveryChar s).0 (rw e at h))
    | inr e ↦ absurd (cc (rw e at h))
  ],
  λ (h, hs). rw ((is_valid_sqs_message_character_iff c).1 h) ((all_chars-EveryChar s).1 hs),
)

guards_iff :
    (body : String) (maximum_message_size : ℕ)
    → (validate_message_body body maximum_message_size ≡ ok tt) ↔ (
        (body ≢ "")
        × (byte_length body ≤ maximum_message_size)
        × (all_chars is_valid_sqs_message_character body ≡ true))
unfolding validate_message_body
guards_iff body max = (
  (λ h. ((λ e. absurd (cc (rw e at h))), ground arith, ground arith)),
  λ (n, s, c). elim (Bool-cases (body == "")) [
    | inl e ↦ absurd (n ((eq_iff body "").0 e))
    | inr e ↦ ground arith
  ],
)

-- A body passes exactly when it is not empty, has no more bytes of UTF-8 than the queue allows, and
-- each of its characters is a tab, a line feed, a carriage return or has a code point from U+20 to
-- U+D7FF, U+E000 to U+FFFD or U+10000 to U+10FFFF.
pub validate_message_body_iff :
    (body : String) (maximum_message_size : ℕ)
    → (validate_message_body body maximum_message_size ≡ ok tt)
      ↔ ((body ≢ "") × (byte_length body ≤ maximum_message_size) × EveryChar IsAllowed body)
validate_message_body_iff body max = (
  λ h. let (n, s, c) = (guards_iff body max).0 h in (n, s, (all_chars-EveryChar body).0 c),
  λ (n, s, c). (guards_iff body max).1 (n, s, (all_chars-EveryChar body).1 c),
)

delay-ok :
    (requested : Option ℤ) (queue_delay delay : ℕ)
    → resolve_delay_seconds requested queue_delay ≡ ok delay
    → (delay ≤ 900)
      × ((requested ≡ some (pos delay)) ⊎ ((requested ≡ none) × (queue_delay ≡ delay)))
unfolding resolve_delay_seconds
delay-ok none q d h = (ground arith, inr (refl, ground arith))
delay-ok (some (pos n)) q d h = (ground arith, inl (ap (λ k. some (pos k)) (ground arith)))
delay-ok (some (negsuc n)) q d h = absurd (cc h)

ok-delay :
    (requested : Option ℤ) (queue_delay delay : ℕ)
    → delay ≤ 900
    → (requested ≡ some (pos delay)) ⊎ ((requested ≡ none) × (queue_delay ≡ delay))
    → resolve_delay_seconds requested queue_delay ≡ ok delay
unfolding resolve_delay_seconds
ok-delay requested q d l (inl e) = rw e (ground arith)
ok-delay requested q d l (inr (e, same)) = rw e (ground arith)

-- An accepted delay is at most 900 seconds, and is the one asked for or else the queue's.
pub resolve_delay_seconds_iff :
    (requested : Option ℤ) (queue_delay delay : ℕ)
    → (resolve_delay_seconds requested queue_delay ≡ ok delay) ↔ (
        (delay ≤ 900)
        × ((requested ≡ some (pos delay)) ⊎ ((requested ≡ none) × (queue_delay ≡ delay))))
unfolding resolve_delay_seconds
resolve_delay_seconds_iff requested queue_delay delay =
    (delay-ok requested queue_delay delay, λ (l, c). ok-delay requested queue_delay delay l c)
