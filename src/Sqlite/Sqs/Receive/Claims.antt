-- ===== src/Sqlite/Sqs/Receive/Claims.antt =====
-- The rows that a delivery claims (`receive_messages` of hiraeth_store_sqlx/src/sqs.rs).
use mathlib.Core.List.Memᴰ
use mathlib.Core.List.{Memᴰ}
use hiraeth.Common.{
  ℕ, zero, suc, ◌≤◌, true, false, List, [], ◌∷◌, map, ◌≡◌, refl, ap, ◌↔◌, ◌⊎◌, inl, inr, arith,
  eqb_iff, any-Some, Some-any, keep, length, length-take, mem-keep, keep-mem, mem-map, map-mem, ℤ,
  pos, negsuc, All-mem, Distinct, Distinct-mem,
}
use hiraeth.Sqlite.Sqs.Receive.{order_by_sent, limit, selected, is_in}
use hiraeth.Sqlite.Sqs.Receive.Laws.{mem-order, order-mem, IsSorted, order-IsSorted}
use hiraeth.Sqlite.Sqs.{MessageRow, is_eligible}

module _ {ℓ} {A : Type ℓ} where
  mem-limit : (n : ℤ) (xs : List A) {x : A} → Memᴰ x (limit n xs) → Memᴰ x xs
  mem-limit (negsuc n) xs m = m
  mem-limit (pos zero) xs m = absurd (Memᴰ.not-nil m)
  mem-limit (pos (suc n)) [] m = m
  mem-limit (pos (suc n)) (y ∷ xs) (Memᴰ.head e) = Memᴰ.head e
  mem-limit (pos (suc n)) (y ∷ xs) (Memᴰ.tail m) = Memᴰ.tail (mem-limit (pos n) xs m)

  length-map_nat : (f : A → ℕ) (xs : List A) → length (map f xs) ≡ length xs
  length-map_nat f [] = refl
  length-map_nat f (x ∷ xs) = ap suc (length-map_nat f xs)

-- What stays behind under a limit was sent no earlier than what is taken.
limit-IsSorted :
    (n : ℤ) (rs : List MessageRow) {x y : MessageRow}
    → IsSorted rs
    → Memᴰ x (limit n rs)
    → Memᴰ y rs
    → Memᴰ y (limit n rs) ⊎ (x.sent_at ≤ y.sent_at)
limit-IsSorted (negsuc n) rs s m k = inl k
limit-IsSorted (pos zero) rs s m k = absurd (Memᴰ.not-nil m)
limit-IsSorted (pos (suc n)) [] s m k = absurd (Memᴰ.not-nil k)
limit-IsSorted (pos (suc n)) (r ∷ rs) s m (Memᴰ.head e) = inl (Memᴰ.head e)
limit-IsSorted (pos (suc n)) (r ∷ rs) {x} {y} (h, s) (Memᴰ.head e) (Memᴰ.tail k) =
    inr (rw e (All-mem _ rs h k))
limit-IsSorted (pos (suc n)) (r ∷ rs) (h, s) (Memᴰ.tail m) (Memᴰ.tail k) =
    elim (limit-IsSorted (pos n) rs s m k) [ inl j ↦ inl (Memᴰ.tail j) | inr le ↦ inr le ]

pub is_in_iff : (ids : List ℕ) (row : MessageRow) → (is_in ids row ≡ true) ↔ Memᴰ row.row_id ids
is_in_iff ids row = (
  (λ h. let (i, m, e) = any-Some _ ids h in rw ((eqb_iff row.row_id i).0 e) m),
  (λ m. Some-any _ ids (row.row_id, m, (eqb_iff row.row_id row.row_id).1 refl)),
)

module _ (queue_id now : ℕ) (max : ℤ) (rows : List MessageRow) where
  abbrev eligible : List MessageRow
  eligible = keep (is_eligible now queue_id) rows

  abbrev chosen : List MessageRow
  chosen = limit max (order_by_sent eligible)

  selected-mem :
      (i : ℕ)
      → Memᴰ i (selected queue_id now max rows)
      → (r : MessageRow) × Memᴰ r chosen × (i ≡ r.row_id)
  unfolding selected
  selected-mem i m = mem-map _ _ m

  mem-selected : (r : MessageRow) → Memᴰ r chosen → Memᴰ r.row_id (selected queue_id now max rows)
  unfolding selected
  mem-selected r m = map-mem _ _ m

  module _ (distinct : Distinct (λ row. row.row_id) rows) where
    -- A claimed row of the table is one of the chosen rows.
    claimed-chosen :
        (row : MessageRow)
        → Memᴰ row rows
        → is_in (selected queue_id now max rows) row ≡ true
        → Memᴰ row chosen
    claimed-chosen row m h =
        let (r, k, e) = selected-mem row.row_id ((is_in_iff _ row).0 h) in
        let (back, _) = mem-keep _ rows (mem-order eligible (mem-limit max _ k)) in
        rw (Distinct-mem _ rows distinct m back e) k

    -- Only messages that are visible and alive in this queue are claimed.
    pub claimed-eligible :
        (row : MessageRow)
        → Memᴰ row rows
        → is_in (selected queue_id now max rows) row ≡ true
        → is_eligible now queue_id row ≡ true
    claimed-eligible row m h =
        (mem-keep _ rows (mem-order eligible (mem-limit max _ (claimed-chosen row m h)))).1

    -- Oldest first: an eligible message that is left was sent no earlier than any that is claimed.
    pub claimed-oldest :
        (row other : MessageRow)
        → Memᴰ row rows
        → is_in (selected queue_id now max rows) row ≡ true
        → Memᴰ other rows
        → is_eligible now queue_id other ≡ true
        → is_in (selected queue_id now max rows) other ≡ false
        → row.sent_at ≤ other.sent_at
    claimed-oldest row other m h k e n =
        elim (limit-IsSorted max (order_by_sent eligible) (order-IsSorted eligible)
          (claimed-chosen row m h) (order-mem eligible (keep-mem _ rows k e))) [
            | inl j ↦ absurd (cc (n, (is_in_iff _ other).1 (mem-selected other j)))
            | inr le ↦ le
          ]

pub length-selected :
    (queue_id now n : ℕ) (rows : List MessageRow) → length (selected queue_id now (pos n) rows) ≤ n
unfolding selected
length-selected queue_id now n rows = rw (length-map_nat, length-take) (omega arith)
