-- ===== src/Sqlite/Sqs/Receive/Laws.antt =====
-- The selection of the messages to deliver: what is in it, how many, and in which order
-- (`receive_messages` of hiraeth_store_sqlx/src/sqs.rs).
use mathlib.Core.List.Memᴰ
use mathlib.Core.List.{Memᴰ}
use hiraeth.Common.{ℕ, ◌≤◌, true, List, [], ◌∷◌, ◌≡◌, ◌⊎◌, inl, inr, arith, leb, Bool-cases, All}
use hiraeth.Sqlite.Sqs.Receive.{insert_by_sent, order_by_sent}
use hiraeth.Sqlite.Sqs.{MessageRow}

mem-insert :
    (r : MessageRow) (rs : List MessageRow) {x : MessageRow}
    → Memᴰ x (insert_by_sent r rs)
    → (x ≡ r) ⊎ Memᴰ x rs
unfolding insert_by_sent
mem-insert r [] (Memᴰ.head e) = inl e
mem-insert r [] (Memᴰ.tail m) = absurd (Memᴰ.not-nil m)
mem-insert r (y ∷ rs) {x} m = elim (Bool-cases (leb r.sent_at y.sent_at)) [
  | inl e ↦ Memᴰ.cases_cons (rw e at m)
  | inr e ↦ elim (Memᴰ.cases_cons (rw e at m)) [
    | inl same ↦ inr (Memᴰ.head same)
    | inr later ↦ elim (mem-insert r rs later) [
      | inl same ↦ inl same
      | inr old ↦ inr (Memᴰ.tail old)
    ]
  ]
]

insert-mem :
    (r : MessageRow) (rs : List MessageRow) {x : MessageRow}
    → (x ≡ r) ⊎ Memᴰ x rs
    → Memᴰ x (insert_by_sent r rs)
unfolding insert_by_sent
insert-mem r [] (inl e) = Memᴰ.head e
insert-mem r [] (inr m) = absurd (Memᴰ.not-nil m)
insert-mem r (y ∷ rs) {x} s = elim (Bool-cases (leb r.sent_at y.sent_at)) [
  | inl e ↦ rw e (elim s [ inl same ↦ Memᴰ.head same | inr m ↦ Memᴰ.tail m ])
  | inr e ↦ rw e (elim s [
    | inl same ↦ Memᴰ.tail (insert-mem r rs (inl same))
    | inr m ↦ elim (Memᴰ.cases_cons m) [
      | inl same ↦ Memᴰ.head same
      | inr old ↦ Memᴰ.tail (insert-mem r rs (inr old))
    ]
  ])
]

pub mem-order : (rs : List MessageRow) {x : MessageRow} → Memᴰ x (order_by_sent rs) → Memᴰ x rs
unfolding order_by_sent
mem-order [] m = m
mem-order (r ∷ rs) m = elim (mem-insert r (order_by_sent rs) m) [
  | inl e ↦ Memᴰ.head e
  | inr k ↦ Memᴰ.tail (mem-order rs k)
]

pub order-mem : (rs : List MessageRow) {x : MessageRow} → Memᴰ x rs → Memᴰ x (order_by_sent rs)
unfolding order_by_sent
order-mem [] m = m
order-mem (r ∷ rs) (Memᴰ.head e) = insert-mem r (order_by_sent rs) (inl e)
order-mem (r ∷ rs) (Memᴰ.tail m) = insert-mem r (order_by_sent rs) (inr (order-mem rs m))

abbrev pub IsSorted : List MessageRow → Type 0
IsSorted [] = Unit
IsSorted (r ∷ rs) = All (λ x. r.sent_at ≤ x.sent_at) rs × IsSorted rs

All-insert :
    (n : ℕ) (r : MessageRow) (rs : List MessageRow)
    → n ≤ r.sent_at
    → All (λ x. n ≤ x.sent_at) rs
    → All (λ x. n ≤ x.sent_at) (insert_by_sent r rs)
unfolding insert_by_sent
All-insert n r [] h k = (h, tt)
All-insert n r (y ∷ rs) h (k, ks) = elim (Bool-cases (leb r.sent_at y.sent_at)) [
  | inl e ↦ rw e (h, (k, ks))
  | inr e ↦ rw e (k, All-insert n r rs h ks)
]

All-le_trans :
    (m n : ℕ) (rs : List MessageRow)
    → m ≤ n
    → All (λ x. n ≤ x.sent_at) rs
    → All (λ x. m ≤ x.sent_at) rs
All-le_trans m n [] h k = tt
All-le_trans m n (r ∷ rs) h (k, ks) = (omega arith, All-le_trans m n rs h ks)

insert-IsSorted :
    (r : MessageRow) (rs : List MessageRow) → IsSorted rs → IsSorted (insert_by_sent r rs)
unfolding insert_by_sent
insert-IsSorted r [] s = (tt, tt)
insert-IsSorted r (y ∷ rs) (h, s) = elim (Bool-cases (leb r.sent_at y.sent_at)) [
  | inl e ↦ rw e ((le_of_leb e, All-le_trans r.sent_at y.sent_at rs (le_of_leb e) h), (h, s))
  | inr e ↦ rw e (All-insert y.sent_at r rs (ground arith) h, insert-IsSorted r rs s)
]
  where
    le_of_leb : leb r.sent_at y.sent_at ≡ true → r.sent_at ≤ y.sent_at
    le_of_leb e = ground arith

pub order-IsSorted : (rs : List MessageRow) → IsSorted (order_by_sent rs)
unfolding order_by_sent
order-IsSorted [] = tt
order-IsSorted (r ∷ rs) = insert-IsSorted r (order_by_sent rs) (order-IsSorted rs)
