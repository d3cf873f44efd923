-- ===== src/Common/SortLaws.antt =====
-- Sorted texts without repetitions are determined by what they contain.
use Prim.Native.String.{String}
use mathlib.Core.Bool.{true, false}
use mathlib.Core.List.{List, [], ◌∷◌, Memᴰ}
use mathlib.Core.List.Memᴰ
use mathlib.Core.Logic.{◌↔◌, inl, inr}
use mathlib.Core.Path.{◌≡◌, refl, sym, ◌∙◌}
use text.Mathlib.Text.{◌==◌}
use text.Mathlib.TextEquality.{eq_iff}
use hiraeth.Common.Keys.{All-mem, mem-All}
use hiraeth.Common.Lists.{All}
use hiraeth.Common.Order.{text_ltb, insert_ordered, order_by}
use hiraeth.Common.OrderLaws.{
  text_ltb_asymm, text_ltb_irrefl, not_text_ltb_trans, text_ltb_trans, text_ltb_connected,
}
use hiraeth.Common.Tests.{Bool-cases}
use hiraeth.Common.Words.{dedup_after, dedup}

-- no text after a greater one
abbrev Ascending : List String → Type 0
Ascending [] = Unit
Ascending (x ∷ xs) = All (λ y. text_ltb y x ≡ false) xs × Ascending xs

-- each text before the next, so none twice
abbrev pub Increasing : List String → Type 0
Increasing [] = Unit
Increasing (x ∷ xs) = All (λ y. text_ltb x y ≡ true) xs × Increasing xs

-- the same texts, however often and in whatever order
abbrev pub SameTexts : List String → List String → Type 0
SameTexts xs ys = (z : String) → Memᴰ z xs ↔ Memᴰ z ys

mem-insert :
    (x : String) (ys : List String) (z : String)
    → Memᴰ z (insert_ordered text_ltb x ys) ↔ Memᴰ z (x ∷ ys)
unfolding insert_ordered
mem-insert x [] z = (λ m. m, λ m. m)
mem-insert x (y ∷ ys) z = elim (Bool-cases (text_ltb y x)) [
  | inl e ↦ rw e (
    λ m. elim (Memᴰ.cases_cons m) [
      | inl same ↦ Memᴰ.tail (Memᴰ.head same)
      | inr later ↦ elim (Memᴰ.cases_cons ((mem-insert x ys z).0 later)) [
        | inl same ↦ Memᴰ.head same
        | inr last ↦ Memᴰ.tail (Memᴰ.tail last)
      ]
    ],
    λ m. elim (Memᴰ.cases_cons m) [
      | inl same ↦ Memᴰ.tail ((mem-insert x ys z).1 (Memᴰ.head same))
      | inr later ↦ elim (Memᴰ.cases_cons later) [
        | inl same ↦ Memᴰ.head same
        | inr last ↦ Memᴰ.tail ((mem-insert x ys z).1 (Memᴰ.tail last))
      ]
    ],
  )
  | inr e ↦ rw e (λ m. m, λ m. m)
]

cons_mono :
    {z : String} {xs ys : List String} (x : String)
    → (Memᴰ z xs → Memᴰ z ys)
    → Memᴰ z (x ∷ xs)
    → Memᴰ z (x ∷ ys)
cons_mono x f m = elim (Memᴰ.cases_cons m) [
  | inl same ↦ Memᴰ.head same
  | inr later ↦ Memᴰ.tail (f later)
]

mem-order_by : (xs : List String) → SameTexts (order_by text_ltb xs) xs
unfolding order_by
mem-order_by [] z = (λ m. m, λ m. m)
mem-order_by (x ∷ xs) z = (
  λ m. cons_mono x (mem-order_by xs z).0 ((mem-insert x (order_by text_ltb xs) z).0 m),
  λ m. (mem-insert x (order_by text_ltb xs) z).1 (cons_mono x (mem-order_by xs z).1 m),
)

All-insert :
    (P : String → Type 0) (x : String) (ys : List String)
    → P x
    → All P ys
    → All P (insert_ordered text_ltb x ys)
All-insert P x ys p h = mem-All P _ (λ z m. All-mem P (x ∷ ys) (p, h) ((mem-insert x ys z).0 m))

insert_ordered-Ascending :
    (x : String) (ys : List String) → Ascending ys → Ascending (insert_ordered text_ltb x ys)
unfolding insert_ordered
insert_ordered-Ascending x [] h = (tt, tt)
insert_ordered-Ascending x (y ∷ ys) (h, hs) = elim (Bool-cases (text_ltb y x)) [
  | inl e ↦ rw e (
    All-insert (λ z. text_ltb z y ≡ false) x ys (text_ltb_asymm y x e) h,
    insert_ordered-Ascending x ys hs,
  )
  | inr e ↦ rw e ((e, mem-All _ ys (λ z m. not_text_ltb_trans z y x e (All-mem _ ys h m))), (h, hs))
]

order_by-Ascending : (xs : List String) → Ascending (order_by text_ltb xs)
unfolding order_by
order_by-Ascending [] = tt
order_by-Ascending (x ∷ xs) = insert_ordered-Ascending x _ (order_by-Ascending xs)

Increasing-cons :
    (x y : String) (ys : List String)
    → text_ltb x y ≡ true
    → Increasing (y ∷ ys)
    → Increasing (x ∷ y ∷ ys)
Increasing-cons x y ys e (h, hs) =
    ((e, mem-All _ ys (λ z m. text_ltb_trans x y z e (All-mem _ ys h m))), (h, hs))

before_or_equal : (x y : String) → text_ltb y x ≡ false → (x == y) ≡ false → text_ltb x y ≡ true
before_or_equal x y h e = elim (Bool-cases (text_ltb x y)) [
  | inl f ↦ f
  | inr f ↦ absurd (cc ((eq_iff x y).1 (text_ltb_connected x y f h), e))
]

dedup_after-Increasing :
    (x : String) (ys : List String) → Ascending (x ∷ ys) → Increasing (x ∷ dedup_after x ys)
dedup_after-Increasing x [] h = (tt, tt)
dedup_after-Increasing x (y ∷ ys) ((yx, h), (g, gs)) = elim (Bool-cases (x == y)) [
  | inl e ↦ rw e (dedup_after-Increasing x ys (h, gs))
  | inr e ↦
      rw e (Increasing-cons x y _ (before_or_equal x y yx e) (dedup_after-Increasing y ys (g, gs)))
]

merge_equal : {z x y : String} {ys : List String} → x ≡ y → Memᴰ z (x ∷ y ∷ ys) → Memᴰ z (x ∷ ys)
merge_equal e m = elim (Memᴰ.cases_cons m) [
  | inl same ↦ Memᴰ.head same
  | inr later ↦ elim (Memᴰ.cases_cons later) [
    | inl same ↦ Memᴰ.head (same ∙ sym e)
    | inr last ↦ Memᴰ.tail last
  ]
]

mem-dedup_after : (x : String) (ys : List String) → SameTexts (x ∷ dedup_after x ys) (x ∷ ys)
mem-dedup_after x [] z = (λ m. m, λ m. m)
mem-dedup_after x (y ∷ ys) z = elim (Bool-cases (x == y)) [
  | inl e ↦ rw e (
    λ m. elim (Memᴰ.cases_cons ((mem-dedup_after x ys z).0 m)) [
      | inl same ↦ Memᴰ.head same
      | inr later ↦ Memᴰ.tail (Memᴰ.tail later)
    ],
    λ m. (mem-dedup_after x ys z).1 (merge_equal ((eq_iff x y).0 e) m),
  )
  | inr e ↦ rw e (cons_mono x (mem-dedup_after y ys z).0, cons_mono x (mem-dedup_after y ys z).1)
]

least :
    (x y : String) (xs ys : List String)
    → Increasing (x ∷ xs)
    → Increasing (y ∷ ys)
    → SameTexts (x ∷ xs) (y ∷ ys)
    → x ≡ y
least x y xs ys (h, hs) (k, ks) same = elim (Memᴰ.cases_cons ((same x).0 (Memᴰ.head refl))) [
  | inl e ↦ e
  | inr m ↦ elim (Memᴰ.cases_cons ((same y).1 (Memᴰ.head refl))) [
    | inl e ↦ sym e
    | inr n ↦
        let yx : text_ltb y x ≡ true = All-mem _ ys k m in
        let xy : text_ltb x y ≡ true = All-mem _ xs h n in absurd (cc (text_ltb_asymm x y xy, yx))
  ]
]

rest_same :
    (x : String) (xs ys : List String) (z : String)
    → All (λ y. text_ltb x y ≡ true) xs
    → (Memᴰ z (x ∷ xs) → Memᴰ z (x ∷ ys))
    → Memᴰ z xs
    → Memᴰ z ys
rest_same x xs ys z h f m = elim (Memᴰ.cases_cons (f (Memᴰ.tail m))) [
  | inr later ↦ later
  | inl e ↦
      let before : text_ltb x x ≡ true = rw e at (All-mem _ xs h m) in
      absurd (cc (text_ltb_irrefl x, before))
]

with_head : {z x y : String} {ys : List String} → x ≡ y → Memᴰ z (x ∷ ys) → Memᴰ z (y ∷ ys)
with_head e m = rw (← e) m

pub Increasing-ext :
    (xs ys : List String) → Increasing xs → Increasing ys → SameTexts xs ys → xs ≡ ys
Increasing-ext [] [] h k same = refl
Increasing-ext [] (y ∷ ys) h k same = absurd (Memᴰ.not-nil ((same y).1 (Memᴰ.head refl)))
Increasing-ext (x ∷ xs) [] h k same = absurd (Memᴰ.not-nil ((same x).0 (Memᴰ.head refl)))
Increasing-ext (x ∷ xs) (y ∷ ys) h k same =
    let e = least x y xs ys h k same in
    let k' : Increasing (x ∷ ys) = rw e k in
    let rest = Increasing-ext xs ys h.1 k'.1 (λ z. (
      rest_same x xs ys z h.0 (λ m. with_head (sym e) ((same z).0 m)),
      rest_same x ys xs z k'.0 (λ m. (same z).1 (with_head e m)),
    )) in
    rw (e, rest)

pub Increasing-dedup : (xs : List String) → Increasing (dedup (order_by text_ltb xs))
unfolding dedup
Increasing-dedup xs = go (order_by text_ltb xs) (order_by-Ascending xs)
  where
    go : (ys : List String) → Ascending ys → Increasing (dedup ys)
    go [] h = tt
    go (y ∷ ys) h = dedup_after-Increasing y ys h

pub mem-dedup : (xs : List String) → SameTexts (dedup (order_by text_ltb xs)) xs
unfolding dedup
mem-dedup xs z = (
  λ m. (mem-order_by xs z).0 ((go (order_by text_ltb xs)).0 m),
  λ m. (go (order_by text_ltb xs)).1 ((mem-order_by xs z).1 m),
)
  where
    go : (ys : List String) → Memᴰ z (dedup ys) ↔ Memᴰ z ys
    go [] = (λ m. m, λ m. m)
    go (y ∷ ys) = mem-dedup_after y ys z
