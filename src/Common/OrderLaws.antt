-- ===== src/Common/OrderLaws.antt =====
-- Laws of the order on texts and of the sort.
use Prim.Native.String.{String}
use mathlib.Core.Bool.{Bool, true, false}
use mathlib.Core.List.{List, [], ◌∷◌, map, Permᴰ}
use mathlib.Core.Logic.{inl, inr}
use mathlib.Core.Path.{◌≡◌, refl, ap, ◌∙◌}
use native.Mathlib.Omega.{arith}
use text.Mathlib.TextEquality.{Char-path}
use hiraeth.Common.Order.{text_ltb, insert_ordered, order_by}
use hiraeth.Common.Tests.{Bool-cases}
use hiraeth.Common.Text.{◌◂◌}

pub text_ltb_asymm : (s t : String) → text_ltb s t ≡ true → text_ltb t s ≡ false
unfolding text_ltb
text_ltb_asymm String.[] String.[] h = refl
text_ltb_asymm String.[] (d ◂ t) h = refl
text_ltb_asymm (c ◂ s) String.[] h = absurd (cc h)
text_ltb_asymm (c ◂ s) (d ◂ t) h = ground (arith, text_ltb_asymm s t)

pub text_ltb_trans :
    (s t u : String) → text_ltb s t ≡ true → text_ltb t u ≡ true → text_ltb s u ≡ true
unfolding text_ltb
text_ltb_trans String.[] String.[] u h k = k
text_ltb_trans String.[] (d ◂ t) String.[] h k = absurd (cc k)
text_ltb_trans String.[] (d ◂ t) (e ◂ u) h k = refl
text_ltb_trans (c ◂ s) String.[] u h k = absurd (cc h)
text_ltb_trans (c ◂ s) (d ◂ t) String.[] h k = absurd (cc k)
text_ltb_trans (c ◂ s) (d ◂ t) (e ◂ u) h k = ground (arith, text_ltb_trans s t u)

pub text_ltb_connected : (s t : String) → text_ltb s t ≡ false → text_ltb t s ≡ false → s ≡ t
unfolding text_ltb
text_ltb_connected String.[] String.[] h k = refl
text_ltb_connected String.[] (d ◂ t) h k = absurd (cc h)
text_ltb_connected (c ◂ s) String.[] h k = absurd (cc k)
text_ltb_connected (c ◂ s) (d ◂ t) h k =
    rw (Char-path c d (ground arith), text_ltb_connected s t (ground arith) (ground arith))

pub text_ltb_irrefl : (s : String) → text_ltb s s ≡ false
text_ltb_irrefl s = elim (Bool-cases (text_ltb s s)) [ inl e ↦ text_ltb_asymm s s e | inr e ↦ e ]

-- not before is transitive
pub not_text_ltb_trans :
    (s t u : String) → text_ltb t u ≡ false → text_ltb s t ≡ false → text_ltb s u ≡ false
not_text_ltb_trans s t u h k = elim (Bool-cases (text_ltb s u)) [
  | inr e ↦ e
  | inl e ↦ elim (Bool-cases (text_ltb t s)) [
    | inl f ↦ absurd (cc (text_ltb_trans t s u f e, h))
    | inr f ↦ rw (text_ltb_connected s t k f) h
  ]
]

module _ {A : Type 0} (before : A → A → Bool)
    (asymm : (x y : A) → before x y ≡ true → before y x ≡ false)
    (trans : (x y z : A) → before x y ≡ true → before y z ≡ true → before x z ≡ true)
    (connected : (x y : A) → before x y ≡ false → before y x ≡ false → x ≡ y) where
  insert_after :
      (x y : A) (ys : List A)
      → before y x ≡ true
      → insert_ordered before x (y ∷ ys) ≡ y ∷ insert_ordered before x ys
  unfolding insert_ordered
  insert_after x y ys e = rw e

  insert_here :
      (x y : A) (ys : List A) → before y x ≡ false → insert_ordered before x (y ∷ ys) ≡ x ∷ y ∷ ys
  unfolding insert_ordered
  insert_here x y ys e = rw e

  negative_trans : (x y z : A) → before z x ≡ true → before z y ≡ false → before y x ≡ true
  negative_trans x y z zx zy = elim (Bool-cases (before y z)) [
    | inl yz ↦ trans y z x yz zx
    | inr yz ↦ rw (connected y z yz zy) zx
  ]

  insert_same :
      (x y : A) (zs : List A)
      → x ≡ y
      → insert_ordered before x (insert_ordered before y zs)
        ≡ insert_ordered before y (insert_ordered before x zs)
  insert_same x y zs e = rw e

  -- In a linear order it does not matter which of two items is inserted first.
  insert_ordered_comm :
      (x y : A) (zs : List A)
      → insert_ordered before x (insert_ordered before y zs)
        ≡ insert_ordered before y (insert_ordered before x zs)
  unfolding insert_ordered
  insert_ordered_comm x y [] = elim (Bool-cases (before x y)) [
    | inl e ↦ rw (e, asymm x y e)
    | inr e ↦ elim (Bool-cases (before y x)) [ inl f ↦ rw (e, f) | inr f ↦ rw (connected x y e f) ]
  ]
  insert_ordered_comm x y (z ∷ zs) = elim (Bool-cases (before z x)) [
    | inl zx ↦ elim (Bool-cases (before z y)) [
      | inl zy ↦ rw (
        insert_after y z zs zy,
        insert_after x z zs zx,
        insert_after x z _ zx,
        insert_after y z _ zy,
        insert_ordered_comm x y zs,
      )
      | inr zy ↦
          let yx = negative_trans x y z zx zy in
          rw (
            insert_here y z zs zy,
            insert_after x y _ yx,
            insert_after x z zs zx,
            insert_here y z _ zy,
          )
    ]
    | inr zx ↦ elim (Bool-cases (before z y)) [
      | inl zy ↦
          let xy = negative_trans y x z zy zx in
          rw (
            insert_here x z zs zx,
            insert_after y x _ xy,
            insert_after y z zs zy,
            insert_here x z _ zx,
          )
      | inr zy ↦ elim (Bool-cases (before x y)) [
        | inl xy ↦ rw (insert_here x z zs zx, insert_here y z zs zy, xy, asymm x y xy)
        | inr xy ↦ elim (Bool-cases (before y x)) [
          | inl yx ↦ rw (insert_here x z zs zx, insert_here y z zs zy, yx, xy, zx)
          | inr yx ↦ insert_same x y (z ∷ zs) (connected x y xy yx)
        ]
      ]
    ]
  ]

  pub order_by-Permᴰ : {xs ys : List A} → Permᴰ xs ys → order_by before xs ≡ order_by before ys
  unfolding order_by
  order_by-Permᴰ Permᴰ.nil = refl
  order_by-Permᴰ (Permᴰ.cons e p) = rw (e, order_by-Permᴰ p)
  order_by-Permᴰ (Permᴰ.swap {l} e f) = rw (e, f, insert_ordered_comm)
  order_by-Permᴰ (Permᴰ.trans p q) = order_by-Permᴰ p ∙ order_by-Permᴰ q

-- Sorting by an image is sorting the images.
pub map-order_by :
    {A B : Type 0} (f : A → B) (before : B → B → Bool) (xs : List A)
    → map f (order_by (λ x y. before (f x) (f y)) xs) ≡ order_by before (map f xs)
unfolding order_by
map-order_by f before [] = refl
map-order_by {A} {B} f before (x ∷ xs) =
    map-insert x (order_by (λ y z. before (f y) (f z)) xs)
    ∙ ap (insert_ordered before (f x)) (map-order_by f before xs)
  where
    map-insert :
        (x : A) (ys : List A)
        → map f (insert_ordered (λ y z. before (f y) (f z)) x ys)
          ≡ insert_ordered before (f x) (map f ys)
    map-insert x [] = refl
    map-insert x (y ∷ ys) = elim (Bool-cases (before (f y) (f x))) [
      | inl e ↦ rw (e, map-insert x ys)
      | inr e ↦ rw e
    ]

pub map-Permᴰ :
    {A B : Type 0} (f : A → B) {xs ys : List A} → Permᴰ xs ys → Permᴰ (map f xs) (map f ys)
map-Permᴰ f Permᴰ.nil = Permᴰ.nil
map-Permᴰ f (Permᴰ.cons e p) = Permᴰ.cons (ap f e) (map-Permᴰ f p)
map-Permᴰ f (Permᴰ.swap e h) = Permᴰ.swap (ap f e) (ap f h)
map-Permᴰ f (Permᴰ.trans p q) = Permᴰ.trans (map-Permᴰ f p) (map-Permᴰ f q)
