-- ===== src/Common/Order.antt =====
-- Text in the order of its code points, which is that of its UTF-8, and the stable sort by insertion.
use Prim.Native.Char.{code}
use Prim.Native.String.{String}
use mathlib.Core.Bool.{Bool, true, false, ◌&&◌, ◌||◌}
use mathlib.Core.List.{List, [], ◌∷◌}
use hiraeth.Common.Tests.{eqb, ltb, if◌then◌else◌}
use hiraeth.Common.Text.{◌◂◌}

-- a < b of texts
unfoldable pub text_ltb : String → String → Bool
text_ltb String.[] String.[] = false
text_ltb String.[] (d ◂ t) = true
text_ltb (c ◂ s) String.[] = false
text_ltb (c ◂ s) (d ◂ t) = ltb (code c) (code d) || (eqb (code c) (code d) && text_ltb s t)

module _ {A : Type 0} (before : A → A → Bool) where
  -- a stable sort, by insertion
  unfoldable pub insert_ordered : A → List A → List A
  insert_ordered x [] = x ∷ []
  insert_ordered x (y ∷ ys) = if before y x then y ∷ insert_ordered x ys else x ∷ y ∷ ys

  unfoldable pub order_by : List A → List A
  unfolding insert_ordered
  order_by [] = []
  order_by (x ∷ xs) = insert_ordered x (order_by xs)
