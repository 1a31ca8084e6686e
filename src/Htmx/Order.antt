-- ===== src/Htmx/Order.antt =====
-- The insertion sort of the names does not depend on their order.
use nanite_render.Prelude.{◌≡◌, refl, true, false, List, [], ◌∷◌, arith, Bytes}
use nanite_render.Htmx.{text_gt, insert_name}

text_gt_asymm : (s t : Bytes) → text_gt s t ≡ true → text_gt t s ≡ false
unfolding text_gt
text_gt_asymm [] t h = cc h
text_gt_asymm (a ∷ s) [] h = refl
text_gt_asymm (a ∷ s) (b ∷ t) h = ground (arith, text_gt_asymm s t)

text_gt_antisymm : (s t : Bytes) → text_gt s t ≡ false → text_gt t s ≡ false → s ≡ t
unfolding text_gt
text_gt_antisymm [] [] h k = refl
text_gt_antisymm [] (b ∷ t) h k = cc k
text_gt_antisymm (a ∷ s) [] h k = cc h
text_gt_antisymm (a ∷ s) (b ∷ t) h k = ground (arith, text_gt_antisymm s t)

-- from `y < z ≤ x`
text_gt_trans : (x y z : Bytes) → text_gt z y ≡ true → text_gt z x ≡ false → text_gt x y ≡ true
unfolding text_gt
text_gt_trans x [] [] h k = cc h
text_gt_trans x (b ∷ y) [] h k = cc h
text_gt_trans [] y (c ∷ z) h k = cc k
text_gt_trans (a ∷ x) [] (c ∷ z) h k = refl
text_gt_trans (a ∷ x) (b ∷ y) (c ∷ z) h k = ground (arith, text_gt_trans x y z)

pub insert_name_comm :
    (x y : Bytes) (l : List Bytes)
    → insert_name x (insert_name y l) ≡ insert_name y (insert_name x l)
unfolding insert_name
insert_name_comm x y [] = ground (arith, text_gt_asymm x y, text_gt_asymm y x, text_gt_antisymm x y)
insert_name_comm x y (z ∷ l) = ground (
  arith,
  text_gt_asymm x y,
  text_gt_asymm y x,
  text_gt_antisymm x y,
  text_gt_trans x y z,
  text_gt_trans y x z,
  insert_name_comm x y l,
)
