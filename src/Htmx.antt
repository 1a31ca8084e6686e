-- ===== src/Htmx.antt =====
-- htmx.go: the events and decisions that a render records for HTMX, and the response headers that
-- they become. A Go map is an association list in the order in which it is iterated; `marshal` is
-- json.Marshal.
pub mod Order
pub mod Joined
pub mod Response
use nanite_render.Prelude.{
  ℕ, Bool, true, false, Option, none, some, List, [], ◌∷◌, ◌++◌, ltb, ◌==◌, if◌then◌else◌, Bytes,
  codes, text_eq,
}

-- `emptySentinel`, or a detail
pub data Detail (D : Type 0) : Type 0 where
  plain : Detail D
  with_detail : D → Detail D

abbrev pub HxTriggers : Type 0 → Type 0
HxTriggers D = List (Bytes × Detail D)

-- `out[j-1] > out[j]` on Go strings
unfoldable pub text_gt : Bytes → Bytes → Bool
text_gt [] t = false
text_gt (a ∷ s) [] = true
text_gt (a ∷ s) (b ∷ t) = if a == b then text_gt s t else ltb b a

-- One round of the insertion sort; the sorted part is held last name first.
unfoldable pub insert_name : Bytes → List Bytes → List Bytes
insert_name x [] = x ∷ []
insert_name x (y ∷ ys) = if text_gt y x then y ∷ insert_name x ys else x ∷ y ∷ ys

unfoldable pub sort_names : List Bytes → List Bytes → List Bytes
sort_names sorted [] = sorted
sort_names sorted (x ∷ xs) = sort_names (insert_name x sorted) xs

reverse_onto : List Bytes → List Bytes → List Bytes
reverse_onto acc [] = acc
reverse_onto acc (x ∷ xs) = reverse_onto (x ∷ acc) xs

-- names with a comma between them
unfoldable pub comma_joined : List Bytes → Bytes
comma_joined [] = []
comma_joined (x ∷ []) = x
comma_joined (x ∷ y ∷ xs) = x ++ (codes "," ++ comma_joined (y ∷ xs))

module _ {D : Type 0} where
  unfoldable pub lookup : Bytes → HxTriggers D → Option (Detail D)
  lookup name [] = none
  lookup name ((k, d) ∷ t) = if text_eq k name then some d else lookup name t

  unfoldable pub insert : Bytes → Detail D → HxTriggers D → HxTriggers D
  insert name d [] = (name, d) ∷ []
  insert name d ((k, e) ∷ t) = if text_eq k name then (k, d) ∷ t else (k, e) ∷ insert name d t

  unfoldable pub add : Bytes → HxTriggers D → HxTriggers D
  add [] t = t
  add (c ∷ name) t = elim (lookup (c ∷ name) t) [ none ↦ insert (c ∷ name) plain t | some d ↦ t ]

  unfoldable pub add_with_detail : Bytes → D → HxTriggers D → HxTriggers D
  add_with_detail [] d t = t
  add_with_detail (c ∷ name) d t = insert (c ∷ name) (with_detail d) t

  unfoldable pub keys : HxTriggers D → List Bytes
  keys [] = []
  keys ((k, d) ∷ t) = k ∷ keys t

  unfoldable pub names : HxTriggers D → List Bytes
  unfolding reverse_onto
  names t = reverse_onto [] (sort_names [] (keys t))

  unfoldable pub has_detail : HxTriggers D → Bool
  has_detail [] = false
  has_detail ((k, plain) ∷ t) = has_detail t
  has_detail ((k, with_detail d) ∷ t) = true

  module _ (marshal : D → Option Bytes) where
    -- the value of `t[n]` in the JSON form
    unfoldable pub detail_json : Option (Detail D) → Bytes
    detail_json none = codes "null"
    detail_json (some plain) = codes "null"
    detail_json (some (with_detail d)) = elim (marshal d) [ none ↦ codes "null" | some j ↦ j ]

    unfoldable pub entries_json : HxTriggers D → List Bytes → List Bytes
    entries_json t [] = []
    entries_json t (n ∷ ns) =
        (codes "\"" ++ (n ++ (codes "\":" ++ detail_json (lookup n t)))) ∷ entries_json t ns

    unfoldable pub join : HxTriggers D → Bytes
    join [] = []
    join (kd ∷ t) =
        if has_detail (kd ∷ t)
        then codes "{" ++ (comma_joined (entries_json (kd ∷ t) (names (kd ∷ t))) ++ codes "}")
        else comma_joined (names (kd ∷ t))
