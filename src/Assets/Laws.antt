-- ===== src/Assets/Laws.antt =====
-- The assets against a list without repetitions, in the order of their first requirement.
use nanite_render.Prelude.{
  ℕ, zero, suc, ◌+◌, ◌<◌, ◌≡◌, refl, sym, ap, ◌∙◌, inl, inr, Bool, true, false, List, [], ◌∷◌, ◌++◌,
  append-nil, append_assoc, arith, ltb, if◌then◌else◌, Bool-cases, length, length-append,
  length-set, set, take, Bytes, text_eq,
}
use nanite_render.Assets.{
  asset_inline_cap, AssetList, inline_n, holds, add_asset, require, empty_slots, clear_list,
}

pub record IsValid (l : AssetList) : Type 0 where
  pub inline_len : length l.inline ≡ asset_inline_cap
  pub spilled : l.n ≡ inline_n l.n + length l.overflow

abbrev pub paths : AssetList → List Bytes
paths l = take (inline_n l.n) l.inline ++ l.overflow

unfoldable pub member : Bytes → List Bytes → Bool
member path [] = false
member path (x ∷ xs) = if text_eq x path then true else member path xs

-- the list with a path at its end, unless it is there
abbrev pub add_once : Bytes → List Bytes → List Bytes
add_once path xs = if member path xs then xs else xs ++ path ∷ []

holds_lem :
    (n : ℕ) (path : Bytes) (xs ys : List Bytes)
    → member path (take n xs ++ ys) ≡ (if holds n path xs then true else member path ys)
unfolding member holds
holds_lem zero path xs ys = refl
holds_lem (suc n) path [] ys = refl
holds_lem (suc n) path (x ∷ xs) ys = elim (Bool-cases (text_eq x path)) [
  | inl e ↦ rw e refl
  | inr e ↦ rw e (holds_lem n path xs ys)
]

take-length : (xs : List Bytes) → take (length xs) xs ≡ xs
take-length [] = refl
take-length (x ∷ xs) = ap (λ t. x ∷ t) (take-length xs)

take-set :
    (xs : List Bytes) (n : ℕ) (p : Bytes)
    → n < length xs
    → take (suc n) (set xs n p) ≡ take n xs ++ p ∷ []
take-set [] n p h = absurd (omega arith)
take-set (x ∷ xs) zero p h = refl
take-set (x ∷ xs) (suc n) p h = ap (λ t. x ∷ t) (take-set xs n p (omega arith))

nil_of_length : (xs : List Bytes) → length xs ≡ 0 → xs ≡ []
nil_of_length [] h = refl
nil_of_length (x ∷ xs) h = absurd (omega arith)

member-nil : (path : Bytes) → member path [] ≡ false
unfolding member
member-nil path = refl

add_asset_lem :
    (p : Bytes) (l : AssetList)
    → IsValid l
    → IsValid (add_asset p l) × (paths (add_asset p l) ≡ paths l ++ p ∷ [])
unfolding add_asset
add_asset_lem p l v = elim (Bool-cases (ltb l.n asset_inline_cap)) [
  | inl room ↦
      let lt : l.n < asset_inline_cap = ground arith in
      let used : inline_n l.n ≡ l.n = ground arith in
      let used' : inline_n (l.n + 1) ≡ suc l.n = ground arith in
      let nothing : l.overflow ≡ [] = nil_of_length l.overflow (omega (arith, v.spilled)) in
      rw room (
        record {
          inline_len = length-set l.inline l.n p ∙ v.inline_len;
          spilled = omega (arith, v.spilled);
        },
        rw (used, used', nothing, append-nil, append-nil)
            (take-set l.inline l.n p (omega (arith, v.inline_len))),
      )
  | inr full ↦
      let used : inline_n l.n ≡ asset_inline_cap = ground arith in
      let used' : inline_n (l.n + 1) ≡ asset_inline_cap = ground arith in
      rw full (
        record {
          inline_len = v.inline_len;
          spilled = omega (arith, v.spilled, length-append l.overflow (p ∷ []));
        },
        rw (used, used') (sym (append_assoc (take asset_inline_cap l.inline) l.overflow (p ∷ []))),
      )
]

if_true : (b d : Bool) → d ≡ false → (if b then true else d) ≡ b
if_true true d e = refl
if_true false d e = e

member_overflow : (path : Bytes) (ys : List Bytes) → member path ys ≡ holds (length ys) path ys
member_overflow path ys =
    ap (member path) (sym (append-nil (take (length ys) ys) ∙ take-length ys))
    ∙ holds_lem (length ys) path ys []
    ∙ if_true (holds (length ys) path ys) (member path []) (member-nil path)

-- RequiresCSS or RequiresJS of a non-empty path on a valid list of its kind leaves a valid one,
-- whose paths have the new path at their end unless it was among them, and are then as they were.
pub require_lem :
    (c : ℕ) (path : Bytes) (l : AssetList)
    → IsValid l
    → IsValid (require (c ∷ path) l)
      × (paths (require (c ∷ path) l) ≡ add_once (c ∷ path) (paths l))
unfolding require
require_lem c path l v =
    let seen = holds_lem (inline_n l.n) (c ∷ path) l.inline l.overflow in
    let seen' = member_overflow (c ∷ path) l.overflow in
    elim (Bool-cases (holds (inline_n l.n) (c ∷ path) l.inline)) [
      | inl e ↦ rw (e, require, seen, e) (v, refl)
      | inr e ↦ elim (Bool-cases (holds (length l.overflow) (c ∷ path) l.overflow)) [
        | inl e' ↦ rw (e, require, e', seen, e, seen', e') (v, refl)
        | inr e' ↦ rw (e, require, e', seen, e, seen', e') (add_asset_lem (c ∷ path) l v)
      ]
    ]

length-empty_slots : (n : ℕ) (xs : List Bytes) → length (empty_slots n xs) ≡ length xs
unfolding empty_slots
length-empty_slots zero xs = refl
length-empty_slots (suc n) [] = refl
length-empty_slots (suc n) (x ∷ xs) = ap (λ k. suc k) (length-empty_slots n xs)

pub clear_list-IsValid : (l : AssetList) → IsValid l → IsValid (clear_list l)
unfolding clear_list
clear_list-IsValid l v = record {
  inline_len = length-empty_slots (inline_n l.n) l.inline ∙ v.inline_len;
  spilled = refl;
}
