-- ===== src/Variants/Stable.antt =====
-- The key does not depend on the order of iteration, as long as all names have room.
use nanite_render.Prelude.{
  ℕ, zero, suc, ◌≤◌, ◌≡◌, ◌≢◌, refl, sym, ap, ◌∙◌, Option, none, some, List, [], ◌∷◌, ◌++◌,
  if◌then◌else◌, length, take, Bytes, codes, text_eq, text_eq_iff, arith,
}
use nanite_render.State.{Values, get}
use nanite_render.Htmx.{insert_name, sort_names}
use nanite_render.Htmx.Order.{insert_name_comm}
use nanite_render.Variants.{
  dimensions, sorted_dimensions, value_of, key_parts, name_parts, key_of, name_of,
}

-- Two lists of the same map: entries with different names have changed places.
pub data Permuted : Values Bytes → Values Bytes → Type 0 where
  same : {t : Values Bytes} → Permuted t t
  behind : {kv : Bytes × Bytes} {t u : Values Bytes} → Permuted t u → Permuted (kv ∷ t) (kv ∷ u)
  swapped :
      {k l v w : Bytes} {t : Values Bytes}
      → k ≢ l
      → Permuted ((k, v) ∷ (l, w) ∷ t) ((l, w) ∷ (k, v) ∷ t)
  chained : {t u w : Values Bytes} → Permuted t u → Permuted u w → Permuted t w

length-Permuted : {t u : Values Bytes} → Permuted t u → length t ≡ length u
length-Permuted same = refl
length-Permuted (behind r) = ap suc (length-Permuted r)
length-Permuted (swapped x) = refl
length-Permuted (chained r s) = length-Permuted r ∙ length-Permuted s

sorted-Permuted :
    {t u : Values Bytes}
    → Permuted t u
    → (s : List Bytes) → sort_names s (dimensions t) ≡ sort_names s (dimensions u)
unfolding dimensions sort_names
sorted-Permuted same s = refl
sorted-Permuted (behind {kv} r) s = sorted-Permuted r (insert_name kv.0 s)
sorted-Permuted (swapped {k} {l} {t} x) s =
    ap (λ q. sort_names q (dimensions t)) (insert_name_comm l k s)
sorted-Permuted (chained r r') s = sorted-Permuted r s ∙ sorted-Permuted r' s

get-Permuted : {t u : Values Bytes} → Permuted t u → (n : Bytes) → get n t ≡ get n u
unfolding get
get-Permuted same n = refl
get-Permuted (behind {kv = (k, v)} r) n =
    ap (λ o. if text_eq k n then some v else o) (get-Permuted r n)
get-Permuted (swapped {k} {l} d) n =
    ground (arith, text_eq_iff k n, text_eq_iff l n, text_eq_iff k l)
get-Permuted (chained r s) n = get-Permuted r n ∙ get-Permuted s n

take_all : (n : ℕ) (ks : List Bytes) → length ks ≤ n → take n ks ≡ ks
take_all zero [] h = refl
take_all (suc n) [] h = refl
take_all zero (k ∷ ks) h = absurd (omega arith)
take_all (suc n) (k ∷ ks) h = ap (λ r. k ∷ r) (take_all n ks (omega arith))

length-dimensions : (vs : Values Bytes) → length (dimensions vs) ≡ length vs
unfolding dimensions
length-dimensions [] = refl
length-dimensions ((k, v) ∷ vs) = ap suc (length-dimensions vs)

value_of-Permuted : {t u : Values Bytes} → Permuted t u → (n : Bytes) → value_of n t ≡ value_of n u
unfolding value_of
value_of-Permuted r n =
    ap (λ (o : Option Bytes). elim o [ some v ↦ v | none ↦ [] ]) (get-Permuted r n)

key_parts-Permuted :
    {t u : Values Bytes}
    → Permuted t u
    → (ks : List Bytes) (acc : Bytes) → key_parts t ks acc ≡ key_parts u ks acc
unfolding key_parts
key_parts-Permuted r [] acc = refl
key_parts-Permuted r (k ∷ []) acc = ap (λ x. k ++ (codes "." ++ (x ++ acc))) (value_of-Permuted r k)
key_parts-Permuted {t} {u} r (k ∷ l ∷ ks) acc =
    key_parts-Permuted r (l ∷ ks) _
    ∙ ap (λ x. key_parts u (l ∷ ks) (codes "@" ++ (k ++ (codes "." ++ (x ++ acc)))))
        (value_of-Permuted r k)

name_parts-Permuted :
    {t u : Values Bytes}
    → Permuted t u
    → (ks : List Bytes) (acc : Bytes) → name_parts t ks acc ≡ name_parts u ks acc
unfolding name_parts
name_parts-Permuted r [] acc = refl
name_parts-Permuted {t} {u} r (k ∷ ks) acc =
    name_parts-Permuted r ks _
    ∙ ap (λ x. name_parts u ks (codes "." ++ (x ++ acc))) (value_of-Permuted r k)

sorted_all :
    (vs : Values Bytes) → length vs ≤ 8 → sorted_dimensions vs ≡ sort_names [] (dimensions vs)
unfolding sorted_dimensions
sorted_all vs h =
    ap (sort_names []) (take_all 8 (dimensions vs) (omega (arith, length-dimensions vs)))

sorted_dimensions-Permuted :
    {t u : Values Bytes} → Permuted t u → length t ≤ 8 → sorted_dimensions t ≡ sorted_dimensions u
sorted_dimensions-Permuted {t} {u} r h =
    sorted_all t h ∙ sorted-Permuted r [] ∙ sym (sorted_all u (omega (arith, length-Permuted r)))

-- For at most 8 dimensions, neither the key nor the name of a variant depends on the order in which Go
-- iterates over the map.
pub key_of-Permuted :
    (name : Bytes) (t u : Values Bytes)
    → Permuted t u
    → length t ≤ 8
    → (key_of t ≡ key_of u) × (name_of name t ≡ name_of name u)
unfolding key_of name_of
key_of-Permuted name t u r h =
    let same = sorted_dimensions-Permuted r h in
    (
      ap (λ ks. key_parts t ks []) same ∙ key_parts-Permuted r _ [],
      ap (λ ks. name ++ name_parts t ks []) same ∙ ap (λ s. name ++ s) (name_parts-Permuted r _ []),
    )
