-- ===== src/Htmx/Joined.antt =====
-- The header value does not depend on the order in which Go iterates over the map.
use nanite_render.Prelude.{
  ◌≡◌, ◌≢◌, refl, ap, ◌∙◌, Option, some, List, [], ◌∷◌, ◌++◌, codes, arith, if◌then◌else◌, Bytes,
  text_eq, text_eq_iff,
}
use nanite_render.Htmx.{
  Detail, plain, with_detail, HxTriggers, lookup, insert_name, sort_names, reverse_onto, keys,
  names, has_detail, entries_json, comma_joined, join,
}
use nanite_render.Htmx.Order.{insert_name_comm}

-- Two orders of the entries of one map, whose keys differ.
pub data Reordered {D : Type 0} : HxTriggers D → HxTriggers D → Type 0 where
  same : {t : HxTriggers D} → Reordered t t
  behind :
      {kd : Bytes × Detail D} {t u : HxTriggers D} → Reordered t u → Reordered (kd ∷ t) (kd ∷ u)
  swapped :
      {k l : Bytes} {d e : Detail D} {t : HxTriggers D}
      → k ≢ l
      → Reordered ((k, d) ∷ (l, e) ∷ t) ((l, e) ∷ (k, d) ∷ t)
  chained : {t u w : HxTriggers D} → Reordered t u → Reordered u w → Reordered t w

module _ {D : Type 0} where
  sorted_keys :
      {t u : HxTriggers D}
      → Reordered t u
      → (sorted : List Bytes) → sort_names sorted (keys t) ≡ sort_names sorted (keys u)
  unfolding sort_names keys
  sorted_keys same sorted = refl
  sorted_keys (behind {kd} r) sorted = sorted_keys r (insert_name kd.0 sorted)
  sorted_keys (swapped {k} {l} {t = t} d) sorted =
      ap (λ s. sort_names s (keys t)) (insert_name_comm l k sorted)
  sorted_keys (chained r s) sorted = sorted_keys r sorted ∙ sorted_keys s sorted

  names-Reordered : {t u : HxTriggers D} → Reordered t u → names t ≡ names u
  unfolding names
  names-Reordered r = ap (reverse_onto []) (sorted_keys r [])

  lookup-Reordered : {t u : HxTriggers D} → Reordered t u → (n : Bytes) → lookup n t ≡ lookup n u
  unfolding lookup
  lookup-Reordered same n = refl
  lookup-Reordered (behind {kd = (k, d)} r) n =
      ap (λ o. if text_eq k n then some d else o) (lookup-Reordered r n)
  lookup-Reordered (swapped {k} {l} d) n =
      ground (arith, text_eq_iff k n, text_eq_iff l n, text_eq_iff k l)
  lookup-Reordered (chained r s) n = lookup-Reordered r n ∙ lookup-Reordered s n

  has_detail-Reordered : {t u : HxTriggers D} → Reordered t u → has_detail t ≡ has_detail u
  unfolding has_detail
  has_detail-Reordered same = refl
  has_detail-Reordered (behind {kd = (k, plain)} r) = has_detail-Reordered r
  has_detail-Reordered (behind {kd = (k, with_detail d)} r) = refl
  has_detail-Reordered (swapped {d = plain} {e = plain} x) = refl
  has_detail-Reordered (swapped {d = plain} {e = with_detail e} x) = refl
  has_detail-Reordered (swapped {d = with_detail d} {e = plain} x) = refl
  has_detail-Reordered (swapped {d = with_detail d} {e = with_detail e} x) = refl
  has_detail-Reordered (chained r s) = has_detail-Reordered r ∙ has_detail-Reordered s

  module _ (marshal : D → Option Bytes) where
    entries-Reordered :
        {t u : HxTriggers D}
        → Reordered t u
        → (ns : List Bytes) → entries_json marshal t ns ≡ entries_json marshal u ns
    unfolding entries_json
    entries-Reordered r [] = refl
    entries-Reordered r (n ∷ ns) = rw (lookup-Reordered r n, entries-Reordered r ns) refl

    -- the value of a set that is not empty
    abbrev joined : HxTriggers D → Bytes
    joined t =
        if has_detail t
        then codes "{" ++ (comma_joined (entries_json marshal t (names t)) ++ codes "}")
        else comma_joined (names t)

    joined-Reordered : {t u : HxTriggers D} → Reordered t u → joined t ≡ joined u
    joined-Reordered {t} r =
        rw (← has_detail-Reordered r, ← names-Reordered r, ← entries-Reordered r (names t)) refl

    -- The header value of a set of events does not depend on the order in which Go iterates over
    -- the map, with details or without.
    pub join-Reordered : {t u : HxTriggers D} → Reordered t u → join marshal t ≡ join marshal u
    unfolding join
    join-Reordered same = refl
    join-Reordered (behind r) = joined-Reordered (behind r)
    join-Reordered (swapped d) = joined-Reordered (swapped d)
    join-Reordered (chained r s) = join-Reordered r ∙ join-Reordered s
