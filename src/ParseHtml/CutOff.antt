-- ===== src/ParseHtml/CutOff.antt =====
-- A source that ends where a value of an attribute is due.
use mathlib.Core.Path.{subst}
use nanite_render.Prelude.{
  ℕ, zero, suc, ◌≡◌, ◌≢◌, refl, inl, inr, Bool, true, false, ◌&&◌, ◌||◌, Option, none, some,
  Bool-cases, [], ◌∷◌, ◌==◌, arith, drop, Bytes, codes,
}
use nanite_render.ParseHtml.Scan.{
  span, cut_at, quoted, value_at, parse_value, after_comment, starts_with, is_blank,
  in_unquoted_value,
}

-- nothing, or a single quote character
unfoldable pub lone : Bytes → Bool
lone [] = true
lone (c ∷ []) = c == b'"' || c == b'\''
lone (c ∷ d ∷ s) = false

-- the same behind blanks
unfoldable pub opens : Bytes → Bool
opens s = lone (span is_blank s).1

-- the source ends with `=`, blanks, and maybe an opening quote
unfoldable pub cut_off : Bytes → Bool
cut_off [] = false
cut_off (c ∷ s) = (c == b'=' && opens s) || cut_off s

abbrev pub IsCutOff : Bytes → Type 0
IsCutOff s = cut_off s ≡ true

or_true : (b : Bool) → (b || true) ≡ true
or_true true = refl
or_true false = refl

-- `r` is what is left of `s` behind some bytes.
pub data Suffix (r : Bytes) : Bytes → Type 0 where
  whole : Suffix r r
  behind : (c : ℕ) {s : Bytes} → Suffix r s → Suffix r (c ∷ s)

pub Suffix-trans : {q r s : Bytes} → Suffix q r → Suffix r s → Suffix q s
Suffix-trans x whole = x
Suffix-trans x (behind c y) = behind c (Suffix-trans x y)

pub IsCutOff-Suffix : {r s : Bytes} → Suffix r s → IsCutOff r → IsCutOff s
unfolding cut_off
IsCutOff-Suffix whole h = h
IsCutOff-Suffix (behind c {s} x) h = rw (IsCutOff-Suffix x h) (or_true (c == b'=' && opens s))

pub IsCutOff-opens : (c : ℕ) (s : Bytes) → c == b'=' ≡ true → opens s ≡ true → IsCutOff (c ∷ s)
unfolding cut_off
IsCutOff-opens c s e h = rw (e, h) refl

pub Suffix-span : (p : ℕ → Bool) (s : Bytes) → Suffix (span p s).1 s
unfolding span
Suffix-span p [] = whole
Suffix-span p (c ∷ s) = elim (Bool-cases (p c)) [
  | inl e ↦ rw e (behind c (Suffix-span p s))
  | inr e ↦ rw e whole
]

pub Suffix-drop : (n : ℕ) (s : Bytes) → Suffix (drop n s) s
Suffix-drop zero s = whole
Suffix-drop (suc n) [] = whole
Suffix-drop (suc n) (c ∷ s) = behind c (Suffix-drop n s)

pub Suffix-after_comment : (s : Bytes) → Suffix (after_comment s) s
unfolding after_comment
Suffix-after_comment [] = whole
Suffix-after_comment (c ∷ s) = elim (Bool-cases (starts_with (codes "-->") (c ∷ s))) [
  | inl e ↦ rw e (behind c (Suffix-drop 2 s))
  | inr e ↦ rw e (behind c (Suffix-after_comment s))
]

to_end : (s : Bytes) → Suffix [] s
to_end [] = whole
to_end (c ∷ s) = behind c (to_end s)

-- A scan that gives its rest, or none.
abbrev Leaves : Bytes → Option (Bytes × Bytes) → Type 0
Leaves s none = Unit
Leaves s (some x) = Suffix x.1 s

Leaves-further : (c : ℕ) (s : Bytes) (o : Option (Bytes × Bytes)) → Leaves s o → Leaves (c ∷ s) o
Leaves-further c s none h = tt
Leaves-further c s (some x) h = behind c h

Leaves-cut_at : (q : ℕ) (s : Bytes) → Leaves s (cut_at q s)
unfolding cut_at
Leaves-cut_at q [] = tt
Leaves-cut_at q (c ∷ s) = elim (Bool-cases (c == q)) [
  | inl e ↦ rw e (behind c whole)
  | inr e ↦ rw e (extended (cut_at q s) (Leaves-cut_at q s))
]
  where
    extended :
        (o : Option (Bytes × Bytes))
        → Leaves s o
        → Leaves (c ∷ s) (elim o [ none ↦ none | some x ↦ some (c ∷ x.0, x.1) ])
    extended none h = tt
    extended (some x) h = behind c h

Leaves-quoted : (r : Bytes) (o : Option (Bytes × Bytes)) → Leaves r o → Leaves r (quoted r o)
unfolding quoted
Leaves-quoted r (some x) h = h
Leaves-quoted [] none h = tt
Leaves-quoted (d ∷ r) none h = to_end (d ∷ r)

Leaves-value_at : (s : Bytes) → Leaves s (value_at s)
unfolding value_at
Leaves-value_at [] = tt
Leaves-value_at (c ∷ r) = elim (Bool-cases (c == b'"' || c == b'\'')) [
  | inl e ↦ rw e (Leaves-further c r _ (Leaves-quoted r (cut_at c r) (Leaves-cut_at c r)))
  | inr e ↦ rw e (Suffix-span in_unquoted_value (c ∷ r))
]

pub Suffix-parse_value : (s : Bytes) (x : Bytes × Bytes) → parse_value s ≡ some x → Suffix x.1 s
unfolding parse_value
Suffix-parse_value s x e =
    Suffix-trans (subst (Leaves (span is_blank s).1) e (Leaves-value_at (span is_blank s).1))
      (Suffix-span is_blank s)

quoted-some : (d : ℕ) (r : Bytes) (o : Option (Bytes × Bytes)) → quoted (d ∷ r) o ≢ none
unfolding quoted
quoted-some d r (some x) e = cc
quoted-some d r none e = cc

lone_of_panic : (s : Bytes) → value_at s ≡ none → lone s ≡ true
unfolding value_at lone
lone_of_panic [] e = refl
lone_of_panic (c ∷ []) e = ground arith
lone_of_panic (c ∷ d ∷ r) e = absurd (grind (arith, quoted-some d r (cut_at c (d ∷ r))))

-- Only there a value panics.
pub opens_of_panic : (s : Bytes) → parse_value s ≡ none → opens s ≡ true
unfolding parse_value opens
opens_of_panic s e = lone_of_panic (span is_blank s).1 e
