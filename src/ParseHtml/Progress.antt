-- ===== src/ParseHtml/Progress.antt =====
-- Each round of the parser's loops consumes input, so that the fuel is never used up.
use nanite_render.Prelude.{
  ℕ, zero, suc, ◌≤◌, ◌<◌, ◌≡◌, refl, inl, inr, Bool, true, false, Option-cases, List, [], ◌∷◌, ◌++◌,
  ◌==◌, Bool-cases, arith, length, drop, Bytes,
}
use nanite_render.ParseHtml.Scan.{
  is_whitespace, is_attr_terminator, span, after_comment, parse_value, in_attr_name,
}
use nanite_render.ParseHtml.{
  AttrStep, valued, attr_with, attr_at, attr_step, AttrsEnd, attrs_read, attrs_panic,
  attrs_out_of_fuel, parse_attrs,
}
use nanite_render.ParseHtml.CutOff.{
  Suffix, whole, behind, IsCutOff, IsCutOff-Suffix, IsCutOff-opens, Suffix-span, Suffix-parse_value,
  opens_of_panic,
}
use nanite_render.NodeStream.Builder.{AttrKv}

pub length-span : (p : ℕ → Bool) (s : Bytes) → length (span p s).1 ≤ length s
unfolding span
length-span p [] = omega arith
length-span p (c ∷ s) = ground (arith, length-span p s)

-- A scan that takes its first byte.
pub length-span_first :
    (p : ℕ → Bool) (c : ℕ) (s : Bytes) → p c ≡ true → length (span p (c ∷ s)).1 ≤ length s
unfolding span
length-span_first p c s h = ground (arith, length-span p s)

pub length-drop : (n : ℕ) (s : Bytes) → length (drop n s) ≤ length s
length-drop zero s = omega arith
length-drop (suc n) [] = omega arith
length-drop (suc n) (c ∷ s) = omega (arith, length-drop n s)

pub length-after_comment : (s : Bytes) → length (after_comment s) ≤ length s
unfolding after_comment
length-after_comment [] = omega arith
length-after_comment (c ∷ s) = ground (arith, length-after_comment s, length-drop 2 s)

length-Suffix : {r s : Bytes} → Suffix r s → length r ≤ length s
length-Suffix whole = omega arith
length-Suffix (behind c x) = omega (arith, length-Suffix x)

-- How much is left after a round of the attribute loop. `Q` stands for what a panic implies, and what a rest
-- that is cut off does.
abbrev pub Within : Type 0 → ℕ → AttrStep → Type 0
Within Q n (AttrStep.done self rest) = (length rest ≤ n) × (IsCutOff rest → Q)
Within Q n (AttrStep.more a rest) = (length rest < n) × (IsCutOff rest → Q)
Within Q n AttrStep.panic = Q

abbrev pub Stops : (ℕ → Bool) → Bytes → Type 0
Stops p [] = Unit
Stops p (c ∷ s) = p c ≡ false

span-Stops : (p : ℕ → Bool) (s : Bytes) → Stops p (span p s).1
unfolding span
span-Stops p [] = tt
span-Stops p (c ∷ s) = elim (Bool-cases (p c)) [ inl h ↦ rw h (span-Stops p s) | inr h ↦ rw h h ]

span_first : (p : ℕ → Bool) (c : ℕ) (s : Bytes) → p c ≡ false → span p (c ∷ s) ≡ ([], c ∷ s)
unfolding span
span_first p c s h = rw h

equals_of_terminator :
    (c : ℕ)
    → is_whitespace c ≡ false
    → c == b'/' ≡ false
    → c == b'>' ≡ false
    → in_attr_name c ≡ false
    → c == b'=' ≡ true
unfolding is_whitespace is_attr_terminator
equals_of_terminator c h1 h2 h3 h4 = ground arith

module _ (Q : Type 0) where
  Within-valued :
      (n : ℕ) (name : Bytes) (c : ℕ) (s : Bytes)
      → length s < n
      → c == b'=' ≡ true
      → (IsCutOff (c ∷ s) → Q)
      → Within Q n (valued name (parse_value s))
  unfolding valued
  Within-valued n name c s h e q = elim (Option-cases (parse_value s)) [
    | inl broken ↦ rw broken (q (IsCutOff-opens c s e (opens_of_panic s broken)))
    | inr (x, read) ↦
        let left = Suffix-parse_value s x read in
        rw read (omega (arith, length-Suffix left), λ o. q (IsCutOff-Suffix (behind c left) o))
  ]

  Within-attr_with :
      (n : ℕ) (name s : Bytes) → length s < n → (IsCutOff s → Q) → Within Q n (attr_with name s)
  unfolding attr_with
  Within-attr_with n name [] h q = (omega arith, q)
  Within-attr_with n name (c ∷ s) h q = elim (Bool-cases (c == b'=')) [
    | inl eq ↦ rw eq (Within-valued n name c s (omega arith) eq q)
    | inr ne ↦ rw ne (h, q)
  ]

  -- A name is longer than nothing, or the byte behind it is `=`.
  Within-attr_at :
      (s : Bytes) → Stops is_whitespace s → (IsCutOff s → Q) → Within Q (length s) (attr_at s)
  unfolding attr_at
  Within-attr_at [] h q = (omega arith, q)
  Within-attr_at (c ∷ s) h q = elim (Bool-cases (c == b'/')) [
    | inl slash ↦ rw slash (omega arith, λ o. q (IsCutOff-Suffix (behind c whole) o))
    | inr no_slash ↦ elim (Bool-cases (c == b'>')) [
      | inl close ↦ rw (no_slash, close) (omega arith, q)
      | inr no_close ↦ elim (Bool-cases (in_attr_name c)) [
        | inl name ↦
            rw (no_slash, no_close)
              (Within-attr_with (suc (length s)) _ _
                (omega (arith, length-span_first in_attr_name c s name))
                (λ o. q (IsCutOff-Suffix (Suffix-span in_attr_name (c ∷ s)) o)))
        | inr empty ↦
            let eq = equals_of_terminator c h no_slash no_close empty in
            rw (no_slash, no_close, span_first in_attr_name c s empty)
              (unfold attr_with in rw eq (Within-valued (suc (length s)) _ c s (omega arith) eq q))
      ]
    ]
  ]

  Within-mono : (n m : ℕ) (r : AttrStep) → n ≤ m → Within Q n r → Within Q m r
  Within-mono n m (AttrStep.done self rest) h w = (omega (arith, w.0), w.1)
  Within-mono n m (AttrStep.more a rest) h w = (omega (arith, w.0), w.1)
  Within-mono n m AttrStep.panic h w = w

  Within-attr_step : (s : Bytes) → (IsCutOff s → Q) → Within Q (length s) (attr_step s)
  unfolding attr_step
  Within-attr_step [] q = (omega arith, q)
  Within-attr_step (c ∷ s) q = elim (Bool-cases (c == b'>')) [
    | inl close ↦ rw close (omega arith, q)
    | inr go_on ↦ rw go_on (
        Within-mono _ _ _ (length-span is_whitespace (c ∷ s)) (
          Within-attr_at (span is_whitespace (c ∷ s)).1 (span-Stops is_whitespace (c ∷ s))
            (λ o. q (IsCutOff-Suffix (Suffix-span is_whitespace (c ∷ s)) o))))
  ]

  -- The loop ends within its fuel, with a rest that is no longer than its input.
  abbrev pub Ended : ℕ → AttrsEnd → Type 0
  Ended n (attrs_read kvs self rest) = (length rest ≤ n) × (IsCutOff rest → Q)
  Ended n attrs_panic = Q
  Ended n attrs_out_of_fuel = ⊥

  Ended-mono : (n m : ℕ) (r : AttrsEnd) → n ≤ m → Ended n r → Ended m r
  Ended-mono n m (attrs_read kvs self rest) h w = (omega (arith, w.0), w.1)
  Ended-mono n m attrs_panic h w = w
  Ended-mono n m attrs_out_of_fuel h w = w

  Ended-round :
      (fuel : ℕ) (s : Bytes) (kvs : List AttrKv) (r : AttrStep)
      → attr_step s ≡ r
      → Within Q (length s) r
      → ((a : AttrKv) (rest : Bytes)
          → length rest < length s
          → (IsCutOff rest → Q)
          → Ended (length rest) (parse_attrs fuel rest (kvs ++ a ∷ [])))
      → Ended (length s) (parse_attrs (suc fuel) s kvs)
  unfolding parse_attrs
  Ended-round fuel s kvs (AttrStep.done self rest) e w ih = rw (e, parse_attrs) w
  Ended-round fuel s kvs (AttrStep.more a rest) e w ih =
      rw (e, parse_attrs) (Ended-mono _ _ _ (omega (arith, w.0)) (ih a rest w.0 w.1))
  Ended-round fuel s kvs AttrStep.panic e w ih = rw (e, parse_attrs) w

  -- Fuel for each byte is enough for the attribute loop.
  pub parse_attrs_total :
      (fuel : ℕ) (s : Bytes) (kvs : List AttrKv)
      → length s < fuel
      → (IsCutOff s → Q)
      → Ended (length s) (parse_attrs fuel s kvs)
  parse_attrs_total zero s kvs h q = absurd (omega arith)
  parse_attrs_total (suc fuel) s kvs h q =
      Ended-round fuel s kvs (attr_step s) refl (Within-attr_step s q)
        (λ a rest lt q'. parse_attrs_total fuel rest (kvs ++ a ∷ []) (omega arith) q')
