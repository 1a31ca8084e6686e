-- ===== src/ParseHtml/Result.antt =====
-- The parser never runs out of fuel, what it builds is well-formed, and where it panics.
use nanite_render.Prelude.{
  ℕ, zero, suc, ◌+◌, ◌-◌, ◌^◌, ◌≤◌, ◌<◌, ◌≡◌, refl, inl, inr, Bool, true, false, Option, none, some,
  [], ◌∷◌, ◌==◌, Bool-cases, List-cases, arith, length, drop, Bytes, codes,
}
use nanite_render.NodeStream.{flag_fragment}
use nanite_render.NodeStream.Builder.{empty, append_node}
use nanite_render.NodeStream.WellFormed.{IsWellFormed}
use nanite_render.NodeStream.WellFormed.Operations.{empty-IsWellFormed, append_node-Grown}
use nanite_render.ParseHtml.Scan.{span, in_text, starts_with, is_tag_name_byte}
use nanite_render.ParseHtml.{
  ParseError, State, AttrsEnd, attrs_read, attrs_panic, attrs_out_of_fuel, parse_attrs, with_attrs,
  stepped, open_tag, Step, next, bad, Outcome, finish_tag, name_tag, tag_step, step, parse_from,
  parse_html, start, skip_close, error_at,
}
use nanite_render.ParseHtml.CutOff.{
  Suffix, whole, behind, Suffix-trans, IsCutOff, IsCutOff-Suffix, Suffix-span, Suffix-drop,
  Suffix-after_comment,
}
use nanite_render.ParseHtml.Progress.{
  Ended, parse_attrs_total, length-after_comment, length-span, length-span_first, length-drop,
}
use nanite_render.ParseHtml.Advanced.{
  OpenBelow-pop, IsValid, Advanced, open_tag-Advanced, add_text-Advanced,
}

module _ (Q : Type 0) where
  -- A round that does not stop on an error keeps the state valid and passes over input: at least one
  -- byte, and all that the text buffer gains. `Q` is what a panic implies, and a rest that is cut off.
  abbrev pub Rounded : ℕ → State → Step → Type 0
  Rounded n st (next st' rest) =
      IsValid st'
      × (st'.builder.count ≤ st.builder.count + 1)
      × (length st'.builder.text_buf + length rest ≤ length st.builder.text_buf + n)
      × (length rest < n)
      × (IsCutOff rest → Q)
  Rounded n st (bad e) = Unit
  Rounded n st Step.panic = Q
  Rounded n st Step.out_of_fuel = ⊥

  Rounded-mono : (n m : ℕ) (st : State) (r : Step) → n ≤ m → Rounded n st r → Rounded m st r
  Rounded-mono n m st (next st' rest) h r = (r.0, r.1, omega (arith, r.2), omega (arith, r.3), r.4)
  Rounded-mono n m st (bad e) h r = tt
  Rounded-mono n m st Step.panic h r = r
  Rounded-mono n m st Step.out_of_fuel h r = r

  Rounded-stepped :
      (n k : ℕ) (st : State) (r : Option State) (rest : Bytes)
      → Advanced k st r
      → k + length rest ≤ n
      → length rest < n
      → (IsCutOff rest → Q)
      → Rounded n st (stepped r rest)
  Rounded-stepped n k st none rest a h lt q = absurd a
  Rounded-stepped n k st (some st') rest a h lt q = (a.0, a.1, omega (arith, a.2), lt, q)

length-skip_close : (s : Bytes) → length (skip_close s) ≤ length s
unfolding skip_close
length-skip_close [] = omega arith
length-skip_close (c ∷ s) = ground arith

Suffix-skip_close : (s : Bytes) → Suffix (skip_close s) s
unfolding skip_close
Suffix-skip_close [] = whole
Suffix-skip_close (c ∷ s) = elim (Bool-cases (c == b'>')) [
  | inl e ↦ rw e (behind c whole)
  | inr e ↦ rw e whole
]

module _ (Q : Type 0) where
  with_attrs-Rounded :
      (closing : Bool) (tag : Bytes) (n : ℕ) (st : State) (r : AttrsEnd)
      → IsValid st
      → Ended Q n r
      → Rounded Q (suc n) st (with_attrs closing tag st r)
  unfolding with_attrs
  with_attrs-Rounded true tag n st (attrs_read kvs self rest) v w =
      let le = length-skip_close rest in
      (
        record {
          well_formed = v.well_formed;
          open_below = OpenBelow-pop st.builder.count st.stack v.open_below;
        },
        omega arith,
        omega (arith, w.0),
        omega (arith, w.0),
        λ o. w.1 (IsCutOff-Suffix (Suffix-skip_close rest) o),
      )
  with_attrs-Rounded false tag n st (attrs_read kvs self rest) v w =
      let le = length-skip_close rest in
      Rounded-stepped Q (suc n) 0 st (open_tag tag kvs self st) (skip_close rest)
        (open_tag-Advanced tag kvs self st v) (omega (arith, w.0)) (omega (arith, w.0))
        (λ o. w.1 (IsCutOff-Suffix (Suffix-skip_close rest) o))
  with_attrs-Rounded closing tag n st attrs_panic v w = w
  with_attrs-Rounded closing tag n st attrs_out_of_fuel v w = absurd w

  finish_tag-Rounded :
      (closing : Bool) (tag s : Bytes) (st : State)
      → IsValid st
      → (IsCutOff s → Q)
      → Rounded Q (suc (length s)) st (finish_tag closing tag s st)
  unfolding finish_tag
  finish_tag-Rounded closing tag s st v q =
      with_attrs-Rounded closing tag (length s) st (parse_attrs (suc (length s)) s []) v
        (parse_attrs_total Q (suc (length s)) s [] (omega arith) q)

  name_tag-Rounded :
      (closing : Bool) (fail : ParseError) (s : Bytes) (st : State)
      → IsValid st
      → (IsCutOff s → Q)
      → Rounded Q (suc (length s)) st (name_tag closing fail s st)
  unfolding name_tag
  name_tag-Rounded closing fail s st v q = elim (List-cases (span is_tag_name_byte s).0) [
    | inl nameless ↦ rw (nameless, name_tag) tt
    | inr (c, t, named) ↦
        rw (named, name_tag)
          (Rounded-mono Q _ _ st _ (omega (arith, length-span is_tag_name_byte s)) (
            finish_tag-Rounded closing (span is_tag_name_byte s).0 (span is_tag_name_byte s).1 st v
              (λ o. q (IsCutOff-Suffix (Suffix-span is_tag_name_byte s) o))))
  ]

  tag_step-Rounded :
      (name : Bytes) (i : ℕ) (s : Bytes) (st : State)
      → IsValid st
      → (IsCutOff s → Q)
      → Rounded Q (suc (length s)) st (tag_step name i s st)
  unfolding tag_step
  tag_step-Rounded name i [] st v q = tt
  tag_step-Rounded name i (c ∷ s) st v q = elim (Bool-cases (starts_with (codes "!--") (c ∷ s))) [
    | inl comment ↦
        let le = length-after_comment (drop 2 s) in
        let le' = length-drop 2 s in
        let left = Suffix-trans (Suffix-after_comment (drop 2 s)) (Suffix-drop 2 s) in
        rw comment
          (v, omega arith, omega arith, omega arith, λ o. q (IsCutOff-Suffix (behind c left) o))
    | inr tag ↦ elim (Bool-cases (c == b'/')) [
      | inl slash ↦
          rw (tag, slash)
            (Rounded-mono Q _ _ st _ (omega arith) (
              name_tag-Rounded true (error_at name i (codes "expected tag name")) s st v
                (λ o. q (IsCutOff-Suffix (behind c whole) o))))
      | inr open_tag_here ↦
          rw (tag, open_tag_here)
            (name_tag-Rounded false (error_at name i (codes "expected tag name")) (c ∷ s) st v q)
    ]
  ]

length-span_parts :
    (p : ℕ → Bool) (s : Bytes) → length (span p s).0 + length (span p s).1 ≡ length s
unfolding span
length-span_parts p [] = omega arith
length-span_parts p (c ∷ s) = ground (arith, length-span_parts p s)

module _ (Q : Type 0) where
  step-Rounded :
      (name : Bytes) (total : ℕ) (c : ℕ) (s : Bytes) (st : State)
      → IsValid st
      → length st.builder.text_buf + length (c ∷ s) < 2 ^ 32
      → (IsCutOff (c ∷ s) → Q)
      → Rounded Q (length (c ∷ s)) st (step name total (c ∷ s) st)
  unfolding step
  step-Rounded name total c s st v small q = elim (Bool-cases (c == b'<')) [
    | inl tag ↦ rw tag (
        tag_step-Rounded Q name (total - length (c ∷ s)) s st v
          (λ o. q (IsCutOff-Suffix (behind c whole) o)))
    | inr text_here ↦
        let parts = length-span_parts in_text (c ∷ s) in
        rw text_here (
          Rounded-stepped Q (length (c ∷ s)) (length (span in_text (c ∷ s)).0) st _
            (span in_text (c ∷ s)).1 (add_text-Advanced (span in_text (c ∷ s)).0 st v (omega arith))
            (omega arith) (omega (arith, length-span_first in_text c s (rw text_here)))
            (λ o. q (IsCutOff-Suffix (Suffix-span in_text (c ∷ s)) o)))
  ]

  -- A well-formed stream of at most `n` nodes, an error, or a panic where `Q` holds.
  abbrev pub Finished : ℕ → Outcome → Type 0
  Finished n (Outcome.ok b) = IsWellFormed b × (b.count ≤ n)
  Finished n (Outcome.err e) = Unit
  Finished n Outcome.panic = Q
  Finished n Outcome.out_of_fuel = ⊥

  Finished-mono : (n m : ℕ) (r : Outcome) → n ≤ m → Finished n r → Finished m r
  Finished-mono n m (Outcome.ok b) h f = (f.0, omega (arith, f.1))
  Finished-mono n m (Outcome.err e) h f = tt
  Finished-mono n m Outcome.panic h f = f
  Finished-mono n m Outcome.out_of_fuel h f = f

  Finished-round :
      (name : Bytes) (total fuel c : ℕ) (s : Bytes) (st : State) (r : Step)
      → step name total (c ∷ s) st ≡ r
      → Rounded Q (length (c ∷ s)) st r
      → ((st' : State) (rest : Bytes)
          → Rounded Q (length (c ∷ s)) st (next st' rest)
          → Finished (st'.builder.count + length rest) (parse_from name total fuel rest st'))
      → Finished (st.builder.count + length (c ∷ s)) (parse_from name total (suc fuel) (c ∷ s) st)
  unfolding parse_from
  Finished-round name total fuel c s st (next st' rest) e r ih =
      rw (e, parse_from) (Finished-mono _ _ _ (omega (arith, r.1, r.3)) (ih st' rest r))
  Finished-round name total fuel c s st (bad x) e r ih = rw (e, parse_from) tt
  Finished-round name total fuel c s st Step.panic e r ih = rw (e, parse_from) r
  Finished-round name total fuel c s st Step.out_of_fuel e r ih = absurd r

  parse_from-Finished :
      (name : Bytes) (total fuel : ℕ) (s : Bytes) (st : State)
      → IsValid st
      → length st.builder.text_buf + length s < 2 ^ 32
      → length s < fuel
      → (IsCutOff s → Q)
      → Finished (st.builder.count + length s) (parse_from name total fuel s st)
  parse_from-Finished name total zero s st v small h q = absurd (omega arith)
  parse_from-Finished name total (suc fuel) [] st v small h q =
      unfold parse_from in (v.well_formed, omega arith)
  parse_from-Finished name total (suc fuel) (c ∷ s) st v small h q =
      Finished-round name total fuel c s st (step name total (c ∷ s) st) refl
        (step-Rounded name total c s st v small q)
        (λ st' rest r.
          parse_from-Finished name total fuel rest st' r.0 (omega (arith, r.2)) (omega (arith, r.3))
            r.4)

start-IsValid : IsValid start
start-IsValid = record {
  well_formed = (append_node-Grown (codes "#document") flag_fragment empty empty-IsWellFormed).0;
  open_below = unfold append_node in omega arith;
}

-- For a source of fewer than 2^32 bytes, the parser ends within its fuel: it returns an error or a
-- well-formed builder of at most one node per byte and one more, or it panics, and that only where
-- the source ends with an equals sign, blanks, and maybe an opening quote.
pub parse_html-Finished :
    (src name : Bytes)
    → length src < 2 ^ 32
    → Finished (IsCutOff src) (length src + 1) (parse_html src name)
unfolding parse_html append_node
parse_html-Finished src name small = Finished-mono (IsCutOff src) _ _ _ (omega arith) (
    parse_from-Finished (IsCutOff src) name (length src) (suc (length src)) src start start-IsValid
      (omega arith) (omega arith) (λ o. o))
