-- ===== src/Execute/Laws.antt =====
-- The tree executor against the text of a template, for every writer that never fails.
use mathlib.Core.Path.{subst}
use nanite_render.Prelude.{
  ◌*◌, ℕ, zero, suc, ◌+◌, ◌≡◌, refl, sym, inl, inr, Bool, true, false, ◌||◌, Option, none, some, [],
  ◌∷◌, ◌++◌, append-nil, append_assoc, leb, ◌==◌, if◌then◌else◌, ==_iff, length, Bool-cases,
  get_elem?, Bytes, codes, ℤ, pos, negsuc,
}
use nanite_render.Writer.{Io, ok, fail, panic, ◌>>=◌, ByteWriter, Appended, WriterLaws}
use nanite_render.Writer.Bind.{bind_lem, as_written}
use nanite_render.Escape.{escape_string, escape_bytes}
use nanite_render.Escape.Laws.{escape_bytes_lem}
use nanite_render.NodeStream.{
  Value, NodeStream, has, flag_void, flag_self_closing, flag_component, flag_fragment, flag_raw,
  flag_text, text, num_attr, attr_key, attr_val, first_child_of, next_sibling_of,
}
use nanite_render.Execute.{
  reading, ignoring, write_tag, emit_value, emit_attrs, tag_end, emit_open, emit_text, emit_node,
  walk_children, execute,
}
use nanite_render.Execute.Spec.{
  given, value_html, attrs_html, open_html, text_html, node_html, children_html, document_html,
}

module _ {W : Type 0} (bw : ByteWriter W) (laws : WriterLaws bw) (sure : ¬ laws.Fails)
    (pooled : Bool) where
  abbrev pub Result : Bytes → W → Io W → Type 0
  Result = Appended laws.Fails laws.Valid laws.contents

  then_lem :
      (p q : Bytes) (w : W) (r : Io W) (f : W → Io W)
      → Result p w r
      → ((w' : W) → laws.Valid w' → Result q w' (f w'))
      → Result (p ++ q) w (r >>= f)
  then_lem p q w r f h next =
      bind_lem laws.Fails laws.Valid laws.contents p q w r f h (λ w' _ v. next w' v)

  ignoring_lem : (p : Bytes) (w : W) (r : Io W) → Result p w r → Result p w (ignoring r)
  ignoring_lem p w (ok w') h = h
  ignoring_lem p w (fail e w') h = absurd (sure h.0)
  ignoring_lem p w panic h = h

  three_lem :
      (p q s : Bytes) (w : W)
      → laws.Valid w
      → Result (p ++ (q ++ s)) w (bw.write_string p w >>= bw.write_string q >>= bw.write_string s)
  three_lem p q s w v = as_written laws.Fails laws.Valid laws.contents w _ (append_assoc p q s) (
      then_lem (p ++ q) s w _ (bw.write_string s)
        (then_lem p q w (bw.write_string p w) (bw.write_string q) (laws.write_string_lem p w v)
          (laws.write_string_lem q))
        (laws.write_string_lem s))

  write_tag_lem :
      (p q s : Bytes) (w : W)
      → laws.Valid w
      → Result (p ++ (q ++ s)) w (write_tag bw pooled p q s w)
  unfolding write_tag
  write_tag_lem p q s w v = elim (Bool-cases pooled) [
    | inl e ↦ elim (Bool-cases (leb (length p + length q + length s) 128)) [
      | inl e' ↦ rw (e, e') (laws.write_string_lem (p ++ (q ++ s)) w v)
      | inr e' ↦ rw (e, e') (three_lem p q s w v)
    ]
    | inr e ↦ rw e (three_lem p q s w v)
  ]

  emit_value_lem :
      (x : Value) (w : W) → laws.Valid w → Result (value_html x) w (emit_value bw pooled x w)
  unfolding emit_value value_html
  emit_value_lem Value.nil w v = (v, sym (append-nil _))
  emit_value_lem (Value.str s) w v = three_lem _ _ _ w v
  emit_value_lem (Value.raw s) w v = three_lem _ _ _ w v
  emit_value_lem (Value.stringer s) w v = three_lem _ _ _ w v
  emit_value_lem Value.other w v = three_lem _ _ _ w v

  -- What is written where the text is known.
  abbrev Rendered : Option Bytes → W → Io W → Type 0
  Rendered none w r = Unit
  Rendered (some p) w r = Result p w r

  reading_lem :
      {A : Type 0} (o : Option A) (g : A → Option Bytes) (f : A → Io W) (w : W)
      → ((a : A) → Rendered (g a) w (f a))
      → Rendered (given o g) w (reading o f)
  reading_lem none g f w h = tt
  reading_lem (some a) g f w h = h a

  ignoring-Rendered :
      (o : Option Bytes) (w : W) (r : Io W) → Rendered o w r → Rendered o w (ignoring r)
  ignoring-Rendered none w r h = tt
  ignoring-Rendered (some p) w r h = ignoring_lem p w r h

  join_lem :
      (o q : Option Bytes) (s : Bytes) (w : W) (r : Io W) (f g : W → Io W)
      → Rendered o w r
      → ((w' : W) → laws.Valid w' → Rendered q w' (f w'))
      → ((w' : W) → laws.Valid w' → Result s w' (g w'))
      → Rendered (given o λ a. given q λ b. some (a ++ (b ++ s))) w (r >>= f >>= g)
  join_lem none q s w r f g h h' h'' = tt
  join_lem (some a) none s w r f g h h' h'' = tt
  join_lem (some a) (some b) s w r f g h h' h'' =
      as_written laws.Fails laws.Valid laws.contents w _ (append_assoc a b s)
        (then_lem (a ++ b) s w (r >>= f) g (then_lem a b w r f h h') h'')

  -- an attribute, where its value and the text of the attributes after it are known or not
  attr_lem :
      (key : Bytes) (x : Option Value) (rest : Option Bytes) (w : W) (f : W → Io W)
      → laws.Valid w
      → ((w' : W) → laws.Valid w' → Rendered rest w' (f w'))
      → Rendered (given x λ v. given rest λ r. some (codes " " ++ (key ++ (value_html v ++ r)))) w (
          (bw.write_string (codes " ") w >>= bw.write_string key) >>= λ w'.
          reading x λ v. emit_value bw pooled v w' >>= f)
  attr_lem key none rest w f v h = tt
  attr_lem key (some x) none w f v h = tt
  attr_lem key (some x) (some r) w f v h =
      as_written laws.Fails laws.Valid laws.contents w _
        (append_assoc (codes " ") key (value_html x ++ r))
        (then_lem (codes " " ++ key) (value_html x ++ r) w _ (λ w'. emit_value bw pooled x w' >>= f)
          (then_lem (codes " ") key w _ (bw.write_string key)
            (laws.write_string_lem (codes " ") w v) (laws.write_string_lem key))
          (λ w' v'.
            then_lem (value_html x) r w' (emit_value bw pooled x w') f (emit_value_lem x w' v') h))

  emit_attrs_lem :
      (nodes : NodeStream) (i left k : ℕ) (w : W)
      → laws.Valid w
      → Rendered (attrs_html nodes i left k) w (emit_attrs bw pooled nodes i left k w)
  unfolding attrs_html emit_attrs
  emit_attrs_lem nodes i zero k w v = (v, sym (append-nil _))
  emit_attrs_lem nodes i (suc left) k w v = reading_lem (attr_key nodes i k) _ _ w λ key.
      attr_lem key (attr_val nodes i k) (attrs_html nodes i left (k + 1)) w
        (emit_attrs bw pooled nodes i left (k + 1)) v (emit_attrs_lem nodes i left (k + 1))

  -- A tag without attributes is one write, any other a write for each part.
  tag_lem :
      (tag : Bytes) (attrs : Option Bytes) (stop : Bytes) (w : W) (f : W → Io W)
      → laws.Valid w
      → ((w' : W) → laws.Valid w' → Rendered attrs w' (f w'))
      → Rendered
          (given attrs λ a. some (codes "<" ++ (tag ++ (a ++ stop))))
          w
          (bw.write_string (codes "<") w >>= bw.write_string tag >>= f >>= bw.write_string stop)
  tag_lem tag none stop w f v h = tt
  tag_lem tag (some a) stop w f v h =
      as_written laws.Fails laws.Valid laws.contents w _ (append_assoc (codes "<") tag (a ++ stop))
        (join_lem (some (codes "<" ++ tag)) (some a) stop w
          (bw.write_string (codes "<") w >>= bw.write_string tag) f (bw.write_string stop)
          (then_lem (codes "<") tag w _ (bw.write_string tag)
            (laws.write_string_lem (codes "<") w v) (laws.write_string_lem tag))
          h (laws.write_string_lem stop))

  no_attrs : (nodes : NodeStream) (i : ℕ) → attrs_html nodes i 0 0 ≡ some []
  unfolding attrs_html
  no_attrs nodes i = refl

  emit_open_lem :
      (tag : Bytes) (nodes : NodeStream) (i : ℕ) (self : Bool) (w : W)
      → laws.Valid w
      → Rendered
          (open_html nodes tag i (tag_end bw pooled self))
          w
          (emit_open bw pooled tag nodes i self w)
  unfolding open_html emit_open
  emit_open_lem tag nodes i self w v = reading_lem (num_attr nodes i) _ _ w λ n.
      elim (Bool-cases (n == 0)) [
        | inl e ↦
            rw (e, (==_iff n 0).0 e, no_attrs nodes i)
              (write_tag_lem (codes "<") tag (tag_end bw pooled self) w v)
        | inr e ↦ rw e (
            tag_lem tag (attrs_html nodes i n 0) (tag_end bw pooled self) w
              (emit_attrs bw pooled nodes i n 0) v (emit_attrs_lem nodes i n 0))
      ]

  text_lem :
      (flags i : ℕ) (txt : Bytes) (nodes : NodeStream) (w : W)
      → laws.Valid w
      → Result (if has flags flag_raw then txt else escape_string txt) w (elim txt [
        | [] ↦ ok w
        | c ∷ s ↦
            if has flags flag_raw
            then ignoring (bw.write (c ∷ s) w)
            else ignoring (escape_bytes bw (c ∷ s) w)
      ])
  unfolding escape_string
  text_lem flags i [] nodes w v = elim (Bool-cases (has flags flag_raw)) [
    | inl e ↦ rw e (v, sym (append-nil _))
    | inr e ↦ rw e (v, sym (append-nil _))
  ]
  text_lem flags i (c ∷ s) nodes w v = elim (Bool-cases (has flags flag_raw)) [
    | inl e ↦ rw e (ignoring_lem (c ∷ s) w _ (laws.write_lem (c ∷ s) w v))
    | inr e ↦ rw e (ignoring_lem (escape_string (c ∷ s)) w _ (escape_bytes_lem bw laws (c ∷ s) w v))
  ]

  emit_text_lem :
      (nodes : NodeStream) (flags i : ℕ) (w : W)
      → laws.Valid w
      → Rendered (text_html nodes flags i) w (emit_text bw pooled nodes flags i w)
  unfolding text_html emit_text
  emit_text_lem nodes flags i w v =
      reading_lem (text nodes i) _ _ w λ txt. text_lem flags i txt nodes w v

  module _ (component : NodeStream → ℕ → W → Io W) (nodes : NodeStream) where
    abbrev Node : ℕ → Type 0
    Node fuel =
        (i : ℕ) (w : W)
        → laws.Valid w
        → Rendered (node_html fuel nodes i) w (emit_node bw pooled component fuel nodes i w)

    abbrev Children : ℕ → Type 0
    Children fuel =
        (c : ℤ) (w : W)
        → laws.Valid w
        → Rendered (children_html fuel nodes c) w (walk_children bw pooled component fuel nodes c w)

    first_child_lem :
        (fuel i : ℕ) (w : W)
        → Children fuel
        → laws.Valid w
        → Rendered
            (given (first_child_of nodes i) λ c. children_html fuel nodes c)
            w
            (reading (first_child_of nodes i) λ c. walk_children bw pooled component fuel nodes c w)
    first_child_lem fuel i w ih v = reading_lem (first_child_of nodes i) _ _ w λ c. ih c w v

    element_lem :
        (fuel i : ℕ) (tag : Bytes) (w : W)
        → Children fuel
        → laws.Valid w
        → Rendered
            (given (open_html nodes tag i (codes ">")) λ start.
              given
                (given (first_child_of nodes i) λ c. children_html fuel nodes c)
                λ inner. some (start ++ (inner ++ (codes "</" ++ (tag ++ codes ">")))))
            w
            (ignoring (emit_open bw pooled tag nodes i false w)
              >>= (λ w'.
                  reading
                    (first_child_of nodes i)
                    λ c. walk_children bw pooled component fuel nodes c w')
              >>= λ w'. ignoring (write_tag bw pooled (codes "</") tag (codes ">") w'))
    element_lem fuel i tag w ih v =
        join_lem (open_html nodes tag i (codes ">"))
          (given (first_child_of nodes i) λ c. children_html fuel nodes c)
          (codes "</" ++ (tag ++ codes ">")) w _ _ _
          (ignoring-Rendered _ w _ (emit_open_lem tag nodes i false w v))
          (λ w' v'. first_child_lem fuel i w' ih v')
          (λ w' v'. ignoring_lem _ w' _ (write_tag_lem (codes "</") tag (codes ">") w' v'))

    one_subtree : (fuel : ℕ) → Children fuel → Node (suc fuel)
    unfolding node_html emit_node
    one_subtree fuel ih i w v = reading_lem (get_elem? nodes.flags i) _ _ w λ flags.
        elim (Bool-cases (has flags flag_text)) [
          | inl e ↦ rw e (emit_text_lem nodes flags i w v)
          | inr e ↦ elim (Bool-cases (has flags flag_component)) [
            | inl e' ↦ rw (e, e') tt
            | inr e' ↦
                rw (e, e')
                  (reading_lem (get_elem? nodes.tag i) _ _ w λ tag.
                    elim (Bool-cases (has flags flag_void || has flags flag_self_closing)) [
                      | inl u ↦ rw u (ignoring-Rendered _ w _ (emit_open_lem tag nodes i true w v))
                      | inr u ↦ elim (Bool-cases (has flags flag_fragment)) [
                        | inl u' ↦ rw (u, u') (first_child_lem fuel i w ih v)
                        | inr u' ↦ rw (u, u') (element_lem fuel i tag w ih v)
                      ]
                    ])
          ]
        ]

    seq_lem :
        (a : Bytes) (q : Option Bytes) (w : W) (r : Io W) (f : W → Io W)
        → Result a w r
        → ((w' : W) → laws.Valid w' → Rendered q w' (f w'))
        → Rendered (given q λ b. some (a ++ b)) w (r >>= f)
    seq_lem a none w r f h h' = tt
    seq_lem a (some b) w r f h h' = then_lem a b w r f h h'

    sibling_lem :
        (name : Option Bytes) (here : Option Bytes) (next : Option ℤ) (fuel : ℕ) (w : W) (r : Io W)
        → Children fuel
        → Rendered here w r
        → Rendered
            (given name λ x. elim x [
              | _ ∷ _ ↦ none
              | [] ↦
                  given here
                    λ a. given next λ n. given (children_html fuel nodes n) λ b. some (a ++ b)
            ])
            w
            (r >>= λ w'. reading next λ n. walk_children bw pooled component fuel nodes n w')
    sibling_lem none here next fuel w r ih h = tt
    sibling_lem (some (x ∷ s)) here next fuel w r ih h = tt
    sibling_lem (some []) none next fuel w r ih h = tt
    sibling_lem (some []) (some a) none fuel w r ih h = tt
    sibling_lem (some []) (some a) (some n) fuel w r ih h =
        seq_lem a (children_html fuel nodes n) w r _ h (ih n)

    one_sibling : (fuel : ℕ) → Node fuel → Children fuel → Children (suc fuel)
    unfolding children_html walk_children
    one_sibling fuel node ih (negsuc zero) w v = (v, sym (append-nil _))
    one_sibling fuel node ih (negsuc (suc n)) w v = tt
    one_sibling fuel node ih (pos c) w v =
        sibling_lem (get_elem? nodes.component_name c) (node_html fuel nodes c)
          (next_sibling_of nodes c) fuel w _ ih (node c w v)

    both_lem : (fuel : ℕ) → Node fuel × Children fuel
    unfolding node_html emit_node
    both_lem zero = (λ i w v. tt, λ c w v. tt)
    both_lem (suc fuel) =
        let (node, children) = both_lem fuel in
        (one_subtree fuel children, one_sibling fuel node children)

    document_lem :
        (w : W)
        → laws.Valid w
        → Rendered (document_html nodes) w (execute bw pooled component nodes w)
    unfolding document_html execute
    document_lem w v = elim (Bool-cases (nodes.count == 0)) [
      | inl e ↦ rw e (v, sym (append-nil _))
      | inr e ↦ rw e ((both_lem (2 * nodes.count + 2)).0 0 w v)
    ]

    -- On a writer that keeps its promise and never fails, the tree executor appends exactly the
    -- text of a template that has one (no component, no slot, no read out of range).
    pub execute_lem :
        (w : W) (out : Bytes)
        → laws.Valid w
        → document_html nodes ≡ some out
        → Result out w (execute bw pooled component nodes w)
    execute_lem w out v e =
        subst (λ (o : Option Bytes). Rendered o w (execute bw pooled component nodes w)) e
          (document_lem w v)
