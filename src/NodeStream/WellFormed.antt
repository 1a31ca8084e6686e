-- ===== src/NodeStream/WellFormed.antt =====
-- The invariant of a stream under construction, and that every builder operation keeps it: the
-- parallel slices have one entry for each node, parents come before their children, and attribute
-- and text ranges lie inside the shared tables.
pub mod Operations
use nanite_render.Prelude.{
  ℕ, zero, suc, ◌+◌, ◌-◌, ◌*◌, ◌^◌, ◌≤◌, ◌<◌, ◌≡◌, refl, sym, ap, ◌∙◌, ◌⊎◌, inl, inr, Bool, true,
  false, Option, none, some, ◌>>=◌, List, [], ◌∷◌, ◌++◌, arith, length, length-append, length-set,
  get_elem?, put, set, put-set, set-append, set-append_suc, codes, get_elem?-append_lt,
  get_elem?-append_length, lt_of_get_elem?, get_elem?-lt, Bytes, uint32, int32, int32_small,
  uint32_small, ℤ, pos, negsuc,
}
use nanite_render.NodeStream.{NodeStream, Value, minus_one}
use nanite_render.NodeStream.Builder.{
  empty, append_node, next_id, set_parent, set_component_name, set_attr_range, append_attrs, AttrKv,
  set_attrs_each, append_text, put_span, text_flags,
}

-- One entry for each node in every parallel slice, two in the text offsets.
pub record IsSized (s : NodeStream) : Type 0 where
  pub tag_len : length s.tag ≡ s.count
  pub flags_len : length s.flags ≡ s.count
  pub ns_len : length s.ns ≡ s.count
  pub child_start_len : length s.child_start ≡ s.count
  pub child_end_len : length s.child_end ≡ s.count
  pub attr_start_len : length s.attr_start ≡ s.count
  pub attr_end_len : length s.attr_end ≡ s.count
  pub text_off_len : length s.text_off ≡ s.count + s.count
  pub parent_len : length s.parent ≡ s.count
  pub first_child_len : length s.first_child ≡ s.count
  pub next_sibling_len : length s.next_sibling ≡ s.count
  pub component_name_len : length s.component_name ≡ s.count
  pub attr_vals_len : length s.attr_vals ≡ length s.attr_keys

length-snoc {ℓ} :
    {A : Type ℓ} (xs : List A) (x : A) {n : ℕ} → length xs ≡ n → length (xs ++ x ∷ []) ≡ n + 1
length-snoc xs x h = omega (arith, length-append xs (x ∷ []))

pub append_node-IsSized :
    (t : Bytes) (f : ℕ) (b : NodeStream) → IsSized b → IsSized (append_node t f b)
unfolding append_node
append_node-IsSized t f b h = record {
  tag_len = length-snoc b.tag t h.tag_len;
  flags_len = length-snoc b.flags f h.flags_len;
  ns_len = length-snoc b.ns 0 h.ns_len;
  child_start_len = length-snoc b.child_start 0 h.child_start_len;
  child_end_len = length-snoc b.child_end 0 h.child_end_len;
  attr_start_len = length-snoc b.attr_start 0 h.attr_start_len;
  attr_end_len = length-snoc b.attr_end 0 h.attr_end_len;
  text_off_len = omega (arith, length-append b.text_off (0 ∷ 0 ∷ []), h.text_off_len);
  parent_len = length-snoc b.parent minus_one h.parent_len;
  first_child_len = length-snoc b.first_child minus_one h.first_child_len;
  next_sibling_len = length-snoc b.next_sibling minus_one h.next_sibling_len;
  component_name_len = length-snoc b.component_name [] h.component_name_len;
  attr_vals_len = h.attr_vals_len;
}

abbrev pub Below : ℤ → ℕ → Type 0
Below (pos p) i = p < i
Below (negsuc _) i = Unit

-- From node `i` on, each parent is `-1` (or negative) or an earlier node.
abbrev pub Ordered : ℕ → List ℤ → Type 0
Ordered i [] = Unit
Ordered i (p ∷ ps) = Below p i × Ordered (suc i) ps

abbrev pub Bounded : ℕ → List ℕ → Type 0
Bounded n [] = Unit
Bounded n (x ∷ xs) = (x ≤ n) × Bounded n xs

-- Pairs of offsets, each a range of the text buffer.
abbrev pub Spans : ℕ → List ℕ → Type 0
Spans n [] = Unit
Spans n (x ∷ []) = ⊥
Spans n (lo ∷ hi ∷ xs) = (lo ≤ hi) × (hi ≤ n) × Spans n xs

pub record IsWellFormed (s : NodeStream) : Type 0 where
  pub sized : IsSized s
  pub ordered : Ordered 0 s.parent
  pub attr_ends : Bounded (length s.attr_keys) s.attr_end
  pub spans : Spans (length s.text_buf) s.text_off

Below-suc : (v : ℤ) (i j : ℕ) → Below v (i + suc j) → Below v (suc i + j)
Below-suc (pos p) i j b = omega arith
Below-suc (negsuc n) i j b = tt

Below-add-zero : (v : ℤ) (i : ℕ) → Below v (i + 0) → Below v i
Below-add-zero (pos p) i b = omega arith
Below-add-zero (negsuc n) i b = tt

pub Ordered-append :
    (i : ℕ) (ps : List ℤ) (p : ℤ)
    → Ordered i ps
    → Below p (i + length ps)
    → Ordered i (ps ++ p ∷ [])
Ordered-append i [] p h b = (Below-add-zero p i b, tt)
Ordered-append i (q ∷ ps) p h b =
    (h.0, Ordered-append (suc i) ps p h.1 (Below-suc p i (length ps) b))

pub Ordered-set :
    (i : ℕ) (ps : List ℤ) (j : ℕ) (v : ℤ) → Ordered i ps → Below v (i + j) → Ordered i (set ps j v)
Ordered-set i [] j v h b = tt
Ordered-set i (p ∷ ps) zero v h b = (Below-add-zero v i b, h.1)
Ordered-set i (p ∷ ps) (suc j) v h b = (h.0, Ordered-set (suc i) ps j v h.1 (Below-suc v i j b))

pub Bounded-mono : (n m : ℕ) (xs : List ℕ) → n ≤ m → Bounded n xs → Bounded m xs
Bounded-mono n m [] h b = tt
Bounded-mono n m (x ∷ xs) h b = (omega arith, Bounded-mono n m xs h b.1)

pub Bounded-append : (n : ℕ) (xs : List ℕ) (x : ℕ) → Bounded n xs → x ≤ n → Bounded n (xs ++ x ∷ [])
Bounded-append n [] x b h = (h, tt)
Bounded-append n (y ∷ xs) x b h = (b.0, Bounded-append n xs x b.1 h)

pub Bounded-set : (n : ℕ) (xs : List ℕ) (j v : ℕ) → Bounded n xs → v ≤ n → Bounded n (set xs j v)
Bounded-set n [] j v b h = tt
Bounded-set n (x ∷ xs) zero v b h = (h, b.1)
Bounded-set n (x ∷ xs) (suc j) v b h = (b.0, Bounded-set n xs j v b.1 h)

pub Spans-mono : (n m : ℕ) (xs : List ℕ) → n ≤ m → Spans n xs → Spans m xs
Spans-mono n m [] h b = tt
Spans-mono n m (x ∷ []) h b = b
Spans-mono n m (lo ∷ hi ∷ xs) h b = (b.0, omega arith, Spans-mono n m xs h b.2)

pub Spans-append :
    (n : ℕ) (xs : List ℕ) (lo hi : ℕ) → Spans n xs → lo ≤ hi → hi ≤ n → Spans n (xs ++ lo ∷ hi ∷ [])
Spans-append n [] lo hi b h k = (h, k, tt)
Spans-append n (x ∷ []) lo hi b h k = elim b [ ]
Spans-append n (x ∷ y ∷ xs) lo hi b h k = (b.0, b.1, Spans-append n xs lo hi b.2 h k)

pub int32-Below : (n i : ℕ) → n < i → Below (int32 n) i
unfolding int32
int32-Below n i h = ground arith

-- What each operation gives on a sized stream, with no panic left.
put_span_lem :
    (xs : List ℕ) (i lo hi : ℕ)
    → length xs ≡ i + i
    → put_span i lo hi (xs ++ 0 ∷ 0 ∷ []) ≡ some (xs ++ lo ∷ hi ∷ [])
unfolding put_span
put_span_lem xs i lo hi h =
    let e : 2 * i ≡ length xs = omega arith in
    let e' : 2 * i + 1 ≡ suc (length xs) = omega arith in
    rw (e', e)
      (rw
        (
          put-set (xs ++ 0 ∷ 0 ∷ []) (length xs) lo (omega (arith, length-append xs (0 ∷ 0 ∷ []))),
          set-append,
        )
        (put-set (xs ++ lo ∷ 0 ∷ []) (suc (length xs)) hi
            (omega (arith, length-append xs (lo ∷ 0 ∷ [])))
          ∙ ap some (set-append_suc xs [] lo 0 hi)))

-- The stream that `AppendText` leaves.
abbrev pub text_added : Bytes → Bool → NodeStream → NodeStream
text_added t raw b = record (append_node (codes "#text") (text_flags raw) b) {
  text_buf = b.text_buf ++ t;
  text_off = b.text_off ++ uint32 (length b.text_buf) ∷ uint32 (length (b.text_buf ++ t)) ∷ [];
}

pub append_text_lem :
    (t : Bytes) (raw : Bool) (b : NodeStream)
    → IsSized b
    → append_text t raw b ≡ some (text_added t raw b)
unfolding append_text append_node
append_text_lem t raw b h = rw (
    put_span_lem b.text_off (length b.tag) (uint32 (length b.text_buf))
      (uint32 (length (b.text_buf ++ t))) (omega (arith, h.tag_len, h.text_off_len)))

pub set_parent_lem :
    (c p : ℕ) (b : NodeStream)
    → IsSized b
    → c < b.count
    → set_parent c p b ≡ some (record b { parent = set b.parent c (int32 p) })
unfolding set_parent
set_parent_lem c p b h lt = rw (put-set b.parent c (int32 p) (omega (arith, h.parent_len)))

pub set_component_name_lem :
    (i : ℕ) (n : Bytes) (b : NodeStream)
    → IsSized b
    → i < b.count
    → set_component_name i n b ≡ some (record b { component_name = set b.component_name i n })
unfolding set_component_name
set_component_name_lem i n b h lt =
    rw (put-set b.component_name i n (omega (arith, h.component_name_len)))

pub set_attr_range_lem :
    (i start : ℕ) (b : NodeStream)
    → IsSized b
    → i < b.count
    → set_attr_range i start b
      ≡ some (record b {
        attr_start = set b.attr_start i (uint32 start);
        attr_end = set b.attr_end i (uint32 (length b.attr_keys));
      })
unfolding set_attr_range
set_attr_range_lem i start b h lt = rw (
  put-set b.attr_start i (uint32 start) (omega (arith, h.attr_start_len)),
  put-set b.attr_end i (uint32 (length b.attr_keys)) (omega (arith, h.attr_end_len)),
)
