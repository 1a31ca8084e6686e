-- ===== src/Context/Stack.antt =====
-- The cascading context against a list of bindings, the innermost last.
use nanite_render.Prelude.{
  ℕ, zero, suc, ◌+◌, ◌-◌, ◌≤◌, ◌<◌, ◌≡◌, ◌≢◌, refl, sym, ap, ◌∙◌, inl, inr, true, false, Option,
  none, some, List, [], ◌∷◌, ◌++◌, ltb, if◌then◌else◌, arith, Bool-cases, length, length-append,
  length-set, get_elem?, get_elem?-lt, get_elem?-append_lt, get_elem?-append_length,
  get_elem?-set_self, get_elem?-set_ne, set, put-set, take, Bytes, text_eq,
}
use nanite_render.Context.{
  inline_ctx_cap, ContextKv, ContextStack, push_context, slot, scan_context, get_context,
}

module _ {V : Type 0} (nil : V) where
  -- The stack holds exactly these bindings.
  pub record Holds (rc : ContextStack V) (xs : List (ContextKv V)) : Type 0 where
    pub inline_len : length rc.inline_ctx ≡ inline_ctx_cap
    pub depth : rc.ctx_ptr ≡ length xs
    pub room : rc.ctx_ptr ≤ inline_ctx_cap + length rc.overflow_ctx
    pub slots : (i : ℕ) → i < length xs → slot nil rc i ≡ get_elem? xs i

  -- the value of the innermost binding of a key, or `acc`
  unfoldable pub nearest : Bytes → V → List (ContextKv V) → V
  nearest key acc [] = acc
  nearest key acc (kv ∷ xs) = nearest key (if text_eq kv.key key then kv.val else acc) xs

  nearest-snoc :
      (key : Bytes) (acc : V) (xs : List (ContextKv V)) (kv : ContextKv V)
      → nearest key acc (xs ++ kv ∷ [])
        ≡ (if text_eq kv.key key then kv.val else nearest key acc xs)
  unfolding nearest
  nearest-snoc key acc [] kv = refl
  nearest-snoc key acc (x ∷ xs) kv =
      nearest-snoc key (if text_eq x.key key then x.val else acc) xs kv

  take-snoc :
      (xs : List (ContextKv V)) (n : ℕ) (x : ContextKv V)
      → get_elem? xs n ≡ some x
      → take (suc n) xs ≡ take n xs ++ x ∷ []
  take-snoc [] n x e = absurd cc
  take-snoc (y ∷ xs) zero x e =
      ap (λ (o : Option (ContextKv V)). elim o [ none ↦ [] | some z ↦ z ∷ [] ]) e
  take-snoc (y ∷ xs) (suc n) x e = ap (λ t. y ∷ t) (take-snoc xs n x e)

  take-all : (xs : List (ContextKv V)) → take (length xs) xs ≡ xs
  take-all [] = refl
  take-all (x ∷ xs) = ap (λ t. x ∷ t) (take-all xs)

  pub length-take : (xs : List (ContextKv V)) (n : ℕ) → n ≤ length xs → length (take n xs) ≡ n
  length-take xs zero h = refl
  length-take [] (suc n) h = absurd (omega arith)
  length-take (x ∷ xs) (suc n) h = ap suc (length-take xs n (omega arith))

  pub get_elem?-take :
      (xs : List (ContextKv V)) (n i : ℕ) → i < n → get_elem? (take n xs) i ≡ get_elem? xs i
  get_elem?-take xs zero i h = elim h [ ]
  get_elem?-take [] (suc n) i h = refl
  get_elem?-take (x ∷ xs) (suc n) zero h = refl
  get_elem?-take (x ∷ xs) (suc n) (suc i) h = get_elem?-take xs n i (omega arith)

  scan_lem :
      (key : Bytes) (rc : ContextStack V) (xs : List (ContextKv V)) (n : ℕ)
      → Holds rc xs
      → n ≤ length xs
      → scan_context nil key rc n ≡ some (nearest key nil (take n xs))
  unfolding scan_context nearest
  scan_lem key rc xs zero h le = refl
  scan_lem key rc xs (suc n) h le =
      let (kv, at) = get_elem?-lt xs n (omega arith) in
      let here : slot nil rc n ≡ some kv = h.slots n (omega arith) ∙ at in
      let ih : scan_context nil key rc n ≡ some (nearest key nil (take n xs)) =
        scan_lem key rc xs n h (omega arith) in
      elim (Bool-cases (text_eq kv.key key)) [
        | inl e ↦
            rw (here, scan_context, take-snoc xs n kv at, nearest-snoc key nil (take n xs) kv, e)
              refl
        | inr e ↦
            rw (here, scan_context, take-snoc xs n kv at, nearest-snoc key nil (take n xs) kv, e) ih
      ]

  -- GetContext on a stack that holds a list of bindings does not panic, and returns the value of
  -- the last binding of the key in the list, or nil.
  pub get_context_lem :
      (key : Bytes) (rc : ContextStack V) (xs : List (ContextKv V))
      → Holds rc xs
      → get_context nil key rc ≡ some (nearest key nil xs)
  unfolding get_context
  get_context_lem key rc xs h =
      ap (λ (n : ℕ). scan_context nil key rc n) h.depth
      ∙ scan_lem key rc xs (length xs) h (omega arith)
      ∙ ap (λ t. some (nearest key nil t)) (take-all xs)

  pub slot_inline :
      (rc : ContextStack V) (i : ℕ) → i < inline_ctx_cap → slot nil rc i ≡ get_elem? rc.inline_ctx i
  unfolding slot
  slot_inline rc i h = let e : ltb i inline_ctx_cap ≡ true = ground arith in rw (e, slot) refl

  pub slot_overflow :
      (rc : ContextStack V) (i : ℕ)
      → inline_ctx_cap ≤ i
      → slot nil rc i ≡ get_elem? rc.overflow_ctx (i - inline_ctx_cap)
  unfolding slot
  slot_overflow rc i h = let e : ltb i inline_ctx_cap ≡ false = ground arith in rw (e, slot) refl

  -- One more binding: the slots below are the same, and the new one is at the top.
  Holds-pushed :
      (rc rc' : ContextStack V) (xs : List (ContextKv V)) (kv : ContextKv V)
      → Holds rc xs
      → length rc'.inline_ctx ≡ inline_ctx_cap
      → rc'.ctx_ptr ≡ rc.ctx_ptr + 1
      → rc.ctx_ptr + 1 ≤ inline_ctx_cap + length rc'.overflow_ctx
      → ((i : ℕ) → i < rc.ctx_ptr → slot nil rc' i ≡ slot nil rc i)
      → slot nil rc' rc.ctx_ptr ≡ some kv
      → Holds rc' (xs ++ kv ∷ [])
  Holds-pushed rc rc' xs kv h len ptr room same top = record {
    inline_len = len;
    depth = omega (arith, ptr, h.depth, length-append xs (kv ∷ []));
    room = omega (arith, ptr);
    slots = λ i lt. elim (Bool-cases (ltb i (length xs))) [
      | inl e ↦
          same i (ground (arith, h.depth))
          ∙ h.slots i (ground arith)
          ∙ sym (get_elem?-append_lt xs (kv ∷ []) i (ground arith))
      | inr e ↦
          let last : i ≡ length xs = ground (arith, length-append xs (kv ∷ [])) in
          let last' : i ≡ rc.ctx_ptr = omega (arith, h.depth) in
          ap (slot nil rc') last'
          ∙ top
          ∙ sym (ap (get_elem? (xs ++ kv ∷ [])) last ∙ get_elem?-append_length xs [] kv)
    ];
  }

  pub ne_of_lt : (a b : ℕ) → a < b → b ≢ a
  ne_of_lt a b lt e = absurd (omega arith)

  abbrev kv_of : Bytes → V → ContextKv V
  kv_of key val = record { key = key; val = val }

  -- a slot of the overflow slice, with the binding in it
  spill_at :
      (kv : ContextKv V) (rc : ContextStack V) (xs ys : List (ContextKv V))
      → let rc' : ContextStack V = record rc { overflow_ctx = ys; ctx_ptr = rc.ctx_ptr + 1 } in
        Holds rc xs
        → inline_ctx_cap ≤ rc.ctx_ptr
        → rc.ctx_ptr + 1 ≤ inline_ctx_cap + length ys
        → ((j : ℕ) → j < rc.ctx_ptr - inline_ctx_cap → get_elem? ys j ≡ get_elem? rc.overflow_ctx j)
        → get_elem? ys (rc.ctx_ptr - inline_ctx_cap) ≡ some kv
        → Holds rc' (xs ++ kv ∷ [])
  spill_at kv rc xs ys h le room same top =
      let rc' : ContextStack V = record rc { overflow_ctx = ys; ctx_ptr = rc.ctx_ptr + 1 } in
      Holds-pushed rc rc' xs kv h h.inline_len refl room
        (λ i below. elim (Bool-cases (ltb i inline_ctx_cap)) [
          | inl e ↦ slot_inline rc' i (ground arith) ∙ sym (slot_inline rc i (ground arith))
          | inr e ↦
              let high : inline_ctx_cap ≤ i = ground arith in
              slot_overflow rc' i high
              ∙ same (i - inline_ctx_cap) (omega arith)
              ∙ sym (slot_overflow rc i high)
        ])
        (slot_overflow rc' rc.ctx_ptr le ∙ top)

  spilled_lem :
      (key : Bytes) (val : V) (rc : ContextStack V) (xs : List (ContextKv V))
      → Holds rc xs
      → inline_ctx_cap ≤ rc.ctx_ptr
      → ltb rc.ctx_ptr inline_ctx_cap ≡ false
      → (rc' : ContextStack V) × (push_context nil key val rc ≡ some rc')
        × Holds rc' (xs ++ kv_of key val ∷ [])
  unfolding push_context
  spilled_lem key val rc xs h le spilled =
      let at = rc.ctx_ptr - inline_ctx_cap in
      let kv = kv_of key val in
      elim (Bool-cases (ltb at (length rc.overflow_ctx))) [
        | inl used ↦
            let lt : at < length rc.overflow_ctx = ground arith in
            let ys = set rc.overflow_ctx at kv in
            (
              record rc { overflow_ctx = ys; ctx_ptr = rc.ctx_ptr + 1 },
              rw (spilled, push_context, used, put-set rc.overflow_ctx at kv lt) refl,
              spill_at kv rc xs ys h le (omega (arith, length-set rc.overflow_ctx at kv))
                  (λ j below. get_elem?-set_ne rc.overflow_ctx at j kv (ne_of_lt j at below))
                  (get_elem?-set_self rc.overflow_ctx at kv lt),
            )
        | inr fresh ↦
            let full : at ≡ length rc.overflow_ctx = ground (arith, h.room) in
            let ys = rc.overflow_ctx ++ kv ∷ [] in
            (
              record rc { overflow_ctx = ys; ctx_ptr = rc.ctx_ptr + 1 },
              rw (spilled, push_context, fresh) refl,
              spill_at kv rc xs ys h le (omega (arith, length-append rc.overflow_ctx (kv ∷ [])))
                  (λ j below. get_elem?-append_lt rc.overflow_ctx (kv ∷ []) j (omega arith))
                  (ap (get_elem? ys) full ∙ get_elem?-append_length rc.overflow_ctx [] kv),
            )
      ]

  -- PushContext on a stack that holds a list of bindings does not panic at any depth, and leaves a
  -- stack that holds the list with the new binding at its end.
  pub push_context_lem :
      (key : Bytes) (val : V) (rc : ContextStack V) (xs : List (ContextKv V))
      → Holds rc xs
      → (rc' : ContextStack V) × (push_context nil key val rc ≡ some rc')
        × Holds rc' (xs ++ (record { key = key; val = val }) ∷ [])
  unfolding push_context
  push_context_lem key val rc xs h = elim (Bool-cases (ltb rc.ctx_ptr inline_ctx_cap)) [
    | inl inline ↦
        let lt : rc.ctx_ptr < inline_ctx_cap = ground arith in
        let rc' : ContextStack V = record rc {
          inline_ctx = set rc.inline_ctx rc.ctx_ptr (kv_of key val);
          ctx_ptr = rc.ctx_ptr + 1;
        } in
        (
          rc',
          rw
              (
                inline,
                push_context,
                put-set rc.inline_ctx rc.ctx_ptr (kv_of key val) (omega (arith, h.inline_len)),
              )
              refl,
          Holds-pushed rc rc' xs (kv_of key val) h
              (length-set rc.inline_ctx rc.ctx_ptr (kv_of key val) ∙ h.inline_len) refl
              (omega arith)
              (λ i below.
                slot_inline rc' i (omega arith)
                ∙ get_elem?-set_ne rc.inline_ctx rc.ctx_ptr i (kv_of key val)
                    (ne_of_lt i rc.ctx_ptr below)
                ∙ sym (slot_inline rc i (omega arith)))
              (slot_inline rc' rc.ctx_ptr lt
                ∙ get_elem?-set_self rc.inline_ctx rc.ctx_ptr (kv_of key val)
                    (omega (arith, h.inline_len))),
        )
    | inr spilled ↦
        let le : inline_ctx_cap ≤ rc.ctx_ptr = ground arith in
        spilled_lem key val rc xs h le spilled
  ]
