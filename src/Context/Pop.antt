-- ===== src/Context/Pop.antt =====
-- `PopContextTo` against a list of bindings.
use nanite_render.Prelude.{
  ℕ, zero, suc, ◌+◌, ◌-◌, ◌≤◌, ◌<◌, ◌≡◌, refl, sym, ◌∙◌, inl, inr, some, List, [], ltb, leb, arith,
  Bool-cases, length, length-set, get_elem?, get_elem?-set_ne, set, put-set, take, ℤ, pos, negsuc,
}
use nanite_render.Context.{
  inline_ctx_cap, ContextKv, ContextStack, zero_kv, clear_slots, clamp_ptr, inline_end,
  clear_overflow, pop_context_to, slot,
}
use nanite_render.Context.Stack.{
  Holds, length-take, get_elem?-take, slot_inline, slot_overflow, ne_of_lt,
}

module _ {V : Type 0} (nil : V) where
  clear_slots_lem :
      (n i : ℕ) (xs : List (ContextKv V))
      → (0 < n → i + n ≤ length xs)
      → (ys : List (ContextKv V)) × (clear_slots nil n i xs ≡ some ys)
        × (length ys ≡ length xs)
        × ((j : ℕ) → j < i → get_elem? ys j ≡ get_elem? xs j)
  unfolding clear_slots
  clear_slots_lem zero i xs h = (xs, refl, refl, λ j lt. refl)
  clear_slots_lem (suc n) i xs h =
      let fits : i + suc n ≤ length xs = h (omega arith) in
      let zeroed = set xs i (zero_kv nil) in
      let (ys, e, len, same) =
        clear_slots_lem n (i + 1) zeroed (λ _. omega (arith, length-set xs i (zero_kv nil))) in
      (
        ys,
        rw (put-set xs i (zero_kv nil) (omega arith), clear_slots) e,
        len ∙ length-set xs i (zero_kv nil),
        λ j lt. same j (omega arith) ∙ get_elem?-set_ne xs i j (zero_kv nil) (ne_of_lt nil j i lt),
      )

  clamp_ptr-le : (p : ℤ) (depth : ℕ) → clamp_ptr p depth ≤ depth
  unfolding clamp_ptr
  clamp_ptr-le (negsuc n) depth = omega arith
  clamp_ptr-le (pos n) depth = ground arith

  clear_overflow_lem :
      (saved : ℕ) (rc : ContextStack V)
      → saved ≤ rc.ctx_ptr
      → rc.ctx_ptr ≤ inline_ctx_cap + length rc.overflow_ctx
      → (ys : List (ContextKv V)) × (clear_overflow nil saved rc ≡ some ys)
        × (saved ≤ inline_ctx_cap + length ys)
        × ((j : ℕ) → j + inline_ctx_cap < saved → get_elem? ys j ≡ get_elem? rc.overflow_ctx j)
  unfolding clear_overflow
  clear_overflow_lem saved rc le room = elim (Bool-cases (ltb inline_ctx_cap rc.ctx_ptr)) [
    | inr shallow ↦ (rc.overflow_ctx, rw (shallow, clear_overflow) refl, omega arith, λ j lt. refl)
    | inl deep ↦ elim (Bool-cases (leb inline_ctx_cap saved)) [
      | inl high ↦
          let (ys, e, len, same) =
            clear_slots_lem (rc.ctx_ptr - saved) (saved - inline_ctx_cap) rc.overflow_ctx
              (λ _. ground arith) in
          (ys, rw (deep, clear_overflow, high) e, omega (arith, len), λ j lt. same j (omega arith))
      | inr low ↦
          let (ys, e, len, same) =
            clear_slots_lem (length rc.overflow_ctx) 0 rc.overflow_ctx (λ _. omega arith) in
          ([], rw (deep, clear_overflow, low, e) refl, ground arith, λ j lt. absurd (ground arith))
    ]
  ]

  slot_kept :
      (saved : ℕ) (rc rc' : ContextStack V) (i : ℕ)
      → i < saved
      → get_elem? rc'.inline_ctx i ≡ get_elem? rc.inline_ctx i
      → (inline_ctx_cap ≤ i
          → get_elem? rc'.overflow_ctx (i - inline_ctx_cap)
            ≡ get_elem? rc.overflow_ctx (i - inline_ctx_cap))
      → slot nil rc' i ≡ slot nil rc i
  slot_kept saved rc rc' i below inline spill = elim (Bool-cases (ltb i inline_ctx_cap)) [
    | inl e ↦
        slot_inline nil rc' i (ground arith) ∙ inline ∙ sym (slot_inline nil rc i (ground arith))
    | inr e ↦
        let high : inline_ctx_cap ≤ i = ground arith in
        slot_overflow nil rc' i high ∙ spill high ∙ sym (slot_overflow nil rc i high)
  ]

  -- PopContextTo on a stack that holds a list of bindings does not panic for any saved pointer,
  -- and leaves a stack that holds the first bindings, as many as the pointer says once it is
  -- clamped between 0 and the depth.
  pub pop_context_to_lem :
      (p : ℤ) (rc : ContextStack V) (xs : List (ContextKv V))
      → Holds nil rc xs
      → (rc' : ContextStack V) × (pop_context_to nil p rc ≡ some rc')
        × Holds nil rc' (take (clamp_ptr p rc.ctx_ptr) xs)
  unfolding pop_context_to
  pop_context_to_lem p rc xs h =
      let saved = clamp_ptr p rc.ctx_ptr in
      let le : saved ≤ rc.ctx_ptr = clamp_ptr-le p rc.ctx_ptr in
      let le' : saved ≤ length xs = omega (arith, h.depth) in
      let (zs, e, len, same) =
        clear_slots_lem (inline_end rc.ctx_ptr - saved) saved rc.inline_ctx
          (λ some_left. ground (arith, h.inline_len)) in
      let (ys, e', room, same') = clear_overflow_lem saved rc le h.room in
      let rc' : ContextStack V = record { inline_ctx = zs; overflow_ctx = ys; ctx_ptr = saved } in
      (
        rc',
        rw (e, pop_context_to, e') refl,
        record {
          inline_len = len ∙ h.inline_len;
          depth = sym (length-take nil xs saved le');
          room = room;
          slots = λ i lt.
              let below : i < saved = omega (arith, length-take nil xs saved le') in
              slot_kept saved rc rc' i below (same i below)
                (λ high. same' (i - inline_ctx_cap) (omega arith))
              ∙ h.slots i (omega arith)
              ∙ sym (get_elem?-take nil xs saved i below);
        },
      )
