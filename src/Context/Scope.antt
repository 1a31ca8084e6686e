-- ===== src/Context/Scope.antt =====
-- The frame of a component: `ComponentContext` saves the depth, the render pushes bindings, and the
-- exit pops back to the saved depth.
use mathlib.Core.Path.{subst}
use nanite_render.Prelude.{
  ℕ, ◌+◌, ◌≡◌, refl, sym, ap, ◌∙◌, Option, some, ◌>>=◌, List, [], ◌∷◌, ◌++◌, append-nil,
  append_assoc, arith, length, length-append, take, take_append, Bytes, pos,
}
use nanite_render.Context.{
  ContextKv, ContextStack, push_context, clamp_ptr, pop_context_to, get_context, context_depth,
}
use nanite_render.Context.Stack.{Holds, nearest, get_context_lem, push_context_lem}
use nanite_render.Context.Pop.{pop_context_to_lem}

module _ {V : Type 0} (nil : V) where
  abbrev pub push_all : List (ContextKv V) → ContextStack V → Option (ContextStack V)
  push_all [] rc = some rc
  push_all (kv ∷ kvs) rc = push_context nil kv.key kv.val rc >>= push_all kvs

  push_all_lem :
      (kvs : List (ContextKv V)) (rc : ContextStack V) (xs : List (ContextKv V))
      → Holds nil rc xs
      → (rc' : ContextStack V) × (push_all kvs rc ≡ some rc') × Holds nil rc' (xs ++ kvs)
  push_all_lem [] rc xs h = (rc, refl, rw (append-nil xs) h)
  push_all_lem (kv ∷ kvs) rc xs h =
      let (rc1, e, h1) = push_context_lem nil kv.key kv.val rc xs h in
      let (rc2, e', h2) = push_all_lem kvs rc1 (xs ++ kv ∷ []) h1 in
      (rc2, rw e e', rw (← append_assoc xs (kv ∷ []) kvs) h2)

  clamp_within : (n m : ℕ) → clamp_ptr (pos n) (n + m) ≡ n
  unfolding clamp_ptr
  clamp_within n m = ground arith

  -- the stack after the frame's exit
  abbrev pub leave : ContextStack V → ContextStack V → Option (ContextStack V)
  leave rc inside = pop_context_to nil (pos (context_depth nil rc)) inside

  -- On a stack that holds a list of bindings, any pushes do not panic, inside GetContext finds the
  -- innermost binding of a key among the old and the new ones, and PopContextTo of the saved depth
  -- does not panic and restores the depth and what GetContext finds for every key.
  pub frame_lem :
      (key : Bytes) (kvs : List (ContextKv V)) (rc : ContextStack V) (xs : List (ContextKv V))
      → Holds nil rc xs
      → (inside : ContextStack V) × (after : ContextStack V) × (push_all kvs rc ≡ some inside)
        × (get_context nil key inside ≡ some (nearest nil key nil (xs ++ kvs)))
        × (leave rc inside ≡ some after)
        × (context_depth nil after ≡ context_depth nil rc)
        × (get_context nil key after ≡ get_context nil key rc)
  unfolding context_depth
  frame_lem key kvs rc xs h =
      let (inside, e, hi) = push_all_lem kvs rc xs h in
      let (after, e', ha) = pop_context_to_lem nil (pos rc.ctx_ptr) inside (xs ++ kvs) hi in
      let depth : inside.ctx_ptr ≡ rc.ctx_ptr + length kvs =
        omega (arith, hi.depth, h.depth, length-append xs kvs) in
      let kept : take (clamp_ptr (pos rc.ctx_ptr) inside.ctx_ptr) (xs ++ kvs) ≡ xs =
        ap (λ (n : ℕ). take (clamp_ptr (pos rc.ctx_ptr) n) (xs ++ kvs)) depth
        ∙ ap (λ (n : ℕ). take n (xs ++ kvs)) (clamp_within rc.ctx_ptr (length kvs))
        ∙ ap (λ (n : ℕ). take n (xs ++ kvs)) h.depth
        ∙ take_append xs kvs in
      let back : Holds nil after xs =
        subst (λ (ys : List (ContextKv V)). Holds nil after ys) kept ha in
      (
        inside,
        after,
        e,
        get_context_lem nil key inside (xs ++ kvs) hi,
        e',
        back.depth ∙ sym h.depth,
        get_context_lem nil key after xs back ∙ sym (get_context_lem nil key rc xs h),
      )
