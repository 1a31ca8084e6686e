-- ===== src/Context.antt =====
-- context.go: the cascading context of a render, a stack of bindings in an inline array with a heap
-- slice behind it. `V` is Go's `any`, and `nil` its nil. `none` is an index panic.
pub mod Stack
pub mod Pop
pub mod Scope
use nanite_render.Prelude.{
  ℕ, zero, suc, ◌+◌, ◌-◌, Option, none, some, ◌>>=◌, List, [], ◌∷◌, ◌++◌, ltb, leb, if◌then◌else◌,
  length, get_elem?, put, Bytes, text_eq, ℤ, pos, negsuc,
}

abbrev pub inline_ctx_cap : ℕ
inline_ctx_cap = 32

pub record ContextKv (V : Type 0) : Type 0 where
  pub key : Bytes
  pub val : V

-- The three fields of `RenderContext` that hold the stack.
pub record ContextStack (V : Type 0) : Type 0 where
  pub inline_ctx : List (ContextKv V)
  pub overflow_ctx : List (ContextKv V)
  pub ctx_ptr : ℕ

-- the saved pointer between 0 and the depth
unfoldable pub clamp_ptr : ℤ → ℕ → ℕ
clamp_ptr (negsuc _) depth = 0
clamp_ptr (pos n) depth = if ltb depth n then depth else n

-- the part of the loop's range that is inline
abbrev pub inline_end : ℕ → ℕ
inline_end depth = if ltb depth inline_ctx_cap then depth else inline_ctx_cap

module _ {V : Type 0} (nil : V) where
  abbrev pub zero_kv : ContextKv V
  zero_kv = record { key = []; val = nil }

  unfoldable pub push_context : Bytes → V → ContextStack V → Option (ContextStack V)
  push_context key val rc =
      let kv : ContextKv V = record { key = key; val = val } in
      let next = rc.ctx_ptr + 1 in
      if ltb rc.ctx_ptr inline_ctx_cap
      then (put rc.inline_ctx rc.ctx_ptr kv >>= λ xs.
          some (record rc { inline_ctx = xs; ctx_ptr = next }))
      else if ltb (rc.ctx_ptr - inline_ctx_cap) (length rc.overflow_ctx)
      then (put rc.overflow_ctx (rc.ctx_ptr - inline_ctx_cap) kv >>= λ xs.
          some (record rc { overflow_ctx = xs; ctx_ptr = next }))
      else some (record rc { overflow_ctx = rc.overflow_ctx ++ kv ∷ []; ctx_ptr = next })

  -- `for i := start; i < start+n; i++ { xs[i] = contextKV{} }`
  unfoldable pub clear_slots : ℕ → ℕ → List (ContextKv V) → Option (List (ContextKv V))
  clear_slots zero i xs = some xs
  clear_slots (suc n) i xs = put xs i zero_kv >>= clear_slots n (i + 1)

  -- the slots of `overflowCtx` behind a pop to `saved`
  unfoldable pub clear_overflow : ℕ → ContextStack V → Option (List (ContextKv V))
  clear_overflow saved rc =
      if ltb inline_ctx_cap rc.ctx_ptr
      then (if leb inline_ctx_cap saved
          then clear_slots (rc.ctx_ptr - saved) (saved - inline_ctx_cap) rc.overflow_ctx
          else (clear_slots (length rc.overflow_ctx) 0 rc.overflow_ctx >>= λ _. some []))
      else some rc.overflow_ctx

  unfoldable pub pop_context_to : ℤ → ContextStack V → Option (ContextStack V)
  pop_context_to saved_ptr rc = do
    let saved = clamp_ptr saved_ptr rc.ctx_ptr
    xs ← clear_slots (inline_end rc.ctx_ptr - saved) saved rc.inline_ctx
    ys ← clear_overflow saved rc
    some (record { inline_ctx = xs; overflow_ctx = ys; ctx_ptr = saved })

  -- the slot of a logical position
  unfoldable pub slot : ContextStack V → ℕ → Option (ContextKv V)
  slot rc i =
      if ltb i inline_ctx_cap
      then get_elem? rc.inline_ctx i
      else get_elem? rc.overflow_ctx (i - inline_ctx_cap)

  -- The scan from position `n - 1` down to 0.
  unfoldable pub scan_context : Bytes → ContextStack V → ℕ → Option V
  scan_context key rc zero = some nil
  scan_context key rc (suc n) = do
    kv ← slot rc n
    if text_eq kv.key key then some kv.val else scan_context key rc n

  unfoldable pub get_context : Bytes → ContextStack V → Option V
  get_context key rc = scan_context key rc rc.ctx_ptr

  unfoldable pub context_depth : ContextStack V → ℕ
  context_depth rc = rc.ctx_ptr
