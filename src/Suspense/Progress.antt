-- ===== src/Suspense/Progress.antt =====
-- Once the render has ended, and no more payloads are on their way than the channel holds, the writer
-- ends whatever the order of the steps is.
use nanite_render.Prelude.{
  ℕ, zero, suc, ◌+◌, ◌*◌, ◌≤◌, ◌<◌, ◌≡◌, refl, sym, ap, ◌∙◌, ◌⊎◌, inl, inr, true, false, List, [],
  ◌∷◌, ◌++◌, length, length-append, List-cases, arith,
}
use nanite_render.Suspense.{
  Phase, serving, waiting, draining, exited, channel_cap, Coordinator, started, Taken, Work, finish,
  abandon, abort, send, send_on_closed, receive, begin_drain, end_wait, pull, close_channel, Reach,
}
use nanite_render.Suspense.Safety.{IsSafe, at_phase, Work-IsSafe, kept_cancelled, Reach-IsSafe}

-- The writer exits in every run: it has, or some step can be taken, and each leads to such a state.
pub data Ends {P : Type 0} : Coordinator P → Type 0 where
  ended : {s : Coordinator P} → s.phase ≡ exited → Ends s
  goes_on : {s t : Coordinator P} → Work s t → ((u : Coordinator P) → Work s u → Ends u) → Ends s

phases_left : Phase → ℕ
phases_left serving = 3
phases_left waiting = 2
phases_left draining = 1
phases_left exited = 0

module _ {P : Type 0} where
  abbrev pub pending : Coordinator P → ℕ
  pending s = length s.rendering + length s.sending + length s.queue

  measure : Coordinator P → ℕ
  unfolding phases_left
  measure s = 3 * length s.rendering + 2 * length s.sending + length s.queue + phases_left s.phase

  length-Taken : {p : P} {ps rest : List P} → Taken p ps rest → length ps ≡ length rest + 1
  length-Taken {p} (xs, ys, e, e') =
      ap (length {A = P}) e
      ∙ omega (arith, length-append xs (p ∷ ys), length-append xs ys, ap (length {A = P}) e')

  -- a step brings the end nearer, and no new payload
  abbrev Nearer : Coordinator P → Coordinator P → Type 0
  Nearer s t = (measure t < measure s) × (pending t ≤ pending s)

  Work-Nearer : {s t : Coordinator P} → IsSafe s → Work s t → Nearer s t
  unfolding measure
  Work-Nearer v (finish p rest k e) = omega (arith, ap measure e, ap pending e, length-Taken k)
  Work-Nearer v (abandon p rest k e) = omega (arith, ap measure e, ap pending e, length-Taken k)
  Work-Nearer v (abort p rest c k e) = omega (arith, ap measure e, ap pending e, length-Taken k)
  Work-Nearer {s} v (send p rest k d l e) =
      omega (arith, ap measure e, ap pending e, length-Taken k, length-append s.queue (p ∷ []))
  Work-Nearer {s} v (send_on_closed p rest k ph e) =
      absurd (omega (arith, length-Taken k, ap (length {A = P}) (at_phase s ph v.awaited).2))
  Work-Nearer v (receive p rest ph q e) =
      omega (arith, ap measure e, ap pending e, ap (length {A = P}) q)
  Work-Nearer v (begin_drain ph c e) = omega (arith, ap measure e, ap pending e, ap phases_left ph)
  Work-Nearer v (end_wait ph c e) = omega (arith, ap measure e, ap pending e, ap phases_left ph)
  Work-Nearer v (pull p rest ph q e) =
      omega (arith, ap measure e, ap pending e, ap (length {A = P}) q)
  Work-Nearer v (close_channel ph q e) =
      omega (arith, ap measure e, ap pending e, ap phases_left ph)

  kept_closing : {s t : Coordinator P} → Work s t → t.closing ≡ s.closing
  kept_closing (finish p rest k e) = ap (λ u. u.closing) e
  kept_closing (abandon p rest k e) = ap (λ u. u.closing) e
  kept_closing (abort p rest c k e) = ap (λ u. u.closing) e
  kept_closing (send p rest k d l e) = ap (λ u. u.closing) e
  kept_closing (send_on_closed p rest k ph e) = ap (λ u. u.closing) e
  kept_closing (receive p rest ph q e) = ap (λ u. u.closing) e
  kept_closing (begin_drain ph c e) = ap (λ u. u.closing) e
  kept_closing (end_wait ph c e) = ap (λ u. u.closing) e
  kept_closing (pull p rest ph q e) = ap (λ u. u.closing) e
  kept_closing (close_channel ph q e) = ap (λ u. u.closing) e

  -- the render has ended, the client is there, and the channel has room for all that is pending
  abbrev IsClosing : Coordinator P → Type 0
  IsClosing s = IsSafe s × (s.closing ≡ true) × (s.cancelled ≡ false) × (pending s ≤ channel_cap)

  Work-IsClosing : {s t : Coordinator P} → IsClosing s → Work s t → IsClosing t
  Work-IsClosing (v, c, n, b) w = (
    Work-IsSafe n v w,
    kept_closing w ∙ c,
    kept_cancelled w ∙ n,
    omega (arith, (Work-Nearer v w).1),
  )

  abbrev CanWork : Coordinator P → Type 0
  CanWork s = (t : Coordinator P) × Work s t

  drain_on : (s : Coordinator P) → s.phase ≡ draining → CanWork s
  drain_on s ph = elim (List-cases s.queue) [
    | inl q ↦ (record s { phase = exited }, close_channel ph q refl)
    | inr (p, rest, q) ↦ (record s { queue = rest; out = s.out ++ p ∷ [] }, pull p rest ph q refl)
  ]

  wait_on : (s : Coordinator P) → s.phase ≡ waiting → pending s ≤ channel_cap → CanWork s
  wait_on s ph b = elim (List-cases s.rendering) [
    | inr (p, rest, q) ↦ (
      record s { rendering = rest; sending = p ∷ s.sending },
      finish p rest ([], rest, q, refl) refl,
    )
    | inl r ↦ elim (List-cases s.sending) [
      | inl k ↦ (record s { phase = draining }, end_wait ph (inl (r, k)) refl)
      | inr (p, rest, q) ↦ (
        record s { sending = rest; queue = s.queue ++ p ∷ [] },
        send p rest ([], rest, q, refl) (λ x. absurd (cc (sym ph ∙ x)))
            (omega (arith, ap (length {A = P}) q)) refl,
      )
    ]
  ]

  go_on :
      (ph : Phase) (s : Coordinator P) → s.phase ≡ ph → IsClosing s → (s.phase ≡ exited) ⊎ CanWork s
  go_on serving s e (v, c, n, b) = inr (record s { phase = waiting }, begin_drain e (inl c) refl)
  go_on waiting s e (v, c, n, b) = inr (wait_on s e b)
  go_on draining s e (v, c, n, b) = inr (drain_on s e)
  go_on exited s e (v, c, n, b) = inl e

  Ends-within : (k : ℕ) (s : Coordinator P) → measure s < k → IsClosing s → Ends s
  Ends-within zero s m i = absurd (omega arith)
  Ends-within (suc k) s m i = elim (go_on s.phase s refl i) [
    | inl e ↦ ended e
    | inr (t, w) ↦
        goes_on w
          (λ u w'. Ends-within k u (omega (arith, (Work-Nearer i.0 w').0)) (Work-IsClosing i w'))
  ]

  -- From any state that is reached in which the render has ended, the client is there, and at most
  -- 8 payloads are in workers and the channel, every run of the workers and the writer, in
  -- whatever order, comes to the exit of the writer, and none gets stuck before.
  pub closing-Ends :
      (s : Coordinator P)
      → Reach started s
      → s.closing ≡ true
      → s.cancelled ≡ false
      → pending s ≤ channel_cap
      → Ends s
  closing-Ends s r c n b = Ends-within (suc (measure s)) s (omega arith) (Reach-IsSafe r n, c, n, b)
