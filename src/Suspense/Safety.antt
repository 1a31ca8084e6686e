-- ===== src/Suspense/Safety.antt =====
-- While the client is there, nobody sends on the closed channel.
use mathlib.Core.Path.{subst}
use nanite_render.Prelude.{
  ◌≡◌, ◌≢◌, refl, sym, ap, ◌∙◌, ◌⊎◌, inl, inr, Bool, true, false, List, [], ◌∷◌, ◌++◌, length,
  length-append, arith,
}
use nanite_render.Suspense.{
  Phase, serving, waiting, draining, exited, Coordinator, started, Taken, Work, finish, abandon,
  abort, send, send_on_closed, receive, begin_drain, end_wait, pull, close_channel, Step, work,
  submit, close, cancel, Reach, here, later,
}

-- The writer awaits the workers before it drains and closes the channel.
abbrev pub Awaited : {P : Type 0} → Phase → Coordinator P → Type 0
Awaited serving s = Unit {0}
Awaited waiting s = s.closing ≡ true
Awaited draining s = (s.closing ≡ true) × (s.rendering ≡ []) × (s.sending ≡ [])
Awaited exited s = (s.closing ≡ true) × (s.rendering ≡ []) × (s.sending ≡ []) × (s.queue ≡ [])

pub record IsSafe {P : Type 0} (s : Coordinator P) : Type 0 where
  pub intact : s.crashed ≡ false
  pub awaited : Awaited s.phase s

pub is_there : {b : Bool} → b ≡ false → b ≢ true
is_there e e' = cc

module _ {P : Type 0} where
  pub Taken-ne-nil : {p : P} {ps rest : List P} → Taken p ps rest → ps ≢ []
  Taken-ne-nil (xs, ys, e, e') z =
      absurd (omega (arith, ap (length {A = P}) (sym z ∙ e), length-append xs (_ ∷ ys)))

  -- a worker's step where the writer is, while the client is there
  worker-Awaited :
      (ph : Phase) (s t : Coordinator P)
      → (t.closing ≡ s.closing)
      → (s.rendering ≢ []) ⊎ (s.sending ≢ [])
      → Awaited ph s
      → Awaited ph t
  worker-Awaited serving s t e busy a = tt
  worker-Awaited waiting s t e busy a = e ∙ a
  worker-Awaited draining s t e (inl d) (c, r, k) = absurd (d r)
  worker-Awaited draining s t e (inr d) (c, r, k) = absurd (d k)
  worker-Awaited exited s t e (inl d) (c, r, k, q) = absurd (d r)
  worker-Awaited exited s t e (inr d) (c, r, k, q) = absurd (d k)

  pub at_phase : (s : Coordinator P) {ph : Phase} → s.phase ≡ ph → Awaited s.phase s → Awaited ph s
  at_phase s e a = subst (λ ph. Awaited ph s) e a

  pub Work-IsSafe : {s t : Coordinator P} → s.cancelled ≡ false → IsSafe s → Work s t → IsSafe t
  Work-IsSafe {s} n v (finish p rest k e) = subst IsSafe (sym e) (record {
    intact = v.intact;
    awaited = worker-Awaited s.phase s _ refl (inl (Taken-ne-nil k)) v.awaited;
  })
  Work-IsSafe {s} n v (abandon p rest k e) = subst IsSafe (sym e) (record {
    intact = v.intact;
    awaited = worker-Awaited s.phase s _ refl (inl (Taken-ne-nil k)) v.awaited;
  })
  Work-IsSafe {s} n v (abort p rest c k e) = absurd (is_there n c)
  Work-IsSafe {s} n v (send p rest k d l e) = subst IsSafe (sym e) (record {
    intact = v.intact;
    awaited = worker-Awaited s.phase s _ refl (inr (Taken-ne-nil k)) v.awaited;
  })
  Work-IsSafe {s} n v (send_on_closed p rest k ph e) =
      absurd (Taken-ne-nil k (at_phase s ph v.awaited).2)
  Work-IsSafe {s} n v (receive p rest ph q e) = subst IsSafe (sym e) (record {
    intact = v.intact;
    awaited = subst (λ x. Awaited x (record s { queue = rest; out = s.out ++ p ∷ [] })) (sym ph) tt;
  })
  Work-IsSafe {s} n v (begin_drain ph (inl c) e) =
      subst IsSafe (sym e) (record { intact = v.intact; awaited = c })
  Work-IsSafe {s} n v (begin_drain ph (inr c) e) = absurd (is_there n c)
  Work-IsSafe {s} n v (end_wait ph (inl (r, k)) e) =
      subst IsSafe (sym e) (record { intact = v.intact; awaited = (at_phase s ph v.awaited, r, k) })
  Work-IsSafe {s} n v (end_wait ph (inr c) e) = absurd (is_there n c)
  Work-IsSafe {s} n v (pull p rest ph q e) = subst IsSafe (sym e) (record {
    intact = v.intact;
    awaited =
        subst (λ x. Awaited x (record s { queue = rest; out = s.out ++ p ∷ [] })) (sym ph)
          (at_phase s ph v.awaited);
  })
  Work-IsSafe {s} n v (close_channel ph q e) =
      let (c, r, k) = at_phase s ph v.awaited in
      subst IsSafe (sym e) (record { intact = v.intact; awaited = (c, r, k, q) })

  pub kept_cancelled : {s t : Coordinator P} → Work s t → t.cancelled ≡ s.cancelled
  kept_cancelled (finish p rest k e) = ap (λ u. u.cancelled) e
  kept_cancelled (abandon p rest k e) = ap (λ u. u.cancelled) e
  kept_cancelled (abort p rest c k e) = ap (λ u. u.cancelled) e
  kept_cancelled (send p rest k d l e) = ap (λ u. u.cancelled) e
  kept_cancelled (send_on_closed p rest k ph e) = ap (λ u. u.cancelled) e
  kept_cancelled (receive p rest ph q e) = ap (λ u. u.cancelled) e
  kept_cancelled (begin_drain ph c e) = ap (λ u. u.cancelled) e
  kept_cancelled (end_wait ph c e) = ap (λ u. u.cancelled) e
  kept_cancelled (pull p rest ph q e) = ap (λ u. u.cancelled) e
  kept_cancelled (close_channel ph q e) = ap (λ u. u.cancelled) e

  there_before : {s t : Coordinator P} → Step s t → t.cancelled ≡ false → s.cancelled ≡ false
  there_before (work w) n = sym (kept_cancelled w) ∙ n
  there_before (submit p c k e) n = k
  there_before (close e) n = sym (ap (λ u. u.cancelled) e) ∙ n
  there_before (cancel e) n = absurd (is_there n (ap (λ u. u.cancelled) e))

  submit-Awaited :
      (ph : Phase) (p : P) (s : Coordinator P)
      → s.closing ≡ false
      → Awaited ph s
      → Awaited ph (record s { rendering = p ∷ s.rendering })
  submit-Awaited serving p s c a = tt
  submit-Awaited waiting p s c a = a
  submit-Awaited draining p s c a = absurd (is_there c a.0)
  submit-Awaited exited p s c a = absurd (is_there c a.0)

  close-Awaited :
      (ph : Phase) (s : Coordinator P) → Awaited ph s → Awaited ph (record s { closing = true })
  close-Awaited serving s a = tt
  close-Awaited waiting s a = refl
  close-Awaited draining s (c, r, k) = (refl, r, k)
  close-Awaited exited s (c, r, k, q) = (refl, r, k, q)

  Step-IsSafe :
      {s t : Coordinator P}
      → s.cancelled ≡ false
      → t.cancelled ≡ false
      → IsSafe s
      → Step s t
      → IsSafe t
  Step-IsSafe n m v (work w) = Work-IsSafe n v w
  Step-IsSafe {s} n m v (submit p c k e) =
      subst IsSafe (sym e)
        (record { intact = v.intact; awaited = submit-Awaited s.phase p s c v.awaited })
  Step-IsSafe {s} n m v (close e) =
      subst IsSafe (sym e)
        (record { intact = v.intact; awaited = close-Awaited s.phase s v.awaited })
  Step-IsSafe n m v (cancel e) = absurd (is_there m (ap (λ u. u.cancelled) e))

  -- In every state that is reached while the client is there, nobody has sent on the closed
  -- channel, and the writer drains and closes it only when the render has ended and all workers
  -- are done.
  pub Reach-IsSafe : {s : Coordinator P} → Reach started s → s.cancelled ≡ false → IsSafe s
  Reach-IsSafe here n = record { intact = refl; awaited = tt }
  Reach-IsSafe (later r st) n =
      Step-IsSafe (there_before st n) n (Reach-IsSafe r (there_before st n)) st
