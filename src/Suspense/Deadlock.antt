-- ===== src/Suspense/Deadlock.antt =====
-- One payload more than the channel holds, at the end of the render: the writer awaits the worker, and
-- the worker the writer.
use nanite_render.Prelude.{
  ◌+◌, ◌≤◌, ◌≡◌, refl, sym, ◌⊎◌, inl, inr, true, false, List, [], ◌∷◌, ◌++◌, append_assoc,
  append-nil, length, length-append, arith,
}
use mathlib.Core.Path.{subst}
use nanite_render.Suspense.{
  waiting, draining, exited, channel_cap, Coordinator, started, finish, abandon, abort, send,
  send_on_closed, receive, begin_drain, end_wait, pull, close_channel, Step, work, submit, close,
  cancel, Reach, here, later,
}
use nanite_render.Suspense.Safety.{Taken-ne-nil}

module _ {P : Type 0} where
  reach_trans : {s t u : Coordinator P} → Reach s t → Reach t u → Reach s u
  reach_trans r here = r
  reach_trans r (later k st) = later (reach_trans r k) st

  -- a render with a queue before it has ended
  abbrev queued : List P → Coordinator P
  queued q = record started { queue = q }

  fills :
      (q0 q : List P) → length q0 + length q ≤ channel_cap → Reach (queued q0) (queued (q0 ++ q))
  fills q0 [] b = subst (λ q. Reach (queued q0) (queued q)) (sym (append-nil q0)) here
  fills q0 (p ∷ q) b =
      let first : Reach (queued q0) (queued (q0 ++ p ∷ [])) =
        later
          (later (later here (submit p refl refl refl))
            (work (finish p [] ([], [], refl, refl) refl)))
          (work (send p [] ([], [], refl, refl) (λ e. absurd (cc e)) (omega arith) refl)) in
      let rest = fills (q0 ++ p ∷ []) q (omega (arith, length-append q0 (p ∷ []))) in
      subst (λ t. Reach (queued q0) (queued t)) (append_assoc q0 (p ∷ []) q)
        (reach_trans first rest)

  -- the writer in drain, and a worker that has rendered `p`
  abbrev pub stuck : List P → P → Coordinator P
  stuck q p = record {
    rendering = [];
    sending = p ∷ [];
    queue = q;
    out = [];
    dropped = [];
    phase = waiting;
    closing = true;
    cancelled = false;
    crashed = false;
  }

  stuck_reached : (q : List P) (p : P) → length q ≡ channel_cap → Reach started (stuck q p)
  stuck_reached q p full =
      later
        (later
          (later (later (fills [] q (omega (arith, full))) (submit p refl refl refl))
            (work (finish p [] ([], [], refl, refl) refl)))
          (close refl))
        (work (begin_drain refl (inl refl) refl))

  -- only the client can move it
  abbrev pub OnlyCancel : Coordinator P → Coordinator P → Type 0
  OnlyCancel s t = (t ≡ s) ⊎ (t ≡ record s { cancelled = true })

  stuck_steps :
      (q : List P) (p : P)
      → length q ≡ channel_cap
      → (t : Coordinator P) → Step (stuck q p) t
      → OnlyCancel (stuck q p) t
  stuck_steps q p full t (work (finish x rest k e)) = absurd (Taken-ne-nil k refl)
  stuck_steps q p full t (work (abandon x rest k e)) = absurd (Taken-ne-nil k refl)
  stuck_steps q p full t (work (abort x rest c k e)) = absurd (cc c)
  stuck_steps q p full t (work (send x rest k d l e)) = absurd (omega (arith, full))
  stuck_steps q p full t (work (send_on_closed x rest k ph e)) = absurd (cc ph)
  stuck_steps q p full t (work (receive x rest ph z e)) = absurd (cc ph)
  stuck_steps q p full t (work (begin_drain ph c e)) = absurd (cc ph)
  stuck_steps q p full t (work (end_wait ph (inl (r, k)) e)) = absurd (cc k)
  stuck_steps q p full t (work (end_wait ph (inr c) e)) = absurd (cc c)
  stuck_steps q p full t (work (pull x rest ph z e)) = absurd (cc ph)
  stuck_steps q p full t (work (close_channel ph z e)) = absurd (cc ph)
  stuck_steps q p full t (submit x c k e) = absurd (cc c)
  stuck_steps q p full t (close e) = inl e
  stuck_steps q p full t (cancel e) = inr e

  -- the client gone, with some of the queue written
  abbrev drained : List P → List P → P → Coordinator P
  drained q out p = record (stuck q p) { out = out; cancelled = true; phase = draining }

  pulls : (q out : List P) (p : P) → Reach (drained q out p) (drained [] (out ++ q) p)
  pulls [] out p =
      subst (λ o. Reach (drained [] out p) (drained [] o p)) (sym (append-nil out)) here
  pulls (x ∷ q) out p =
      subst (λ o. Reach (drained (x ∷ q) out p) (drained [] o p)) (append_assoc out (x ∷ []) q)
        (reach_trans (later here (work (pull x q refl refl refl))) (pulls q (out ++ x ∷ []) p))

  abbrev pub crash : List P → P → Coordinator P
  crash q p = record (stuck [] p) { out = q; cancelled = true; phase = exited; crashed = true }

  crash_reached : (q : List P) (p : P) → Reach (stuck q p) (crash q p)
  crash_reached q p =
      later
        (later
          (reach_trans (later (later here (cancel refl)) (work (end_wait refl (inr refl) refl)))
            (pulls q [] p))
          (work (close_channel refl refl refl)))
        (work (send_on_closed p [] ([], [], refl, refl) refl refl))

  -- Where the channel is full and one more worker wants to send when the render ends, a state that
  -- is reached, each possible step but a second close, which changes nothing, is the client's
  -- going away; and after that a run leads to the panic of a send on the closed channel.
  pub stuck_lem :
      (q : List P) (p : P) (t : Coordinator P)
      → length q ≡ channel_cap
      → Step (stuck q p) t
      → Reach started (stuck q p) × OnlyCancel (stuck q p) t × Reach (stuck q p) (crash q p)
  stuck_lem q p t full st = (stuck_reached q p full, stuck_steps q p full t st, crash_reached q p)
