-- ===== src/Suspense/Delivery.antt =====
-- No payload is lost or written twice: a count of the payloads by any weight, and the response's bytes.
use nanite_render.Prelude.{
  ℕ, ◌+◌, ◌≡◌, refl, sym, ap, ◌∙◌, false, Option, none, some, List, [], ◌∷◌, ◌++◌, arith,
}
use nanite_render.Writer.{Error}
use nanite_render.Suspense.{
  Payload, write_payload, response, exited, Coordinator, started, Taken, Work, finish, abandon,
  abort, send, send_on_closed, receive, begin_drain, end_wait, pull, close_channel, work, submit,
  close, cancel, Reach, here, later,
}
use nanite_render.Suspense.Safety.{at_phase, Reach-IsSafe}

-- the payloads that SubmitAsync was called for, the last one first
unfoldable pub submitted : {P : Type 0} {s : Coordinator P} → Reach started s → List P
submitted here = []
submitted (later r (work w)) = submitted r
submitted (later r (submit p c k e)) = p ∷ submitted r
submitted (later r (close e)) = submitted r
submitted (later r (cancel e)) = submitted r

module _ {P : Type 0} (w : P → ℕ) where
  unfoldable pub total : List P → ℕ
  total [] = 0
  total (x ∷ xs) = w x + total xs

  total-append : (xs ys : List P) → total (xs ++ ys) ≡ total xs + total ys
  unfolding total
  total-append [] ys = omega arith
  total-append (x ∷ xs) ys = omega (arith, total-append xs ys)

  abbrev everywhere : Coordinator P → ℕ
  everywhere s = total s.rendering + total s.sending + total s.queue + total s.out + total s.dropped

  total-Taken : {p : P} {ps rest : List P} → Taken p ps rest → total ps ≡ w p + total rest
  unfolding total
  total-Taken {p} (xs, ys, e, e') =
      ap total e ∙ omega (arith, total-append xs (p ∷ ys), total-append xs ys, ap total e')

  Work-everywhere : {s t : Coordinator P} → Work s t → everywhere t ≡ everywhere s
  unfolding total
  Work-everywhere (finish p rest k e) = omega (arith, ap everywhere e, total-Taken k)
  Work-everywhere (abandon p rest k e) = omega (arith, ap everywhere e, total-Taken k)
  Work-everywhere (abort p rest c k e) = omega (arith, ap everywhere e, total-Taken k)
  Work-everywhere {s} (send p rest k d l e) =
      omega (arith, ap everywhere e, total-Taken k, total-append s.queue (p ∷ []))
  Work-everywhere (send_on_closed p rest k ph e) = ap everywhere e
  Work-everywhere {s} (receive p rest ph q e) =
      omega (arith, ap everywhere e, ap total q, total-append s.out (p ∷ []))
  Work-everywhere (begin_drain ph c e) = ap everywhere e
  Work-everywhere (end_wait ph c e) = ap everywhere e
  Work-everywhere {s} (pull p rest ph q e) =
      omega (arith, ap everywhere e, ap total q, total-append s.out (p ∷ []))
  Work-everywhere (close_channel ph q e) = ap everywhere e

  total-submitted : {s : Coordinator P} (r : Reach started s) → total (submitted r) ≡ everywhere s
  unfolding total submitted
  total-submitted here = refl
  total-submitted (later r (work k)) = total-submitted r ∙ sym (Work-everywhere k)
  total-submitted (later r (submit p c k e)) = omega (arith, ap everywhere e, total-submitted r)
  total-submitted (later r (close e)) = total-submitted r ∙ sym (ap everywhere e)
  total-submitted (later r (cancel e)) = total-submitted r ∙ sym (ap everywhere e)

  out_or_dropped :
      {s : Coordinator P} (r : Reach started s)
      → s.cancelled ≡ false
      → s.phase ≡ exited
      → total (submitted r) ≡ total s.out + total s.dropped
  unfolding total
  out_or_dropped {s} r n e =
      let (c, z, k, q) = at_phase s e (Reach-IsSafe r n).awaited in
      omega (arith, total-submitted r, ap total z, ap total k, ap total q)

-- the workers whose payload has no error, and those whose has one
unfoldable pub pick : {P : Type 0} → Option Error → P → List P → List P
pick none p ps = p ∷ ps
pick (some e) p ps = ps

unfoldable pub pick_failed : {P : Type 0} → Option Error → P → List P → List P
pick_failed none p ps = ps
pick_failed (some e) p ps = p ∷ ps

-- `sent` is what each worker has sent.
module _ {P : Type 0} (sent : P → Payload) where
  unfoldable pub written : List P → List P
  written [] = []
  written (p ∷ ps) = pick (sent p).err p (written ps)

  unfoldable pub erroneous : List P → List P
  erroneous [] = []
  erroneous (p ∷ ps) = pick_failed (sent p).err p (erroneous ps)

  unfoldable pub chunks : List P → List Payload
  chunks [] = []
  chunks (p ∷ ps) = sent p ∷ chunks ps

  total-picked :
      (w : P → ℕ) (err : Option Error) (p : P) (xs ys : List P)
      → w p + (total w xs + total w ys) ≡ total w (pick err p xs) + total w (pick_failed err p ys)
  unfolding total pick pick_failed
  total-picked w none p xs ys = omega arith
  total-picked w (some e) p xs ys = omega arith

  total-written :
      (w : P → ℕ) (ps : List P) → total w ps ≡ total w (written ps) + total w (erroneous ps)
  unfolding total written erroneous
  total-written w [] = refl
  total-written w (p ∷ ps) =
      ap (λ n. w p + n) (total-written w ps)
      ∙ total-picked w (sent p).err p (written ps) (erroneous ps)

  response-picked :
      (err : Option Error) (p : P) (ps : List P)
      → (sent p).err ≡ err
      → write_payload (sent p) ++ response (chunks ps) ≡ response (chunks (pick err p ps))
  unfolding response chunks pick write_payload
  response-picked none p ps e = refl
  response-picked (some x) p ps e = rw (e, write_payload) refl

  response-written : (ps : List P) → response (chunks ps) ≡ response (chunks (written ps))
  unfolding response chunks written
  response-written [] = refl
  response-written (p ∷ ps) =
      ap (λ b. write_payload (sent p) ++ b) (response-written ps)
      ∙ response-picked (sent p).err p (written ps) refl

  -- Where the writer has exited and the client is there, the payloads submitted are those that the
  -- writer has received without an error, those that it has received with one, and those of
  -- panicked workers without a boundary, each as often: their totals are equal by any weight. What
  -- the writer sends for all that it has received, where its writes succeed, are the chunks of
  -- those without an error, in the order in which it received them.
  pub exited_delivered :
      (w : P → ℕ) {s : Coordinator P} (r : Reach started s)
      → s.cancelled ≡ false
      → s.phase ≡ exited
      → (total w (submitted r)
          ≡ total w (written s.out) + total w (erroneous s.out) + total w s.dropped)
        × (response (chunks s.out) ≡ response (chunks (written s.out)))
  exited_delivered w {s} r n e =
      (omega (arith, out_or_dropped w r n e, total-written w s.out), response-written s.out)
