-- ===== src/Writer/Buffered/Delivered.antt =====
-- What reaches the wrapped `io.Writer` between `AcquireWriter` and the last `Flush`.
use nanite_render.Prelude.{
  ℕ, ◌<◌, ◌≡◌, refl, sym, ◌∙◌, ap, some, List, [], ◌++◌, append-nil, arith, Bytes,
}
use nanite_render.Writer.{Io, ok, fail, panic, ◌>>=◌}
use nanite_render.Writer.History.{Call, payload, perform, perform_lem}
use nanite_render.Writer.Buffered.{Out, Buffered, acquire, flush, buffered}
use nanite_render.Writer.Buffered.Laws.{
  OutLaws, IsValid, Result, contents, buffered_laws, flush_lem, empty_of_flush,
}

module _ {O : Type 0} (o : Out O) (grow : ℕ → ℕ → ℕ) (laws : OutLaws o) where
  -- The wrapped writer has got `p` behind what it had, or there was an error.
  abbrev pub Delivered : Bytes → O → Io (Buffered O) → Type 0
  Delivered p w (ok b) = (w' : O) × (b.out ≡ some w') × (laws.sent w' ≡ laws.sent w ++ p)
  Delivered p w (fail e b) = laws.Fails
  Delivered p w panic = ⊥

  module _ (k : ℕ) where
    contents_sent :
        (b : Buffered O) (w' : O)
        → b.buf ≡ []
        → b.out ≡ some w'
        → contents o grow laws k b ≡ laws.sent w'
    contents_sent b w' e e' = rw (e', e) (append-nil (laws.sent w'))

    flushed_lem :
        (p : Bytes) (w : O) (b b' : Buffered O) (r : Io (Buffered O))
        → contents o grow laws k b ≡ laws.sent w ++ p
        → IsValid k b
        → flush o grow b ≡ r
        → Result o grow laws k [] b r
        → Delivered p w r
    flushed_lem p w b b' (ok c) e v done h =
        let v' : IsValid k c = h.0 in
        (
          v'.target,
          v'.attached,
          sym (contents_sent c v'.target (empty_of_flush o grow laws k b c v done) v'.attached)
              ∙ h.1
              ∙ append-nil _
              ∙ e,
        )
    flushed_lem p w b b' (fail _ c) e v done h = h.0
    flushed_lem p w b b' panic e v done h = h

    finish_lem :
        (p : Bytes) (w : O) (b : Buffered O) (r : Io (Buffered O))
        → contents o grow laws k b ≡ laws.sent w
        → Result o grow laws k p b r
        → Delivered p w (r >>= flush o grow)
    finish_lem p w b (ok c) e h =
        flushed_lem p w c c (flush o grow c) (h.1 ∙ ap (λ s. s ++ p) e) h.0 refl
          (flush_lem o grow laws k c h.0)
    finish_lem p w b (fail _ c) e h = h.0
    finish_lem p w b panic e h = h

  acquire-IsValid :
      (pooled : Buffered O) (w : O) → 0 < pooled.cap → IsValid pooled.cap (acquire o grow pooled w)
  unfolding acquire
  acquire-IsValid pooled w h = record {
    room = h;
    fixed = refl;
    within = omega arith;
    target = w;
    attached = refl;
  }

  acquired_sent :
      (k : ℕ) (pooled : Buffered O) (w : O)
      → contents o grow laws k (acquire o grow pooled w) ≡ laws.sent w
  unfolding acquire
  acquired_sent k pooled w = append-nil (laws.sent w)

  -- Any calls on a pooled writer of a capacity above 0 after AcquireWriter, and a last Flush, do
  -- not panic, and if there is no error, exactly their bytes, in order, have been sent on behind
  -- what the wrapped writer had got before.
  pub acquire-perform-flush :
      (cs : List Call) (pooled : Buffered O) (w : O)
      → 0 < pooled.cap
      → Delivered
          (payload cs)
          w
          (perform (buffered o grow) cs (acquire o grow pooled w) >>= flush o grow)
  acquire-perform-flush cs pooled w h =
      finish_lem pooled.cap (payload cs) w (acquire o grow pooled w) _
        (acquired_sent pooled.cap pooled w)
        (perform_lem (buffered o grow) (buffered_laws o grow laws pooled.cap) cs _
          (acquire-IsValid pooled w h))
