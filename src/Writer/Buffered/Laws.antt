-- ===== src/Writer/Buffered/Laws.antt =====
-- The pooled `byteWriter` keeps the promise of `ByteWriter`.
use nanite_render.Prelude.{
  ℕ, ◌+◌, ◌≤◌, ◌<◌, ◌≡◌, refl, sym, ap, ◌∙◌, Bool, true, false, Option, none, some, [], ◌∷◌, ◌++◌,
  append-nil, append_assoc, arith, ltb, Bool-cases, inl, inr, length, length-append, Bytes,
}
use mathlib.Core.Path.{subst}
use nanite_render.Writer.{Io, ok, fail, panic, Appended, WriterLaws}
use nanite_render.Writer.Bind.{bind_lem}
use nanite_render.Writer.Buffered.{
  Out, Buffered, signalled, passed, flush, append, store, ensure_cap, write_string, write,
  write_byte, buffered,
}

-- What `io.Writer` documents: without an error all bytes are written, in order. A flush signal
-- writes nothing.
pub record OutLaws {O : Type 0} (o : Out O) : Type 1 where
  pub Fails : Type 0
  pub sent : O → Bytes
  pub write_lem : (p : Bytes) (w : O) → Appended Fails (λ _. Unit {0}) sent p w (o.write p w)
  pub signal_lem : (w : O) → sent (o.signal w) ≡ sent w

-- The buffer is within its capacity, which is still `k`, and there is a writer behind it.
pub record IsValid {O : Type 0} (k : ℕ) (b : Buffered O) : Type 0 where
  pub room : 0 < b.cap
  pub fixed : b.cap ≡ k
  pub within : length b.buf ≤ b.cap
  pub target : O
  pub attached : b.out ≡ some target

module _ {O : Type 0} (o : Out O) (grow : ℕ → ℕ → ℕ) (laws : OutLaws o) (k : ℕ) where
  open laws use {Fails, sent, write_lem, signal_lem}

  -- The bytes written so far: those sent on, and those in the buffer.
  abbrev pub contents : Buffered O → Bytes
  contents b = elim b.out [ none ↦ b.buf | some w ↦ sent w ++ b.buf ]

  sent-signalled : (f : Bool) (w : O) → sent (signalled o grow f w) ≡ sent w
  sent-signalled true w = signal_lem w
  sent-signalled false w = refl

  abbrev pub Result : Bytes → Buffered O → Io (Buffered O) → Type 0
  Result = Appended Fails (IsValid k) contents

  passed_lem :
      (b : Buffered O) (p : Bytes) (w : O) (r : Io O)
      → 0 < b.cap
      → length b.buf ≤ b.cap
      → b.cap ≡ k
      → b.buf ≡ []
      → Appended Fails (λ _. Unit {0}) sent p w r
      → Appended Fails (IsValid k) contents p (record b { out = some w }) (passed o grow b r)
  unfolding passed
  passed_lem b p w (ok w') room within fixed empty h = (
    record {
      room = room;
      fixed = fixed;
      within = within;
      target = signalled o grow b.flusher w';
      attached = refl;
    },
    rw (empty, append-nil, append-nil, sent-signalled b.flusher w') h.1,
  )
  passed_lem b p w (fail e w') room within fixed empty h = (
    h.0,
    record {
      room = room;
      fixed = fixed;
      within = within;
      target = signalled o grow b.flusher w';
      attached = refl;
    },
  )
  passed_lem b p w panic room within fixed empty h = h

  append_lem :
      (p : Bytes) (b : Buffered O)
      → IsValid k b
      → length b.buf + length p ≤ b.cap
      → IsValid k (append o grow p b) × (contents (append o grow p b) ≡ contents b ++ p)
  unfolding append
  append_lem p b v fits = (
    record {
      room = ground arith;
      fixed = ground arith;
      within = ground (arith, length-append b.buf p);
      target = v.target;
      attached = v.attached;
    },
    rw v.attached (sym (append_assoc (sent v.target) b.buf p)),
  )

  -- From a result that appends `p` to what is sent already, to one that drains the buffer `p`.
  drained_lem :
      (p : Bytes) (b : Buffered O) (w : O) (r : Io (Buffered O))
      → Appended Fails (IsValid k) contents p (record b { buf = []; out = some w }) r
      → Appended Fails (IsValid k) contents [] (record b { buf = p; out = some w }) r
  drained_lem p b w (ok b') h =
      (h.0, h.1 ∙ ap (λ s. s ++ p) (append-nil (sent w)) ∙ sym (append-nil (sent w ++ p)))
  drained_lem p b w (fail e b') h = h
  drained_lem p b w panic h = h

  flush_to :
      (p : Bytes) (b : Buffered O) (w : O)
      → IsValid k (record b { buf = p; out = some w })
      → Result []
          (record b { buf = p; out = some w })
          (flush o grow (record b { buf = p; out = some w }))
  unfolding flush
  flush_to [] b w v = (v, sym (append-nil _))
  flush_to (c ∷ p) b w v = drained_lem (c ∷ p) b w _ (
      passed_lem (record b { buf = []; out = some w }) (c ∷ p) w (o.write (c ∷ p) w) v.room
        (omega arith) v.fixed refl (write_lem (c ∷ p) w))

  pub flush_lem : (b : Buffered O) → IsValid k b → Result [] b (flush o grow b)
  flush_lem b v =
      let Goal =
        λ (x : Option O). Result [] (record b { out = x }) (flush o grow (record b { out = x })) in
      subst Goal (sym v.attached) (
        flush_to b.buf b v.target (record {
          room = v.room;
          fixed = v.fixed;
          within = v.within;
          target = v.target;
          attached = refl;
        }))

  passed_empty :
      (b b' : Buffered O) (r : Io O) → b.buf ≡ [] → passed o grow b r ≡ ok b' → b'.buf ≡ []
  unfolding passed
  passed_empty b b' (ok w) e h = ground arith
  passed_empty b b' (fail _ w) e h = cc
  passed_empty b b' panic e h = cc

  pub empty_of_flush : (b b' : Buffered O) → IsValid k b → flush o grow b ≡ ok b' → b'.buf ≡ []
  unfolding flush
  empty_of_flush b b' v h =
      ground (arith, passed_empty (record b { buf = [] }) b' (o.write b.buf v.target) refl)

  store_to :
      (p : Bytes) (b : Buffered O) (w : O)
      → b.out ≡ some w
      → IsValid k b
      → b.buf ≡ []
      → Result p b (store o grow p b)
  unfolding store
  store_to p b w at v empty = elim (Bool-cases (ltb b.cap (length p))) [
    | inl big ↦
        rw (big, at, store)
          (passed_lem b p w (o.write p w) v.room v.within v.fixed empty (write_lem p w))
    | inr fits ↦ rw fits (append_lem p b v (ground arith))
  ]

  store_lem :
      (p : Bytes) (b : Buffered O) → IsValid k b → b.buf ≡ [] → Result p b (store o grow p b)
  store_lem p b v empty = store_to p b v.target v.attached v empty

  -- WriteString on a valid pooled writer (attached, its buffer within its capacity) does not
  -- panic, leaves a valid writer of the same capacity, and without an error the bytes sent on and
  -- buffered have grown by exactly the bytes given.
  pub write_string_lem :
      (p : Bytes) (b : Buffered O) → IsValid k b → Result p b (write_string o grow p b)
  unfolding write_string
  write_string_lem p b v = elim (Bool-cases (ltb b.cap (length b.buf + length p))) [
    | inl full ↦ rw full (
        bind_lem Fails (IsValid k) contents [] p b (flush o grow b) (store o grow p) (flush_lem b v)
          (λ b' done valid. store_lem p b' valid (empty_of_flush b b' v done)))
    | inr fits ↦ rw fits (append_lem p b v (ground arith))
  ]

  ensure_cap_lem : (b : Buffered O) → 0 < b.cap → ensure_cap o grow b ≡ b
  unfolding ensure_cap
  ensure_cap_lem b h = ground arith

  pub write-write_string :
      (p : Bytes) (b : Buffered O) → 0 < b.cap → write o grow p b ≡ write_string o grow p b
  unfolding write write_string
  write-write_string p b h = rw (ensure_cap_lem b h)

  pub write_byte_lem :
      (c : ℕ) (b : Buffered O) → IsValid k b → Result (c ∷ []) b (write_byte o grow c b)
  unfolding write_byte
  write_byte_lem c b v = elim (Bool-cases (ltb b.cap (length b.buf + 1))) [
    | inl full ↦ rw full (
        bind_lem Fails (IsValid k) contents [] (c ∷ []) b (flush o grow b)
          (λ b'. ok (append o grow (c ∷ []) b')) (flush_lem b v)
          (λ b' done valid.
            append_lem (c ∷ []) b' valid (rw (empty_of_flush b b' v done) (omega arith))))
    | inr fits ↦ rw fits (append_lem (c ∷ []) b v (ground arith))
  ]

  -- The writer as a `ByteWriter` with its promise.
  abbrev pub buffered_laws : WriterLaws (buffered o grow)
  buffered_laws = record {
    Fails = Fails;
    Valid = IsValid k;
    contents = contents;
    write_lem = λ p b v. rw (write-write_string p b v.room) (write_string_lem p b v);
    write_string_lem = write_string_lem;
    write_byte_lem = write_byte_lem;
    flush_lem = flush_lem;
  }
