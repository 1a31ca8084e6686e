-- ===== src/Writer/PerFlush/Laws.antt =====
-- `perFlushWriter` keeps the promise of `ByteWriter` where its parent does, and holds back at most
-- `threshold` bytes.
use mathlib.Core.Path.{subst}
use nanite_render.Prelude.{
  ℕ, ◌+◌, ◌≤◌, ◌≡◌, refl, sym, ◌∙◌, inl, inr, [], ◌∷◌, ◌++◌, append-nil, append_assoc, arith, ltb,
  leb, ◌==◌, if◌then◌else◌, Bool-cases, length, length-append, Bytes,
}
use nanite_render.Writer.{Io, ok, fail, panic, ◌>>=◌, ByteWriter, Appended, WriterLaws}
use nanite_render.Writer.Bind.{moved, bind_lem}
use nanite_render.Writer.PerFlush.{
  PerFlush, lift, flush_parent, flush_to_parent, write_by, write, write_string, write_byte, flush,
  per_flush,
}

pub record IsValid {P : Type 0} (ParentValid : P → Type 0) (t : ℕ) (w : PerFlush P) : Type 0 where
  pub parent_valid : ParentValid w.parent
  pub fixed : w.threshold ≡ t
  pub within : length w.buf ≤ t

module _ {P : Type 0} (bw : ByteWriter P) (laws : WriterLaws bw) (t : ℕ) where
  abbrev pub contents : PerFlush P → Bytes
  contents w = laws.contents w.parent ++ w.buf

  abbrev pub Result : Bytes → PerFlush P → Io (PerFlush P) → Type 0
  Result = Appended laws.Fails (IsValid laws.Valid t) contents

  abbrev pub Valid : PerFlush P → Type 0
  Valid = IsValid laws.Valid t

  -- A call on the parent with an empty buffer.
  lift_lem :
      (s : Bytes) (w : PerFlush P) (r : Io P)
      → Valid w
      → w.buf ≡ []
      → Appended laws.Fails laws.Valid laws.contents s w.parent r
      → Result s w (lift bw w r)
  lift_lem s w (ok p) v empty h = (
    record { parent_valid = h.0; fixed = v.fixed; within = v.within },
    rw (empty, append-nil, append-nil) h.1,
  )
  lift_lem s w (fail e p) v empty h =
      (h.0, record { parent_valid = h.1; fixed = v.fixed; within = v.within })
  lift_lem s w panic v empty h = h

  flush_parent_lem : (w : PerFlush P) → Valid w → w.buf ≡ [] → Result [] w (flush_parent bw w)
  flush_parent_lem w v empty =
      lift_lem [] w (bw.flush w.parent) v empty (laws.flush_lem w.parent v.parent_valid)

  drained_lem :
      (w : PerFlush P) (r : Io P)
      → Valid w
      → Appended laws.Fails laws.Valid laws.contents w.buf w.parent r
      → Result [] w (lift bw w r >>= λ w'. flush_parent bw (record w' { buf = [] }))
  drained_lem w (ok p) v h =
      let w' : PerFlush P = record w { parent = p; buf = [] } in
      let v' : Valid w' = record { parent_valid = h.0; fixed = v.fixed; within = omega arith } in
      moved laws.Fails Valid contents [] [] w w' (flush_parent bw w')
        (append-nil _ ∙ h.1 ∙ sym (append-nil _)) (flush_parent_lem w' v' refl)
  drained_lem w (fail e p) v h =
      (h.0, record { parent_valid = h.1; fixed = v.fixed; within = v.within })
  drained_lem w panic v h = h

  flush_to_parent_of :
      (s : Bytes) (w : PerFlush P)
      → Valid (record w { buf = s })
      → Result [] (record w { buf = s }) (flush_to_parent bw (record w { buf = s }))
  unfolding flush_to_parent
  flush_to_parent_of [] w v = (v, sym (append-nil _))
  flush_to_parent_of (c ∷ s) w v =
      drained_lem (record w { buf = c ∷ s }) (bw.write (c ∷ s) w.parent) v
        (laws.write_lem (c ∷ s) w.parent v.parent_valid)

  pub flush_to_parent_lem : (w : PerFlush P) → Valid w → Result [] w (flush_to_parent bw w)
  flush_to_parent_lem w v = flush_to_parent_of w.buf w v

  lift_empty : (w w' : PerFlush P) (r : Io P) → w.buf ≡ [] → lift bw w r ≡ ok w' → w'.buf ≡ []
  lift_empty w w' (ok p) e h = ground arith
  lift_empty w w' (fail _ p) e h = cc
  lift_empty w w' panic e h = cc

  drained_empty :
      (w w' : PerFlush P) (r : Io P)
      → (lift bw w r >>= λ x. flush_parent bw (record x { buf = [] })) ≡ ok w'
      → w'.buf ≡ []
  drained_empty w w' (ok p) h =
      lift_empty (record w { parent = p; buf = [] }) w' (bw.flush p) refl h
  drained_empty w w' (fail _ p) h = cc
  drained_empty w w' panic h = cc

  empty_of_flush :
      (s : Bytes) (w w' : PerFlush P)
      → flush_to_parent bw (record w { buf = s }) ≡ ok w'
      → w'.buf ≡ []
  unfolding flush_to_parent
  empty_of_flush [] w w' h = ground arith
  empty_of_flush (c ∷ s) w w' h =
      drained_empty (record w { buf = c ∷ s }) w' (bw.write (c ∷ s) w.parent) h

  append_lem :
      (s : Bytes) (w : PerFlush P)
      → Valid w
      → length w.buf + length s ≤ t
      → Result s w (ok (record w { buf = w.buf ++ s }))
  append_lem s w v fits = (
    record {
      parent_valid = v.parent_valid;
      fixed = v.fixed;
      within = omega (arith, length-append w.buf s);
    },
    sym (append_assoc (laws.contents w.parent) w.buf s),
  )

  -- Room is made first where `n` more bytes would pass the threshold.
  abbrev make_room : ℕ → PerFlush P → Io (PerFlush P)
  make_room n w = if ltb w.threshold (length w.buf + n) then flush_to_parent bw w else ok w

  gather_lem :
      (s : Bytes) (w : PerFlush P)
      → Valid w
      → length s ≤ t
      → Result s w (make_room (length s) w >>= λ w'. ok (record w' { buf = w'.buf ++ s }))
  gather_lem s w v small = elim (Bool-cases (ltb w.threshold (length w.buf + length s))) [
    | inl over ↦ rw over (
        bind_lem laws.Fails Valid contents [] s w (flush_to_parent bw w)
          (λ w'. ok (record w' { buf = w'.buf ++ s })) (flush_to_parent_lem w v)
          (λ w' done v'. append_lem s w' v' (rw (empty_of_flush w.buf w w' done) (omega arith))))
    | inr fits ↦ rw fits (append_lem s w v (ground (arith, v.fixed)))
  ]

  -- What is as large as the threshold goes past the empty buffer.
  past_lem :
      (s : Bytes) (w : PerFlush P) (r : Io P)
      → Valid w
      → w.buf ≡ []
      → Appended laws.Fails laws.Valid laws.contents s w.parent r
      → Result s w (lift bw w r >>= flush_parent bw)
  past_lem s w r v empty h =
      subst (λ x. Result x w (lift bw w r >>= flush_parent bw)) (append-nil s)
        (bind_lem laws.Fails Valid contents s [] w (lift bw w r) (flush_parent bw)
          (lift_lem s w r v empty h)
          (λ w' e v'. flush_parent_lem w' v' (lift_empty w w' r empty e)))

  empty_of_length : (s : Bytes) → length s ≤ 0 → s ≡ []
  empty_of_length [] h = refl
  empty_of_length (c ∷ s) h = absurd (omega arith)

  write_by_lem :
      (parent_write : Bytes → P → Io P) (s : Bytes) (w : PerFlush P)
      → ((p : P)
          → laws.Valid p
          → Appended laws.Fails laws.Valid laws.contents s p (parent_write s p))
      → Valid w
      → Result s w (write_by bw parent_write s w)
  unfolding write_by
  write_by_lem parent_write s w law v = elim (Bool-cases (w.threshold == 0)) [
    | inl off ↦ rw off (
        lift_lem s w (parent_write s w.parent) v (empty_of_length w.buf (ground (arith, v.fixed)))
          (law w.parent v.parent_valid))
    | inr on ↦ elim (Bool-cases (leb w.threshold (length s))) [
      | inl large ↦
          rw (on, large)
            (bind_lem laws.Fails Valid contents [] s w (flush_to_parent bw w)
              (λ w'. lift bw w' (parent_write s w'.parent) >>= flush_parent bw)
              (flush_to_parent_lem w v)
              (λ w' done v'.
                past_lem s w' (parent_write s w'.parent) v' (empty_of_flush w.buf w w' done)
                  (law w'.parent v'.parent_valid)))
      | inr small ↦ rw (on, small) (gather_lem s w v (ground (arith, v.fixed)))
    ]
  ]

  -- Write on a streaming writer with at most t bytes in its buffer, t its threshold, over a parent
  -- that keeps its promise does not panic, leaves at most t bytes in the buffer, and without an
  -- error the parent's bytes and the buffer have grown by exactly the bytes given.
  pub write_lem : (s : Bytes) (w : PerFlush P) → Valid w → Result s w (write bw s w)
  unfolding write
  write_lem s w v = write_by_lem bw.write s w (laws.write_lem s) v

  pub write_string_lem : (s : Bytes) (w : PerFlush P) → Valid w → Result s w (write_string bw s w)
  unfolding write_string
  write_string_lem s w v = write_by_lem bw.write_string s w (laws.write_string_lem s) v

  -- WriteByte on a streaming writer with at most t bytes in its buffer, t its threshold, over a
  -- parent that keeps its promise does not panic, leaves at most t bytes in the buffer, and
  -- without an error the parent's bytes and the buffer have grown by exactly that byte.
  pub write_byte_lem : (c : ℕ) (w : PerFlush P) → Valid w → Result (c ∷ []) w (write_byte bw c w)
  unfolding write_byte
  write_byte_lem c w v = elim (Bool-cases (w.threshold == 0)) [
    | inl off ↦ rw off (
        lift_lem (c ∷ []) w (bw.write_byte c w.parent) v
          (empty_of_length w.buf (ground (arith, v.fixed)))
          (laws.write_byte_lem c w.parent v.parent_valid))
    | inr on ↦ rw on (gather_lem (c ∷ []) w v (ground (arith, v.fixed)))
  ]

  pub flush_lem : (w : PerFlush P) → Valid w → Result [] w (flush bw w)
  unfolding flush
  flush_lem w v =
      bind_lem laws.Fails Valid contents [] [] w (flush_to_parent bw w) (flush_parent bw)
        (flush_to_parent_lem w v)
        (λ w' done v'. flush_parent_lem w' v' (empty_of_flush w.buf w w' done))

  abbrev pub per_flush_laws : WriterLaws (per_flush bw)
  per_flush_laws = record {
    Fails = laws.Fails;
    Valid = Valid;
    contents = contents;
    write_lem = write_lem;
    write_string_lem = write_string_lem;
    write_byte_lem = write_byte_lem;
    flush_lem = flush_lem;
  }
