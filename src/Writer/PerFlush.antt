-- ===== src/Writer/PerFlush.antt =====
-- `perFlushWriter` of writer.go: the streaming writer of `RenderStream`. It gathers up to
-- `threshold` bytes, and then writes them to its parent and flushes that.
pub mod Laws
use nanite_render.Prelude.{
  ℕ, ◌+◌, Option, none, some, [], ◌∷◌, ◌++◌, ltb, leb, ◌==◌, if◌then◌else◌, length, Bytes, ℤ, pos,
  negsuc, ◌⊎◌, inl, inr,
}
use nanite_render.Writer.{Io, ok, fail, panic, ◌>>=◌, ByteWriter}

pub record PerFlush (P : Type 0) : Type 0 where
  pub parent : P
  pub threshold : ℕ
  pub buf : Bytes

module _ {P : Type 0} (bw : ByteWriter P) where
  -- `AcquirePerFlushWriter` with a parent; a negative threshold counts as 0.
  unfoldable pub acquire : P → ℤ → PerFlush P
  acquire parent (pos n) = record { parent = parent; threshold = n; buf = [] }
  acquire parent (negsuc n) = record { parent = parent; threshold = 0; buf = [] }

  -- `Reset`: the new parent is a ByteWriter, or a plain writer, which `acquire_writer` wraps. What is
  -- gathered stays.
  unfoldable pub reset : {U : Type 0} → (U → P) → P ⊎ U → PerFlush P → PerFlush P
  reset acquire_writer (inl parent) w = record w { parent = parent }
  reset acquire_writer (inr plain) w = record w { parent = acquire_writer plain }

  -- a call on the parent, and the wrapper after it
  abbrev pub lift : PerFlush P → Io P → Io (PerFlush P)
  lift w (ok p) = ok (record w { parent = p })
  lift w (fail e p) = fail e (record w { parent = p })
  lift w panic = panic

  abbrev pub flush_parent : PerFlush P → Io (PerFlush P)
  flush_parent w = lift w (bw.flush w.parent)

  unfoldable pub flush_to_parent : PerFlush P → Io (PerFlush P)
  flush_to_parent w = elim w.buf [
    | [] ↦ ok w
    | c ∷ s ↦ lift w (bw.write w.buf w.parent) >>= λ w'. flush_parent (record w' { buf = [] })
  ]

  -- `Write` and `WriteString` differ in the parent's method alone.
  unfoldable pub write_by : (Bytes → P → Io P) → Bytes → PerFlush P → Io (PerFlush P)
  write_by parent_write s w =
      if w.threshold == 0
      then lift w (parent_write s w.parent)
      else if leb w.threshold (length s)
      then flush_to_parent w >>= (λ w'. lift w' (parent_write s w'.parent) >>= flush_parent)
      else (if ltb w.threshold (length w.buf + length s) then flush_to_parent w else ok w) >>= λ w'.
          ok (record w' { buf = w'.buf ++ s })

  unfoldable pub write : Bytes → PerFlush P → Io (PerFlush P)
  write = write_by bw.write

  unfoldable pub write_string : Bytes → PerFlush P → Io (PerFlush P)
  write_string = write_by bw.write_string

  unfoldable pub write_byte : ℕ → PerFlush P → Io (PerFlush P)
  write_byte c w =
      if w.threshold == 0
      then lift w (bw.write_byte c w.parent)
      else (if ltb w.threshold (length w.buf + 1) then flush_to_parent w else ok w) >>= λ w'.
          ok (record w' { buf = w'.buf ++ c ∷ [] })

  unfoldable pub flush : PerFlush P → Io (PerFlush P)
  flush w = flush_to_parent w >>= flush_parent

  abbrev pub dropped : Io P → Io P
  dropped (ok p) = ok p
  dropped (fail e p) = ok p
  dropped panic = panic

  -- `ReleasePerFlushWriter`: errors of the parent are dropped. The result is the parent.
  unfoldable pub release : PerFlush P → Io P
  release w = (elim w.buf [ [] ↦ ok w.parent | c ∷ s ↦ dropped (bw.write w.buf w.parent) ]) >>= λ p.
      dropped (bw.flush p)

  unfoldable pub bytes : PerFlush P → Bytes
  bytes w = w.buf

  abbrev pub per_flush : ByteWriter (PerFlush P)
  per_flush = record {
    write = write;
    write_string = write_string;
    write_byte = write_byte;
    flush = flush;
  }
