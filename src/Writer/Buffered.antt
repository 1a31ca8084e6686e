-- ===== src/Writer/Buffered.antt =====
-- `byteWriter` of writer.go. The wrapped `io.Writer` and its `http.Flusher` are the parameter
-- `Out`; `grow` is the capacity that `append` picks where a slice is full.
pub mod Laws
pub mod Delivered
use nanite_render.Prelude.{
  ℕ, ◌+◌, ◌*◌, Bool, true, false, Option, none, some, [], ◌∷◌, ◌++◌, ltb, leb, ◌==◌, if◌then◌else◌,
  length, Bytes,
}
use nanite_render.Writer.{Io, ok, fail, panic, ◌>>=◌, ByteWriter}

pub record Out (O : Type 0) : Type 0 where
  pub write : Bytes → O → Io O
  -- the writer is an `http.Flusher`, too
  pub is_flusher : Bool
  pub signal : O → O

pub record Buffered (O : Type 0) : Type 0 where
  pub buf : Bytes
  pub cap : ℕ
  pub out : Option O
  pub flusher : Bool

abbrev pub initial_cap : ℕ
initial_cap = 8 * 1024

module _ {O : Type 0} (o : Out O) (grow : ℕ → ℕ → ℕ) where
  -- `AcquireWriter` on an instance of the pool
  unfoldable pub acquire : Buffered O → O → Buffered O
  acquire b w = record b { out = some w; buf = []; flusher = o.is_flusher }

  unfoldable pub release : Buffered O → Buffered O
  release b = record b { out = none }

  unfoldable pub reset : Buffered O → O → Buffered O
  reset b w = record b { out = some w; buf = []; flusher = o.is_flusher }

  unfoldable pub set_flusher : Buffered O → Bool → Buffered O
  set_flusher b f = record b { flusher = f }

  unfoldable pub bytes : Buffered O → Bytes
  bytes b = b.buf

  -- `if b.flusher != nil { b.flusher.Flush() }`
  abbrev pub signalled : Bool → O → O
  signalled f w = if f then o.signal w else w

  -- the state after `b.out.Write`, with an error or without
  unfoldable pub passed : Buffered O → Io O → Io (Buffered O)
  passed b (ok w) = ok (record b { out = some (signalled b.flusher w) })
  passed b (fail e w) = fail e (record b { out = some (signalled b.flusher w) })
  passed b panic = panic

  unfoldable pub flush : Buffered O → Io (Buffered O)
  flush b = elim b.buf [
    | [] ↦ ok b
    | c ∷ p ↦ elim b.out [ none ↦ ok b | some w ↦ passed (record b { buf = [] }) (o.write b.buf w) ]
  ]

  unfoldable pub append : Bytes → Buffered O → Buffered O
  append p b =
      let n = length b.buf + length p in
      record b { buf = b.buf ++ p; cap = if leb n b.cap then b.cap else grow b.cap n }

  -- what does not fit an empty buffer goes past it
  unfoldable pub store : Bytes → Buffered O → Io (Buffered O)
  store p b =
      if ltb b.cap (length p)
      then elim b.out [ none ↦ panic | some w ↦ passed b (o.write p w) ]
      else ok (append p b)

  unfoldable pub ensure_cap : Buffered O → Buffered O
  ensure_cap b = if b.cap == 0 then record b { buf = []; cap = initial_cap } else b

  unfoldable pub write_string : Bytes → Buffered O → Io (Buffered O)
  write_string p b =
      if ltb b.cap (length b.buf + length p) then flush b >>= store p else ok (append p b)

  unfoldable pub write : Bytes → Buffered O → Io (Buffered O)
  write p b =
      let b' = ensure_cap b in
      if ltb b'.cap (length b'.buf + length p) then flush b' >>= store p else ok (append p b')

  unfoldable pub write_byte : ℕ → Buffered O → Io (Buffered O)
  write_byte c b =
      (if ltb b.cap (length b.buf + 1) then flush b else ok b) >>= λ b'. ok (append (c ∷ []) b')

  abbrev pub buffered : ByteWriter (Buffered O)
  buffered = record {
    write = write;
    write_string = write_string;
    write_byte = write_byte;
    flush = flush;
  }
