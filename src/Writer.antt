-- ===== src/Writer.antt =====
-- writer.go: the `ByteWriter` interface that every render function writes through, and what an
-- implementation promises. `Buffered` is the pooled `byteWriter`, `PerFlush` the streaming
-- `perFlushWriter` on top of any `ByteWriter`.
pub mod Bind
pub mod History
pub mod Buffered
pub mod PerFlush
use nanite_render.Prelude.{ℕ, ◌≡◌, [], ◌∷◌, ◌++◌, Bytes}

-- Go's `error`: its message.
abbrev pub Error : Type 0
Error = Bytes

-- The outcome of an operation on a writer: the state after it, with the error if one is returned.
-- `panic` is a call through a nil interface.
pub data Io (W : Type 0) : Type 0 where
  ok : W → Io W
  fail : Error → W → Io W
  panic : Io W

-- `if err != nil { return err }` between two steps.
infixl 5 ◌>>=◌
abbrev pub ◌>>=◌ : {W : Type 0} → Io W → (W → Io W) → Io W
ok w >>= f = f w
fail e w >>= f = fail e w
panic >>= f = panic

-- The methods of `ByteWriter` by which the render path writes. The count that Go returns beside
-- the error is used by no caller, and left out.
pub record ByteWriter (W : Type 0) : Type 0 where
  pub write : Bytes → W → Io W
  pub write_string : Bytes → W → Io W
  pub write_byte : ℕ → W → Io W
  pub flush : W → Io W

-- What an implementation promises: on a valid writer an operation does not panic and leaves a
-- valid writer; without an error, exactly the bytes given stand behind those written before.
-- `Fails` is what an error implies, and empty for a writer without errors.
abbrev pub Appended : {W : Type 0} → Type 0 → (W → Type 0) → (W → Bytes) → Bytes → W → Io W → Type 0
Appended Fails Valid contents p w (ok w') = Valid w' × (contents w' ≡ contents w ++ p)
Appended Fails Valid contents p w (fail e w') = Fails × Valid w'
Appended Fails Valid contents p w panic = ⊥

pub record WriterLaws {W : Type 0} (bw : ByteWriter W) : Type 1 where
  pub Fails : Type 0
  pub Valid : W → Type 0
  pub contents : W → Bytes
  pub write_lem : (p : Bytes) (w : W) → Valid w → Appended Fails Valid contents p w (bw.write p w)
  pub write_string_lem :
      (p : Bytes) (w : W) → Valid w → Appended Fails Valid contents p w (bw.write_string p w)
  pub write_byte_lem :
      (c : ℕ) (w : W) → Valid w → Appended Fails Valid contents (c ∷ []) w (bw.write_byte c w)
  pub flush_lem : (w : W) → Valid w → Appended Fails Valid contents [] w (bw.flush w)
