-- ===== src/Writer/History.antt =====
-- Sequences of calls of a `ByteWriter`, as the render functions make them: the first error ends the
-- sequence.
use nanite_render.Prelude.{ℕ, sym, List, [], ◌∷◌, ◌++◌, append-nil, Bytes}
use nanite_render.Writer.{Io, ok, ◌>>=◌, ByteWriter, Appended, WriterLaws}
use nanite_render.Writer.Bind.{bind_lem}

pub data Call : Type 0 where
  write : Bytes → Call
  write_string : Bytes → Call
  write_byte : ℕ → Call
  flush : Call

-- the bytes of the calls, in order
abbrev pub payload : List Call → Bytes
payload [] = []
payload (write p ∷ cs) = p ++ payload cs
payload (write_string p ∷ cs) = p ++ payload cs
payload (write_byte c ∷ cs) = (c ∷ []) ++ payload cs
payload (flush ∷ cs) = payload cs

module _ {W : Type 0} (bw : ByteWriter W) where
  abbrev pub perform : List Call → W → Io W
  perform [] w = ok w
  perform (write p ∷ cs) w = bw.write p w >>= perform cs
  perform (write_string p ∷ cs) w = bw.write_string p w >>= perform cs
  perform (write_byte c ∷ cs) w = bw.write_byte c w >>= perform cs
  perform (flush ∷ cs) w = bw.flush w >>= perform cs

  module _ (laws : WriterLaws bw) where
    pub perform_lem :
        (cs : List Call) (w : W)
        → laws.Valid w
        → Appended laws.Fails laws.Valid laws.contents (payload cs) w (perform cs w)
    perform_lem [] w v = (v, sym (append-nil _))
    perform_lem (write p ∷ cs) w v =
        bind_lem laws.Fails laws.Valid laws.contents p (payload cs) w _ (perform cs)
          (laws.write_lem p w v) (λ w' _ v'. perform_lem cs w' v')
    perform_lem (write_string p ∷ cs) w v =
        bind_lem laws.Fails laws.Valid laws.contents p (payload cs) w _ (perform cs)
          (laws.write_string_lem p w v) (λ w' _ v'. perform_lem cs w' v')
    perform_lem (write_byte c ∷ cs) w v =
        bind_lem laws.Fails laws.Valid laws.contents (c ∷ []) (payload cs) w _ (perform cs)
          (laws.write_byte_lem c w v) (λ w' _ v'. perform_lem cs w' v')
    perform_lem (flush ∷ cs) w v =
        bind_lem laws.Fails laws.Valid laws.contents [] (payload cs) w _ (perform cs)
          (laws.flush_lem w v) (λ w' _ v'. perform_lem cs w' v')
