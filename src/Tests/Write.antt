-- ===== src/Tests/Write.antt =====
-- writer.go over a `bytes.Buffer`, with buffers of four bytes.
use nanite_render.Prelude.{ℕ, ◌+◌, refl, false, none, List, [], ◌∷◌, Bytes, codes, arith}
use nanite_render.Writer.{◌>>=◌}
use nanite_render.Writer.History.{Call, perform}
use nanite_render.Writer.Buffered.{Buffered, acquire, flush, buffered}
use nanite_render.Writer.Buffered.Laws.{OutLaws}
use nanite_render.Writer.Buffered.Delivered.{Delivered, acquire-perform-flush}
use nanite_render.Writer.PerFlush.{PerFlush, write}
use nanite_render.Writer.PerFlush.Laws.{write_byte_lem, write_lem}
use nanite_render.Writer.PerFlush.Laws as PerFlushLaws
use nanite_render.Bytecode.Run.{bytes_buffer}
use nanite_render.Execute.{buffer}
use nanite_render.Tests.Render.{buffer_laws}

abbrev sink_laws : OutLaws bytes_buffer
sink_laws = record {
  Fails = ⊥;
  sent = λ w. w;
  write_lem = λ p w. (tt, refl);
  signal_lem = λ w. refl;
}

abbrev doubling : ℕ → ℕ → ℕ
doubling old n = old + n

abbrev pooled : Buffered Bytes
pooled = record { buf = codes "old"; cap = 4; out = none; flusher = false }

abbrev calls : List Call
calls =
    Call.write_string (codes "<p>")
    ∷ Call.write (codes "Hello")
    ∷ Call.write_byte b'!'
    ∷ Call.flush
    ∷ Call.write_string (codes "</p>")
    ∷ []

acquire-perform-flush_example :
    Delivered bytes_buffer doubling sink_laws (codes "<p>Hello!</p>") (codes "a") (
      perform
        (buffered bytes_buffer doubling)
        calls
        (acquire bytes_buffer doubling pooled (codes "a"))
      >>= flush bytes_buffer doubling)
acquire-perform-flush_example =
    acquire-perform-flush bytes_buffer doubling sink_laws calls pooled (codes "a") (omega arith)

abbrev streaming : PerFlush Bytes
streaming = record { parent = codes "x"; threshold = 4; buf = codes "abc" }

abbrev streaming-IsValid : PerFlushLaws.IsValid buffer_laws.Valid 4 streaming
streaming-IsValid = record { parent_valid = tt; fixed = refl; within = omega arith }

write_lem_example :
    PerFlushLaws.Result buffer buffer_laws 4
      (codes "de")
      streaming
      (write buffer (codes "de") streaming)
write_lem_example = write_lem buffer buffer_laws 4 (codes "de") streaming streaming-IsValid
