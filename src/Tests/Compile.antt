-- ===== src/Tests/Compile.antt =====
-- bytecode.go on a parsed page.
use nanite_render.Prelude.{ℕ, ◌≡◌, ◌+◌, ◌^◌, ◌%◌, some, List, [], Bytes, arith, false}
use nanite_render.Writer.{Io, ok, ByteWriter}
use nanite_render.Writer.Buffered.{Buffered}
use nanite_render.Escape.Laws.{Result}
use nanite_render.Execute.{buffer}
use nanite_render.Bytecode.{Bytecode, compile_bytecode}
use nanite_render.Bytecode.Inst.{inst, op_of, arg1_of, arg2_of, inst_fields}
use nanite_render.Bytecode.Run.{Slots, exec}
use nanite_render.Bytecode.Output.{compile-exec}
use nanite_render.Tests.Render.{page, page_text, page_html, buffer_laws}

abbrev no_dispatch : (W : Type 0) → ByteWriter W → Bytes → List Bytes → Slots → W → Io W
no_dispatch W bw name children slots w = ok w

abbrev doubling : ℕ → ℕ → ℕ
doubling old n = old + n

abbrev pooled : Buffered Bytes
pooled = record { buf = []; cap = 8; out = some []; flusher = false }

compile-exec_example :
    (bc : Bytecode) × (compile_bytecode page ≡ some bc)
    × Result buffer buffer_laws page_text [] (exec no_dispatch doubling pooled Bytes buffer bc [])
compile-exec_example =
    compile-exec buffer buffer_laws no_dispatch doubling pooled page page_text [] tt page_html
      (omega arith)

-- Of the second argument the highest eight bits are lost.
inst_fields_example :
    (op_of (inst 1 5 (2 ^ 24 + 7)) ≡ 1)
    × (arg1_of (inst 1 5 (2 ^ 24 + 7)) ≡ 5)
    × (arg2_of (inst 1 5 (2 ^ 24 + 7)) ≡ (2 ^ 24 + 7) % 2 ^ 24)
inst_fields_example = inst_fields 1 5 (2 ^ 24 + 7) (omega arith) (omega arith)
