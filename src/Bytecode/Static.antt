-- ===== src/Bytecode/Static.antt =====
-- The bytecode of a template without components and slots.
use mathlib.Core.Path.{subst}
use nanite_render.Prelude.{
  ◌+◌, ◌*◌, ◌^◌, ◌<◌, ◌≡◌, ap, inl, inr, Option, none, some, ◌>>=◌, [], arith, ◌==◌, if◌then◌else◌,
  Bool-cases, length, Bytes,
}
use nanite_render.NodeStream.{NodeStream}
use nanite_render.Execute.Spec.{document_html}
use nanite_render.Bytecode.{Bytecode, empty, flush_static, compile_bytecode, emit}
use nanite_render.Bytecode.Compiled.{Extends-nil, Compiled}
use nanite_render.Bytecode.Nodes.{emit_lem}

-- the program with the static text `out`, before the last flush
abbrev pub pending : Bytes → Bytecode
pending out = record { code = []; static = out; comps = []; st_start = 0; st_len = length out }

pending_unique :
    (out : Bytes) (r : Option Bytecode)
    → length out < 2 ^ 32
    → Compiled (some out) empty r
    → r ≡ some (pending out)
pending_unique out none small h = absurd h
pending_unique out (some bc) small h =
    let len : bc.st_len ≡ length out = omega (arith, h.len) in
    λ i. some (record {
      code = h.same_code i;
      static = h.static i;
      comps = h.same_comps i;
      st_start = h.same_start i;
      st_len = len i;
    })

-- `CompileBytecode` before its flush
abbrev emitted : NodeStream → Option Bytecode
emitted nodes = if nodes.count == 0 then some empty else emit (2 * nodes.count + 2) nodes 0 empty

emitted-Compiled : (nodes : NodeStream) → Compiled (document_html nodes) empty (emitted nodes)
unfolding document_html
emitted-Compiled nodes = elim (Bool-cases (nodes.count == 0)) [
  | inl z ↦ rw z (Extends-nil empty (omega arith))
  | inr z ↦ rw z (emit_lem nodes (2 * nodes.count + 2) 0 empty (omega arith))
]

-- A template with a text compiles to that text, as one static run.
pub compile_lem :
    (nodes : NodeStream) (out : Bytes)
    → document_html nodes ≡ some out
    → length out < 2 ^ 32
    → compile_bytecode nodes ≡ some (flush_static (pending out))
unfolding compile_bytecode
compile_lem nodes out e small =
    let compiled : Compiled (some out) empty (emitted nodes) =
      subst (λ (o : Option Bytes). Compiled o empty (emitted nodes)) e (emitted-Compiled nodes) in
    ap (λ (r : Option Bytecode). r >>= λ bc. some (flush_static bc))
      (pending_unique out (emitted nodes) small compiled)
