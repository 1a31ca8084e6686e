-- ===== src/Bytecode/Output.antt =====
-- The executor on the bytecode of a template without components and slots.
use nanite_render.Prelude.{
  ℕ, ◌+◌, ◌^◌, ◌<◌, ◌%◌, ◌≡◌, refl, sym, ap, some, [], ◌∷◌, append-nil, arith, ltb, true, get_elem?,
  suc, length, take, Bytes, uint32,
}
use nanite_render.Writer.{Io, ok, fail, panic, ◌>>=◌, ByteWriter, WriterLaws}
use nanite_render.Writer.Buffered.{Buffered}
use nanite_render.NodeStream.{NodeStream, slice}
use nanite_render.Execute.Spec.{document_html}
use nanite_render.Execute.{reading}
use nanite_render.Bytecode.{Bytecode, flush_static, compile_bytecode}
use nanite_render.Bytecode.Inst.{inst, op_of, inst_fields}
use nanite_render.Bytecode.Run.{Dispatch, static_of, op_case, Op, run, exec}
use nanite_render.Bytecode.Static.{pending, compile_lem}
use nanite_render.Escape.Laws.{Result}

take-length : (s : Bytes) → take (length s) s ≡ s
take-length [] = refl
take-length (c ∷ s) = ap (λ t. c ∷ t) (take-length s)

slice_all : (s : Bytes) → slice s 0 (length s) ≡ some s
unfolding slice
slice_all s = ground (arith, take-length s)

-- the program of one instruction, which writes the whole static text
abbrev flushed : Bytes → Bytecode
flushed s = record {
  code = inst 0 0 (length s) ∷ [];
  static = s;
  comps = [];
  st_start = uint32 (0 + length s);
  st_len = 0;
}

flush_pending : (s : Bytes) → 0 < length s → flush_static (pending s) ≡ flushed s
unfolding flush_static
flush_pending s h = ground arith

static_of_lem :
    (s : Bytes) → length s < 2 ^ 24 → static_of (flushed s) (inst 0 0 (length s)) ≡ some s
unfolding static_of
static_of_lem s h =
    let (eo, e1, e2) = inst_fields 0 0 (length s) (omega arith) (omega arith) in
    let e : length s % 2 ^ 24 ≡ length s = omega arith in
    let e' : uint32 (0 + length s) ≡ length s = omega arith in rw (e1, e2, e, e') (slice_all s)

op_case_lem : (s : Bytes) → op_case (op_of (inst 0 0 (length s))) ≡ Op.static
unfolding op_case
op_case_lem s = rw ((inst_fields 0 0 (length s) (omega arith) (omega arith)).0) refl

module _ {W : Type 0} (bw : ByteWriter W) (laws : WriterLaws bw) (dispatch : Dispatch)
    (grow : ℕ → ℕ → ℕ) (pool : Buffered Bytes) where
  written_lem :
      (s : Bytes) (w : W) (r : Io W) → Result bw laws s w r → Result bw laws s w (r >>= λ w'. ok w')
  written_lem s w (ok w') h = h
  written_lem s w (fail e w') h = h
  written_lem s w panic h = h

  -- A step of the loop on a static instruction.
  run_static :
      (fuel i stop ins : ℕ) (bc : Bytecode) (s : Bytes) (w : W)
      → ltb i stop ≡ true
      → get_elem? bc.code i ≡ some ins
      → op_case (op_of ins) ≡ Op.static
      → static_of bc ins ≡ some s
      → run dispatch grow pool (suc fuel) bc i stop W bw w
        ≡ (bw.write s w >>= run dispatch grow pool fuel bc (i + 1) stop W bw)
  unfolding run
  run_static fuel i stop ins bc s w e0 e1 e2 e3 = rw (e0, e1, reading, e2, e3, run) refl

  run_lem :
      (s : Bytes) (w : W)
      → laws.Valid w
      → length s < 2 ^ 24
      → Result bw laws s w (run dispatch grow pool 1 (flushed s) 0 1 W bw w)
  unfolding run
  run_lem s w v small =
      rw
        (run_static 0 0 1 (inst 0 0 (length s)) (flushed s) s w refl refl (op_case_lem s)
          (static_of_lem s small))
        (written_lem s w (bw.write s w) (laws.write_lem s w v))

  exec_lem :
      (out : Bytes) (w : W)
      → laws.Valid w
      → length out < 2 ^ 24
      → Result bw laws out w (exec dispatch grow pool W bw (flush_static (pending out)) w)
  unfolding exec flush_static run
  exec_lem [] w v small = (v, sym (append-nil _))
  exec_lem (c ∷ s) w v small = rw (flush_pending (c ∷ s) (omega arith)) (run_lem (c ∷ s) w v small)

  -- Where a template has a text (no component, no slot, no read out of range) of less than 2^24
  -- bytes, its bytecode exists, and executing it on a writer that keeps its promise appends
  -- exactly that text, unless the writer returns an error.
  pub compile-exec :
      (nodes : NodeStream) (out : Bytes) (w : W)
      → laws.Valid w
      → document_html nodes ≡ some out
      → length out < 2 ^ 24
      → (bc : Bytecode) × (compile_bytecode nodes ≡ some bc)
        × Result bw laws out w (exec dispatch grow pool W bw bc w)
  compile-exec nodes out w v e small =
      (flush_static (pending out), compile_lem nodes out e (omega arith), exec_lem out w v small)
