-- ===== src/Bytecode/Run.antt =====
-- The executor of bytecode.go. `dispatch` is `bcVM.dispatch`, by which a component is looked up and
-- rendered: it is given the writer, the component's name, its children and its slots.
use nanite_render.Prelude.{
  ℕ, zero, suc, ◌+◌, true, false, Option, none, List, [], ◌∷◌, ◌++◌, ltb, ◌==◌, if◌then◌else◌,
  length, get_elem?, Bytes, text_eq, uint32,
}
use nanite_render.Writer.{Io, ok, fail, panic, ◌>>=◌, ByteWriter}
use nanite_render.Writer.Buffered.{Out, Buffered, acquire, buffered, flush}
use nanite_render.NodeStream.{slice}
use nanite_render.Execute.{reading}
use nanite_render.Bytecode.{Bytecode, op_static, op_component, op_slot_begin, op_slot_end}
use nanite_render.Bytecode.Inst.{op_of, arg1_of, arg2_of}

abbrev pub Slots : Type 0
Slots = List (Bytes × Bytes)

-- `slots[name] = slots[name] + s`
unfoldable pub add_slot : Bytes → Bytes → Slots → Slots
add_slot name s [] = (name, s) ∷ []
add_slot name s ((n, t) ∷ slots) =
    if text_eq n name then (n, t ++ s) ∷ slots else (n, t) ∷ add_slot name s slots

-- The cases of the two `switch` statements on an opcode.
pub data Op : Type 0 where
  static : Op
  component : Op
  slot_begin : Op
  slot_end : Op
  other : Op

unfoldable pub op_case : ℕ → Op
op_case op =
    if op == op_static
    then Op.static
    else if op == op_component
    then Op.component
    else if op == op_slot_begin
    then Op.slot_begin
    else if op == op_slot_end
    then Op.slot_end
    else Op.other

-- The variables of `collectChildren`.
pub record Collected : Type 0 where
  pub children : List Bytes
  pub slots : Slots
  pub cur : Bytes
  pub cur_name : Bytes

abbrev pub nothing : Collected
nothing = record { children = []; slots = []; cur = []; cur_name = [] }

-- its closure `flush`
unfoldable pub flush_cur : Collected → Collected
flush_cur k = elim k.cur [
  | [] ↦ record k { cur_name = [] }
  | _ ∷ _ ↦ elim k.cur_name [
    | [] ↦ record k { children = k.children ++ k.cur ∷ []; cur = []; cur_name = [] }
    | _ ∷ _ ↦ record k { slots = add_slot k.cur_name k.cur k.slots; cur = []; cur_name = [] }
  ]
]

-- A `bytes.Buffer` as an `io.Writer`.
abbrev pub bytes_buffer : Out Bytes
bytes_buffer = record { write = λ p w. ok (w ++ p); is_flusher = false; signal = λ w. w }

abbrev pub Dispatch : Type 1
Dispatch = (W : Type 0) → ByteWriter W → Bytes → List Bytes → Slots → W → Io W

-- `static[a : a+b]` of an instruction
unfoldable pub static_of : Bytecode → ℕ → Option Bytes
static_of bc ins = slice bc.static (arg1_of ins) (uint32 (arg1_of ins + arg2_of ins))

module _ (dispatch : Dispatch) (grow : ℕ → ℕ → ℕ) (pool : Buffered Bytes) where
  -- `_ = bw.Flush()` of the writer on `cur`, after a run whose error is ignored
  abbrev pub drained : Io (Buffered Bytes) → Option Bytes
  drained (ok b) = elim (flush bytes_buffer grow b) [
    | ok b' ↦ b'.out
    | fail _ b' ↦ b'.out
    | panic ↦ none
  ]
  drained (fail _ b) = elim (flush bytes_buffer grow b) [
    | ok b' ↦ b'.out
    | fail _ b' ↦ b'.out
    | panic ↦ none
  ]
  drained panic = none

  unfoldable mutual
    -- The instructions from `i` to `stop`, at most `fuel` of them.
    pub run : ℕ → Bytecode → ℕ → ℕ → (W : Type 0) → ByteWriter W → W → Io W
    run zero bc i stop W bw w = if ltb i stop then panic else ok w
    run (suc fuel) bc i stop W bw w = elim (ltb i stop) [
      | false ↦ ok w
      | true ↦ reading (get_elem? bc.code i) λ ins. elim (op_case (op_of ins)) [
        | Op.static ↦ reading (static_of bc ins) λ s. bw.write s w >>= run fuel bc (i + 1) stop W bw
        | Op.component ↦ collect fuel bc (i + 1) (arg2_of ins) nothing W λ k.
            reading (get_elem? bc.comps (arg1_of ins)) λ name.
              dispatch W bw name k.children k.slots w >>= run fuel bc (arg2_of ins) stop W bw
        | _ ↦ run fuel bc (i + 1) stop W bw w
      ]
    ]

    -- `collectChildren` from `i` on, and `next` with what it returns
    pub collect : ℕ → Bytecode → ℕ → ℕ → Collected → (W : Type 0) → (Collected → Io W) → Io W
    collect zero bc i stop k W next = if ltb i stop then panic else next (flush_cur k)
    collect (suc fuel) bc i stop k W next = elim (ltb i stop) [
      | false ↦ next (flush_cur k)
      | true ↦ reading (get_elem? bc.code i) λ ins. elim (op_case (op_of ins)) [
        | Op.static ↦
            reading (static_of bc ins)
              λ s. collect fuel bc (i + 1) stop (record k { cur = k.cur ++ s }) W next
        | Op.component ↦
            reading
              (drained (
                run fuel bc (i + 1) (arg2_of ins) (Buffered Bytes) (buffered bytes_buffer grow)
                  (acquire bytes_buffer grow pool k.cur)))
              λ cur. collect fuel bc (arg2_of ins) stop (record k { cur = cur }) W next
        | Op.slot_begin ↦
            reading (get_elem? bc.comps (arg1_of ins))
              λ name. collect fuel bc (i + 1) stop (record (flush_cur k) { cur_name = name }) W next
        | Op.slot_end ↦ collect fuel bc (i + 1) stop (flush_cur k) W next
        | Op.other ↦ collect fuel bc (i + 1) stop k W next
      ]
    ]

  unfoldable pub exec : (W : Type 0) → ByteWriter W → Bytecode → W → Io W
  exec W bw bc w = run (length bc.code) bc 0 (length bc.code) W bw w
