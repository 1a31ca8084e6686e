-- ===== src/ParseHtml.antt =====
-- parse_html.go: the parser from bytes to a `NodeStream`.
pub mod Scan
pub mod CutOff
pub mod Progress
pub mod Advanced
pub mod Result
use Prim.Native.Nat.{bit_or}
use nanite_render.Prelude.{
  ℕ, zero, suc, ◌-◌, Bool, true, false, not, ◌||◌, ◌&&◌, Option, none, some, ◌>>=◌, List, [], ◌∷◌,
  ◌++◌, ◌==◌, if◌then◌else◌, length, drop, Bytes, codes, uint32,
}
use nanite_render.NodeStream.{
  NodeStream, flag_self_closing, flag_component, flag_fragment, is_void_tag,
}
use nanite_render.NodeStream.Builder.{
  empty, append_node, next_id, set_parent, set_component_name, AttrKv, set_attrs_each, append_text,
}
use Scan.{
  is_tag_name_byte, is_whitespace, in_attr_name, in_text, is_component_tag, span, starts_with,
  after_comment, parse_value,
}

pub record ParseError : Type 0 where
  pub name : Bytes
  pub offset : ℕ
  pub msg : Bytes

-- One round of the attribute loop: it ends, with `self` and the rest, has read an attribute, or panics.
pub data AttrStep : Type 0 where
  done : Bool → Bytes → AttrStep
  more : AttrKv → Bytes → AttrStep
  panic : AttrStep

-- the attribute, with its value and the rest
unfoldable pub valued : Bytes → Option (Bytes × Bytes) → AttrStep
valued name none = AttrStep.panic
valued name (some (v, rest)) = AttrStep.more (record { k = name; v = v }) rest

-- From behind the attribute's name.
unfoldable pub attr_with : Bytes → Bytes → AttrStep
attr_with name [] = AttrStep.more (record { k = name; v = [] }) []
attr_with name (c ∷ s) =
    if c == b'='
    then valued name (parse_value s)
    else AttrStep.more (record { k = name; v = [] }) (c ∷ s)

-- From behind the white space.
unfoldable pub attr_at : Bytes → AttrStep
attr_at [] = AttrStep.done false []
attr_at (c ∷ s) =
    if c == b'/'
    then AttrStep.done true s
    else if c == b'>'
    then AttrStep.done false (c ∷ s)
    else let r = span in_attr_name (c ∷ s) in attr_with r.0 r.1

unfoldable pub attr_step : Bytes → AttrStep
attr_step [] = AttrStep.done false []
attr_step (c ∷ s) =
    if c == b'>' then AttrStep.done false (c ∷ s) else attr_at (span is_whitespace (c ∷ s)).1

-- The loop's end: the attributes, `self`, and the rest.
pub data AttrsEnd : Type 0 where
  attrs_read : List AttrKv → Bool → Bytes → AttrsEnd
  attrs_panic : AttrsEnd
  attrs_out_of_fuel : AttrsEnd

-- The loop on fuel.
unfoldable pub parse_attrs : ℕ → Bytes → List AttrKv → AttrsEnd
parse_attrs zero s attrs = attrs_out_of_fuel
parse_attrs (suc fuel) s attrs = elim (attr_step s) [
  | AttrStep.done self rest ↦ attrs_read attrs self rest
  | AttrStep.more a rest ↦ parse_attrs fuel rest (attrs ++ a ∷ [])
  | AttrStep.panic ↦ attrs_panic
]

-- The builder, and the open tags with the innermost first.
pub record State : Type 0 where
  pub builder : NodeStream
  pub stack : List ℕ

-- `if len(stack) > 0 { b.SetParent(id, stack[len(stack)-1]) }`
unfoldable pub set_top_parent : ℕ → List ℕ → NodeStream → Option NodeStream
set_top_parent id [] b = some b
set_top_parent id (top ∷ stack) b = set_parent id top b

-- `if len(stack) > 1 { stack = stack[:len(stack)-1] }`
unfoldable pub pop : List ℕ → List ℕ
pop [] = []
pop (root ∷ []) = root ∷ []
pop (top ∷ below ∷ stack) = below ∷ stack

abbrev pub tag_flags : Bytes → Bool → ℕ
tag_flags tag self =
    let flags = if self || is_void_tag tag then bit_or 0 flag_self_closing else 0 in
    if is_component_tag tag then bit_or flags flag_component else flags

-- A new node's component name, attributes and parent.
unfoldable pub place : ℕ → Bytes → List AttrKv → List ℕ → NodeStream → Option NodeStream
place id tag attrs stack b =
    (if is_component_tag tag then set_component_name id tag b else some b)
    >>= set_attrs_each id attrs
    >>= set_top_parent id stack

unfoldable pub open_tag : Bytes → List AttrKv → Bool → State → Option State
open_tag tag attrs self st = do
  let id = next_id st.builder
  b ← place id tag attrs st.stack (append_node tag (tag_flags tag self) st.builder)
  some (record {
    builder = b;
    stack = if not self && not (is_void_tag tag) then id ∷ st.stack else st.stack;
  })

unfoldable pub add_text : Bytes → State → Option State
add_text [] st = some st
add_text (c ∷ txt) st = do
  let id = next_id st.builder
  b ← append_text (c ∷ txt) false st.builder >>= set_top_parent id st.stack
  some (record st { builder = b })

-- One round of the main loop: the state and the rest, or the way in which it stops.
pub data Step : Type 0 where
  next : State → Bytes → Step
  bad : ParseError → Step
  panic : Step
  out_of_fuel : Step

abbrev pub stepped : Option State → Bytes → Step
stepped none rest = Step.panic
stepped (some st) rest = next st rest

-- `if end < len(src) && src[end] == '>' { end++ }`
unfoldable pub skip_close : Bytes → Bytes
skip_close [] = []
skip_close (c ∷ s) = if c == b'>' then s else c ∷ s

-- From behind the attributes.
unfoldable pub with_attrs : Bool → Bytes → State → AttrsEnd → Step
with_attrs closing tag st (attrs_read attrs self rest) =
    if closing
    then next (record st { stack = pop st.stack }) (skip_close rest)
    else stepped (open_tag tag attrs self st) (skip_close rest)
with_attrs closing tag st attrs_panic = Step.panic
with_attrs closing tag st attrs_out_of_fuel = Step.out_of_fuel

-- From behind the tag's name.
unfoldable pub finish_tag : Bool → Bytes → Bytes → State → Step
finish_tag closing tag s st = with_attrs closing tag st (parse_attrs (suc (length s)) s [])

-- From behind `<` or `</`. `fail` is the error of an empty name.
unfoldable pub name_tag : Bool → ParseError → Bytes → State → Step
name_tag closing fail s st =
    let r = span is_tag_name_byte s in
    elim r.0 [ [] ↦ bad fail | c ∷ t ↦ finish_tag closing r.0 r.1 st ]

abbrev pub error_at : Bytes → ℕ → Bytes → ParseError
error_at name i msg = record { name = name; offset = uint32 i; msg = msg }

-- From behind the `<` at offset `i`.
unfoldable pub tag_step : Bytes → ℕ → Bytes → State → Step
tag_step name i [] st = bad (error_at name i (codes "unterminated tag"))
tag_step name i (c ∷ s) st =
    let fail = error_at name i (codes "expected tag name") in
    if starts_with (codes "!--") (c ∷ s)
    then next st (after_comment (drop 3 (c ∷ s)))
    else if c == b'/'
    then name_tag true fail s st
    else name_tag false fail (c ∷ s) st

-- `total` is `len(src)`.
unfoldable pub step : Bytes → ℕ → Bytes → State → Step
step name total [] st = next st []
step name total (c ∷ s) st =
    if c == b'<'
    then tag_step name (total - length (c ∷ s)) s st
    else let r = span in_text (c ∷ s) in stepped (add_text r.0 st) r.1

pub data Outcome : Type 0 where
  ok : NodeStream → Outcome
  err : ParseError → Outcome
  panic : Outcome
  out_of_fuel : Outcome

-- The main loop on fuel.
unfoldable pub parse_from : Bytes → ℕ → ℕ → Bytes → State → Outcome
parse_from name total zero s st = Outcome.out_of_fuel
parse_from name total (suc fuel) [] st = Outcome.ok st.builder
parse_from name total (suc fuel) (c ∷ s) st = elim (step name total (c ∷ s) st) [
  | next st' rest ↦ parse_from name total fuel rest st'
  | bad e ↦ Outcome.err e
  | Step.panic ↦ Outcome.panic
  | Step.out_of_fuel ↦ Outcome.out_of_fuel
]

-- The builder and stack with the root alone.
abbrev pub start : State
start = record { builder = append_node (codes "#document") flag_fragment empty; stack = 0 ∷ [] }

-- `parseHTML`, and `ParseHTML`, which only calls it. Each round consumes a byte, so that
-- `len(src)` rounds are enough.
unfoldable pub parse_html : Bytes → Bytes → Outcome
parse_html src name = parse_from name (length src) (suc (length src)) src start
