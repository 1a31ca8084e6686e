-- ===== src/NodeStream/Builder.antt =====
-- `NodeStreamBuilder` of soa.go, which wraps a `NodeStream`: appends, writes, and the sibling links.
use Prim.Native.Nat.{bit_or}
use nanite_render.Prelude.{
  ℕ, zero, suc, ◌+◌, ◌-◌, ◌*◌, Bool, Option, none, some, ◌>>=◌, List, [], ◌∷◌, ◌++◌, ltb, ◌==◌,
  if◌then◌else◌, length, get_elem?, put, replicate, Bytes, codes, uint32, int32, ℤ, pos, negsuc,
}
use nanite_render.NodeStream.{
  Value, NodeStream, flag_component, flag_raw, flag_text, flag_has_children, minus_one,
}

-- `NewBuilder`, and a builder after `Reset`. `Reserve` and `ReserveText` set capacities alone.
abbrev pub empty : NodeStream
empty = record {
  tag = [];
  flags = [];
  ns = [];
  child_start = [];
  child_end = [];
  attr_start = [];
  attr_end = [];
  text_off = [];
  parent = [];
  first_child = [];
  next_sibling = [];
  component_name = [];
  attr_keys = [];
  attr_vals = [];
  text_buf = [];
  count = 0;
}

unfoldable pub reset : NodeStream → NodeStream
reset b = record b {
  tag = [];
  flags = [];
  ns = [];
  child_start = [];
  child_end = [];
  attr_start = [];
  attr_end = [];
  text_off = [];
  parent = [];
  first_child = [];
  next_sibling = [];
  component_name = [];
  attr_keys = [];
  attr_vals = [];
  text_buf = [];
  count = 0;
}

-- The new stream; the new node's index is `length b.tag`.
unfoldable pub append_node : Bytes → ℕ → NodeStream → NodeStream
append_node tag flags b = record b {
  tag = b.tag ++ tag ∷ [];
  flags = b.flags ++ flags ∷ [];
  ns = b.ns ++ 0 ∷ [];
  child_start = b.child_start ++ 0 ∷ [];
  child_end = b.child_end ++ 0 ∷ [];
  attr_start = b.attr_start ++ 0 ∷ [];
  attr_end = b.attr_end ++ 0 ∷ [];
  text_off = b.text_off ++ 0 ∷ 0 ∷ [];
  parent = b.parent ++ minus_one ∷ [];
  first_child = b.first_child ++ minus_one ∷ [];
  next_sibling = b.next_sibling ++ minus_one ∷ [];
  component_name = b.component_name ++ [] ∷ [];
  count = b.count + 1;
}

abbrev pub next_id : NodeStream → ℕ
next_id b = length b.tag

unfoldable pub set_parent : ℕ → ℕ → NodeStream → Option NodeStream
set_parent child parent b = do
  ps ← put b.parent child (int32 parent)
  some (record b { parent = ps })

-- `b.stream.ComponentName[i] = name`
unfoldable pub set_component_name : ℕ → Bytes → NodeStream → Option NodeStream
set_component_name i name b = do
  cs ← put b.component_name i name
  some (record b { component_name = cs })

-- The range of the attributes from `start` on, on node `i`.
unfoldable pub set_attr_range : ℕ → ℕ → NodeStream → Option NodeStream
set_attr_range i start b = do
  ss ← put b.attr_start i (uint32 start)
  es ← put b.attr_end i (uint32 (length b.attr_keys))
  some (record b { attr_start = ss; attr_end = es })

-- A panic, too, where the lengths differ.
unfoldable pub set_attrs : ℕ → List Bytes → List Value → NodeStream → Option NodeStream
set_attrs i keys vals b =
    if length keys == length vals
    then set_attr_range i (length b.attr_keys)
        (record b { attr_keys = b.attr_keys ++ keys; attr_vals = b.attr_vals ++ vals })
    else none

pub record AttrKv : Type 0 where
  pub k : Bytes
  pub v : Bytes

-- the loop of `SetAttrsEach`
unfoldable pub append_attrs : List AttrKv → NodeStream → NodeStream
append_attrs [] b = b
append_attrs (a ∷ rest) b = append_attrs rest (record b {
  attr_keys = b.attr_keys ++ a.k ∷ [];
  attr_vals = b.attr_vals ++ Value.str a.v ∷ [];
})

unfoldable pub set_attrs_each : ℕ → List AttrKv → NodeStream → Option NodeStream
set_attrs_each i [] b = some b
set_attrs_each i (a ∷ rest) b = set_attr_range i (length b.attr_keys) (append_attrs (a ∷ rest) b)

unfoldable pub append_component : Bytes → List Bytes → List Value → NodeStream → Option NodeStream
append_component name attrs vals b = do
  let i = next_id b
  let b' = append_node name flag_component b
  b'' ← (if ltb 0 (length attrs) then set_attrs i attrs vals b' else some b')
  set_component_name i name b''

-- The flags of a text node.
abbrev pub text_flags : Bool → ℕ
text_flags raw = if raw then bit_or flag_text flag_raw else flag_text

-- `TextOff[2*i] = lo` and `TextOff[2*i+1] = hi`
unfoldable pub put_span : ℕ → ℕ → ℕ → List ℕ → Option (List ℕ)
put_span i lo hi xs = put xs (2 * i) lo >>= λ ys. put ys (2 * i + 1) hi

unfoldable pub append_text : Bytes → Bool → NodeStream → Option NodeStream
append_text text raw b = do
  let i = next_id b
  let b' = append_node (codes "#text") (text_flags raw) b
  let buf = b'.text_buf ++ text
  offs ← put_span i (uint32 (length b'.text_buf)) (uint32 (length buf)) b'.text_off
  some (record b' { text_buf = buf; text_off = offs })

unfoldable pub set_children : ℕ → ℕ → ℕ → NodeStream → Option NodeStream
set_children i start stop b = do
  ss ← put b.child_start i start
  es ← put b.child_end i stop
  f ← get_elem? b.flags i
  fs ← put b.flags i (if ltb start stop then bit_or f flag_has_children else f)
  some (record b { child_start = ss; child_end = es; flags = fs })

-- One round of the forward pass of `finalizeChildren`: `last` holds the latest child of each node.
unfoldable pub link : ℕ → List ℤ → NodeStream → Option (List ℤ × NodeStream)
link i last b = do
  parent ← get_elem? b.parent i
  elim parent [
    | negsuc _ ↦ some (last, b)
    | pos p ↦ do
      l ← get_elem? last p
      last' ← put last p (int32 i)
      elim l [
        | pos c ↦ do
          ns ← put b.next_sibling c (int32 i)
          some (last', record b { next_sibling = ns })
        | negsuc zero ↦ do
          fs ← put b.first_child p (int32 i)
          some (last', record b { first_child = fs })
        | negsuc (suc _) ↦ none
      ]
  ]

-- The pass over the nodes from `i` on; the first argument counts those left.
unfoldable pub link_from : ℕ → ℕ → List ℤ → NodeStream → Option NodeStream
link_from zero i last b = some b
link_from (suc left) i last b = do (last', b') ← link i last b; link_from left (i + 1) last' b'

-- `-1` into the first `n` entries
unfoldable pub fill : ℕ → List ℤ → Option (List ℤ)
fill zero xs = some xs
fill (suc n) [] = none
fill (suc n) (x ∷ xs) = do ys ← fill n xs; some (minus_one ∷ ys)

unfoldable pub finalize_children : NodeStream → Option NodeStream
finalize_children b = if b.count == 0 then some b else do
  fs ← fill b.count b.first_child
  ns ← fill b.count b.next_sibling
  link_from (b.count - 1) 1 (replicate b.count minus_one)
      (record b { first_child = fs; next_sibling = ns })

-- `Stream`
unfoldable pub stream : NodeStream → Option NodeStream
stream b = finalize_children b
