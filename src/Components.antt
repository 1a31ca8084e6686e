-- ===== src/Components.antt =====
-- component.go: the components of a registry, how one is rendered, and the memo of rendered HTML. `V` is
-- Go's `any`, with `of_children` its value that holds a component's children. A compare-and-swap loop and a
-- method under the mutex are one step.
pub mod Restored
pub mod Memo
pub mod Attached
use nanite_render.Prelude.{
  Bool, true, false, Option, none, some, List, [], ◌∷◌, if◌then◌else◌, Bytes, codes,
}
use nanite_render.State.{Values, get, put_value}
use nanite_render.RenderContext.{FuncMap, made}

abbrev pub Children : Type 0
Children = List Bytes

-- the data of a render: nil, a map, or another value
pub data Props (V : Type 0) : Type 0 where
  no_props : Props V
  map_props : Values V → Props V
  other_props : V → Props V

-- What a render reads and changes: the function map of the component, and all else.
pub record Frame (A S : Type 0) : Type 0 where
  pub component_func_map : FuncMap A
  pub rest : S

-- the error of a call, and what it leaves
abbrev pub Rendered : Type 0 → Type 0 → Type 0 → Type 0
Rendered E A S = Option E × Frame A S

-- A component, by the interfaces that it has: Dispatchable, ComponentWithChildren, ComponentWithFuncs.
pub record Component (E V A S : Type 0) : Type 0 where
  pub dispatch : Option (Props V → Children → Frame A S → Rendered E A S)
  pub render_with_children : Option (Props V → Children → Frame A S → Rendered E A S)
  pub component_funcs : FuncMap A
  pub render : Props V → Frame A S → Rendered E A S

abbrev pub children_data_key : Bytes
children_data_key = codes "__children__"

module _ {V : Type 0} (of_children : Children → V) where
  -- the data map with the children in it
  unfoldable pub stash : Children → Props V → Props V
  stash children no_props = map_props ((children_data_key, of_children children) ∷ [])
  stash children (map_props m) = map_props (put_value children_data_key (of_children children) m)
  stash children (other_props v) =
      map_props ((codes "_data", v) ∷ (children_data_key, of_children children) ∷ [])

module _ {E A S : Type 0} where
  -- a call with the component's functions, after which the previous ones are back
  unfoldable pub with_component_funcs :
      FuncMap A → (Frame A S → Rendered E A S) → Frame A S → Rendered E A S
  with_component_funcs fm call s =
      let (err, s') = call (record s { component_func_map = fm }) in
      (err, record s' { component_func_map = s.component_func_map })

module _ {E V A S : Type 0} where
  unfoldable pub render_component_with_func_map :
      Component E V A S → Props V → Frame A S → Rendered E A S
  render_component_with_func_map c props s =
      with_component_funcs c.component_funcs (c.render props) s

  module _ (of_children : Children → V) where
    -- a component that is not Dispatchable
    unfoldable pub render_plain :
        Option (Props V → Children → Frame A S → Rendered E A S)
        → Component E V A S
        → Props V
        → Children
        → Frame A S
        → Rendered E A S
    render_plain f c props [] s = render_component_with_func_map c props s
    render_plain (some f) c props (x ∷ xs) s =
        with_component_funcs c.component_funcs (f props (x ∷ xs)) s
    render_plain none c props (x ∷ xs) s =
        render_component_with_func_map c (stash of_children (x ∷ xs) props) s

    unfoldable pub render_by :
        Option (Props V → Children → Frame A S → Rendered E A S)
        → Component E V A S
        → Props V
        → Children
        → Frame A S
        → Rendered E A S
    render_by (some d) c props children s = d props children s
    render_by none c props children s = render_plain c.render_with_children c props children s

    unfoldable pub render_component :
        Component E V A S → Props V → Children → Frame A S → Rendered E A S
    render_component c props children s = render_by c.dispatch c props children s

    -- `none`: the context has no registry, or the registry no such component
    unfoldable pub dispatch_component :
        Option (Values (Component E V A S)) → Bytes → Props V → Frame A S → Rendered E A S
    dispatch_component none name props s = (none, s)
    dispatch_component (some cr) name props s = elim (get name cr) [
      | none ↦ (none, s)
      | some c ↦ render_component c props [] s
    ]

-- The map of a ComponentRegistry; `C` is a component.
module _ {C : Type 0} where
  unfoldable pub register : Bytes → C → Values C → Values C
  register name c cs = put_value name c cs

  unfoldable pub lookup : Bytes → Values C → Option C
  lookup name cs = get name cs

  unfoldable pub component_names : Values C → List Bytes
  component_names [] = []
  component_names ((k, c) ∷ cs) = k ∷ component_names cs

  -- `memo` makes the memoComponent of a name and a component, with the keyer.
  unfoldable pub memoize : (Bytes → C → C) → Bytes → Values C → Values C
  memoize memo name cs = elim (lookup name cs) [
    | none ↦ cs
    | some c ↦ register name (memo name c) cs
  ]

  -- one round of AttachComponents' loop: the name in `c`, and in the registry before
  unfoldable pub carried : Option C → Option C → Bytes → Values C → Values C
  carried (some _) comp name c = c
  carried none none name c = c
  carried none (some comp) name c = register name comp c

  unfoldable pub carry : Values C → Bytes → Values C → Values C
  carry prev name c = carried (lookup name c) (lookup name prev) name c

  unfoldable pub carry_all : Values C → List Bytes → Values C → Values C
  carry_all prev [] c = c
  carry_all prev (name ∷ names) c = carry_all prev names (carry prev name c)

  -- `prev` is a registry other than `c`, if there was one.
  unfoldable pub attach_components : Option (Values C) → Values C → Values C
  attach_components none c = c
  attach_components (some prev) c = carry_all prev (component_names prev) c

-- The memo of a registry: a name's table, and in it the HTML of a key.
abbrev pub MemoTable : Type 0
MemoTable = Values (Values Bytes)

unfoldable pub key_in : Bytes → Option (Values Bytes) → Option Bytes
key_in key none = none
key_in key (some m) = get key m

unfoldable pub memo_html : Bytes → Bytes → MemoTable → Option Bytes
memo_html name key memo = key_in key (get name memo)

unfoldable pub memo_store : Bytes → Bytes → Bytes → MemoTable → MemoTable
memo_store name key html memo = put_value name (put_value key html (made (get name memo))) memo

-- an empty key disables the memo
unfoldable pub cached : Bytes → Bytes → MemoTable → Option Bytes
cached name [] memo = none
cached name (c ∷ key) memo = memo_html name (c ∷ key) memo

-- What a component has written to the buffer it was given, its error, and the memo it leaves.
pub record Output (E : Type 0) : Type 0 where
  pub html : Bytes
  pub err : Option E
  pub memo : MemoTable

module _ {E : Type 0} where
  -- an output without an error is stored
  unfoldable pub store_output : Option E → Bytes → Bytes → Output E → Output E
  store_output none name key o = record o { memo = memo_store name key o.html o.memo }
  store_output (some _) name key o = o

  unfoldable pub stored : Bytes → Bytes → Output E → Output E
  stored name [] o = o
  stored name (c ∷ key) o = store_output o.err name (c ∷ key) o

  -- the HTML of the memo, or the render of the inner component
  unfoldable pub from_memo : Option Bytes → MemoTable → Output E → Output E
  from_memo (some html) memo rendered = record { html = html; err = none; memo = memo }
  from_memo none memo rendered = rendered

  -- `inner` is the call of the inner component with the arguments of this one, on a new buffer, which takes
  -- all bytes; the output is what is then written to the component's writer.
  unfoldable pub render_or_cache : Bytes → Bytes → (MemoTable → Output E) → MemoTable → Output E
  render_or_cache name key inner memo =
      from_memo (cached name key memo) memo (stored name key (inner memo))
