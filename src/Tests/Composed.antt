-- ===== src/Tests/Composed.antt =====
-- component.go at concrete inputs: a registry, a component that changes its function map, a memo.
use nanite_render.Prelude.{ℕ, ◌≡◌, refl, none, some, List, [], ◌∷◌, ◌++◌, codes}
use nanite_render.State.{Values, get}
use nanite_render.Components.{
  Children, Props, no_props, map_props, Frame, Component, stash, with_component_funcs,
  render_component_with_func_map, render_plain, render_by, render_component, lookup,
  attach_components, key_in, memo_html, cached, MemoTable, Output, store_output, stored, from_memo,
  render_or_cache,
}
use nanite_render.Components.Restored.{render_component-restored}
use nanite_render.Components.Memo.{render_or_cache-again}
use nanite_render.Components.Attached.{looked_up, lookup-attach_components}
use nanite_render.RenderContext.FuncMaps.{or_else}

-- A component that leaves another function map behind; what it was given is appended to the state.
abbrev careless : Component ℕ Children ℕ (List (Props Children))
careless = record {
  dispatch = none;
  render_with_children = none;
  component_funcs = some ((codes "own", 1) ∷ []);
  render = λ p s. (some 4, record { component_func_map = none; rest = s.rest ++ p ∷ [] });
}

abbrev outer : Frame ℕ (List (Props Children))
outer = record { component_func_map = some ((codes "outer", 2) ∷ []); rest = [] }

abbrev inside : Children
inside = codes "<p>" ∷ []

-- The error is passed on, and the children are in the data map.
stashed :
    render_component (λ xs. xs) careless no_props inside outer
    ≡ (some 4, record outer { rest = map_props ((codes "__children__", inside) ∷ []) ∷ [] })
unfolding render_component render_by render_plain render_component_with_func_map
    with_component_funcs stash
stashed = refl

render_component-restored_example :
    (render_component (λ xs. xs) careless no_props inside outer).1.component_func_map
    ≡ some ((codes "outer", 2) ∷ [])
render_component-restored_example =
    render_component-restored (λ (xs : Children). xs) careless no_props inside outer refl

abbrev built_in : Values ℕ
built_in = (codes "PRELOADS", 1) ∷ (codes "NANO_HEAD", 2) ∷ []

abbrev users : Values ℕ
users = (codes "NANO_HEAD", 7) ∷ []

lookup-attach_components_example :
    lookup (codes "PRELOADS") (attach_components (some built_in) users)
    ≡ or_else (lookup (codes "PRELOADS") users) (looked_up (codes "PRELOADS") (some built_in))
lookup-attach_components_example = lookup-attach_components (codes "PRELOADS") (some built_in) users

abbrev navbar : MemoTable → Output ℕ
navbar memo = record { html = codes "<nav>"; err = none; memo = memo }

abbrev broken : MemoTable → Output ℕ
broken memo = record { html = []; err = some 5; memo = memo }

stored_once : (render_or_cache (codes "Navbar") (codes "k") navbar []).err ≡ none
unfolding render_or_cache cached memo_html get key_in from_memo stored store_output
stored_once = refl

render_or_cache-again_example :
    render_or_cache
      (codes "Navbar")
      (codes "k")
      broken
      (render_or_cache (codes "Navbar") (codes "k") navbar []).memo
    ≡ record {
      html = (render_or_cache (codes "Navbar") (codes "k") navbar []).html;
      err = none;
      memo = (render_or_cache (codes "Navbar") (codes "k") navbar []).memo;
    }
render_or_cache-again_example =
    render_or_cache-again (codes "Navbar") (codes "k") navbar broken [] (λ e. cc) stored_once
