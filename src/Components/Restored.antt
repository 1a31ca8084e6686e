-- ===== src/Components/Restored.antt =====
-- renderComponent: the function map around a component.
use nanite_render.Prelude.{◌≡◌, refl, Option, none, some, [], ◌∷◌}
use nanite_render.Components.{
  Children, Props, Frame, Rendered, Component, with_component_funcs, render_component_with_func_map,
  render_plain, render_by, render_component,
}

module _ {E V A S : Type 0} (of_children : Children → V) where
  plain_lem :
      (f : Option (Props V → Children → Frame A S → Rendered E A S)) (c : Component E V A S)
      (p : Props V) (children : Children) (s : Frame A S)
      → (render_plain of_children f c p children s).1.component_func_map ≡ s.component_func_map
  unfolding render_plain render_component_with_func_map with_component_funcs
  plain_lem f c p [] s = refl
  plain_lem none c p (x ∷ xs) s = refl
  plain_lem (some f) c p (x ∷ xs) s = refl

  by_lem :
      (d : Option (Props V → Children → Frame A S → Rendered E A S)) (c : Component E V A S)
      (p : Props V) (children : Children) (s : Frame A S)
      → d ≡ none
      → (render_by of_children d c p children s).1.component_func_map ≡ s.component_func_map
  unfolding render_by
  by_lem none c p children s e = plain_lem c.render_with_children c p children s
  by_lem (some d) c p children s e = cc

  -- After renderComponent of a component that is not Dispatchable, the context has the function
  -- map it had before, whatever the component's methods did to it, with and without children.
  pub render_component-restored :
      (c : Component E V A S) (p : Props V) (children : Children) (s : Frame A S)
      → c.dispatch ≡ none
      → (render_component of_children c p children s).1.component_func_map ≡ s.component_func_map
  unfolding render_component
  render_component-restored c p children s e = by_lem c.dispatch c p children s e
