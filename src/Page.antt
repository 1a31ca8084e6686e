-- ===== src/Page.antt =====
-- page.go: a page from a view and a layout, which are rendered one after the other, and what the first
-- leaves for the second. The render of a template (Registry.Render) is a parameter. `cr` is the
-- map of the registry that the context has or is given; it is shared with other requests, of which this
-- model has none.
pub mod Transferred
use nanite_render.Prelude.{
  ◌||◌, Bool, true, false, Option, none, some, List, [], ◌∷◌, if◌then◌else◌, take, Bytes, codes,
  text_eq,
}
use nanite_render.State.{Values}
use nanite_render.Assets.{AssetList, Assets, inline_n}
use nanite_render.Assets.Written.{require_all}
use nanite_render.Head as Head
use nanite_render.Head.{Head, MetaKv, add_meta}
use nanite_render.Components.{register}
use nanite_render.RenderContext.{
  RenderContext, acquire_context, set_component_registry, with_loader, with_func_map,
}

-- the errors of renderPageEngines, and those of the code it calls
pub data PageError (E : Type 0) : Type 0 where
  layout_missing : PageError E
  render_page_invalid : PageError E
  other_error : E → PageError E

unfoldable pub is_empty : Bytes → Bool
is_empty [] = true
is_empty (c ∷ s) = false

-- the early returns
unfoldable pub page_guard : {E : Type 0} → Bytes → Bytes → Bytes → Bytes → Option (PageError E)
page_guard layout_engine layout view_engine view =
    if is_empty layout
    then some layout_missing
    else if is_empty view
    then some render_page_invalid
    else if is_empty layout_engine || is_empty view_engine
    then some render_page_invalid
    else none

-- AddMeta of each tag
unfoldable pub add_metas : List MetaKv → Head → Head
add_metas [] rc = rc
add_metas (kv ∷ kvs) rc = add_metas kvs (add_meta kv.name kv.content rc)

-- RequiresCSS or RequiresJS of each path of the view
unfoldable pub transfer_assets : AssetList → AssetList → AssetList
transfer_assets view l =
    require_all view.overflow (require_all (take (inline_n view.n) view.inline) l)

-- the title and the tags of the view
unfoldable pub transfer_tags : Head → Head → Head
transfer_tags view rc =
    add_metas view.meta_overflow (
      add_metas (take (Head.inline_n view.meta_n) view.meta_tags)
        (record rc { title = view.title }))

-- head state and id sequence of the view's context, to that of the layout
unfoldable pub transfer : Head → Head → Head
transfer view rc = record (transfer_tags view rc) {
  assets = record {
    css = transfer_assets view.assets.css (transfer_tags view rc).assets.css;
    js = transfer_assets view.assets.js (transfer_tags view rc).assets.js;
  };
  id_seq = view.id_seq;
}

module _ {A D : Type 0} (nil : A) where
  -- the context of the view; `w` is the buffer's writer, and `pooled` what the pool hands out
  unfoldable pub view_context : A → RenderContext A D → RenderContext A D → RenderContext A D
  view_context w pooled rc = set_component_registry rc.component_registry (
      with_func_map rc.func_map
        (record (with_loader rc.loader (acquire_context nil w rc.request pooled)) {
          variants = rc.variants;
        }))

-- the map without a name
unfoldable pub unregister : {C : Type 0} → Bytes → Values C → Values C
unregister name [] = []
unregister name ((k, c) ∷ cs) =
    if text_eq k name then unregister name cs else (k, c) ∷ unregister name cs

module _ {A D E C : Type 0} (yield : Bytes → C) where
  -- The layout's pass: the view's HTML is on the context, and YIELD is registered while it runs.
  unfoldable pub layout_pass :
      (Values C → RenderContext A D → Option E × RenderContext A D × Values C)
      → Bytes
      → Head
      → RenderContext A D
      → Values C
      → Option (PageError E) × RenderContext A D × Values C
  layout_pass render_layout html head rc cr =
      let (err, rc', cr') =
        render_layout (register (codes "YIELD") (yield html) cr)
          (record rc { head = transfer head rc.head; view_bytes = html }) in
      (
        elim err [ none ↦ none | some e ↦ some (other_error e) ],
        rc',
        unregister (codes "YIELD") cr',
      )

  -- The view's pass: its error ends the page.
  unfoldable pub view_pass :
      Option E
      → (Values C → RenderContext A D → Option E × RenderContext A D × Values C)
      → Bytes
      → Head
      → RenderContext A D
      → Values C
      → Option (PageError E) × RenderContext A D × Values C
  view_pass (some e) render_layout html head rc cr = (some (other_error e), rc, cr)
  view_pass none render_layout html head rc cr = layout_pass render_layout html head rc cr

  -- `render_view` runs the view's Metadata and Registry.Render on its context and flushes the buffer, and
  -- `render_layout` is Registry.Render of the layout.
  unfoldable pub render_page_engines :
      A
      → (RenderContext A D → Option E × Bytes × RenderContext A D)
      → (Values C → RenderContext A D → Option E × RenderContext A D × Values C)
      → Bytes
      → Bytes
      → Bytes
      → Bytes
      → A
      → RenderContext A D
      → RenderContext A D
      → Values C
      → Option (PageError E) × RenderContext A D × Values C
  render_page_engines nil render_view render_layout layout_engine layout view_engine view w pooled
        rc cr =
      let (err, html, view_rc) = render_view (view_context nil w pooled rc) in
      elim (page_guard layout_engine layout view_engine view) [
        | some e ↦ (some e, rc, cr)
        | none ↦ view_pass err render_layout html view_rc.head rc cr
      ]
