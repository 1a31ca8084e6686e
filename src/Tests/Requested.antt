-- ===== src/Tests/Requested.antt =====
-- context.go, head.go and preload.go: what one request leaves for the next, and runs at concrete inputs.
use nanite_render.Prelude.{ℕ, ◌≡◌, ◌≢◌, refl, some, List, [], ◌∷◌, codes}
use nanite_render.State.{Values, get, put_value}
use nanite_render.Head.{clear_head_state, decimal, precomputed_ids, ids_from, use_id}
use nanite_render.Head.Ids.{calls, title_call, css_call, id_call, perform_all, use_id-perform_all}
use nanite_render.Preload.{PreloadHint, has_hint, preload, kept, unpreload, preloads}
use nanite_render.Preload.Registered.{
  Call, add, remove, perform, after, registered, count, count-preloads,
}
use nanite_render.RenderContext.{
  RenderContext, made, new_context, acquire_context, release_context, set_variant, with_layout,
  effective_func_map,
}
use nanite_render.RenderContext.Fresh.{IsFresh, acquire_context-release_context}
use nanite_render.RenderContext.FuncMaps.{or_else, get-effective_func_map}

-- a request that has set a layout and a locale
abbrev used : RenderContext ℕ ℕ
used =
    set_variant (codes "locale") (codes "fr")
      (with_layout (codes "application") (acquire_context 0 7 8 (new_context 0)))

acquire_context-release_context_example :
    IsFresh 0 1 2 (acquire_context 0 1 2 (release_context 0 used))
acquire_context-release_context_example = acquire_context-release_context 0 1 2 used

-- The locale of one request is that of the next.
locale_kept :
    (acquire_context 0 1 2 (release_context 0 used)).variants
    ≡ some ((codes "locale", codes "fr") ∷ [])
unfolding acquire_context release_context set_variant with_layout put_value
locale_kept = refl

abbrev fast : Values ℕ
fast = (codes "upper", 1) ∷ (codes "lower", 2) ∷ []

abbrev own : RenderContext ℕ ℕ
own = record used { func_map = some ((codes "upper", 3) ∷ []) }

get-effective_func_map_example :
    get (codes "upper") (made (effective_func_map (some fast) own))
    ≡ or_else (get (codes "upper") (made own.func_map)) (get (codes "upper") (made (some fast)))
get-effective_func_map_example = get-effective_func_map (codes "upper") (some fast) own

abbrev style : PreloadHint
style = record { href = codes "/app.css"; as_attr = codes "style"; type_attr = [] }

abbrev script : PreloadHint
script = record { href = codes "/app.js"; as_attr = codes "script"; type_attr = [] }

abbrev history : List Call
history = add style ∷ add style ∷ remove (codes "script") [] ∷ add script ∷ add style ∷ []

listed : preloads (after history) ≡ style ∷ []
unfolding after perform preload unpreload kept has_hint preloads
listed = refl

count-preloads_example : count style (preloads (after history)) ≡ 1
unfolding registered
count-preloads_example = count-preloads style history

id_1 : (use_id used.head).0 ≡ codes "nano-1"
unfolding use_id precomputed_ids ids_from decimal acquire_context set_variant with_layout
    clear_head_state
id_1 = refl

-- an id of the table, and one behind it
use_id-perform_all_example :
    (use_id (
      perform_all
        (title_call (codes "Home") ∷ id_call ∷ css_call (codes "/a.css") ∷ [])
        (use_id (calls 255 used.head)).1)).0
    ≢ (use_id (calls 255 used.head)).0
use_id-perform_all_example =
    use_id-perform_all (title_call (codes "Home") ∷ id_call ∷ css_call (codes "/a.css") ∷ [])
      (calls 255 used.head)

-- The context of a page's view starts again at 1, also where the request has an id already.
id_given_twice :
    (use_id used.head).0 ≡ (use_id (acquire_context 0 1 2 (new_context {A = ℕ} {D = ℕ} 0)).head).0
unfolding use_id precomputed_ids ids_from decimal acquire_context set_variant with_layout
    clear_head_state
id_given_twice = refl
