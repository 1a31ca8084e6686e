-- ===== src/RenderContext/Fresh.antt =====
-- What a request finds in a context from the pool.
use nanite_render.Prelude.{◌≡◌, refl, ap, Option, none, some, [], ◌∷◌, Bytes}
use nanite_render.Writer.{ok, ByteWriter}
use nanite_render.Context.{scan_context, get_context}
use nanite_render.FormErrors.{FormErrors, find_error, clear_form_errors, get_form_error}
use nanite_render.Assets.{write_tags, write_list, write_asset_tags, clear_list, clear_assets}
use nanite_render.Head.{
  Head, clear_head_state, use_id, nano_id, write_metas, write_title, write_head_tags,
}
use nanite_render.Head.Ids.{fst-use_id}
use nanite_render.Htmx.Response.{no_htmx}
use nanite_render.State.{Values, clear}
use nanite_render.RenderContext.{
  RenderContext, cleared_state, acquire_context, release_context, get_oob_sink,
}

-- the head part of a page as an observer sees it: nothing is written, and the ids start at 1
pub record IsBlank (rc : Head) : Type 1 where
  no_tags : {W : Type 0} (bw : ByteWriter W) (w : W) → write_head_tags bw rc w ≡ ok w
  no_assets : {W : Type 0} (bw : ByteWriter W) (w : W) → write_asset_tags bw rc.assets w ≡ ok w
  first_id : (use_id rc).0 ≡ nano_id 1

-- Nothing of an earlier request can be read, apart from the variants.
pub record IsFresh {A D : Type 0} (nil w req : A) (rc : RenderContext A D) : Type 1 where
  own_writer : rc.writer ≡ w
  own_request : rc.request ≡ req
  no_loader : rc.loader ≡ nil
  no_funcs : rc.func_map ≡ none
  no_component_funcs : rc.component_func_map ≡ none
  no_times : rc.times ≡ none
  no_headers : rc.headers ≡ some []
  no_layout : rc.layout ≡ []
  no_user_data : rc.user_data ≡ nil
  no_view : rc.view_bytes ≡ []
  no_registry : rc.component_registry ≡ nil
  main_sink : get_oob_sink rc ≡ w
  no_events : rc.htmx ≡ no_htmx
  no_suspense : rc.suspense ≡ nil
  no_prefix : rc.action_prefix ≡ []
  no_binding : (key : Bytes) → get_context nil key rc.stack ≡ some nil
  no_errors : (key : Bytes) → get_form_error key rc.form_errors ≡ []
  no_state : rc.state ≡ some []
  blank_head : IsBlank rc.head

clear_form_errors_lem :
    (key : Bytes) (rc : FormErrors) → get_form_error key (clear_form_errors rc) ≡ []
unfolding get_form_error find_error clear_form_errors
clear_form_errors_lem [] rc = refl
clear_form_errors_lem (c ∷ key) rc = refl

cleared_state_lem : {A : Type 0} (s : Option (Values A)) → cleared_state s ≡ []
unfolding cleared_state clear
cleared_state_lem none = refl
cleared_state_lem (some s) = refl

clear_head_state_lem : (rc : Head) → IsBlank (clear_head_state rc)
unfolding clear_head_state clear_assets clear_list write_head_tags write_metas write_title
    write_asset_tags write_list write_tags
clear_head_state_lem rc = record {
  no_tags = λ bw w. refl;
  no_assets = λ bw w. refl;
  first_id = fst-use_id _;
}

-- A context that was released, whatever it held, and is acquired for the next request shows
-- nothing of the earlier one apart from the variants: its writer and request are the new ones,
-- every other field that is read directly is empty, no binding, form error or state is found under
-- any key, no head tag or asset is written, and ids start at 1.
pub acquire_context-release_context :
    {A D : Type 0} (nil w req : A) (rc : RenderContext A D)
    → IsFresh nil w req (acquire_context nil w req (release_context nil rc))
unfolding acquire_context release_context get_oob_sink get_context scan_context
acquire_context-release_context nil w req rc = record {
  own_writer = refl;
  own_request = refl;
  no_loader = refl;
  no_funcs = refl;
  no_component_funcs = refl;
  no_times = refl;
  no_headers = refl;
  no_layout = refl;
  no_user_data = refl;
  no_view = refl;
  no_registry = refl;
  main_sink = refl;
  no_events = refl;
  no_suspense = refl;
  no_prefix = refl;
  no_binding = λ key. refl;
  no_errors = λ key. clear_form_errors_lem key _;
  no_state = ap some (cleared_state_lem _);
  blank_head = clear_head_state_lem _;
}

-- The variants of an earlier request are those of the next one that gets its context.
variants-acquire_context :
    {A D : Type 0} (nil w req : A) (rc : RenderContext A D)
    → (acquire_context nil w req (release_context nil rc)).variants ≡ rc.variants
unfolding acquire_context release_context
variants-acquire_context nil w req rc = refl
