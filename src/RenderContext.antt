-- ===== src/RenderContext.antt =====
-- The whole `RenderContext` of context.go: the life of an instance between the pool and a request. `A`
-- is a value the methods only pass on (a writer, a request, a function, an `any`), and `nil` its zero
-- value. A Go map is an association list, and a nil map `none`.
pub mod Fresh
pub mod FuncMaps
use nanite_render.Prelude.{Option, none, some, List, [], ◌∷◌, ◌++◌, Bytes, codes, replicate}
use nanite_render.Writer.{Io, ok, ◌>>=◌}
use nanite_render.Context.{ContextStack, inline_ctx_cap, zero_kv}
use nanite_render.FormErrors.{FormErrors, form_err_inline_cap, clear_form_errors}
use nanite_render.Assets.{AssetList, asset_inline_cap}
use nanite_render.Head.{Head, meta_inline_cap, clear_head_state}
use nanite_render.Htmx.Response.{Htmx, no_htmx}
use nanite_render.State.{Values, new_state, put_value, clear}

abbrev pub FuncMap : Type 0 → Type 0
FuncMap A = Option (Values A)

pub record RenderContext (A D : Type 0) : Type 0 where
  pub writer : A
  pub request : A
  pub loader : A
  pub func_map : FuncMap A
  pub times : FuncMap A
  pub headers : Option (Values (List Bytes))
  pub layout : Bytes
  pub variants : Option (Values Bytes)
  pub user_data : A
  pub view_bytes : Bytes
  pub component_func_map : FuncMap A
  pub state : Option (Values A)
  pub component_registry : A
  pub oob_sink : Option A
  pub htmx : Htmx D
  pub suspense : A
  pub stack : ContextStack A
  pub action_prefix : Bytes
  pub form_errors : FormErrors
  pub head : Head

abbrev no_assets : AssetList
no_assets = record { inline = replicate asset_inline_cap []; overflow = []; n = 0 }

abbrev no_head : Head
no_head = record {
  title = [];
  meta_tags = replicate meta_inline_cap (record { name = []; content = [] });
  meta_overflow = [];
  meta_n = 0;
  id_seq = 0;
  assets = record { css = no_assets; js = no_assets };
}

-- a map, made when there is none
abbrev pub made : {B : Type 0} → Option (Values B) → Values B
made none = []
made (some m) = m

module _ {A : Type 0} where
  -- `NewState`, or the state of the last request cleared
  unfoldable pub cleared_state : Option (Values A) → Values A
  cleared_state none = new_state
  cleared_state (some s) = clear s

  -- maps.Copy; a map is iterated in any order
  unfoldable pub copy_map : Values A → Values A → Values A
  copy_map dst [] = dst
  copy_map dst ((k, f) ∷ src) = put_value k f (copy_map dst src)

  unfoldable pub merged : FuncMap A → Values A → FuncMap A
  merged none fm = some fm
  merged (some defaults) fm = some (copy_map (copy_map [] defaults) fm)

  -- the map of a program under that of a request
  unfoldable pub layered : FuncMap A → FuncMap A → FuncMap A
  layered defaults none = defaults
  layered defaults (some []) = defaults
  layered defaults (some (kf ∷ fm)) = merged defaults (kf ∷ fm)

-- The lines of the headers; `out` is io.WriteString on the writer
module _ {W : Type 0} (out : Bytes → W → Io W) where
  unfoldable pub write_values : Bytes → List Bytes → W → Io W
  write_values k [] w = ok w
  write_values k (v ∷ vs) w = out (k ++ (codes ": " ++ (v ++ codes "\r\n"))) w >>= write_values k vs

  unfoldable pub write_lines : Values (List Bytes) → W → Io W
  write_lines [] w = ok w
  write_lines ((k, vs) ∷ h) w = write_values k vs w >>= write_lines h

module _ {A D : Type 0} (nil : A) where
  -- `&RenderContext{}`
  abbrev pub new_context : RenderContext A D
  new_context = record {
    writer = nil;
    request = nil;
    loader = nil;
    func_map = none;
    times = none;
    headers = none;
    layout = [];
    variants = none;
    user_data = nil;
    view_bytes = [];
    component_func_map = none;
    state = none;
    component_registry = nil;
    oob_sink = none;
    htmx = no_htmx;
    suspense = nil;
    stack = record {
      inline_ctx = replicate inline_ctx_cap (zero_kv nil);
      overflow_ctx = [];
      ctx_ptr = 0;
    };
    action_prefix = [];
    form_errors = record {
      form_err_inline = replicate form_err_inline_cap (record { key = []; msg = [] });
      form_err_overflow = [];
      form_err_n = 0;
    };
    head = no_head;
  }

  -- given the instance that the pool hands out
  unfoldable pub acquire_context : A → A → RenderContext A D → RenderContext A D
  acquire_context w req rc = record rc {
    writer = w;
    request = req;
    headers = some [];
    func_map = none;
    times = none;
    layout = [];
    component_registry = nil;
    component_func_map = none;
    view_bytes = [];
    oob_sink = none;
    htmx = no_htmx;
    suspense = nil;
    stack = record rc.stack { ctx_ptr = 0 };
    action_prefix = [];
    form_errors = clear_form_errors rc.form_errors;
    head = clear_head_state rc.head;
    state = some (cleared_state rc.state);
  }

  -- what goes back to the pool
  unfoldable pub release_context : RenderContext A D → RenderContext A D
  release_context rc = record rc {
    writer = nil;
    request = nil;
    loader = nil;
    func_map = none;
    times = none;
    layout = [];
    component_registry = nil;
    component_func_map = none;
    view_bytes = [];
    user_data = nil;
    oob_sink = none;
    htmx = no_htmx;
    suspense = nil;
    stack = record rc.stack { ctx_ptr = 0 };
    action_prefix = [];
    form_errors = clear_form_errors rc.form_errors;
    head = clear_head_state rc.head;
  }

module _ {A D : Type 0} where
  unfoldable pub with_loader : A → RenderContext A D → RenderContext A D
  with_loader loader rc = record rc { loader = loader }

  unfoldable pub with_func_map : FuncMap A → RenderContext A D → RenderContext A D
  with_func_map fm rc = record rc { func_map = fm }

  unfoldable pub with_layout : Bytes → RenderContext A D → RenderContext A D
  with_layout name rc = record rc { layout = name }

  unfoldable pub with_debug : RenderContext A D → RenderContext A D
  with_debug rc = record rc { times = some (made rc.times) }

  unfoldable pub set_component_registry : A → RenderContext A D → RenderContext A D
  set_component_registry c rc = record rc { component_registry = c }

  unfoldable pub set_oob_sink : Option A → RenderContext A D → RenderContext A D
  set_oob_sink w rc = record rc { oob_sink = w }

  unfoldable pub get_oob_sink : RenderContext A D → A
  get_oob_sink rc = elim rc.oob_sink [ some w ↦ w | none ↦ rc.writer ]

  unfoldable pub set_user_data : A → RenderContext A D → RenderContext A D
  set_user_data d rc = record rc { user_data = d }

  unfoldable pub set_variant : Bytes → Bytes → RenderContext A D → RenderContext A D
  set_variant dim value rc = record rc { variants = some (put_value dim value (made rc.variants)) }

  -- `canonical` is net/http's spelling of a header's name.
  unfoldable pub write_header :
      (Bytes → Bytes) → Bytes → Bytes → RenderContext A D → RenderContext A D
  write_header canonical key value rc = record rc {
    headers = some (put_value (canonical key) (value ∷ []) (made rc.headers));
  }

  unfoldable pub effective_func_map : FuncMap A → RenderContext A D → FuncMap A
  effective_func_map defaults rc = layered defaults rc.func_map

  module _ {W : Type 0} (out : Bytes → W → Io W) where
    unfoldable pub write_headers_to : RenderContext A D → W → Io W
    write_headers_to rc w = write_lines out (made rc.headers) w
