-- ===== src/Htmx/Response.antt =====
-- The HTMX part of a `RenderContext` (the fields `hxTriggers*` and `hmx` of context.go) and the methods
-- of htmx.go on it. Headers are an association list; each name is spelled in one way, so that the
-- canonical form of net/http plays no part.
use nanite_render.Prelude.{[], ◌∷◌, Bytes, codes, Option, Bool, text_eq}
use nanite_render.State.{Values, put_value}
use nanite_render.Htmx.{HxTriggers, add, add_with_detail, join}

pub record HtmxResponse : Type 0 where
  pub retarget : Bytes
  pub reswap : Bytes
  pub push_url : Bytes
  pub redirect : Bytes
  pub refresh : Bytes
  pub replace_url : Bytes
  pub location : Bytes
  pub reselect : Bytes
  pub resettle : Bytes

pub record Htmx (D : Type 0) : Type 0 where
  pub hx_triggers : HxTriggers D
  pub after_swap : HxTriggers D
  pub after_settle : HxTriggers D
  pub hmx : HtmxResponse

abbrev pub no_response : HtmxResponse
no_response = record {
  retarget = [];
  reswap = [];
  push_url = [];
  redirect = [];
  refresh = [];
  replace_url = [];
  location = [];
  reselect = [];
  resettle = [];
}

-- What a request says, by its `Header.Get`.
unfoldable pub is_htmx_request : (Bytes → Bytes) → Bool
is_htmx_request header = text_eq (header (codes "HX-Request")) (codes "true")

unfoldable pub is_htmx_boosted : (Bytes → Bytes) → Bool
is_htmx_boosted header = text_eq (header (codes "HX-Boosted")) (codes "true")

unfoldable pub is_htmx_history_restore : (Bytes → Bytes) → Bool
is_htmx_history_restore header =
    text_eq (header (codes "HX-History-Restore-Request")) (codes "true")

unfoldable pub hx_target_id : (Bytes → Bytes) → Bytes
hx_target_id header = header (codes "HX-Target")

unfoldable pub hx_trigger_id : (Bytes → Bytes) → Bytes
hx_trigger_id header = header (codes "HX-Trigger")

unfoldable pub trigger_name : (Bytes → Bytes) → Bytes
trigger_name header = header (codes "HX-Trigger-Name")

unfoldable pub current_url : (Bytes → Bytes) → Bytes
current_url header = header (codes "HX-Current-URL")

unfoldable pub hx_prompt_response : (Bytes → Bytes) → Bytes
hx_prompt_response header = header (codes "HX-Prompt")

-- `if v := …; v != "" { h.Set(name, v) }`
abbrev pub set_if : Bytes → Bytes → Values Bytes → Values Bytes
set_if name [] h = h
set_if name (c ∷ v) h = put_value name (c ∷ v) h

module _ {D : Type 0} where
  -- what AcquireContext and ReleaseContext leave
  abbrev pub no_htmx : Htmx D
  no_htmx = record { hx_triggers = []; after_swap = []; after_settle = []; hmx = no_response }

  -- the fields that ReleaseContext resets
  unfoldable pub release_htmx : Htmx D → Htmx D
  release_htmx rc = record rc {
    hx_triggers = [];
    after_swap = [];
    after_settle = [];
    hmx = no_response;
  }

  unfoldable pub add_hx_trigger : Bytes → Htmx D → Htmx D
  add_hx_trigger name rc = record rc { hx_triggers = add name rc.hx_triggers }

  unfoldable pub add_hx_trigger_with_detail : Bytes → D → Htmx D → Htmx D
  add_hx_trigger_with_detail name d rc = record rc {
    hx_triggers = add_with_detail name d rc.hx_triggers;
  }

  unfoldable pub add_hx_trigger_after_swap : Bytes → Htmx D → Htmx D
  add_hx_trigger_after_swap name rc = record rc { after_swap = add name rc.after_swap }

  unfoldable pub add_hx_trigger_after_settle : Bytes → Htmx D → Htmx D
  add_hx_trigger_after_settle name rc = record rc { after_settle = add name rc.after_settle }

  unfoldable pub set_hx_retarget : Bytes → Htmx D → Htmx D
  set_hx_retarget value rc = record rc { hmx = record rc.hmx { retarget = value } }

  unfoldable pub set_hx_reswap : Bytes → Htmx D → Htmx D
  set_hx_reswap value rc = record rc { hmx = record rc.hmx { reswap = value } }

  unfoldable pub set_hx_push_url : Bytes → Htmx D → Htmx D
  set_hx_push_url value rc = record rc { hmx = record rc.hmx { push_url = value } }

  unfoldable pub set_hx_redirect : Bytes → Htmx D → Htmx D
  set_hx_redirect value rc = record rc { hmx = record rc.hmx { redirect = value } }

  unfoldable pub set_hx_refresh : Htmx D → Htmx D
  set_hx_refresh rc = record rc { hmx = record rc.hmx { refresh = codes "true" } }

  unfoldable pub set_hx_replace_url : Bytes → Htmx D → Htmx D
  set_hx_replace_url value rc = record rc { hmx = record rc.hmx { replace_url = value } }

  unfoldable pub set_hx_location : Bytes → Htmx D → Htmx D
  set_hx_location value rc = record rc { hmx = record rc.hmx { location = value } }

  unfoldable pub set_hx_reselect : Bytes → Htmx D → Htmx D
  set_hx_reselect value rc = record rc { hmx = record rc.hmx { reselect = value } }

  unfoldable pub set_hx_resettle : Bytes → Htmx D → Htmx D
  set_hx_resettle value rc = record rc { hmx = record rc.hmx { resettle = value } }

  unfoldable pub write_htmx_headers : (D → Option Bytes) → Htmx D → Values Bytes → Values Bytes
  write_htmx_headers marshal rc h0 =
      let h1 = set_if (codes "HX-Trigger") (join marshal rc.hx_triggers) h0 in
      let h2 = set_if (codes "HX-Trigger-After-Swap") (join marshal rc.after_swap) h1 in
      let h3 = set_if (codes "HX-Trigger-After-Settle") (join marshal rc.after_settle) h2 in
      let h4 = set_if (codes "HX-Retarget") rc.hmx.retarget h3 in
      let h5 = set_if (codes "HX-Reswap") rc.hmx.reswap h4 in
      let h6 = set_if (codes "HX-Push-Url") rc.hmx.push_url h5 in
      let h7 = set_if (codes "HX-Redirect") rc.hmx.redirect h6 in
      let h8 = set_if (codes "HX-Refresh") rc.hmx.refresh h7 in
      let h9 = set_if (codes "HX-Replace-Url") rc.hmx.replace_url h8 in
      let h10 = set_if (codes "HX-Location") rc.hmx.location h9 in
      let h11 = set_if (codes "HX-Reselect") rc.hmx.reselect h10 in
      set_if (codes "HX-Resettle") rc.hmx.resettle h11
