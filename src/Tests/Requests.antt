-- ===== src/Tests/Requests.antt =====
-- htmx.go and actions.go on concrete requests.
use nanite_render.Prelude.{
  inr, ℕ, ◌+◌, ◌≡◌, ◌↔◌, ◌⊎◌, refl, true, Option, none, some, [], ◌∷◌, if◌then◌else◌, Bytes, codes,
  text_eq, arith,
}
use nanite_render.ParseHtml.Scan.{cut_at}
use nanite_render.State.{put_value, get}
use nanite_render.Htmx.{
  plain, HxTriggers, text_gt, insert_name, sort_names, comma_joined, lookup, insert, add,
  add_with_detail, keys, names, has_detail, detail_json, entries_json, join,
}
use nanite_render.Htmx.Joined.{swapped, join-Reordered}
use nanite_render.Htmx.Response.{Htmx, add_hx_trigger, release_htmx, write_htmx_headers}
use nanite_render.Actions.{
  Request, action_prefix, action_url, behind_prefix, split_action, parse_action_path, trim_at,
  ref_allowed, referrer, host_allowed, action_origin_allowed,
}
use nanite_render.Actions.Paths.{IsSegment, parse_action_path_iff}
use nanite_render.Actions.Origins.{action_origin_allowed_lem}
use nanite_render.Actions.Handler.{
  done, ActionFunc, Component, Registry, oob_wrapped, find_action, respond, re_render,
  handle_action,
}
use nanite_render.Actions.Guards.{IsRefused, Passes, handle_action_guards, get-handle_action}

-- no other request
abbrev alone : Htmx ℕ → Htmx ℕ
alone rc = rc

abbrev marshal : ℕ → Option Bytes
marshal n = some (codes "7")

abbrev events : HxTriggers ℕ
events = (codes "saved", plain) ∷ (codes "closed", plain) ∷ []

events_joined : join marshal events ≡ codes "closed,saved"
unfolding join has_detail names keys sort_names insert_name text_gt comma_joined
events_joined = refl

-- A later detail turns the whole set into JSON.
detailed_joined :
    join marshal (add_with_detail (codes "saved") 7 (add (codes "closed") events))
    ≡ codes "{\"closed\":null,\"saved\":7}"
unfolding join has_detail names keys sort_names insert_name text_gt comma_joined add_with_detail add
    insert lookup entries_json detail_json
detailed_joined = refl

join-Reordered_example :
    join marshal events ≡ join marshal ((codes "closed", plain) ∷ (codes "saved", plain) ∷ [])
join-Reordered_example = join-Reordered marshal (swapped (λ e. absurd (cc e)))

like-IsSegment : IsSegment (codes "LIKE")
like-IsSegment = ((λ e. absurd (cc e)), omega arith)

toggle-IsSegment : IsSegment (codes "toggle")
toggle-IsSegment = ((λ e. absurd (cc e)), omega arith)

parse_action_path_iff_example :
    (parse_action_path (codes "/_nano/action/LIKE/toggle") [] ≡ some (codes "LIKE", codes "toggle"))
    ↔ ((codes "/_nano/action/LIKE/toggle" ≡ action_url [] (codes "LIKE") (codes "toggle"))
        × IsSegment (codes "LIKE")
        × IsSegment (codes "toggle"))
parse_action_path_iff_example =
    parse_action_path_iff (codes "/_nano/action/LIKE/toggle") [] (codes "LIKE") (codes "toggle")

-- The headers of a request of the page itself.
abbrev page_headers : Bytes → Bytes
page_headers name =
    if text_eq name (codes "HX-Request")
    then codes "true"
    else if text_eq name (codes "Origin")
    then codes "https://a.io:8443/x"
    else []

abbrev toggle_request : Request (Unit {0})
toggle_request = record {
  method = codes "POST";
  header = page_headers;
  host = codes "a.io:80";
  path = codes "/_nano/action/LIKE/toggle";
  body = tt;
}

action_origin_allowed_lem_example :
    action_origin_allowed toggle_request ≡ text_eq (codes "a.io") (codes "a.io")
unfolding referrer
action_origin_allowed_lem_example =
    action_origin_allowed_lem true (codes "a.io") (codes ":8443/x") (codes "a.io") (codes ":80")
      toggle_request (omega arith, omega arith, omega arith) (inr (inr refl)) (omega arith) refl
      refl refl

-- Two IPv6 hosts that share what stands before their first colon are taken for one.
ipv6_confused : host_allowed (codes "[2001:db8::1]") (codes "https://[2001:dead::2]") ≡ true
unfolding host_allowed ref_allowed cut_at behind_prefix trim_at
ipv6_confused = refl

-- A component that counts its toggles, with the storage as the count.
abbrev toggle : ActionFunc ℕ (Unit {0}) ℕ
toggle props rc n = (done, add_hx_trigger (codes "toggled") rc, n + 1)

abbrev like : Component ℕ (Unit {0}) ℕ
like = record {
  lookup_action = some (λ name. if text_eq name (codes "toggle") then some toggle else none);
  oob_id = [];
}

abbrev likes : Registry ℕ (Unit {0}) ℕ
likes = record {
  prefix = [];
  components = some (λ name. if text_eq name (codes "LIKE") then some like else none);
  render_component = λ name props rc n. (some (codes "<b/>"), rc, n);
}

abbrev no_props : Request (Unit {0}) → Unit {0}
no_props req = tt

toggled : handle_action no_props marshal alone likes toggle_request 0 ≡ (
  record {
    status = 200;
    headers = (codes "Content-Type", codes "text/html; charset=utf-8") ∷ [];
    content = codes "<b/>";
  },
  1,
)
unfolding handle_action action_origin_allowed host_allowed referrer ref_allowed cut_at behind_prefix
    trim_at parse_action_path split_action action_prefix find_action re_render respond
    write_htmx_headers join put_value oob_wrapped add_hx_trigger release_htmx
toggled = refl

handle_action_guards_example :
    IsRefused no_props marshal alone likes toggle_request 0
      (handle_action no_props marshal alone likes toggle_request 0)
    ⊎ Passes no_props marshal alone likes toggle_request 0
handle_action_guards_example = handle_action_guards no_props marshal alone likes toggle_request 0

get-handle_action_example :
    get (codes "HX-Trigger") (handle_action no_props marshal alone likes toggle_request 0).0.headers
    ≡ none
get-handle_action_example =
    get-handle_action no_props marshal alone likes toggle_request 0 (λ rc. refl)
      (codes "HX-Trigger") (λ e. absurd (cc e)) (λ e. absurd (cc e))
