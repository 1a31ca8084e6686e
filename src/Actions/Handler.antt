-- ===== src/Actions/Handler.antt =====
-- `Registry.HandleAction`. `S` is what actions and renders can change: the user's storage and the
-- parts of the context that the handler does not read. `Props` is the parsed body, by `parse_body`;
-- a render returns its output, or none with an error.
use nanite_render.Prelude.{
  ℕ, not, Option, none, some, ◌>>=◌, [], ◌∷◌, ◌++◌, if◌then◌else◌, Bytes, codes, text_eq,
}
use nanite_render.ParseHtml.Scan.{starts_with}
use nanite_render.Escape.{escape_string}
use nanite_render.State.{Values, put_value}
use nanite_render.Htmx.Response.{Htmx, no_htmx, release_htmx, write_htmx_headers}
use nanite_render.Actions.{Request, action_prefix, parse_action_path, action_origin_allowed}

-- what an action returns: nil, ErrValidation or another error
pub data ActionResult : Type 0 where
  done : ActionResult
  invalid : ActionResult
  failed : ActionResult

pub record Response : Type 0 where
  pub status : ℕ
  pub headers : Values Bytes
  pub content : Bytes

-- `http.Error`
unfoldable pub http_error : Bytes → ℕ → Response
http_error message status = record {
  status = status;
  headers =
      (codes "Content-Type", codes "text/plain; charset=utf-8")
      ∷ (codes "X-Content-Type-Options", codes "nosniff")
      ∷ [];
  content = message ++ codes "\n";
}

abbrev pub oob_open : Bytes → Bytes
oob_open id = codes "<div id=\"" ++ (escape_string id ++ codes "\" hx-swap-oob=\"true\">")

-- the output, in a chunk for an out-of-band swap unless it is one
unfoldable pub oob_wrapped : Bytes → Bytes → Bytes
oob_wrapped [] out = out
oob_wrapped (c ∷ id) out =
    if starts_with (oob_open (c ∷ id)) out
    then out
    else oob_open (c ∷ id) ++ (out ++ codes "</div>")

abbrev pub ActionFunc : Type 0 → Type 0 → Type 0 → Type 0
ActionFunc S Props D = Props → Htmx D → S → ActionResult × Htmx D × S

-- The parts of a component that the handler uses: `LookupAction`, if it is an ActionProvider, and
-- `OOBID`, empty if it is no OOBOptioner.
pub record Component (S Props D : Type 0) : Type 0 where
  pub lookup_action : Option (Bytes → Option (ActionFunc S Props D))
  pub oob_id : Bytes

pub record Registry (S Props D : Type 0) : Type 0 where
  pub prefix : Bytes
  pub components : Option (Bytes → Option (Component S Props D))
  pub render_component : Bytes → Props → Htmx D → S → Option Bytes × Htmx D × S

-- `meanwhile` is what other requests, which can take the context from the pool, have done to it between its
-- release and the writing of the headers.
module _ {B S Props D : Type 0} (parse_body : Request B → Props) (marshal : D → Option Bytes)
    (meanwhile : Htmx D → Htmx D) (r : Registry S Props D) where
  -- the component and its action, where all lookups succeed
  unfoldable pub find_action : Bytes → Bytes → Option (Component S Props D × ActionFunc S Props D)
  find_action component action = do
    lookup ← r.components
    c ← lookup component
    actions ← c.lookup_action
    fn ← actions action
    some (c, fn)

  -- The headers are written from the context after its release.
  unfoldable pub respond : Component S Props D → Option Bytes × Htmx D × S → Response × S
  respond c (none, rc, s) = (http_error (codes "internal server error") 500, s)
  respond c (some out, rc, s) =
      let released = meanwhile (release_htmx rc) in
      (
        record {
          status = 200;
          headers =
              put_value (codes "Content-Type") (codes "text/html; charset=utf-8")
                (write_htmx_headers marshal released []);
          content = oob_wrapped c.oob_id out;
        },
        s,
      )

  unfoldable pub re_render :
      Component S Props D → Bytes → Props → ActionResult × Htmx D × S → Response × S
  re_render c component props (failed, rc, s) = (http_error (codes "internal server error") 500, s)
  re_render c component props (invalid, rc, s) = respond c (r.render_component component props rc s)
  re_render c component props (done, rc, s) = respond c (r.render_component component props rc s)

  abbrev pub run_action :
      Request B → Bytes → S → Option (Component S Props D × ActionFunc S Props D) → Response × S
  run_action req component s none = (http_error (codes "not found") 404, s)
  run_action req component s (some (c, fn)) =
      let props = parse_body req in re_render c component props (fn props no_htmx s)

  abbrev pub routed : Request B → S → Option (Bytes × Bytes) → Response × S
  routed req s none = (http_error (codes "not found") 404, s)
  routed req s (some (component, action)) =
      run_action req component s (find_action component action)

  unfoldable pub handle_action : Request B → S → Response × S
  handle_action req s =
      if not (text_eq req.method (codes "POST"))
      then (http_error (codes "method not allowed") 405, s)
      else if not (text_eq (req.header (codes "HX-Request")) (codes "true"))
      then (http_error (codes "forbidden") 403, s)
      else if not (action_origin_allowed req)
      then (http_error (codes "forbidden") 403, s)
      else routed req s (parse_action_path req.path (action_prefix r.prefix))
