-- ===== src/Actions/Guards.antt =====
-- When HandleAction runs an action, and what its response carries.
use mathlib.Core.Path.{subst}
use nanite_render.Prelude.{
  ℕ, ◌≡◌, ◌≢◌, refl, sym, ap, ◌∙◌, ◌⊎◌, inl, inr, Bool, true, false, not, ◌&&◌, Option, none, some,
  Option-cases, [], ◌∷◌, if◌then◌else◌, Bool-cases, Bytes, codes, text_eq, text_eq_iff, arith,
}
use nanite_render.State.{Values, get, put_value}
use nanite_render.Htmx.{join}
use nanite_render.Htmx.Response.{Htmx, no_htmx, release_htmx, write_htmx_headers}
use nanite_render.Actions.{
  Request, action_prefix, action_url, parse_action_path, action_origin_allowed,
}
use nanite_render.Actions.Paths.{parse_action_path_iff}
use nanite_render.Actions.Handler.{
  ActionResult, done, invalid, failed, Response, http_error, ActionFunc, Component, Registry,
  find_action, respond, re_render, run_action, routed, handle_action,
}

and_three : (a b c : Bool) → (a && b && c) ≡ true → (a ≡ true) × (b ≡ true) × (c ≡ true)
and_three true true c h = (refl, refl, h)
and_three true false c h = absurd (cc h)
and_three false b c h = absurd (cc h)

get-cons_ne : (k n v : Bytes) (t : Values Bytes) → n ≢ k → get n ((k, v) ∷ t) ≡ get n t
unfolding get
get-cons_ne k n v t d = ground (arith, text_eq_iff k n)

module _ {B S Props D : Type 0} (parse_body : Request B → Props) (marshal : D → Option Bytes)
    (meanwhile : Htmx D → Htmx D) (r : Registry S Props D) (req : Request B) (s : S) where
  -- nothing has run, and the answer is an error of the client's
  abbrev pub IsRefused : Response × S → Type 0
  IsRefused (res, s') = (s' ≡ s) × ((res.status ≡ 405) ⊎ (res.status ≡ 403) ⊎ (res.status ≡ 404))

  -- all guards have let the request pass
  abbrev pub Passes : Type 0
  Passes =
      (component : Bytes) × (action : Bytes) × (c : Component S Props D) × (fn : ActionFunc S Props
        D)
      × (req.method ≡ codes "POST")
      × (req.header (codes "HX-Request") ≡ codes "true")
      × (action_origin_allowed req ≡ true)
      × (req.path ≡ action_url (action_prefix r.prefix) component action)
      × (find_action parse_body marshal meanwhile r component action ≡ some (c, fn))
      × (handle_action parse_body marshal meanwhile r req s
          ≡ re_render parse_body marshal meanwhile r c component (parse_body req)
              (fn (parse_body req) no_htmx s))

  abbrev is_post : Bool
  is_post = text_eq req.method (codes "POST")

  abbrev is_htmx : Bool
  is_htmx = text_eq (req.header (codes "HX-Request")) (codes "true")

  -- the handler on the outcomes of its first three tests
  abbrev tested : Bool → Bool → Bool → Response × S
  tested post htmx origin =
      if not post
      then (http_error (codes "method not allowed") 405, s)
      else if not htmx
      then (http_error (codes "forbidden") 403, s)
      else if not origin
      then (http_error (codes "forbidden") 403, s)
      else routed parse_body marshal meanwhile r req s
          (parse_action_path req.path (action_prefix r.prefix))

  refused :
      (post htmx origin : Bool)
      → (post && htmx && origin) ≡ false
      → IsRefused (tested post htmx origin)
  unfolding http_error
  refused false htmx origin e = (refl, inl refl)
  refused true false origin e = (refl, inr (inl refl))
  refused true true false e = (refl, inr (inl refl))
  refused true true true e = absurd (cc e)

  not_found : IsRefused (http_error (codes "not found") 404, s)
  unfolding http_error
  not_found = (refl, inr (inr refl))

  -- behind the tests: the path and the lookups
  Routed : Type 0
  Routed =
      (component : Bytes) × (action : Bytes) × (c : Component S Props D) × (fn : ActionFunc S Props
        D)
      × (req.path ≡ action_url (action_prefix r.prefix) component action)
      × (find_action parse_body marshal meanwhile r component action ≡ some (c, fn))
      × (tested true true true
          ≡ re_render parse_body marshal meanwhile r c component (parse_body req)
              (fn (parse_body req) no_htmx s))

  routed_cases : IsRefused (tested true true true) ⊎ Routed
  unfolding Routed
  routed_cases = elim (Option-cases (parse_action_path req.path (action_prefix r.prefix))) [
    | inl n ↦
        inl (subst IsRefused (sym (ap (routed parse_body marshal meanwhile r req s) n)) not_found)
    | inr ((component, action), n) ↦
        elim (Option-cases (find_action parse_body marshal meanwhile r component action)) [
          | inl m ↦ inl (
              subst IsRefused
                (sym (
                  ap (routed parse_body marshal meanwhile r req s) n
                  ∙ ap (run_action parse_body marshal meanwhile r req component s) m))
                not_found)
          | inr ((c, fn), m) ↦ inr (
            component,
            action,
            c,
            fn,
            ((parse_action_path_iff req.path (action_prefix r.prefix) component action).0 n).0,
            m,
            ap (routed parse_body marshal meanwhile r req s) n
                ∙ ap (run_action parse_body marshal meanwhile r req component s) m,
          )
        ]
  ]

  -- For any registry and request, either HandleAction has run nothing, so that the storage is as
  -- it was, and answers 405, 403 or 404, or the method is POST, HX-Request is true, the origin is
  -- allowed, the path is the URL of a component and an action that are found, and the result is
  -- that of running this action and rendering the component again.
  pub handle_action_guards : IsRefused (handle_action parse_body marshal meanwhile r req s) ⊎ Passes
  unfolding handle_action Routed
  handle_action_guards = elim (Bool-cases (is_post && is_htmx && action_origin_allowed req)) [
    | inl e ↦
        let (p, h, o) = and_three is_post is_htmx (action_origin_allowed req) e in
        let through : handle_action parse_body marshal meanwhile r req s ≡ tested true true true =
          ap (λ b. tested b is_htmx (action_origin_allowed req)) p
          ∙ ap (λ b. tested true b (action_origin_allowed req)) h
          ∙ ap (λ b. tested true true b) o in
        elim routed_cases [
          | inl refusal ↦ inl (subst IsRefused (sym through) refusal)
          | inr (component, action, c, fn, path, found, run) ↦ inr (
            component,
            action,
            c,
            fn,
            (text_eq_iff req.method (codes "POST")).0 p,
            (text_eq_iff (req.header (codes "HX-Request")) (codes "true")).0 h,
            o,
            path,
            found,
            through ∙ run,
          )
        ]
    | inr e ↦ inl (refused is_post is_htmx (action_origin_allowed req) e)
  ]

  -- The response has no headers but those two of its content.
  abbrev IsPlain : Response × S → Type 0
  IsPlain (res, s') =
      (n : Bytes)
      → n ≢ codes "Content-Type"
      → n ≢ codes "X-Content-Type-Options"
      → get n res.headers ≡ none

  error-IsPlain : (message : Bytes) (status : ℕ) (s' : S) → IsPlain (http_error message status, s')
  unfolding http_error get
  error-IsPlain message status s' n d e =
      get-cons_ne (codes "Content-Type") n (codes "text/plain; charset=utf-8")
        ((codes "X-Content-Type-Options", codes "nosniff") ∷ []) d
      ∙ get-cons_ne (codes "X-Content-Type-Options") n (codes "nosniff") [] e

  module _ (untouched : (rc : Htmx D) → meanwhile rc ≡ rc) where
    respond-IsPlain :
        (c : Component S Props D) (o : Option Bytes × Htmx D × S)
        → IsPlain (respond parse_body marshal meanwhile r c o)
    unfolding respond release_htmx write_htmx_headers join put_value get
    respond-IsPlain c (none, rc, s') = error-IsPlain (codes "internal server error") 500 s'
    respond-IsPlain c (some out, rc, s') = λ n d e.
        rw (untouched (release_htmx rc))
          (get-cons_ne (codes "Content-Type") n (codes "text/html; charset=utf-8") [] d)

    re_render-IsPlain :
        (c : Component S Props D) (component : Bytes) (props : Props)
        (a : ActionResult × Htmx D × S)
        → IsPlain (re_render parse_body marshal meanwhile r c component props a)
    unfolding re_render
    re_render-IsPlain c component props (failed, rc, s') =
        error-IsPlain (codes "internal server error") 500 s'
    re_render-IsPlain c component props (invalid, rc, s') =
        respond-IsPlain c (r.render_component component props rc s')
    re_render-IsPlain c component props (done, rc, s') =
        respond-IsPlain c (r.render_component component props rc s')

    run_action-IsPlain :
        (component : Bytes) (found : Option (Component S Props D × ActionFunc S Props D))
        → IsPlain (run_action parse_body marshal meanwhile r req component s found)
    run_action-IsPlain component none = error-IsPlain (codes "not found") 404 s
    run_action-IsPlain component (some (c, fn)) =
        re_render-IsPlain c component (parse_body req) (fn (parse_body req) no_htmx s)

    routed-IsPlain :
        (o : Option (Bytes × Bytes)) → IsPlain (routed parse_body marshal meanwhile r req s o)
    routed-IsPlain none = error-IsPlain (codes "not found") 404 s
    routed-IsPlain (some (component, action)) =
        run_action-IsPlain component (find_action parse_body marshal meanwhile r component action)

    tested-IsPlain : (post htmx origin : Bool) → IsPlain (tested post htmx origin)
    tested-IsPlain false htmx origin = error-IsPlain (codes "method not allowed") 405 s
    tested-IsPlain true false origin = error-IsPlain (codes "forbidden") 403 s
    tested-IsPlain true true false = error-IsPlain (codes "forbidden") 403 s
    tested-IsPlain true true true =
        routed-IsPlain (parse_action_path req.path (action_prefix r.prefix))

    handle_action-IsPlain : IsPlain (handle_action parse_body marshal meanwhile r req s)
    unfolding handle_action
    handle_action-IsPlain = tested-IsPlain is_post is_htmx (action_origin_allowed req)

    -- As long as no other request uses the released context before the headers are written, the
    -- response of HandleAction has no header of a name other than Content-Type and
    -- X-Content-Type-Options, whatever the action and the render have recorded: ReleaseContext has
    -- dropped it.
    pub get-handle_action :
        (n : Bytes)
        → n ≢ codes "Content-Type"
        → n ≢ codes "X-Content-Type-Options"
        → get n (handle_action parse_body marshal meanwhile r req s).0.headers ≡ none
    get-handle_action n d e = handle_action-IsPlain n d e
