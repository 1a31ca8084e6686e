-- ===== src/Actions/Origins.antt =====
-- The origin check: for a reference and a request host of the usual forms, it compares the hosts.
use nanite_render.Prelude.{
  ℕ, ◌≡◌, refl, ap, ◌∙◌, ◌⊎◌, inl, inr, Bool, true, false, [], ◌∷◌, ◌++◌, append-nil, arith,
  if◌then◌else◌, Bytes, codes, text_eq, Lacks,
}
use nanite_render.ParseHtml.Scan.{cut_at}
use nanite_render.Actions.{
  Request, behind_prefix, trim_at, trim_host, ref_allowed, referrer, host_allowed,
  action_origin_allowed,
}

trim_at-append : (q : ℕ) (h t : Bytes) → Lacks q h → trim_at q (h ++ t) ≡ h ++ trim_at q t
unfolding trim_at
trim_at-append q [] t l = refl
trim_at-append q (c ∷ h) t (d, l) = ground (arith, trim_at-append q h t l)

abbrev pub IsHost : Bytes → Type 0
IsHost h = Lacks b'/' h × Lacks b'?' h × Lacks b':' h

-- what may stand behind a host: nothing, a path, a query or a port
abbrev pub EndsHost : Bytes → Type 0
EndsHost [] = Unit {0}
EndsHost (c ∷ t) = (c ≡ b'/') ⊎ (c ≡ b'?') ⊎ (c ≡ b':')

abbrev pub EndsName : Bytes → Type 0
EndsName [] = Unit {0}
EndsName (c ∷ t) = c ≡ b':'

abbrev pub scheme : Bool → Bytes
scheme secure = if secure then codes "https" else codes "http"

trim_end : (t : Bytes) → EndsHost t → trim_host t ≡ []
unfolding trim_at
trim_end [] e = refl
trim_end (c ∷ t) (inl e) = rw e refl
trim_end (c ∷ t) (inr (inl e)) = rw e refl
trim_end (c ∷ t) (inr (inr e)) = rw e refl

trim_name : (t : Bytes) → EndsName t → trim_at b':' t ≡ []
unfolding trim_at
trim_name [] e = refl
trim_name (c ∷ t) e = rw e refl

trim_host-append : (h t : Bytes) → IsHost h → EndsHost t → trim_host (h ++ t) ≡ h
trim_host-append h t (a, b, c) e =
    ap (λ s. trim_at b':' (trim_at b'?' s)) (trim_at-append b'/' h t a)
    ∙ ap (trim_at b':') (trim_at-append b'?' h (trim_at b'/' t) b)
    ∙ trim_at-append b':' h (trim_at b'?' (trim_at b'/' t)) c
    ∙ ap (λ s. h ++ s) (trim_end t e)
    ∙ append-nil h

-- the reference behind its scheme
ref_allowed_lem :
    (secure : Bool) (h t req_host : Bytes)
    → ref_allowed req_host (cut_at b':' (scheme secure ++ (codes "://" ++ (h ++ t))))
      ≡ text_eq (trim_host (h ++ t)) (trim_at b':' req_host)
unfolding ref_allowed behind_prefix cut_at
ref_allowed_lem true h t req_host = refl
ref_allowed_lem false h t req_host = refl

allowed_of_ref :
    {B : Type 0} (secure : Bool) (h t : Bytes) (req : Request B)
    → referrer (req.header (codes "Origin")) (req.header (codes "Referer"))
      ≡ scheme secure ++ (codes "://" ++ (h ++ t))
    → action_origin_allowed req ≡ text_eq (trim_host (h ++ t)) (trim_at b':' req.host)
unfolding action_origin_allowed host_allowed
allowed_of_ref true h t req e = ap (host_allowed req.host) e ∙ ref_allowed_lem true h t req.host
allowed_of_ref false h t req e = ap (host_allowed req.host) e ∙ ref_allowed_lem false h t req.host

-- Where the Origin, or without one the Referer, is http or https, a host without slash, question
-- mark and colon, and nothing, a path, a query or a port behind it, and the request's host is a
-- name without a colon and maybe a port, actionOriginAllowed says yes exactly when the host and
-- the name are equal.
pub action_origin_allowed_lem :
    {B : Type 0} (secure : Bool) (h t name port : Bytes) (req : Request B)
    → IsHost h
    → EndsHost t
    → Lacks b':' name
    → EndsName port
    → referrer (req.header (codes "Origin")) (req.header (codes "Referer"))
      ≡ scheme secure ++ (codes "://" ++ (h ++ t))
    → req.host ≡ name ++ port
    → action_origin_allowed req ≡ text_eq h name
action_origin_allowed_lem secure h t name port req ih eh ln ep e e' =
    let trimmed : trim_at b':' req.host ≡ name =
      ap (trim_at b':') e'
      ∙ trim_at-append b':' name port ln
      ∙ ap (λ s. name ++ s) (trim_name port ep)
      ∙ append-nil name in
    allowed_of_ref secure h t req e
    ∙ ap (λ s. text_eq s (trim_at b':' req.host)) (trim_host-append h t ih eh)
    ∙ ap (text_eq h) trimmed
