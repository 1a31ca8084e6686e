-- ===== src/Actions.antt =====
-- actions.go, and `ComponentContext.ActionURL` of fluent.go: colocated server actions. What the
-- code calls and does not implement, strconv and the decoders of the body, are parameters.
pub mod Paths
pub mod Origins
pub mod Handler
pub mod Guards
use nanite_render.Prelude.{
  ℕ, ◌+◌, Bool, true, false, ◌||◌, ◌&&◌, not, Option, none, some, List, [], ◌∷◌, ◌++◌, ◌==◌,
  if◌then◌else◌, Bytes, codes, text_eq,
}
use nanite_render.ParseHtml.Scan.{cut_at}

pub record Request (B : Type 0) : Type 0 where
  pub method : Bytes
  -- `Header.Get`: empty where the header is missing
  pub header : Bytes → Bytes
  pub host : Bytes
  pub path : Bytes
  pub body : B

abbrev pub default_action_prefix : Bytes
default_action_prefix = codes "/_nano/action/"

-- `ActionPrefix`, and the same choice in ActionURL and parseActionPath
unfoldable pub action_prefix : Bytes → Bytes
action_prefix [] = default_action_prefix
action_prefix (c ∷ prefix) = c ∷ prefix

unfoldable pub action_url : Bytes → Bytes → Bytes → Bytes
action_url prefix [] action = []
action_url prefix (c ∷ name) [] = []
action_url prefix (c ∷ name) (a ∷ action) =
    action_prefix prefix ++ ((c ∷ name) ++ (codes "/" ++ (a ∷ action)))

-- the rest behind a prefix, where the text has it
unfoldable pub behind_prefix : Bytes → Bytes → Option Bytes
behind_prefix [] s = some s
behind_prefix (p ∷ ps) [] = none
behind_prefix (p ∷ ps) (c ∷ s) = let r = behind_prefix ps s in if p == c then r else none

-- The path is refused where a slash stands in the action, too.
abbrev pub unless_cut : Bytes → Bytes → Option (Bytes × Bytes) → Option (Bytes × Bytes)
unless_cut component action none = some (component, action)
unless_cut component action (some x) = none

unfoldable pub split_action : Option (Bytes × Bytes) → Option (Bytes × Bytes)
split_action none = none
split_action (some ([], action)) = none
split_action (some (c ∷ component, [])) = none
split_action (some (c ∷ component, a ∷ action)) =
    unless_cut (c ∷ component) (a ∷ action) (cut_at b'/' (a ∷ action))

abbrev pub split_rest : Option Bytes → Option (Bytes × Bytes)
split_rest none = none
split_rest (some rest) = split_action (cut_at b'/' rest)

unfoldable pub parse_action_path : Bytes → Bytes → Option (Bytes × Bytes)
parse_action_path path prefix = split_rest (behind_prefix (action_prefix prefix) path)

-- `if j := strings.IndexByte(host, q); j >= 0 { host = host[:j] }`
unfoldable pub trim_at : ℕ → Bytes → Bytes
trim_at q [] = []
trim_at q (c ∷ s) = let r = trim_at q s in if c == q then [] else c ∷ r

abbrev pub trim_host : Bytes → Bytes
trim_host host = trim_at b':' (trim_at b'?' (trim_at b'/' host))

-- the scheme and what stands behind its colon
unfoldable pub ref_allowed : Bytes → Option (Bytes × Bytes) → Bool
ref_allowed req_host none = false
ref_allowed req_host (some (scheme, rest)) =
    if text_eq scheme (codes "http") || text_eq scheme (codes "https")
    then elim (behind_prefix (codes "//") rest) [
      | none ↦ false
      | some host ↦ text_eq (trim_host host) (trim_at b':' req_host)
    ]
    else false

-- `ref`
unfoldable pub referrer : Bytes → Bytes → Bytes
referrer [] referer = referer
referrer (c ∷ origin) referer = c ∷ origin

-- the host of the request, and the reference
unfoldable pub host_allowed : Bytes → Bytes → Bool
host_allowed host [] = false
host_allowed host (c ∷ ref) = ref_allowed host (cut_at b':' (c ∷ ref))

module _ {B : Type 0} where
  unfoldable pub action_origin_allowed : Request B → Bool
  action_origin_allowed req =
      host_allowed req.host (referrer (req.header (codes "Origin")) (req.header (codes "Referer")))

-- the values of props
pub data FormValue (I F : Type 0) : Type 0 where
  bool : Bool → FormValue I F
  int : I → FormValue I F
  float : F → FormValue I F
  text : Bytes → FormValue I F

module _ {I F : Type 0} (atoi : Bytes → Option I) (parse_float : Bytes → Option F) where
  unfoldable pub convert_form_value : Bytes → FormValue I F
  convert_form_value s =
      if text_eq s (codes "true")
      then bool true
      else if text_eq s (codes "false")
      then bool false
      else elim (atoi s) [
        | some i ↦ int i
        | none ↦ elim (parse_float s) [ some f ↦ float f | none ↦ text s ]
      ]

  -- the loop over the form: the first value of each key that has one
  unfoldable pub form_props : List (Bytes × List Bytes) → List (Bytes × FormValue I F)
  form_props [] = []
  form_props ((k, []) ∷ form) = form_props form
  form_props ((k, v ∷ vs) ∷ form) = (k, convert_form_value v) ∷ form_props form
