-- ===== src/State.antt =====
-- state.go: the state that the components of one render share. The map is an association list, newest
-- first; the mutex makes each method one step. `A` is Go's `any`.
pub mod Laws
use nanite_render.Prelude.{Option, none, some, List, [], ◌∷◌, if◌then◌else◌, Bytes, text_eq}

abbrev pub Values : Type 0 → Type 0
Values A = List (Bytes × A)

module _ {A : Type 0} where
  abbrev pub new_state : Values A
  new_state = []

  unfoldable pub get : Bytes → Values A → Option A
  get key [] = none
  get key ((k, v) ∷ s) = if text_eq k key then some v else get key s

  -- `s.values[key] = value`
  unfoldable pub put_value : Bytes → A → Values A → Values A
  put_value key value [] = (key, value) ∷ []
  put_value key value ((k, v) ∷ s) =
      if text_eq k key then (k, value) ∷ s else (k, v) ∷ put_value key value s

  unfoldable pub set_value : Bytes → A → Values A → Values A
  set_value key value s = put_value key value s

  -- the value, and the state after the call
  unfoldable pub use_state : Bytes → A → Values A → A × Values A
  use_state key initial s = elim (get key s) [
    | some v ↦ (v, s)
    | none ↦ (initial, put_value key initial s)
  ]

  unfoldable pub clear : Values A → Values A
  clear s = []
