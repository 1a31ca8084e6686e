-- ===== src/State/Laws.antt =====
-- The hooks of a render read what was written last.
use nanite_render.Prelude.{
  ◌≡◌, refl, sym, ap, ◌∙◌, inl, inr, none, some, Option-cases, [], ◌∷◌, Bool-cases, Bytes, text_eq,
  text_eq_iff,
}
use nanite_render.State.{Values, get, put_value, use_state}

module _ {A : Type 0} where
  pub get-put_value : (key : Bytes) (v : A) (s : Values A) → get key (put_value key v s) ≡ some v
  unfolding get put_value
  get-put_value key v [] = rw ((text_eq_iff key key).1 refl) refl
  get-put_value key v ((k, u) ∷ s) = elim (Bool-cases (text_eq k key)) [
    | inl e ↦ rw (e, get, e) refl
    | inr e ↦ rw (e, get, e) (get-put_value key v s)
  ]

  use_found :
      (key : Bytes) (initial v : A) (s : Values A)
      → get key s ≡ some v
      → use_state key initial s ≡ (v, s)
  unfolding use_state
  use_found key initial v s e = rw (e, use_state) refl

  use_fresh :
      (key : Bytes) (initial : A) (s : Values A)
      → get key s ≡ none
      → use_state key initial s ≡ (initial, put_value key initial s)
  unfolding use_state
  use_fresh key initial s e = rw (e, use_state) refl

  -- A second UseState of a key, whatever its initial value, returns what the first returned and
  -- leaves the state as the first left it.
  pub use_state-again :
      (key : Bytes) (initial other : A) (s : Values A)
      → use_state key other (use_state key initial s).1 ≡ use_state key initial s
  use_state-again key initial other s = elim (Option-cases (get key s)) [
    | inr (v, e) ↦
        ap (λ (r : A × Values A). use_state key other r.1) (use_found key initial v s e)
        ∙ use_found key other v s e
        ∙ sym (use_found key initial v s e)
    | inl e ↦
        ap (λ (r : A × Values A). use_state key other r.1) (use_fresh key initial s e)
        ∙ use_found key other initial (put_value key initial s) (get-put_value key initial s)
        ∙ sym (use_fresh key initial s e)
  ]
