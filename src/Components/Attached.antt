-- ===== src/Components/Attached.antt =====
-- AttachComponents: what a registry finds after it was attached.
use nanite_render.Prelude.{
  ◌≡◌, refl, sym, ap, ◌∙◌, inl, inr, Bool, true, false, Bool-cases, Option, none, some, List, [],
  ◌∷◌, if◌then◌else◌, Bytes, text_eq, text_eq_iff,
}
use nanite_render.State.{Values, get}
use nanite_render.RenderContext.FuncMaps.{get-put, or_else}
use nanite_render.Components.{
  register, lookup, component_names, carried, carry, carry_all, attach_components,
}

unfoldable pub listed : Bytes → List Bytes → Bool
listed k [] = false
listed k (n ∷ ns) = if text_eq n k then true else listed k ns

module _ {C : Type 0} where
  -- the value, where the test holds
  unfoldable pub only_if : Bool → Option C → Option C
  only_if true o = o
  only_if false o = none

  or_else-none : (o : Option C) → o ≡ or_else o none
  unfolding or_else
  or_else-none none = refl
  or_else-none (some v) = refl

  carried_here :
      (o p : Option C) (k name : Bytes) (prev c : Values C)
      → text_eq name k ≡ true
      → get k c ≡ o
      → get k prev ≡ p
      → get k (carried o p name c) ≡ or_else (get k c) (get k prev)
  unfolding carried register or_else
  carried_here (some v) p k name prev c e a b = rw a refl
  carried_here none none k name prev c e a b = rw (a, b) refl
  carried_here none (some comp) k name prev c e a b = rw (a, b) (get-put k name comp c ∙ rw e refl)

  carried_there :
      (o p : Option C) (k name : Bytes) (c : Values C)
      → text_eq name k ≡ false
      → get k (carried o p name c) ≡ get k c
  unfolding carried register
  carried_there (some v) p k name c e = refl
  carried_there none none k name c e = refl
  carried_there none (some comp) k name c e = get-put k name comp c ∙ rw e refl

  get-carried :
      (o p : Option C) (k name : Bytes) (prev c : Values C)
      → get name c ≡ o
      → get name prev ≡ p
      → get k (carried o p name c) ≡ or_else (get k c) (only_if (text_eq name k) (get k prev))
  unfolding only_if
  get-carried o p k name prev c f g = elim (Bool-cases (text_eq name k)) [
    | inl e ↦
        let same : name ≡ k = (text_eq_iff name k).0 e in
        rw e (
          carried_here o p k name prev c e (sym (ap (λ x. get x c) same) ∙ f)
            (sym (ap (λ x. get x prev) same) ∙ g))
    | inr e ↦ rw e (carried_there o p k name c e ∙ or_else-none (get k c))
  ]

  get-carry :
      (k name : Bytes) (prev c : Values C)
      → get k (carry prev name c) ≡ or_else (get k c) (only_if (text_eq name k) (get k prev))
  unfolding carry lookup
  get-carry k name prev c = get-carried (get name c) (get name prev) k name prev c refl refl

  or_else_twice :
      (b b' : Bool) (o x : Option C)
      → or_else (or_else o (only_if b x)) (only_if b' x)
        ≡ or_else o (only_if (if b then true else b') x)
  unfolding or_else only_if
  or_else_twice b b' (some v) x = refl
  or_else_twice true true none none = refl
  or_else_twice true false none none = refl
  or_else_twice true b' none (some v) = refl
  or_else_twice false b' none x = refl

  get-carry_all :
      (k : Bytes) (names : List Bytes) (prev c : Values C)
      → get k (carry_all prev names c) ≡ or_else (get k c) (only_if (listed k names) (get k prev))
  unfolding carry_all listed only_if
  get-carry_all k [] prev c = or_else-none (get k c)
  get-carry_all k (n ∷ ns) prev c =
      get-carry_all k ns prev (carry prev n c)
      ∙ ap (λ o. or_else o (only_if (listed k ns) (get k prev))) (get-carry k n prev c)
      ∙ or_else_twice (text_eq n k) (listed k ns) (get k c) (get k prev)

  listed_all :
      (k : Bytes) (prev : Values C)
      → only_if (listed k (component_names prev)) (get k prev) ≡ get k prev
  unfolding listed component_names get only_if
  listed_all k [] = refl
  listed_all k ((n, v) ∷ prev) = elim (Bool-cases (text_eq n k)) [
    | inl e ↦ rw e refl
    | inr e ↦ rw e (listed_all k prev)
  ]

  -- the registry that was attached before, if any
  unfoldable pub looked_up : Bytes → Option (Values C) → Option C
  looked_up k none = none
  looked_up k (some prev) = lookup k prev

  -- After AttachComponents, a name finds the component of the registry that was attached, and
  -- where that had none, the component of the registry before it, if there was one.
  pub lookup-attach_components :
      (k : Bytes) (prev : Option (Values C)) (c : Values C)
      → lookup k (attach_components prev c) ≡ or_else (lookup k c) (looked_up k prev)
  unfolding lookup attach_components looked_up
  lookup-attach_components k none c = or_else-none (get k c)
  lookup-attach_components k (some prev) c =
      get-carry_all k (component_names prev) prev c ∙ ap (or_else (get k c)) (listed_all k prev)
