-- ===== src/RenderContext/FuncMaps.antt =====
-- EffectiveFuncMap: the functions of a request stand before those of a program.
use nanite_render.Prelude.{
  ◌≡◌, refl, ap, sym, ◌∙◌, inl, inr, Option, none, some, [], ◌∷◌, if◌then◌else◌, Bool-cases, false,
  Bytes, text_eq, text_eq_iff,
}
use nanite_render.State.{Values, get, put_value}
use nanite_render.RenderContext.{
  RenderContext, FuncMap, made, copy_map, merged, layered, effective_func_map,
}

module _ {A : Type 0} where
  pub get-put :
      (key k : Bytes) (v : A) (s : Values A)
      → get key (put_value k v s) ≡ (if text_eq k key then some v else get key s)
  unfolding get put_value
  get-put key k v [] = refl
  get-put key k v ((l, u) ∷ s) = elim (Bool-cases (text_eq l k)) [
    | inl e ↦
        let e' : l ≡ k = (text_eq_iff l k).0 e in
        rw (e, e') (elim (Bool-cases (text_eq k key)) [ inl f ↦ rw f refl | inr f ↦ rw f refl ])
    | inr e ↦
        rw (e, get-put key k v s)
          (elim (Bool-cases (text_eq k key)) [
            | inl f ↦
                let d : text_eq l key ≡ false =
                  ap (text_eq l) (sym ((text_eq_iff k key).0 f)) ∙ e in
                rw (f, d) refl
            | inr f ↦ rw f refl
          ])
  ]

  -- the first map that has the key
  unfoldable pub or_else : Option A → Option A → Option A
  or_else none o = o
  or_else (some f) o = some f

  get-copy_map :
      (key : Bytes) (dst src : Values A)
      → get key (copy_map dst src) ≡ or_else (get key src) (get key dst)
  unfolding get copy_map or_else
  get-copy_map key dst [] = refl
  get-copy_map key dst ((k, f) ∷ src) =
      get-put key k f (copy_map dst src) ∙ elim (Bool-cases (text_eq k key)) [
        | inl e ↦ rw e refl
        | inr e ↦ rw e (get-copy_map key dst src)
      ]

  or_else-none : (o : Option A) → or_else o none ≡ o
  unfolding or_else
  or_else-none none = refl
  or_else-none (some f) = refl

  get-merged :
      (key : Bytes) (defaults : FuncMap A) (fm : Values A)
      → get key (made (merged defaults fm)) ≡ or_else (get key fm) (get key (made defaults))
  unfolding merged get
  get-merged key none fm = sym (or_else-none _)
  get-merged key (some defaults) fm =
      get-copy_map key (copy_map [] defaults) fm
      ∙ ap (or_else (get key fm)) (get-copy_map key [] defaults ∙ or_else-none _)

  get-layered :
      (key : Bytes) (defaults fm : FuncMap A)
      → get key (made (layered defaults fm)) ≡ or_else (get key (made fm)) (get key (made defaults))
  unfolding layered get or_else
  get-layered key defaults none = refl
  get-layered key defaults (some []) = refl
  get-layered key defaults (some (kf ∷ fm)) = get-merged key defaults (kf ∷ fm)

-- A function of the request's map is found before one of the program's defaults, and one of the
-- defaults is found when the request has none of its name.
pub get-effective_func_map :
    {A D : Type 0} (key : Bytes) (defaults : FuncMap A) (rc : RenderContext A D)
    → get key (made (effective_func_map defaults rc))
      ≡ or_else (get key (made rc.func_map)) (get key (made defaults))
unfolding effective_func_map
get-effective_func_map key defaults rc = get-layered key defaults rc.func_map
