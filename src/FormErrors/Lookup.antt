-- ===== src/FormErrors/Lookup.antt =====
-- `GetFormError` after `SetFormError`.
use nanite_render.Prelude.{
  if◌then◌else◌, ℕ, zero, suc, ◌≡◌, ◌≢◌, refl, sym, ap, ◌∙◌, inl, inr, true, false, Option, none,
  some, List, [], ◌∷◌, ◌++◌, append-nil, Bool-cases, Option-cases, length, take, Bytes, text_eq,
  text_eq_iff,
}
use nanite_render.FormErrors.{
  FormErrorKv, FormErrors, inline_n, set_form_error, find_error, get_form_error,
}
use nanite_render.FormErrors.Laws.{
  IsValid, errors, upsert, lookup_error, take-length, upsert-hit, upsert-miss, set_form_error_lem,
}

abbrev or_else : Option Bytes → Bytes → Bytes
or_else none d = d
or_else (some m) d = m

find_error_lem :
    (n : ℕ) (key : Bytes) (xs ys : List FormErrorKv)
    → lookup_error key (take n xs ++ ys) ≡ or_else (find_error n key xs) (lookup_error key ys)
unfolding find_error lookup_error
find_error_lem zero key xs ys = refl
find_error_lem (suc n) key [] ys = refl
find_error_lem (suc n) key (x ∷ xs) ys = elim (Bool-cases (text_eq x.key key)) [
  | inl hit ↦ rw hit refl
  | inr miss ↦ rw miss (find_error_lem n key xs ys)
]

lookup_error-nil : (key : Bytes) → lookup_error key [] ≡ []
unfolding lookup_error
lookup_error-nil key = refl

get_as_or_else :
    (c : ℕ) (key : Bytes) (rc : FormErrors)
    → get_form_error (c ∷ key) rc
      ≡ or_else
          (find_error (inline_n rc.form_err_n) (c ∷ key) rc.form_err_inline)
          (or_else (find_error (length rc.form_err_overflow) (c ∷ key) rc.form_err_overflow) [])
unfolding get_form_error
get_as_or_else c key rc =
    elim (Option-cases (find_error (inline_n rc.form_err_n) (c ∷ key) rc.form_err_inline)) [
      | inr (m, hit) ↦ rw (hit, get_form_error) refl
      | inl miss ↦
          elim (Option-cases
            (find_error (length rc.form_err_overflow) (c ∷ key) rc.form_err_overflow)) [
              | inr (m, hit) ↦ rw (miss, get_form_error, hit) refl
              | inl miss' ↦ rw (miss, get_form_error, miss') refl
            ]
    ]

get_form_error_lem :
    (c : ℕ) (key : Bytes) (rc : FormErrors)
    → get_form_error (c ∷ key) rc ≡ lookup_error (c ∷ key) (errors rc)
get_form_error_lem c key rc =
    let over = rc.form_err_overflow in
    let n = inline_n rc.form_err_n in
    let last : lookup_error (c ∷ key) over ≡ or_else (find_error (length over) (c ∷ key) over) [] =
      ap (lookup_error (c ∷ key)) (sym (append-nil (take (length over) over) ∙ take-length over))
      ∙ find_error_lem (length over) (c ∷ key) over []
      ∙ ap (or_else (find_error (length over) (c ∷ key) over)) (lookup_error-nil (c ∷ key)) in
    get_as_or_else c key rc
    ∙ ap (or_else (find_error n (c ∷ key) rc.form_err_inline)) (sym last)
    ∙ sym (find_error_lem n (c ∷ key) rc.form_err_inline over)

lookup-hit :
    (key : Bytes) (x : FormErrorKv) (xs : List FormErrorKv)
    → text_eq x.key key ≡ true
    → lookup_error key (x ∷ xs) ≡ x.msg
unfolding lookup_error
lookup-hit key x xs e = rw e refl

lookup-miss :
    (key : Bytes) (x : FormErrorKv) (xs : List FormErrorKv)
    → text_eq x.key key ≡ false
    → lookup_error key (x ∷ xs) ≡ lookup_error key xs
unfolding lookup_error
lookup-miss key x xs e = rw e refl

lookup-upsert :
    (key msg : Bytes) (xs : List FormErrorKv) → lookup_error key (upsert key msg xs) ≡ msg
unfolding upsert
lookup-upsert key msg [] =
    lookup-hit key (record { key = key; msg = msg }) [] ((text_eq_iff key key).1 refl)
lookup-upsert key msg (x ∷ xs) = elim (Bool-cases (text_eq x.key key)) [
  | inl hit ↦
      ap (lookup_error key) (upsert-hit key msg x xs hit)
      ∙ lookup-hit key (record x { msg = msg }) xs hit
  | inr miss ↦
      ap (lookup_error key) (upsert-miss key msg x xs miss)
      ∙ lookup-miss key x (upsert key msg xs) miss
      ∙ lookup-upsert key msg xs
]

text_ne : (s t : Bytes) → s ≢ t → text_eq s t ≡ false
text_ne s t h = elim (Bool-cases (text_eq s t)) [
  | inl e ↦ absurd (h ((text_eq_iff s t).0 e))
  | inr e ↦ e
]

lookup-upsert_ne :
    (other key msg : Bytes) (xs : List FormErrorKv)
    → key ≢ other
    → lookup_error other (upsert key msg xs) ≡ lookup_error other xs
unfolding upsert
lookup-upsert_ne other key msg [] h =
    lookup-miss other (record { key = key; msg = msg }) [] (text_ne key other h)
lookup-upsert_ne other key msg (x ∷ xs) h = elim (Bool-cases (text_eq x.key key)) [
  | inl hit ↦
      let miss : text_eq x.key other ≡ false =
        text_ne x.key other (λ e. h (sym ((text_eq_iff x.key key).0 hit) ∙ e)) in
      ap (lookup_error other) (upsert-hit key msg x xs hit)
      ∙ lookup-miss other (record x { msg = msg }) xs miss
      ∙ sym (lookup-miss other x xs miss)
  | inr passed ↦
      ap (lookup_error other) (upsert-miss key msg x xs passed)
      ∙ elim (Bool-cases (text_eq x.key other)) [
        | inl hit ↦ lookup-hit other x (upsert key msg xs) hit ∙ sym (lookup-hit other x xs hit)
        | inr miss ↦
            lookup-miss other x (upsert key msg xs) miss
            ∙ lookup-upsert_ne other key msg xs h
            ∙ sym (lookup-miss other x xs miss)
      ]
]

get-set_self :
    (c : ℕ) (key msg : Bytes) (rc : FormErrors)
    → IsValid rc
    → get_form_error (c ∷ key) (set_form_error (c ∷ key) msg rc) ≡ msg
get-set_self c key msg rc v =
    get_form_error_lem c key (set_form_error (c ∷ key) msg rc)
    ∙ ap (lookup_error (c ∷ key)) (set_form_error_lem c key msg rc v).1
    ∙ lookup-upsert (c ∷ key) msg (errors rc)

get-set_other :
    (d : ℕ) (other : Bytes) (c : ℕ) (key msg : Bytes) (rc : FormErrors)
    → IsValid rc
    → c ∷ key ≢ d ∷ other
    → get_form_error (d ∷ other) (set_form_error (c ∷ key) msg rc) ≡ get_form_error (d ∷ other) rc
get-set_other d other c key msg rc v h =
    get_form_error_lem d other (set_form_error (c ∷ key) msg rc)
    ∙ ap (lookup_error (d ∷ other)) (set_form_error_lem c key msg rc v).1
    ∙ lookup-upsert_ne (d ∷ other) (c ∷ key) msg (errors rc) h
    ∙ sym (get_form_error_lem d other rc)

-- On valid form errors and for non-empty keys, GetFormError after SetFormError returns the message
-- that was just set where the keys are equal, and what it returned before where they are not.
pub get-set_form_error :
    (d : ℕ) (other : Bytes) (c : ℕ) (key msg : Bytes) (rc : FormErrors)
    → IsValid rc
    → get_form_error (d ∷ other) (set_form_error (c ∷ key) msg rc)
      ≡ (if text_eq (c ∷ key) (d ∷ other) then msg else get_form_error (d ∷ other) rc)
get-set_form_error d other c key msg rc v = elim (Bool-cases (text_eq (c ∷ key) (d ∷ other))) [
  | inl e ↦ rw (e, ← (text_eq_iff (c ∷ key) (d ∷ other)).0 e) (get-set_self c key msg rc v)
  | inr e ↦ rw e (
      get-set_other d other c key msg rc v
        (λ q. absurd (cc (sym e ∙ (text_eq_iff (c ∷ key) (d ∷ other)).1 q))))
]
