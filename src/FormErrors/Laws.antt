-- ===== src/FormErrors/Laws.antt =====
-- The flash errors against an association list.
use mathlib.Core.Path.{subst}
use nanite_render.Prelude.{
  ℕ, zero, suc, ◌+◌, ◌<◌, ◌≡◌, refl, sym, ap, ◌∙◌, inl, inr, true, false, Option, none, some, List,
  [], ◌∷◌, ◌++◌, append-nil, append_assoc, arith, ltb, if◌then◌else◌, Bool-cases, Option-cases,
  length, length-append, length-set, set, take, Bytes, text_eq,
}
use nanite_render.FormErrors.{
  form_err_inline_cap, FormErrorKv, FormErrors, inline_n, overwrite, add_error, set_form_error,
}

pub record IsValid (rc : FormErrors) : Type 0 where
  pub inline_len : length rc.form_err_inline ≡ form_err_inline_cap
  pub spilled : rc.form_err_n ≡ inline_n rc.form_err_n + length rc.form_err_overflow

-- the errors in the order of their first setting
abbrev pub errors : FormErrors → List FormErrorKv
errors rc = take (inline_n rc.form_err_n) rc.form_err_inline ++ rc.form_err_overflow

unfoldable pub upsert : Bytes → Bytes → List FormErrorKv → List FormErrorKv
upsert key msg [] = (record { key = key; msg = msg }) ∷ []
upsert key msg (x ∷ xs) =
    if text_eq x.key key then record x { msg = msg } ∷ xs else x ∷ upsert key msg xs

unfoldable pub lookup_error : Bytes → List FormErrorKv → Bytes
lookup_error key [] = []
lookup_error key (x ∷ xs) = if text_eq x.key key then x.msg else lookup_error key xs

-- What the overwriting loop over the first `n` slots means for the list that they begin.
abbrev Overwritten :
    ℕ → Bytes → Bytes → List FormErrorKv → List FormErrorKv → Option (List FormErrorKv) → Type 0
Overwritten n key msg xs ys none = upsert key msg (take n xs ++ ys) ≡ take n xs ++ upsert key msg ys
Overwritten n key msg xs ys (some zs) =
    (upsert key msg (take n xs ++ ys) ≡ take n zs ++ ys) × (length zs ≡ length xs)

pub upsert-miss :
    (key msg : Bytes) (x : FormErrorKv) (xs : List FormErrorKv)
    → text_eq x.key key ≡ false
    → upsert key msg (x ∷ xs) ≡ x ∷ upsert key msg xs
unfolding upsert
upsert-miss key msg x xs e = rw (e, upsert) refl

pub upsert-hit :
    (key msg : Bytes) (x : FormErrorKv) (xs : List FormErrorKv)
    → text_eq x.key key ≡ true
    → upsert key msg (x ∷ xs) ≡ record x { msg = msg } ∷ xs
unfolding upsert
upsert-hit key msg x xs e = rw (e, upsert) refl

Overwritten-cons :
    (n : ℕ) (key msg : Bytes) (x : FormErrorKv) (xs ys : List FormErrorKv)
    (r : Option (List FormErrorKv))
    → text_eq x.key key ≡ false
    → Overwritten n key msg xs ys r
    → Overwritten (suc n) key msg (x ∷ xs) ys (elim r [ none ↦ none | some zs ↦ some (x ∷ zs) ])
Overwritten-cons n key msg x xs ys none e h =
    upsert-miss key msg x (take n xs ++ ys) e ∙ ap (λ t. x ∷ t) h
Overwritten-cons n key msg x xs ys (some zs) e h =
    (upsert-miss key msg x (take n xs ++ ys) e ∙ ap (λ t. x ∷ t) h.0, ap suc h.1)

overwrite_lem :
    (n : ℕ) (key msg : Bytes) (xs ys : List FormErrorKv)
    → Overwritten n key msg xs ys (overwrite n key msg xs)
unfolding overwrite upsert
overwrite_lem zero key msg xs ys = refl
overwrite_lem (suc n) key msg [] ys = refl
overwrite_lem (suc n) key msg (x ∷ xs) ys = elim (Bool-cases (text_eq x.key key)) [
  | inl hit ↦ rw hit (upsert-hit key msg x (take n xs ++ ys) hit, refl)
  | inr miss ↦ rw miss (
      Overwritten-cons n key msg x xs ys (overwrite n key msg xs) miss
        (overwrite_lem n key msg xs ys))
]

pub take-length : (xs : List FormErrorKv) → take (length xs) xs ≡ xs
take-length [] = refl
take-length (x ∷ xs) = ap (λ t. x ∷ t) (take-length xs)

take-set :
    (xs : List FormErrorKv) (n : ℕ) (kv : FormErrorKv)
    → n < length xs
    → take (suc n) (set xs n kv) ≡ take n xs ++ kv ∷ []
take-set [] n kv h = absurd (omega arith)
take-set (x ∷ xs) zero kv h = refl
take-set (x ∷ xs) (suc n) kv h = ap (λ t. x ∷ t) (take-set xs n kv (omega arith))

-- A set that adds nothing to the slots in use.
same_shape :
    (rc rc' : FormErrors)
    → IsValid rc
    → length rc'.form_err_inline ≡ length rc.form_err_inline
    → length rc'.form_err_overflow ≡ length rc.form_err_overflow
    → rc'.form_err_n ≡ rc.form_err_n
    → IsValid rc'
same_shape rc rc' v e e' e'' = record {
  inline_len = e ∙ v.inline_len;
  spilled = ground (arith, v.spilled);
}

nil_of_length : (xs : List FormErrorKv) → length xs ≡ 0 → xs ≡ []
nil_of_length [] h = refl
nil_of_length (x ∷ xs) h = absurd (omega arith)

add_error_lem :
    (kv : FormErrorKv) (rc : FormErrors)
    → IsValid rc
    → IsValid (add_error kv rc) × (errors (add_error kv rc) ≡ errors rc ++ kv ∷ [])
unfolding add_error
add_error_lem kv rc v = elim (Bool-cases (ltb rc.form_err_n form_err_inline_cap)) [
  | inl room ↦
      let n = rc.form_err_n in
      let lt : n < form_err_inline_cap = ground arith in
      let used : inline_n n ≡ n = ground arith in
      let used' : inline_n (n + 1) ≡ suc n = ground arith in
      let nothing : rc.form_err_overflow ≡ [] =
        nil_of_length rc.form_err_overflow (omega (arith, v.spilled)) in
      rw room (
        record {
          inline_len = length-set rc.form_err_inline n kv ∙ v.inline_len;
          spilled = omega (arith, v.spilled);
        },
        rw (used, used', nothing, append-nil, append-nil)
            (take-set rc.form_err_inline n kv (omega (arith, v.inline_len))),
      )
  | inr full ↦
      let used : inline_n rc.form_err_n ≡ form_err_inline_cap = ground arith in
      let used' : inline_n (rc.form_err_n + 1) ≡ form_err_inline_cap = ground arith in
      rw full (
        record {
          inline_len = v.inline_len;
          spilled = omega (arith, v.spilled, length-append rc.form_err_overflow (kv ∷ []));
        },
        rw (used, used')
            (sym (
              append_assoc (take form_err_inline_cap rc.form_err_inline) rc.form_err_overflow
                (kv ∷ []))),
      )
]

-- `rc'` is what setting `msg` for `key` on `rc` leaves.
abbrev pub HasRecorded : Bytes → Bytes → FormErrors → FormErrors → Type 0
HasRecorded key msg rc rc' = IsValid rc' × (errors rc' ≡ upsert key msg (errors rc))

upsert-nil : (key msg : Bytes) → upsert key msg [] ≡ (record { key = key; msg = msg }) ∷ []
unfolding upsert
upsert-nil key msg = refl

set_overflow :
    (key msg : Bytes) (rc : FormErrors)
    → IsValid rc
    → overwrite (inline_n rc.form_err_n) key msg rc.form_err_inline ≡ none
    → HasRecorded key msg rc
        (elim (overwrite (length rc.form_err_overflow) key msg rc.form_err_overflow) [
          | some ys ↦ record rc { form_err_overflow = ys }
          | none ↦ add_error (record { key = key; msg = msg }) rc
        ])
set_overflow key msg rc v miss =
    let first = take (inline_n rc.form_err_n) rc.form_err_inline in
    let over = rc.form_err_overflow in
    let kv : FormErrorKv = record { key = key; msg = msg } in
    let passed : upsert key msg (first ++ over) ≡ first ++ upsert key msg over =
      subst (Overwritten (inline_n rc.form_err_n) key msg rc.form_err_inline over) miss
        (overwrite_lem (inline_n rc.form_err_n) key msg rc.form_err_inline over) in
    elim (Option-cases (overwrite (length over) key msg over)) [
      | inl absent ↦
          let appended : upsert key msg (take (length over) over ++ [])
              ≡ take (length over) over ++ upsert key msg [] =
            subst (Overwritten (length over) key msg over []) absent
              (overwrite_lem (length over) key msg over []) in
          let (v', e) = add_error_lem kv rc v in
          rw absent (
            v',
            e
                ∙ append_assoc first over (kv ∷ [])
                ∙ ap (λ t. first ++ t)
                    (ap (λ t. t ++ kv ∷ []) (sym (take-length over))
                      ∙ ap (λ t. take (length over) over ++ t) (sym (upsert-nil key msg))
                      ∙ sym appended
                      ∙ ap (upsert key msg)
                          (append-nil (take (length over) over) ∙ take-length over))
                ∙ sym passed,
          )
      | inr (ys, hit) ↦
          let written =
            subst (Overwritten (length over) key msg over []) hit
              (overwrite_lem (length over) key msg over []) in
          let whole : upsert key msg over ≡ ys =
            ap (upsert key msg) (sym (append-nil (take (length over) over) ∙ take-length over))
            ∙ written.0
            ∙ append-nil (take (length over) ys)
            ∙ ap (λ (n : ℕ). take n ys) (sym written.1)
            ∙ take-length ys in
          rw hit (
            same_shape rc (record rc { form_err_overflow = ys }) v refl written.1 refl,
            ap (λ t. first ++ t) (sym whole) ∙ sym passed,
          )
    ]

-- SetFormError with a non-empty key on valid form errors leaves valid ones, whose list has the
-- key's message overwritten in place, or the new error at its end.
pub set_form_error_lem :
    (c : ℕ) (key msg : Bytes) (rc : FormErrors)
    → IsValid rc
    → HasRecorded (c ∷ key) msg rc (set_form_error (c ∷ key) msg rc)
unfolding set_form_error
set_form_error_lem c key msg rc v =
    let n = inline_n rc.form_err_n in
    elim (Option-cases (overwrite n (c ∷ key) msg rc.form_err_inline)) [
      | inl miss ↦ rw (miss, set_form_error) (set_overflow (c ∷ key) msg rc v miss)
      | inr (zs, hit) ↦
          let written =
            subst (Overwritten n (c ∷ key) msg rc.form_err_inline rc.form_err_overflow) hit
              (overwrite_lem n (c ∷ key) msg rc.form_err_inline rc.form_err_overflow) in
          rw (hit, set_form_error)
            (
              same_shape rc (record rc { form_err_inline = zs }) v written.1 refl refl,
              sym written.0,
            )
    ]
