-- ===== src/FormErrors.antt =====
-- formerrors.go: the flash errors of a form, in an inline array with a heap slice behind it.
pub mod Laws
pub mod Lookup
use nanite_render.Prelude.{
  ℕ, zero, suc, ◌+◌, Option, none, some, List, [], ◌∷◌, ◌++◌, ltb, if◌then◌else◌, length, set,
  Bytes, text_eq,
}

abbrev pub form_err_inline_cap : ℕ
form_err_inline_cap = 8

pub record FormErrorKv : Type 0 where
  pub key : Bytes
  pub msg : Bytes

-- The three fields of `RenderContext` that hold the errors.
pub record FormErrors : Type 0 where
  pub form_err_inline : List FormErrorKv
  pub form_err_overflow : List FormErrorKv
  pub form_err_n : ℕ

-- `inlineN`
abbrev pub inline_n : ℕ → ℕ
inline_n n = if ltb form_err_inline_cap n then form_err_inline_cap else n

-- The loop over the first `n` slots that overwrites the message of a key; `none`: no slot has it.
unfoldable pub overwrite : ℕ → Bytes → Bytes → List FormErrorKv → Option (List FormErrorKv)
overwrite zero key msg xs = none
overwrite (suc n) key msg [] = none
overwrite (suc n) key msg (x ∷ xs) =
    if text_eq x.key key
    then some (record x { msg = msg } ∷ xs)
    else elim (overwrite n key msg xs) [ none ↦ none | some ys ↦ some (x ∷ ys) ]

-- a new error behind all others
unfoldable pub add_error : FormErrorKv → FormErrors → FormErrors
add_error kv rc =
    if ltb rc.form_err_n form_err_inline_cap
    then record rc {
      form_err_inline = set rc.form_err_inline rc.form_err_n kv;
      form_err_n = rc.form_err_n + 1;
    }
    else record rc {
      form_err_overflow = rc.form_err_overflow ++ kv ∷ [];
      form_err_n = rc.form_err_n + 1;
    }

unfoldable pub set_form_error : Bytes → Bytes → FormErrors → FormErrors
set_form_error [] msg rc = rc
set_form_error (c ∷ key) msg rc =
    elim (overwrite (inline_n rc.form_err_n) (c ∷ key) msg rc.form_err_inline) [
      | some xs ↦ record rc { form_err_inline = xs }
      | none ↦ elim (overwrite (length rc.form_err_overflow) (c ∷ key) msg rc.form_err_overflow) [
        | some ys ↦ record rc { form_err_overflow = ys }
        | none ↦ add_error (record { key = c ∷ key; msg = msg }) rc
      ]
    ]

-- The loop over the first `n` slots that looks for a key.
unfoldable pub find_error : ℕ → Bytes → List FormErrorKv → Option Bytes
find_error zero key xs = none
find_error (suc n) key [] = none
find_error (suc n) key (x ∷ xs) = if text_eq x.key key then some x.msg else find_error n key xs

unfoldable pub get_form_error : Bytes → FormErrors → Bytes
get_form_error [] rc = []
get_form_error (c ∷ key) rc =
    elim (find_error (inline_n rc.form_err_n) (c ∷ key) rc.form_err_inline) [
      | some msg ↦ msg
      | none ↦ elim (find_error (length rc.form_err_overflow) (c ∷ key) rc.form_err_overflow) [
        | some msg ↦ msg
        | none ↦ []
      ]
    ]

-- the first `n` slots zeroed
unfoldable pub zero_slots : ℕ → List FormErrorKv → List FormErrorKv
zero_slots zero xs = xs
zero_slots (suc n) [] = []
zero_slots (suc n) (x ∷ xs) = (record { key = []; msg = [] }) ∷ zero_slots n xs

unfoldable pub clear_form_errors : FormErrors → FormErrors
clear_form_errors rc = record {
  form_err_inline = zero_slots (inline_n rc.form_err_n) rc.form_err_inline;
  form_err_overflow = [];
  form_err_n = 0;
}
