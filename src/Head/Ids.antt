-- ===== src/Head/Ids.antt =====
-- UseId never repeats an id while its sequence grows.
use nanite_render.Prelude.{
  ℕ, zero, suc, ◌+◌, ◌-◌, ◌*◌, ◌/◌, ◌%◌, ◌<◌, ◌≡◌, ◌≢◌, refl, sym, ap, ◌∙◌, inl, inr, true, [], ◌∷◌,
  ◌++◌, ltb, leb, ◌≤◌, List, Option, none, some, Bool-cases, length, get_or, Bytes, arith,
}
use nanite_render.Assets.{requires_css, requires_js}
use nanite_render.Head.{
  Head, MetaKv, set_title, append_meta, placed, add_meta, decimal, nano_id, ids_from,
  precomputed_ids, use_id,
}

-- the number that digits stand for
value : ℕ → Bytes → ℕ
value acc [] = acc
value acc (c ∷ s) = value (10 * acc + (c - b'0')) s

value-snoc : (acc : ℕ) (s : Bytes) (c : ℕ) → value acc (s ++ c ∷ []) ≡ 10 * value acc s + (c - b'0')
unfolding value
value-snoc acc [] c = refl
value-snoc acc (d ∷ s) c = value-snoc (10 * acc + (d - b'0')) s c

digits_lem : {v : ℕ} (n : ℕ) → v ≡ n / 10 → 10 * v + ((b'0' + n % 10) - b'0') ≡ n
digits_lem n e = omega arith

value-decimal : (fuel n : ℕ) → n < fuel → value 0 (decimal fuel n) ≡ n
unfolding decimal value
value-decimal zero n h = absurd (omega arith)
value-decimal (suc fuel) n h = elim (Bool-cases (ltb n 10)) [
  | inl e ↦ rw e (ground arith)
  | inr e ↦ rw e (
      value-snoc 0 (decimal fuel (n / 10)) (b'0' + n % 10)
      ∙ digits_lem n (value-decimal fuel (n / 10) (grind arith)))
]

decimal_injective : {m n : ℕ} → decimal (suc m) m ≡ decimal (suc n) n → m ≡ n
decimal_injective {m} {n} e =
    sym (value-decimal (suc m) m (omega arith))
    ∙ ap (value 0) e
    ∙ value-decimal (suc n) n (omega arith)

-- the bytes behind the prefix of an id
digits : Bytes → Bytes
digits (_ ∷ _ ∷ _ ∷ _ ∷ _ ∷ s) = s
digits _ = []

pub nano_id_injective : {m n : ℕ} → nano_id m ≡ nano_id n → m ≡ n
unfolding digits
nano_id_injective e = decimal_injective (ap digits e)

get_or-ids_from : (n i k : ℕ) → k < n → get_or (ids_from n i) k [] ≡ nano_id (i + k + 1)
unfolding ids_from
get_or-ids_from zero i k h = absurd (omega arith)
get_or-ids_from (suc n) i zero h = ap (λ m. nano_id (m + 1)) (omega arith)
get_or-ids_from (suc n) i (suc k) h =
    get_or-ids_from n (i + 1) k (omega arith) ∙ ap (λ m. nano_id (m + 1)) (omega arith)

length-ids_from : (n i : ℕ) → length (ids_from n i) ≡ n
unfolding ids_from
length-ids_from zero i = refl
length-ids_from (suc n) i = ap suc (length-ids_from n (i + 1))

last-ids_from :
    (n k : ℕ)
    → leb (k + 1) (length (ids_from n 0)) ≡ true
    → get_or (ids_from n 0) (k + 1 - 1) [] ≡ nano_id (k + 1)
last-ids_from n k e =
    let h : k + 1 - 1 ≡ k = omega arith in
    rw h (
      get_or-ids_from n 0 k (grind (arith, length-ids_from n 0))
      ∙ ap (λ m. nano_id (m + 1)) (omega arith))

-- on both branches
pub fst-use_id : (rc : Head) → (use_id rc).0 ≡ nano_id (rc.id_seq + 1)
unfolding use_id precomputed_ids
fst-use_id rc = elim (Bool-cases (leb (rc.id_seq + 1) (length (ids_from 256 0)))) [
  | inl e ↦ rw e (last-ids_from 256 rc.id_seq e)
  | inr e ↦ rw e refl
]

-- the request after a number of calls
unfoldable pub calls : ℕ → Head → Head
calls zero rc = rc
calls (suc n) rc = calls n (use_id rc).1

pub id_seq-calls : (n : ℕ) (rc : Head) → (calls n rc).id_seq ≡ rc.id_seq + n
unfolding calls use_id
id_seq-calls zero rc = omega arith
id_seq-calls (suc n) rc = id_seq-calls n (use_id rc).1 ∙ omega arith

-- what a component can do with the head of its request
pub data Call : Type 0 where
  title_call : Bytes → Call
  meta_call : Bytes → Bytes → Call
  css_call : Bytes → Call
  js_call : Bytes → Call
  id_call : Call

unfoldable pub perform : Call → Head → Head
perform (title_call title) rc = set_title title rc
perform (meta_call name content) rc = add_meta name content rc
perform (css_call href) rc = record rc { assets = requires_css href rc.assets }
perform (js_call src) rc = record rc { assets = requires_js src rc.assets }
perform id_call rc = (use_id rc).1

unfoldable pub perform_all : List Call → Head → Head
perform_all [] rc = rc
perform_all (c ∷ cs) rc = perform_all cs (perform c rc)

id_seq-append_meta : (kv : MetaKv) (rc : Head) → (append_meta kv rc).id_seq ≡ rc.id_seq
unfolding append_meta
id_seq-append_meta kv rc = elim (Bool-cases (ltb rc.meta_n 16)) [
  | inl e ↦ rw e refl
  | inr e ↦ rw e refl
]

id_seq-placed :
    (o p : Option (List MetaKv)) (kv : MetaKv) (rc : Head) → (placed o p kv rc).id_seq ≡ rc.id_seq
unfolding placed
id_seq-placed (some xs) p kv rc = refl
id_seq-placed none (some ys) kv rc = refl
id_seq-placed none none kv rc = id_seq-append_meta kv rc

id_seq-add_meta : (name content : Bytes) (rc : Head) → (add_meta name content rc).id_seq ≡ rc.id_seq
unfolding add_meta
id_seq-add_meta [] content rc = refl
id_seq-add_meta (c ∷ name) content rc = id_seq-placed _ _ _ rc

id_seq-perform : (c : Call) (rc : Head) → rc.id_seq ≤ (perform c rc).id_seq
unfolding perform set_title use_id
id_seq-perform (title_call title) rc = omega arith
id_seq-perform (meta_call name content) rc = omega (arith, id_seq-add_meta name content rc)
id_seq-perform (css_call href) rc = omega arith
id_seq-perform (js_call src) rc = omega arith
id_seq-perform id_call rc = omega arith

id_seq-perform_all : (cs : List Call) (rc : Head) → rc.id_seq ≤ (perform_all cs rc).id_seq
unfolding perform_all
id_seq-perform_all [] rc = omega arith
id_seq-perform_all (c ∷ cs) rc =
    omega (arith, id_seq-perform c rc, id_seq-perform_all cs (perform c rc))

-- On one context, UseId does not return an id again that it has returned, after any calls of
-- SetTitle, AddMeta, RequiresCSS, RequiresJS and UseId in between, also behind the 256 precomputed
-- ids. The sequence of ids is counted without a bound, and is not cleared or replaced by these
-- calls.
pub use_id-perform_all :
    (cs : List Call) (rc : Head) → (use_id (perform_all cs (use_id rc).1)).0 ≢ (use_id rc).0
use_id-perform_all cs rc e =
    let seq =
      nano_id_injective (sym (fst-use_id (perform_all cs (use_id rc).1)) ∙ e ∙ fst-use_id rc) in
    let moved : (use_id rc).1.id_seq ≡ rc.id_seq + 1 = unfold use_id in refl in
    omega (arith, seq, moved, id_seq-perform_all cs (use_id rc).1)
