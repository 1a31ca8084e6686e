-- ===== src/NodeStream.antt =====
-- soa.go: the structure of arrays of a parsed template, its readers, and the builder. A node is an
-- index into the parallel slices. `none` is the index panic of Go.
pub mod Builder
pub mod WellFormed
pub mod Links
use Prim.Native.Nat.{bit_and}
use nanite_render.Prelude.{
  ℕ, ◌+◌, ◌-◌, ◌*◌, ◌/◌, ◌^◌, Bool, true, false, not, ◌||◌, Option, none, some, ◌>>=◌, List, [],
  ◌∷◌, ltb, leb, ◌==◌, if◌then◌else◌, length, get_elem?, take, drop, Bytes, codes, text_eq, ℤ, pos,
  negsuc,
}

-- An attribute value, Go's `any`: `nil`, a `string`, a `[]byte`, a value with a `String` method
-- and its result, or anything else.
pub data Value : Type 0 where
  nil : Value
  str : Bytes → Value
  raw : Bytes → Value
  stringer : Bytes → Value
  other : Value

unfoldable pub stringify : Value → Bytes
stringify (str s) = s
stringify (raw b) = b
stringify (stringer s) = s
stringify _ = []

pub record NodeStream : Type 0 where
  pub tag : List Bytes
  pub flags : List ℕ
  pub ns : List ℕ
  pub child_start : List ℕ
  pub child_end : List ℕ
  pub attr_start : List ℕ
  pub attr_end : List ℕ
  pub text_off : List ℕ
  pub parent : List ℤ
  pub first_child : List ℤ
  pub next_sibling : List ℤ
  pub component_name : List Bytes
  pub attr_keys : List Bytes
  pub attr_vals : List Value
  pub text_buf : Bytes
  pub count : ℕ

abbrev pub flag_void : ℕ
flag_void = 2 ^ 0

abbrev pub flag_self_closing : ℕ
flag_self_closing = 2 ^ 1

abbrev pub flag_component : ℕ
flag_component = 2 ^ 2

abbrev pub flag_fragment : ℕ
flag_fragment = 2 ^ 3

abbrev pub flag_raw : ℕ
flag_raw = 2 ^ 4

abbrev pub flag_text : ℕ
flag_text = 2 ^ 5

abbrev pub flag_has_children : ℕ
flag_has_children = 2 ^ 7

-- `flags&mask != 0`
unfoldable pub has : ℕ → ℕ → Bool
has flags mask = not (bit_and flags mask == 0)

abbrev pub minus_one : ℤ
minus_one = negsuc 0

-- `xs[lo:hi]`
unfoldable pub slice {ℓ} : {A : Type ℓ} → List A → ℕ → ℕ → Option (List A)
slice xs lo hi =
    if leb lo hi
    then (if leb hi (length xs) then some (take (hi - lo) (drop lo xs)) else none)
    else none

module _ (s : NodeStream) where
  unfoldable pub is_void : ℕ → Option Bool
  is_void i = do f ← get_elem? s.flags i; some (has f flag_void)

  unfoldable pub is_component : ℕ → Option Bool
  is_component i = do f ← get_elem? s.flags i; some (has f flag_component)

  unfoldable pub is_text : ℕ → Option Bool
  is_text i = do f ← get_elem? s.flags i; some (has f flag_text)

  unfoldable pub text : ℕ → Option Bytes
  text i = if leb (length s.text_off / 2) i then some [] else do
    lo ← get_elem? s.text_off (2 * i)
    hi ← get_elem? s.text_off (2 * i + 1)
    slice s.text_buf lo hi

  unfoldable pub num_attr : ℕ → Option ℕ
  num_attr i = do
    stop ← get_elem? s.attr_end i
    start ← get_elem? s.attr_start i
    some (if leb stop start then 0 else stop - start)

  unfoldable pub attr_key : ℕ → ℕ → Option Bytes
  attr_key i k = do start ← get_elem? s.attr_start i; get_elem? s.attr_keys (start + k)

  unfoldable pub attr_val : ℕ → ℕ → Option Value
  attr_val i k = do start ← get_elem? s.attr_start i; get_elem? s.attr_vals (start + k)

  unfoldable pub child_range : ℕ → Option (ℕ × ℕ)
  child_range i = do
    start ← get_elem? s.child_start i
    stop ← get_elem? s.child_end i
    some (start, stop)

  unfoldable pub first_child_of : ℕ → Option ℤ
  first_child_of i = get_elem? s.first_child i

  unfoldable pub next_sibling_of : ℕ → Option ℤ
  next_sibling_of i = get_elem? s.next_sibling i

-- the keys of `voidTags`
abbrev pub void_tags : List Bytes
void_tags =
    codes "area"
    ∷ codes "base"
    ∷ codes "br"
    ∷ codes "col"
    ∷ codes "embed"
    ∷ codes "hr"
    ∷ codes "img"
    ∷ codes "input"
    ∷ codes "link"
    ∷ codes "meta"
    ∷ codes "source"
    ∷ codes "track"
    ∷ codes "wbr"
    ∷ []

unfoldable pub any_eq : Bytes → List Bytes → Bool
any_eq t [] = false
any_eq t (x ∷ xs) = text_eq x t || any_eq t xs

unfoldable pub is_void_tag : Bytes → Bool
is_void_tag t = any_eq t void_tags
