-- ===== src/Bytecode/Compiled.antt =====
-- The compiler against the text of a template: what it puts into the static buffer.
use nanite_render.Prelude.{
  ℕ, zero, suc, ◌+◌, ◌%◌, ◌^◌, ◌<◌, ◌≡◌, refl, sym, ap, ◌∙◌, Option, none, some, ◌>>=◌, [], ◌∷◌,
  ◌++◌, append-nil, append_assoc, arith, length, length-append, Bytes, codes,
}
use nanite_render.Escape.{escape_string, escape_append}
use nanite_render.Escape.Laws.{escape_append-escape_string}
use nanite_render.NodeStream.{Value, stringify, NodeStream, attr_key, attr_val}
use nanite_render.Execute.Spec.{value_html, attrs_html}
use nanite_render.Bytecode.{Bytecode, append_static, counted, append_value, append_attrs}

-- `bc'` is `bc` with `out` behind its static buffer, as a part of the pending run.
pub record Extends (out : Bytes) (bc bc' : Bytecode) : Type 0 where
  pub same_code : bc'.code ≡ bc.code
  pub same_comps : bc'.comps ≡ bc.comps
  pub same_start : bc'.st_start ≡ bc.st_start
  pub static : bc'.static ≡ bc.static ++ out
  pub len : bc'.st_len ≡ (bc.st_len + length out) % 2 ^ 32

abbrev pub IsSmall : Bytecode → Type 0
IsSmall bc = bc.st_len < 2 ^ 32

pub Extends-IsSmall : (out : Bytes) (bc bc' : Bytecode) → Extends out bc bc' → IsSmall bc'
Extends-IsSmall out bc bc' h = omega (arith, h.len)

pub Extends-nil : (bc : Bytecode) → IsSmall bc → Extends [] bc bc
Extends-nil bc h = record {
  same_code = refl;
  same_comps = refl;
  same_start = refl;
  static = sym (append-nil bc.static);
  len = omega arith;
}

pub Extends-append :
    (p q : Bytes) (a b c : Bytecode) → Extends p a b → Extends q b c → Extends (p ++ q) a c
Extends-append p q a b c h h' = record {
  same_code = h'.same_code ∙ h.same_code;
  same_comps = h'.same_comps ∙ h.same_comps;
  same_start = h'.same_start ∙ h.same_start;
  static = h'.static ∙ ap (λ s. s ++ q) h.static ∙ append_assoc a.static p q;
  len = omega (arith, h.len, h'.len, length-append p q);
}

pub counted_lem :
    (out s : Bytes) (bc : Bytecode) → s ≡ bc.static ++ out → Extends out bc (counted s bc)
unfolding counted
counted_lem out s bc e = record {
  same_code = refl;
  same_comps = refl;
  same_start = refl;
  static = e;
  len = omega (arith, ap length e, length-append bc.static out);
}

pub append_static_lem :
    (out : Bytes) (bc : Bytecode) → IsSmall bc → Extends out bc (append_static out bc)
unfolding append_static
append_static_lem [] bc h = Extends-nil bc h
append_static_lem (c ∷ b) bc h = record {
  same_code = refl;
  same_comps = refl;
  same_start = refl;
  static = refl;
  len = omega arith;
}

-- What is compiled where the text is known.
abbrev pub Compiled : Option Bytes → Bytecode → Option Bytecode → Type 0
Compiled none bc r = Unit
Compiled (some out) bc none = ⊥
Compiled (some out) bc (some bc') = Extends out bc bc'

pub read_lem :
    {A : Type 0} (o : Option A) (g : A → Option Bytes) (f : A → Option Bytecode) (bc : Bytecode)
    → ((a : A) → Compiled (g a) bc (f a))
    → Compiled (o >>= g) bc (o >>= f)
read_lem none g f bc h = tt
read_lem (some a) g f bc h = h a

pub after_lem :
    (p q : Bytes) (a b : Bytecode) (r : Option Bytecode)
    → Extends p a b
    → Compiled (some q) b r
    → Compiled (some (p ++ q)) a r
after_lem p q a b none h h' = h'
after_lem p q a b (some c) h h' = Extends-append p q a b c h h'

pub join_lem :
    (o q : Option Bytes) (bc : Bytecode) (r : Option Bytecode) (f : Bytecode → Option Bytecode)
    → Compiled o bc r
    → ((bc' : Bytecode) → IsSmall bc' → Compiled q bc' (f bc'))
    → Compiled (o >>= λ a. q >>= λ b. some (a ++ b)) bc (r >>= f)
join_lem none q bc r f h h' = tt
join_lem (some a) none bc r f h h' = tt
join_lem (some a) (some b) bc none f h h' = h
join_lem (some a) (some b) bc (some bc') f h h' =
    after_lem a b bc bc' (f bc') h (h' bc' (Extends-IsSmall a bc bc' h))

quoted :
    (dst : Bytes) (x : Value)
    → escape_append (dst ++ codes "=\"") (stringify x) ++ codes "\""
      ≡ dst ++ (codes "=\"" ++ (escape_string (stringify x) ++ codes "\""))
quoted dst x =
    ap (λ t. t ++ codes "\"") (escape_append-escape_string (dst ++ codes "=\"") (stringify x))
    ∙ append_assoc (dst ++ codes "=\"") _ _
    ∙ append_assoc dst (codes "=\"") _

pub regroup : (dst a k v r : Bytes) → (((dst ++ a) ++ k) ++ v) ++ r ≡ dst ++ (a ++ (k ++ (v ++ r)))
regroup dst a k v r =
    append_assoc ((dst ++ a) ++ k) v r
    ∙ append_assoc (dst ++ a) k (v ++ r)
    ∙ append_assoc dst a (k ++ (v ++ r))

append_value_lem : (x : Value) (dst : Bytes) → append_value x dst ≡ dst ++ value_html x
unfolding append_value value_html
append_value_lem Value.nil dst = sym (append-nil dst)
append_value_lem (Value.str s) dst = quoted dst (Value.str s)
append_value_lem (Value.raw s) dst = quoted dst (Value.raw s)
append_value_lem (Value.stringer s) dst = quoted dst (Value.stringer s)
append_value_lem Value.other dst = quoted dst Value.other

-- One attribute, where its key, its value and the text behind it are known or not.
attr_lem :
    (key : Option Bytes) (x : Option Value) (rest : Option Bytes) (f : Bytes → Option Bytes)
    (dst : Bytes)
    → ((d : Bytes) → f d ≡ (rest >>= λ r. some (d ++ r)))
    → (key >>= λ k. x >>= λ v. f (append_value v ((dst ++ codes " ") ++ k))) ≡ (
        (key >>= λ k. x >>= λ v. rest >>= λ r. some (codes " " ++ (k ++ (value_html v ++ r))))
        >>= λ a. some (dst ++ a))
attr_lem none x rest f dst h = refl
attr_lem (some k) none rest f dst h = refl
attr_lem (some k) (some v) none f dst h = h _
attr_lem (some k) (some v) (some r) f dst h =
    h _
    ∙ ap some (ap (λ t. t ++ r) (append_value_lem v _) ∙ regroup dst (codes " ") k (value_html v) r)

pub append_attrs_lem :
    (nodes : NodeStream) (i left k : ℕ) (dst : Bytes)
    → append_attrs nodes i left k dst ≡ (attrs_html nodes i left k >>= λ a. some (dst ++ a))
unfolding append_attrs attrs_html
append_attrs_lem nodes i zero k dst = ap some (sym (append-nil dst))
append_attrs_lem nodes i (suc left) k dst =
    attr_lem (attr_key nodes i k) (attr_val nodes i k) (attrs_html nodes i left (k + 1))
      (append_attrs nodes i left (k + 1)) dst (append_attrs_lem nodes i left (k + 1))
