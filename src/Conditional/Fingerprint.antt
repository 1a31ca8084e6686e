-- ===== src/Conditional/Fingerprint.antt =====
-- What the tag of a program depends on.
use nanite_render.Prelude.{
  ◌/◌, ◌≤◌, ◌≡◌, refl, true, false, some, List, [], arith, leb, length, get_elem?, lt_of_get_elem?,
  Bytes, ℤ,
}
use nanite_render.NodeStream.{NodeStream, text, slice}
use nanite_render.Conditional.{Program, fingerprint}

empty_text :
    (s : NodeStream)
    → get_elem? s.text_off 0 ≡ some 0
    → get_elem? s.text_off 1 ≡ some 0
    → text s 0 ≡ some []
unfolding text slice
empty_text s e e' =
    let two : 2 ≤ length s.text_off = lt_of_get_elem? s.text_off 1 e' in
    let inside : leb (length s.text_off / 2) 0 ≡ false = ground arith in
    let low : leb 0 (length s.text_buf) ≡ true = ground arith in rw (inside, e, e', low) refl

-- the same program with other text, and with its nodes under other parents
abbrev pub rewritten : Program → Bytes → List ℤ → Program
rewritten p buf parents = record p { nodes = record p.nodes { text_buf = buf; parent = parents } }

-- Where node 0 has an empty text, as the root of a parsed page has, what HashContent feeds to the
-- hash stays the same when all other text is replaced and all nodes are put under other parents.
pub fingerprint-rewritten :
    (p : Program) (buf : Bytes) (parents : List ℤ)
    → get_elem? p.nodes.text_off 0 ≡ some 0
    → get_elem? p.nodes.text_off 1 ≡ some 0
    → fingerprint (rewritten p buf parents) ≡ fingerprint p
unfolding fingerprint
fingerprint-rewritten p buf parents e e' =
    rw (empty_text p.nodes e e', empty_text (rewritten p buf parents).nodes e e') refl
