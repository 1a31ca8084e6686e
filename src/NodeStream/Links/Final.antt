-- ===== src/NodeStream/Links/Final.antt =====
-- The whole of `finalizeChildren` on a well-formed builder.
use mathlib.Core.Path.{subst}
use nanite_render.Prelude.{
  ℕ, zero, suc, ◌+◌, ◌^◌, ◌<◌, ◌≡◌, refl, sym, ap, ◌∙◌, Option, none, some, List, [], ◌∷◌, arith,
  length, get_elem?, lt_of_get_elem?, set, put-set, drop, replicate, length-replicate, int32_small,
  ℤ, pos, negsuc,
}
use nanite_render.NodeStream.{NodeStream, minus_one}
use nanite_render.NodeStream.Builder.{link, link_from, fill}
use nanite_render.NodeStream.WellFormed.{Ordered}
use nanite_render.NodeStream.Links.{search, child_spec, first_children, next_siblings}
use nanite_render.NodeStream.Links.Pass.{
  FirstLink, IsLinked, pos-inj, search-root, root_round, first_round, next_round,
}

drop_head :
    (ps rest : List ℤ) (i : ℕ) (x : ℤ)
    → x ∷ rest ≡ drop i ps
    → (get_elem? ps i ≡ some x) × (rest ≡ drop (i + 1) ps)
drop_head [] rest zero x e = absurd cc
drop_head [] rest (suc i) x e = absurd cc
drop_head (y ∷ ps) rest zero x e = (cc, cc)
drop_head (y ∷ ps) rest (suc i) x e =
    let (at, left) = drop_head ps rest i x e in
    let shift : suc i + 1 ≡ suc (i + 1) = omega arith in
    (at, left ∙ ap (λ (n : ℕ). drop n (y ∷ ps)) (sym shift))

-- A round of the pass runs without a panic.
link_root :
    (b : NodeStream) (i k : ℕ) (last : List ℤ)
    → get_elem? b.parent i ≡ some (negsuc k)
    → link i last b ≡ some (last, b)
unfolding link
link_root b i k last e = rw (e, link) refl

link_first :
    (b : NodeStream) (i p : ℕ) (last : List ℤ)
    → get_elem? b.parent i ≡ some (pos p)
    → get_elem? last p ≡ some minus_one
    → i < 2 ^ 31
    → p < length last
    → p < length b.first_child
    → link i last b
      ≡ some (set last p (pos i), record b { first_child = set b.first_child p (pos i) })
unfolding link
link_first b i p last e l small lt lt' =
    rw
      (
        e,
        link,
        l,
        int32_small i small,
        put-set last p (pos i) lt,
        put-set b.first_child p (pos i) lt',
      )
      refl

link_next :
    (b : NodeStream) (i p c : ℕ) (last : List ℤ)
    → get_elem? b.parent i ≡ some (pos p)
    → get_elem? last p ≡ some (pos c)
    → i < 2 ^ 31
    → p < length last
    → c < length b.next_sibling
    → link i last b
      ≡ some (set last p (pos i), record b { next_sibling = set b.next_sibling c (pos i) })
unfolding link
link_next b i p c last e l small lt lt' =
    rw
      (
        e,
        link,
        l,
        int32_small i small,
        put-set last p (pos i) lt,
        put-set b.next_sibling c (pos i) lt',
      )
      refl

-- A builder that differs in its links alone, which are those behind the last round.
abbrev pub Passed : NodeStream → Option NodeStream → Type 0
Passed b none = ⊥
Passed b (some b') =
    (fs : List ℤ) × (ns : List ℤ) × (last : List ℤ) × (b'
      ≡ record b { first_child = fs; next_sibling = ns })
    × IsLinked b.parent [] (length b.parent) fs ns last

pub Passed-round :
    (b : NodeStream) (fs ns : List ℤ) (i : ℕ) (r : Option NodeStream)
    → Passed (record b { first_child = fs; next_sibling = ns }) r
    → Passed b r
Passed-round b fs ns i none h = h
Passed-round b fs ns i (some b') h = h

pub later : (i : ℕ) (rest : List ℤ) → Ordered (suc i) rest → Ordered (i + 1) rest
later i rest h =
    let shift : suc i ≡ i + 1 = omega arith in subst (λ (n : ℕ). Ordered n rest) shift h

pub loop_lem :
    (rest : List ℤ) (i : ℕ) (last : List ℤ) (b : NodeStream)
    → rest ≡ drop i b.parent
    → i + length rest ≡ length b.parent
    → Ordered i rest
    → length b.parent < 2 ^ 31
    → IsLinked b.parent rest i b.first_child b.next_sibling last
    → Passed b (link_from (length rest) i last b)
unfolding link_from
loop_lem [] i last b e sum ordered small h =
    let done : i ≡ length b.parent = omega arith in
    (
      b.first_child,
      b.next_sibling,
      last,
      refl,
      subst (λ (n : ℕ). IsLinked b.parent [] n b.first_child b.next_sibling last) done h,
    )
loop_lem (negsuc k ∷ rest) i last b e sum ordered small h =
    let (at, left) = drop_head b.parent rest i (negsuc k) e in
    rw (link_root b i k last at, link_from)
      (loop_lem rest (i + 1) last b left (omega arith) (later i rest ordered.1) small
        (root_round b.parent rest i k b.first_child b.next_sibling last at h))
loop_lem (pos p ∷ rest) i last b e sum ordered small h =
    let (at, left) = drop_head b.parent rest i (pos p) e in
    elim (h.first p (omega arith)) [
      | FirstLink.unseen l f s ↦
          rw
            (
              link_first b i p last at l (omega arith) (omega (arith, h.last_len))
                  (omega (arith, h.first_len)),
              link_from,
            )
            (Passed-round b (set b.first_child p (pos i)) b.next_sibling i _ (
              loop_lem rest (i + 1) (set last p (pos i))
                (record b { first_child = set b.first_child p (pos i) }) left (omega arith)
                (later i rest ordered.1) small
                (first_round b.parent rest i p b.first_child b.next_sibling last at ordered.0 left h
                  l f s)))
      | FirstLink.seen c l lt o f ↦
          rw
            (
              link_next b i p c last at l (omega arith) (omega (arith, h.last_len))
                  (omega (arith, h.next_len)),
              link_from,
            )
            (Passed-round b b.first_child (set b.next_sibling c (pos i)) i _ (
              loop_lem rest (i + 1) (set last p (pos i))
                (record b { next_sibling = set b.next_sibling c (pos i) }) left (omega arith)
                (later i rest ordered.1) small
                (next_round b.parent rest i p b.first_child b.next_sibling last at ordered.0 left h
                  c l lt o f)))
    ]

get_elem?-replicate : (n i : ℕ) (a : ℤ) → i < n → get_elem? (replicate n a) i ≡ some a
get_elem?-replicate zero i a h = elim h [ ]
get_elem?-replicate (suc n) zero a h = refl
get_elem?-replicate (suc n) (suc i) a h = get_elem?-replicate n i a (omega arith)

pub fill_lem : (n : ℕ) (xs : List ℤ) → length xs ≡ n → fill n xs ≡ some (replicate n minus_one)
unfolding fill
fill_lem zero [] h = refl
fill_lem zero (x ∷ xs) h = absurd (omega arith)
fill_lem (suc n) [] h = absurd (omega arith)
fill_lem (suc n) (x ∷ xs) h = rw (fill_lem n xs (omega arith), fill) refl

no_child :
    (k : ℕ) (rest : List ℤ) (c p : ℕ) → c < 1 → get_elem? (negsuc k ∷ rest) c ≡ some (pos p) → ⊥
no_child k rest zero p lt own = cc
no_child k rest (suc c) p lt own = omega arith

-- Behind node 0, which has no parent, all links are -1.
pub start_lem :
    (k : ℕ) (rest : List ℤ)
    → let n = suc (length rest) in
      IsLinked
        (negsuc k ∷ rest)
        rest
        1
        (replicate n minus_one)
        (replicate n minus_one)
        (replicate n minus_one)
start_lem k rest =
    let n : ℕ = suc (length rest) in
    record {
      first_len = length-replicate n minus_one;
      next_len = length-replicate n minus_one;
      last_len = length-replicate n minus_one;
      first = λ p lt.
          FirstLink.unseen (get_elem?-replicate n p minus_one lt)
            (get_elem?-replicate n p minus_one lt) (search-root k 0 p rest);
      next = λ c p lt own. absurd (no_child k rest c p lt own);
      fresh = λ c le lt. get_elem?-replicate n c minus_one lt;
      roots =
          λ c j own. get_elem?-replicate n c minus_one (lt_of_get_elem? (negsuc k ∷ rest) c own);
    }

-- A list is its entries.
pub list_ext :
    (xs ys : List ℤ)
    → length xs ≡ length ys
    → ((i : ℕ) → i < length xs → get_elem? xs i ≡ get_elem? ys i)
    → xs ≡ ys
list_ext [] [] e h = refl
list_ext [] (y ∷ ys) e h = absurd (omega arith)
list_ext (x ∷ xs) [] e h = absurd (omega arith)
list_ext (x ∷ xs) (y ∷ ys) e h =
    let same : x ≡ y =
      ap (λ (o : Option ℤ). elim o [ none ↦ x | some z ↦ z ]) (h 0 (omega arith)) in
    let tails : xs ≡ ys = list_ext xs ys (omega arith) (λ i lt. h (suc i) (omega arith)) in
    λ i. same i ∷ tails i

pub length-first_children : (n p : ℕ) (ps : List ℤ) → length (first_children n p ps) ≡ n
unfolding first_children
length-first_children zero p ps = refl
length-first_children (suc n) p ps = ap suc (length-first_children n (p + 1) ps)

pub get_elem?-first_children :
    (n p i : ℕ) (ps : List ℤ)
    → i < n
    → get_elem? (first_children n p ps) i ≡ some (child_spec ps (p + i))
unfolding first_children
get_elem?-first_children zero p i ps h = elim h [ ]
get_elem?-first_children (suc n) p zero ps h =
    let e : p ≡ p + 0 = omega arith in ap (λ (q : ℕ). some (child_spec ps q)) e
get_elem?-first_children (suc n) p (suc i) ps h =
    let e : (p + 1) + i ≡ p + suc i = omega arith in
    get_elem?-first_children n (p + 1) i ps (omega arith) ∙ ap (λ (q : ℕ). some (child_spec ps q)) e

pub length-next_siblings : (ps : List ℤ) (k : ℕ) → length (next_siblings ps k) ≡ length ps
unfolding next_siblings
length-next_siblings [] k = refl
length-next_siblings (pos p ∷ ps) k = ap suc (length-next_siblings ps (k + 1))
length-next_siblings (negsuc j ∷ ps) k = ap suc (length-next_siblings ps (k + 1))

-- the entry of a node with a parent, and of one without
pub get_elem?-next_siblings :
    (ps : List ℤ) (k c p : ℕ)
    → get_elem? ps c ≡ some (pos p)
    → get_elem? (next_siblings ps k) c ≡ some (search (drop (suc c) ps) (k + suc c) p)
unfolding next_siblings
get_elem?-next_siblings [] k c p e = absurd cc
get_elem?-next_siblings (pos q ∷ ps) k zero p e =
    ap (λ (r : ℕ). some (search ps (k + 1) r)) (pos-inj q p e)
get_elem?-next_siblings (negsuc j ∷ ps) k zero p e = absurd cc
get_elem?-next_siblings (pos q ∷ ps) k (suc c) p e =
    let shift : (k + 1) + suc c ≡ k + suc (suc c) = omega arith in
    get_elem?-next_siblings ps (k + 1) c p e
    ∙ ap (λ (n : ℕ). some (search (drop (suc c) ps) n p)) shift
get_elem?-next_siblings (negsuc j ∷ ps) k (suc c) p e =
    let shift : (k + 1) + suc c ≡ k + suc (suc c) = omega arith in
    get_elem?-next_siblings ps (k + 1) c p e
    ∙ ap (λ (n : ℕ). some (search (drop (suc c) ps) n p)) shift

pub get_elem?-next_siblings_root :
    (ps : List ℤ) (k c j : ℕ)
    → get_elem? ps c ≡ some (negsuc j)
    → get_elem? (next_siblings ps k) c ≡ some minus_one
unfolding next_siblings
get_elem?-next_siblings_root [] k c j e = absurd cc
get_elem?-next_siblings_root (pos q ∷ ps) k zero j e = absurd cc
get_elem?-next_siblings_root (negsuc i ∷ ps) k zero j e = refl
get_elem?-next_siblings_root (pos q ∷ ps) k (suc c) j e =
    get_elem?-next_siblings_root ps (k + 1) c j e
get_elem?-next_siblings_root (negsuc i ∷ ps) k (suc c) j e =
    get_elem?-next_siblings_root ps (k + 1) c j e
