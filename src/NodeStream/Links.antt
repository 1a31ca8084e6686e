-- ===== src/NodeStream/Links.antt =====
-- What the sibling links of `finalizeChildren` mean, from the parents alone: the first child of a
-- node is the lowest index with that parent, the next sibling of a node the lowest one behind it
-- with the same parent.
pub mod Pass
pub mod Final
pub mod Finalize
use nanite_render.Prelude.{
  ℕ, zero, suc, ◌+◌, ◌≡◌, ◌≢◌, List, [], ◌∷◌, ◌==◌, if◌then◌else◌, drop, ℤ, pos, negsuc, arith,
}
use nanite_render.NodeStream.{minus_one}

-- The first index of a list of parents, whose indices count from `k` on, with parent `p`, or -1.
unfoldable pub search : List ℤ → ℕ → ℕ → ℤ
search [] k p = minus_one
search (pos q ∷ ps) k p = if q == p then pos k else search ps (k + 1) p
search (negsuc _ ∷ ps) k p = search ps (k + 1) p

-- the first child of node `p`
abbrev pub child_spec : List ℤ → ℕ → ℤ
child_spec ps p = search ps 0 p

-- the next node behind `c` with parent `p`
abbrev pub sibling_spec : List ℤ → ℕ → ℕ → ℤ
sibling_spec ps c p = search (drop (c + 1) ps) (c + 1) p

-- All first children, and all next siblings of the nodes from `k` on.
unfoldable pub first_children : ℕ → ℕ → List ℤ → List ℤ
first_children zero p ps = []
first_children (suc left) p ps = child_spec ps p ∷ first_children left (p + 1) ps

unfoldable pub next_siblings : List ℤ → ℕ → List ℤ
next_siblings [] k = []
next_siblings (pos p ∷ ps) k = search ps (k + 1) p ∷ next_siblings ps (k + 1)
next_siblings (negsuc _ ∷ ps) k = minus_one ∷ next_siblings ps (k + 1)

pub search-hit : (p k : ℕ) (ps : List ℤ) → search (pos p ∷ ps) k p ≡ pos k
unfolding search
search-hit p k ps = ground arith

pub search-miss : (q p k : ℕ) (ps : List ℤ) → q ≢ p → search (pos q ∷ ps) k p ≡ search ps (k + 1) p
unfolding search
search-miss q p k ps h = ground arith
