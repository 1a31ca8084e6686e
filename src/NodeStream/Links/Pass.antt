-- ===== src/NodeStream/Links/Pass.antt =====
-- The forward pass of `finalizeChildren`, one round at a time.
use nanite_render.Prelude.{
  ℕ, ◌+◌, ◌==◌, ==_iff, Bool-cases, true, ◌≤◌, ◌<◌, ◌≡◌, ◌≢◌, refl, sym, ap, ◌∙◌, ◌⊎◌, inl, inr,
  Option, none, some, List, ◌∷◌, arith, length, length-set, get_elem?, set, drop,
  get_elem?-set_self, get_elem?-set_ne, lt_of_get_elem?, ℤ, pos, negsuc,
}
use nanite_render.NodeStream.{minus_one}
use nanite_render.NodeStream.Links.{search, child_spec, sibling_spec, search-hit, search-miss}

pub pos-inj : (a b : ℕ) → some (pos a) ≡ some (pos b) → a ≡ b
pos-inj a b h =
    ap (λ (o : Option ℤ). elim o [ none ↦ 0 | some x ↦ elim x [ pos k ↦ k | negsuc k ↦ 0 ] ]) h

-- The links of node `p` as a parent before round `i`: no child yet, or the latest one is known.
pub data FirstLink (ps rest : List ℤ) (i p : ℕ) (fs last : List ℤ) : Type 0 where
  unseen :
      get_elem? last p ≡ some minus_one
      → get_elem? fs p ≡ some minus_one
      → child_spec ps p ≡ search rest i p
      → FirstLink ps rest i p fs last
  seen :
      (c : ℕ)
      → get_elem? last p ≡ some (pos c)
      → c < i
      → get_elem? ps c ≡ some (pos p)
      → get_elem? fs p ≡ some (child_spec ps p)
      → FirstLink ps rest i p fs last

-- The link of a child `c` of `p` before round `i`: it is the latest child, or its link is final.
pub data NextLink (ps rest : List ℤ) (i c p : ℕ) (ns last : List ℤ) : Type 0 where
  latest :
      get_elem? last p ≡ some (pos c)
      → get_elem? ns c ≡ some minus_one
      → sibling_spec ps c p ≡ search rest i p
      → NextLink ps rest i c p ns last
  final :
      get_elem? last p ≢ some (pos c)
      → get_elem? ns c ≡ some (sibling_spec ps c p)
      → NextLink ps rest i c p ns last

-- The links before round `i`, with the parents `rest` still to be read.
pub record IsLinked (ps rest : List ℤ) (i : ℕ) (fs ns last : List ℤ) : Type 0 where
  pub first_len : length fs ≡ length ps
  pub next_len : length ns ≡ length ps
  pub last_len : length last ≡ length ps
  pub first : (p : ℕ) → p < length ps → FirstLink ps rest i p fs last
  pub next : (c p : ℕ) → c < i → get_elem? ps c ≡ some (pos p) → NextLink ps rest i c p ns last
  pub fresh : (c : ℕ) → i ≤ c → c < length ps → get_elem? ns c ≡ some minus_one
  pub roots : (c k : ℕ) → get_elem? ps c ≡ some (negsuc k) → get_elem? ns c ≡ some minus_one

-- Where the search steps over the head, nothing changes.
skip_first :
    (ps rest rest' : List ℤ) (i p : ℕ) (fs last : List ℤ)
    → search rest i p ≡ search rest' (i + 1) p
    → FirstLink ps rest i p fs last
    → FirstLink ps rest' (i + 1) p fs last
skip_first ps rest rest' i p fs last e (unseen l f s) = unseen l f (s ∙ e)
skip_first ps rest rest' i p fs last e (seen c l lt o f) = seen c l (omega arith) o f

skip_next :
    (ps rest rest' : List ℤ) (i c p : ℕ) (ns last : List ℤ)
    → search rest i p ≡ search rest' (i + 1) p
    → NextLink ps rest i c p ns last
    → NextLink ps rest' (i + 1) c p ns last
skip_next ps rest rest' i c p ns last e (latest l n s) = latest l n (s ∙ e)
skip_next ps rest rest' i c p ns last e (final l n) = final l n

pub search-root : (k i p : ℕ) (rest : List ℤ) → search (negsuc k ∷ rest) i p ≡ search rest (i + 1) p
unfolding search
search-root k i p rest = refl

lt_suc_cases : (c i : ℕ) → c < i + 1 → (c < i) ⊎ (c ≡ i)
lt_suc_cases c i h = ground arith

root_no_child :
    (ps : List ℤ) (c i k p : ℕ)
    → c ≡ i
    → get_elem? ps i ≡ some (negsuc k)
    → get_elem? ps c ≡ some (pos p)
    → ⊥
root_no_child ps c i k p e at own =
    let clash : some (negsuc k) ≡ some (pos p) = sym at ∙ ap (get_elem? ps) (sym e) ∙ own in cc

pub root_round :
    (ps rest : List ℤ) (i k : ℕ) (fs ns last : List ℤ)
    → get_elem? ps i ≡ some (negsuc k)
    → IsLinked ps (negsuc k ∷ rest) i fs ns last
    → IsLinked ps rest (i + 1) fs ns last
root_round ps rest i k fs ns last at h = record {
  first_len = h.first_len;
  next_len = h.next_len;
  last_len = h.last_len;
  first = λ p lt. skip_first ps _ rest i p fs last (search-root k i p rest) (h.first p lt);
  next = λ c p lt own. elim (lt_suc_cases c i lt) [
    | inl lt' ↦ skip_next ps _ rest i c p ns last (search-root k i p rest) (h.next c p lt' own)
    | inr e ↦ absurd (root_no_child ps c i k p e at own)
  ];
  fresh = λ c le lt. h.fresh c (omega arith) lt;
  roots = h.roots;
}

move_first :
    (ps rest : List ℤ) (i p : ℕ) (fs fs' last last' : List ℤ)
    → get_elem? last' p ≡ get_elem? last p
    → get_elem? fs' p ≡ get_elem? fs p
    → FirstLink ps rest i p fs last
    → FirstLink ps rest i p fs' last'
move_first ps rest i p fs fs' last last' e e' (unseen l f s) = unseen (e ∙ l) (e' ∙ f) s
move_first ps rest i p fs fs' last last' e e' (seen c l lt o f) = seen c (e ∙ l) lt o (e' ∙ f)

move_next :
    (ps rest : List ℤ) (i c p : ℕ) (ns ns' last last' : List ℤ)
    → get_elem? last' p ≡ get_elem? last p
    → get_elem? ns' c ≡ get_elem? ns c
    → NextLink ps rest i c p ns last
    → NextLink ps rest i c p ns' last'
move_next ps rest i c p ns ns' last last' e e' (latest l n s) = latest (e ∙ l) (e' ∙ n) s
move_next ps rest i c p ns ns' last last' e e' (final l n) = final (λ x. l (sym e ∙ x)) (e' ∙ n)

-- A round at node `i`, a child of `p`.
module _ (ps rest : List ℤ) (i p : ℕ) (fs ns last : List ℤ) (at : get_elem? ps i ≡ some (pos p))
    (below : p < i) (here : rest ≡ drop (i + 1) ps)
    (h : IsLinked ps (pos p ∷ rest) i fs ns last) where
  inside : i < length ps
  inside = lt_of_get_elem? ps i at

  abbrev marked : List ℤ
  marked = set last p (pos i)

  marked_self : get_elem? marked p ≡ some (pos i)
  marked_self = get_elem?-set_self last p (pos i) (omega (arith, inside, h.last_len))

  marked_ne : (q : ℕ) → p ≢ q → get_elem? marked q ≡ get_elem? last q
  marked_ne q d = get_elem?-set_ne last p q (pos i) d

  not_marked : (c : ℕ) → c < i → get_elem? marked p ≢ some (pos c)
  not_marked c lt e = let x : i ≡ c = pos-inj i c (sym marked_self ∙ e) in omega arith

  -- the link of node `i` itself
  own_next :
      (ns' : List ℤ) (c q : ℕ)
      → c ≡ i
      → get_elem? ps c ≡ some (pos q)
      → get_elem? ns' i ≡ some minus_one
      → NextLink ps rest (i + 1) c q ns' marked
  own_next ns' c q e own n =
      let same : p ≡ q = pos-inj p q (sym at ∙ ap (get_elem? ps) (sym e) ∙ own) in
      rw (e, ← same) (latest marked_self n (ap (λ (r : List ℤ). search r (i + 1) p) (sym here)))

  other_first :
      (fs' : List ℤ) (q : ℕ)
      → q < length ps
      → p ≢ q
      → get_elem? fs' q ≡ get_elem? fs q
      → FirstLink ps rest (i + 1) q fs' marked
  other_first fs' q lt d e =
      move_first ps rest (i + 1) q fs fs' last marked (marked_ne q d) e
        (skip_first ps _ rest i q fs last (search-miss p q i rest d) (h.first q lt))

  other_next :
      (ns' : List ℤ) (c q : ℕ)
      → c < i
      → get_elem? ps c ≡ some (pos q)
      → p ≢ q
      → get_elem? ns' c ≡ get_elem? ns c
      → NextLink ps rest (i + 1) c q ns' marked
  other_next ns' c q lt own d e =
      move_next ps rest (i + 1) c q ns ns' last marked (marked_ne q d) e
        (skip_next ps _ rest i c q ns last (search-miss p q i rest d) (h.next c q lt own))

  same_or_not : (q : ℕ) → (p ≡ q) ⊎ (p ≢ q)
  same_or_not q = elim (Bool-cases (p == q)) [
    | inl e ↦ inl ((==_iff p q).0 e)
    | inr e ↦ inr (λ x. let t : (p == q) ≡ true = (==_iff p q).1 x in cc)
  ]

  ne_of_lt : (a b : ℕ) → a < b → a ≢ b
  ne_of_lt a b lt e = absurd (omega arith)

  -- An earlier child of `p` cannot be where `p` has none yet.
  childless :
      (c : ℕ)
      → c < i
      → get_elem? last p ≡ some minus_one
      → NextLink ps (pos p ∷ rest) i c p ns last
      → NextLink ps rest (i + 1) c p ns marked
  childless c lt none_yet (latest l n s) =
      let clash : some minus_one ≡ some (pos c) = sym none_yet ∙ l in absurd cc
  childless c lt none_yet (final l n) = final (not_marked c lt) n

  -- An earlier child of `p` has its final link once node `i` hangs behind the latest, `b`.
  linked :
      (c b : ℕ)
      → c < i
      → b < i
      → get_elem? last p ≡ some (pos b)
      → NextLink ps (pos p ∷ rest) i c p ns last
      → NextLink ps rest (i + 1) c p (set ns b (pos i)) marked
  linked c b lt lt0 at_b (latest l n s) =
      let same : b ≡ c = pos-inj b c (sym at_b ∙ l) in
      let written : get_elem? (set ns b (pos i)) b ≡ some (pos i) =
        get_elem?-set_self ns b (pos i) (omega (arith, inside, h.next_len)) in
      final (not_marked c lt) (
        ap (get_elem? (set ns b (pos i))) (sym same)
        ∙ written
        ∙ ap some (sym (s ∙ search-hit p i rest)))
  linked c b lt lt0 at_b (final l n) =
      final (not_marked c lt)
        (get_elem?-set_ne ns b c (pos i) (λ x. l (at_b ∙ ap (λ y. some (pos y)) x)) ∙ n)

  -- the first child of `p`
  pub first_round :
      get_elem? last p ≡ some minus_one
      → get_elem? fs p ≡ some minus_one
      → child_spec ps p ≡ search (pos p ∷ rest) i p
      → IsLinked ps rest (i + 1) (set fs p (pos i)) ns marked
  first_round l f s = record {
    first_len = omega (arith, length-set fs p (pos i), h.first_len);
    next_len = h.next_len;
    last_len = omega (arith, length-set last p (pos i), h.last_len);
    first = λ q lt. elim (same_or_not q) [
      | inl e ↦ rw (← e) (
          seen i marked_self (omega arith) at (
            get_elem?-set_self fs p (pos i) (omega (arith, inside, h.first_len))
            ∙ ap some (sym (s ∙ search-hit p i rest))))
      | inr d ↦ other_first (set fs p (pos i)) q lt d (get_elem?-set_ne fs p q (pos i) d)
    ];
    next = λ c q lt own. elim (lt_suc_cases c i lt) [
      | inr e ↦ own_next ns c q e own (h.fresh i (omega arith) inside)
      | inl lt' ↦ elim (same_or_not q) [
        | inr d ↦ other_next ns c q lt' own d refl
        | inl e ↦
            rw (← e) (childless c lt' l (h.next c p lt' (own ∙ ap (λ x. some (pos x)) (sym e))))
      ]
    ];
    fresh = λ c le lt. h.fresh c (omega arith) lt;
    roots = h.roots;
  }

  -- a child behind the child `b`
  pub next_round :
      (b : ℕ)
      → get_elem? last p ≡ some (pos b)
      → b < i
      → get_elem? ps b ≡ some (pos p)
      → get_elem? fs p ≡ some (child_spec ps p)
      → IsLinked ps rest (i + 1) fs (set ns b (pos i)) marked
  next_round b l lt0 o f = record {
    first_len = h.first_len;
    next_len = omega (arith, length-set ns b (pos i), h.next_len);
    last_len = omega (arith, length-set last p (pos i), h.last_len);
    first = λ q lt. elim (same_or_not q) [
      | inl e ↦ rw (← e) (seen i marked_self (omega arith) at f)
      | inr d ↦ other_first fs q lt d refl
    ];
    next = λ c q lt own. elim (lt_suc_cases c i lt) [
      | inr e ↦ own_next (set ns b (pos i)) c q e own (
          get_elem?-set_ne ns b i (pos i) (λ x. ne_of_lt b i lt0 x)
          ∙ h.fresh i (omega arith) inside)
      | inl lt' ↦ elim (same_or_not q) [
        | inr d ↦ other_next (set ns b (pos i)) c q lt' own d (
            get_elem?-set_ne ns b c (pos i)
              (λ x. d (pos-inj p q (sym o ∙ ap (get_elem? ps) x ∙ own))))
        | inl e ↦
            rw (← e) (linked c b lt' lt0 l (h.next c p lt' (own ∙ ap (λ x. some (pos x)) (sym e))))
      ]
    ];
    fresh = λ c le lt.
        get_elem?-set_ne ns b c (pos i) (λ x. ne_of_lt b c (omega arith) x)
        ∙ h.fresh c (omega arith) lt;
    roots = λ c k e.
        get_elem?-set_ne ns b c (pos i) (λ x. root_no_child ps b c k p x e o) ∙ h.roots c k e;
  }
