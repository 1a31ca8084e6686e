-- ===== src/Actions/Paths.antt =====
-- The paths that ActionURL builds are those that parseActionPath takes apart.
use mathlib.Core.Path.{subst}
use nanite_render.Prelude.{
  ℕ, ◌≡◌, ◌≢◌, ◌↔◌, refl, sym, ap, ◌∙◌, inl, inr, true, false, Option, none, some, Option-cases, [],
  ◌∷◌, ◌++◌, arith, ◌==◌, ==_iff, Bool-cases, Bytes, codes, Lacks,
}
use nanite_render.ParseHtml.Scan.{cut_at}
use nanite_render.Actions.{
  action_prefix, action_url, behind_prefix, unless_cut, split_action, split_rest, parse_action_path,
}

pub cut_at-append : (q : ℕ) (s t : Bytes) → Lacks q s → cut_at q (s ++ q ∷ t) ≡ some (s, t)
unfolding cut_at
cut_at-append q [] t l = rw (==_iff q q).1 refl
cut_at-append q (c ∷ s) t (d, l) = ground (arith, cut_at-append q s t l)

cut_at-Lacks : (q : ℕ) (s : Bytes) → Lacks q s → cut_at q s ≡ none
unfolding cut_at
cut_at-Lacks q [] l = refl
cut_at-Lacks q (c ∷ s) (d, l) = ground (arith, cut_at-Lacks q s l)

-- one round of the scan
cut_at-here : (q c : ℕ) (s : Bytes) → (c == q) ≡ true → cut_at q (c ∷ s) ≡ some ([], s)
unfolding cut_at
cut_at-here q c s e = rw e refl

cut_at-skip :
    (q c : ℕ) (s : Bytes) (r : Option (Bytes × Bytes))
    → (c == q) ≡ false
    → cut_at q s ≡ r
    → cut_at q (c ∷ s)
      ≡ elim r as (λ _. Option (Bytes × Bytes)) [ none ↦ none | some x ↦ some (c ∷ x.0, x.1) ]
unfolding cut_at
cut_at-skip q c s r e e' = rw e (
    ap (λ o. elim o as (λ _. Option (Bytes × Bytes)) [ none ↦ none | some x ↦ some (c ∷ x.0, x.1) ])
      e')

Lacks-of_none : (q : ℕ) (s : Bytes) → cut_at q s ≡ none → Lacks q s
Lacks-of_none q [] e = tt
Lacks-of_none q (c ∷ s) e = elim (Bool-cases (c == q)) [
  | inl t ↦ absurd (cc (sym (cut_at-here q c s t) ∙ e))
  | inr t ↦ elim (Option-cases (cut_at q s)) [
    | inl n ↦ ((λ d. ground (arith, (==_iff c q).1 d)), Lacks-of_none q s n)
    | inr (x, n) ↦ absurd (cc (sym (cut_at-skip q c s (some x) t n) ∙ e))
  ]
]

abbrev some_pair : Bytes → Bytes → Option (Bytes × Bytes)
some_pair a b = some (a, b)

pair_inj : {a b x y : Bytes} → some_pair a b ≡ some_pair x y → (a ≡ x) × (b ≡ y)
pair_inj e = (cc, cc)

cut_at-some : (q : ℕ) (s a b : Bytes) → cut_at q s ≡ some (a, b) → (s ≡ a ++ q ∷ b) × Lacks q a
cut_at-some q [] a b e = absurd (cc (sym (cut_at-Lacks q [] tt) ∙ e))
cut_at-some q (c ∷ s) a b e = elim (Bool-cases (c == q)) [
  | inl t ↦
      let (ea, eb) = pair_inj (sym (cut_at-here q c s t) ∙ e) in
      let eq : c ≡ q = (==_iff c q).0 t in (rw (← ea, ← eb, eq) refl, subst (Lacks q) ea tt)
  | inr t ↦ elim (Option-cases (cut_at q s)) [
    | inl n ↦ absurd (cc (sym (cut_at-skip q c s none t n) ∙ e))
    | inr (x, n) ↦
        let (ea, eb) = pair_inj (sym (cut_at-skip q c s (some x) t n) ∙ e) in
        let (es, l) = cut_at-some q s x.0 x.1 n in
        (
          rw (← ea, ← eb) (ap (λ r. c ∷ r) es),
          subst (Lacks q) ea ((λ d. ground (arith, (==_iff c q).1 d)), l),
        )
  ]
]

behind_prefix-append : (p s : Bytes) → behind_prefix p (p ++ s) ≡ some s
unfolding behind_prefix
behind_prefix-append [] s = refl
behind_prefix-append (c ∷ p) s = ground (arith, behind_prefix-append p s)

behind_prefix-some : (p s r : Bytes) → behind_prefix p s ≡ some r → s ≡ p ++ r
unfolding behind_prefix
behind_prefix-some [] s r e = cc
behind_prefix-some (c ∷ p) [] r e = cc
behind_prefix-some (c ∷ p) (d ∷ s) r e = ground (arith, behind_prefix-some p s r)

-- a component's name or an action's: not empty, and in one segment of the path
abbrev pub IsSegment : Bytes → Type 0
IsSegment s = (s ≢ []) × Lacks b'/' s

split_action-cut :
    (name action : Bytes)
    → IsSegment name
    → IsSegment action
    → split_action (some (name, action)) ≡ some (name, action)
unfolding split_action
split_action-cut [] action (d, l) h = absurd (d refl)
split_action-cut (c ∷ name) [] h (d, l) = absurd (d refl)
split_action-cut (c ∷ name) (a ∷ action) (d, l) (d', l') =
    ap (unless_cut (c ∷ name) (a ∷ action)) (cut_at-Lacks b'/' (a ∷ action) l')

split_action-some :
    (x y name action : Bytes)
    → split_action (some (x, y)) ≡ some_pair name action
    → (x ≡ name) × (y ≡ action) × (name ≢ []) × IsSegment action
unfolding split_action
split_action-some [] y name action e = absurd (cc e)
split_action-some (c ∷ x) [] name action e = absurd (cc e)
split_action-some (c ∷ x) (d ∷ y) name action e = elim (Option-cases (cut_at b'/' (d ∷ y))) [
  | inl n ↦
      let e' : some_pair (c ∷ x) (d ∷ y) ≡ some_pair name action =
        sym (ap (unless_cut (c ∷ x) (d ∷ y)) n) ∙ e in
      let (ex, ey) = pair_inj e' in
      (
        ex,
        ey,
        (λ z. absurd (cc (ex ∙ z))),
        subst IsSegment ey ((λ z. absurd (cc z)), Lacks-of_none b'/' (d ∷ y) n),
      )
  | inr (p, n) ↦ absurd (cc (sym (ap (unless_cut (c ∷ x) (d ∷ y)) n) ∙ e))
]

split_action-none : none ≡ split_action none
unfolding split_action
split_action-none = refl

parse-action_url :
    (prefix name action : Bytes)
    → IsSegment name
    → IsSegment action
    → parse_action_path (action_url prefix name action) prefix ≡ some (name, action)
unfolding parse_action_path action_url
parse-action_url prefix [] action (d, l) h = absurd (d refl)
parse-action_url prefix (c ∷ name) [] h (d, l) = absurd (d refl)
parse-action_url prefix (c ∷ name) (a ∷ action) h k =
    ap split_rest
      (behind_prefix-append (action_prefix prefix) ((c ∷ name) ++ (codes "/" ++ (a ∷ action))))
    ∙ ap split_action (cut_at-append b'/' (c ∷ name) (a ∷ action) h.1)
    ∙ split_action-cut (c ∷ name) (a ∷ action) h k

url_of_parts :
    (prefix name action : Bytes)
    → name ≢ []
    → action ≢ []
    → action_prefix prefix ++ (name ++ b'/' ∷ action) ≡ action_url prefix name action
unfolding action_url
url_of_parts prefix [] action d h = absurd (d refl)
url_of_parts prefix (c ∷ name) [] d h = absurd (h refl)
url_of_parts prefix (c ∷ name) (a ∷ action) d h = refl

parsed_parts :
    (path prefix name action : Bytes)
    → parse_action_path path prefix ≡ some_pair name action
    → (path ≡ action_url prefix name action) × IsSegment name × IsSegment action
unfolding parse_action_path
parsed_parts path prefix name action e =
    elim (Option-cases (behind_prefix (action_prefix prefix) path)) [
      | inl n ↦ absurd (cc (sym (ap split_rest n) ∙ e))
      | inr (rest, n) ↦ elim (Option-cases (cut_at b'/' rest)) [
        | inl m ↦
            absurd (cc (split_action-none ∙ sym (ap split_action m) ∙ sym (ap split_rest n) ∙ e))
        | inr (x, m) ↦
            let (ex, ey, nz, seg) =
              split_action-some x.0 x.1 name action
                (sym (ap split_action m) ∙ sym (ap split_rest n) ∙ e) in
            let (er, l) = cut_at-some b'/' rest x.0 x.1 m in
            (
              behind_prefix-some (action_prefix prefix) path rest n
                  ∙ ap (λ r. action_prefix prefix ++ r) (er ∙ rw (ex, ey) refl)
                  ∙ url_of_parts prefix name action nz seg.0,
              (nz, subst (Lacks b'/') ex l),
              seg,
            )
      ]
    ]

-- ParseActionPath returns a component and an action exactly when the path is the URL that
-- ActionURL builds from them, with the same prefix or the default one, and neither of them is
-- empty or has a slash.
pub parse_action_path_iff :
    (path prefix name action : Bytes)
    → (parse_action_path path prefix ≡ some (name, action))
      ↔ ((path ≡ action_url prefix name action) × IsSegment name × IsSegment action)
parse_action_path_iff path prefix name action = (
  parsed_parts path prefix name action,
  λ (e, h, k). ap (λ p. parse_action_path p prefix) e ∙ parse-action_url prefix name action h k,
)
