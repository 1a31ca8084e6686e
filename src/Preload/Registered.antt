-- ===== src/Preload/Registered.antt =====
-- Which hints a registry lists after any calls of Preload and Unpreload.
use nanite_render.Prelude.{
  ℕ, suc, ◌+◌, ◌≤◌, ◌≡◌, refl, sym, ap, ◌∙◌, inl, inr, Bool, true, false, ◌&&◌, none, some, List,
  [], ◌∷◌, ◌++◌, ltb, ◌==◌, if◌then◌else◌, Bool-cases, length, Bytes, text_eq, text_eq_iff, arith,
}
use nanite_render.Preload.{
  PreloadHint, PreloadHints, hint_eq, has_hint, preload, matches, kept, unpreload, preloads,
}

pub data Call : Type 0 where
  add : PreloadHint → Call
  remove : Bytes → Bytes → Call

unfoldable pub perform : Call → PreloadHints → PreloadHints
perform (add h) r = preload h r
perform (remove a t) r = unpreload a t r

-- the registry after a history of calls, the latest first
unfoldable pub after : List Call → PreloadHints
after [] = none
after (c ∷ earlier) = perform c (after earlier)

-- the hint was preloaded, and its kind was not unpreloaded since
unfoldable pub registered : PreloadHint → List Call → Bool
registered h [] = false
registered h (add g ∷ earlier) = if hint_eq g h then true else registered h earlier
registered h (remove a t ∷ earlier) = if matches a t h then false else registered h earlier

unfoldable pub count : PreloadHint → List PreloadHint → ℕ
count h [] = 0
count h (g ∷ hs) = if hint_eq g h then suc (count h hs) else count h hs

both : (a b : Bool) → a && b ≡ true → (a ≡ true) × (b ≡ true)
both true b e = (refl, e)
both false b e = ground arith

hint_eq_sound : (g h : PreloadHint) → hint_eq g h ≡ true → g ≡ h
hint_eq_sound g h e =
    let (e1, e') = both (text_eq g.href h.href) _ e in
    let (e2, e3) = both (text_eq g.as_attr h.as_attr) _ e' in
    λ i. record {
      href = (text_eq_iff g.href h.href).0 e1 i;
      as_attr = (text_eq_iff g.as_attr h.as_attr).0 e2 i;
      type_attr = (text_eq_iff g.type_attr h.type_attr).0 e3 i;
    }

hint_eq_refl : (h : PreloadHint) → hint_eq h h ≡ true
hint_eq_refl h =
    rw
      (
        (text_eq_iff h.href h.href).1 refl,
        (text_eq_iff h.as_attr h.as_attr).1 refl,
        (text_eq_iff h.type_attr h.type_attr).1 refl,
      )
      refl

count-append :
    (h g : PreloadHint) (hs : List PreloadHint)
    → count h (hs ++ g ∷ []) ≡ count h hs + count h (g ∷ [])
unfolding count
count-append h g [] = omega arith
count-append h g (x ∷ hs) = elim (Bool-cases (hint_eq x h)) [
  | inl e ↦ rw e (ap suc (count-append h g hs) ∙ omega arith)
  | inr e ↦ rw e (count-append h g hs)
]

has_hint_lem : (h : PreloadHint) (hs : List PreloadHint) → has_hint h hs ≡ ltb 0 (count h hs)
unfolding has_hint count
has_hint_lem h [] = refl
has_hint_lem h (x ∷ hs) = elim (Bool-cases (hint_eq x h)) [
  | inl e ↦ rw e (ground arith)
  | inr e ↦ rw e (has_hint_lem h hs)
]

count-kept :
    (h : PreloadHint) (a t : Bytes) (hs : List PreloadHint)
    → count h (kept a t hs) ≡ (if matches a t h then 0 else count h hs)
unfolding count kept
count-kept h a t [] = elim (Bool-cases (matches a t h)) [ inl e ↦ rw e refl | inr e ↦ rw e refl ]
count-kept h a t (x ∷ hs) = elim (Bool-cases (hint_eq x h)) [
  | inl e ↦ elim (Bool-cases (matches a t h)) [
    | inl m ↦
        let m' : matches a t x ≡ true = ap (matches a t) (hint_eq_sound x h e) ∙ m in
        rw (m', m) (count-kept h a t hs ∙ rw m refl)
    | inr m ↦
        let m' : matches a t x ≡ false = ap (matches a t) (hint_eq_sound x h e) ∙ m in
        rw (m', m, e) (ap suc (count-kept h a t hs ∙ rw m refl))
  ]
  | inr e ↦ elim (Bool-cases (matches a t x)) [
    | inl m ↦ rw (m, e) (count-kept h a t hs)
    | inr m ↦ rw (m, e) (count-kept h a t hs)
  ]
]

length-kept : (a t : Bytes) (hs : List PreloadHint) → length (kept a t hs) ≤ length hs
unfolding kept
length-kept a t [] = omega arith
length-kept a t (x ∷ hs) = ground (arith, length-kept a t hs)

kept_all :
    (a t : Bytes) (hs : List PreloadHint) → length (kept a t hs) ≡ length hs → kept a t hs ≡ hs
unfolding kept
kept_all a t [] e = refl
kept_all a t (x ∷ hs) e = elim (Bool-cases (matches a t x)) [
  | inl m ↦ absurd (grind (arith, length-kept a t hs))
  | inr m ↦ rw m (ap (λ r. x ∷ r) (kept_all a t hs (grind arith)))
]

count-unpreload :
    (h : PreloadHint) (a t : Bytes) (r : PreloadHints)
    → count h (preloads (unpreload a t r)) ≡ (if matches a t h then 0 else count h (preloads r))
unfolding unpreload preloads kept
count-unpreload h a t none = count-kept h a t []
count-unpreload h a t (some []) = count-kept h a t []
count-unpreload h a t (some (x ∷ hs)) =
    elim (Bool-cases (length (kept a t (x ∷ hs)) == length (x ∷ hs))) [
      | inl e ↦
          rw e
            (sym (ap (count h) (kept_all a t (x ∷ hs) (grind arith))) ∙ count-kept h a t (x ∷ hs))
      | inr e ↦ rw e (count-kept h a t (x ∷ hs))
    ]

count-preload :
    (h g : PreloadHint) (r : PreloadHints)
    → count h (preloads r) ≤ 1
    → count h (preloads (preload g r)) ≡ (if hint_eq g h then 1 else count h (preloads r))
unfolding preload preloads count
count-preload h g none v = refl
count-preload h g (some old) v = elim (Bool-cases (has_hint g old)) [
  | inl k ↦ elim (Bool-cases (hint_eq g h)) [
    | inl e ↦
        let k' : has_hint h old ≡ true = sym (ap (λ x. has_hint x old) (hint_eq_sound g h e)) ∙ k in
        rw (k, e) (grind (arith, has_hint_lem h old))
    | inr e ↦ rw (k, e) refl
  ]
  | inr k ↦ elim (Bool-cases (hint_eq g h)) [
    | inl e ↦
        let k' : has_hint h old ≡ false =
          sym (ap (λ x. has_hint x old) (hint_eq_sound g h e)) ∙ k in
        rw (k, e) (count-append h g old ∙ rw e (grind (arith, has_hint_lem h old)))
    | inr e ↦ rw (k, e) (count-append h g old ∙ rw e (omega arith))
  ]
]

at_most_one : (b : Bool) → (if b then 1 else 0) ≤ 1
at_most_one true = omega arith
at_most_one false = omega arith

-- After any calls of Preload and Unpreload on a new registry, a hint is listed once when it was
-- preloaded and no later call unpreloaded its As and Type, and else not at all.
pub count-preloads :
    (h : PreloadHint) (calls : List Call)
    → count h (preloads (after calls)) ≡ (if registered h calls then 1 else 0)
unfolding after perform registered count preloads
count-preloads h [] = refl
count-preloads h (add g ∷ earlier) =
    let ih = count-preloads h earlier in
    count-preload h g (after earlier) (rw ih (at_most_one (registered h earlier)))
    ∙ elim (Bool-cases (hint_eq g h)) [ inl e ↦ rw e refl | inr e ↦ rw e ih ]
count-preloads h (remove a t ∷ earlier) =
    count-unpreload h a t (after earlier) ∙ elim (Bool-cases (matches a t h)) [
      | inl e ↦ rw e refl
      | inr e ↦ rw e (count-preloads h earlier)
    ]
