-- ===== src/Conditional/Tags.antt =====
-- The list of an `If-None-Match` header.
use nanite_render.Prelude.{
  ◌≡◌, ◌≢◌, ◌<◌, refl, sym, ap, ◌∙◌, inl, inr, Bool-cases, if◌then◌else◌, ltb, length, Bool, true,
  false, ◌||◌, List, [], ◌∷◌, ◌++◌, append-nil, append_assoc, arith, ◌==◌, Bytes, text_eq, All,
  Lacks,
}
use nanite_render.Conditional.{
  close_tag, split_from, split_tags, strip_weak, any_matches, etag_matches,
}

-- a tag that a list can hold
abbrev pub IsTag : Bytes → Type 0
IsTag t = (t ≢ []) × Lacks b',' t

-- the tags with commas between them
unfoldable pub join : List Bytes → Bytes
join [] = []
join (t ∷ []) = t
join (t ∷ u ∷ ts) = t ++ (b',' ∷ join (u ∷ ts))

split_from-plain :
    (cur : Bytes) (out : List Bytes) (t rest : Bytes)
    → Lacks b',' t
    → split_from cur out (t ++ rest) ≡ split_from (cur ++ t) out rest
unfolding split_from
split_from-plain cur out [] rest h = ap (λ x. split_from x out rest) (sym (append-nil cur))
split_from-plain cur out (c ∷ t) rest h =
    let other : (c == b',') ≡ false = ground (arith, h.0) in
    rw (other, split_from)
      (split_from-plain (cur ++ c ∷ []) out t rest h.1
        ∙ ap (λ x. split_from x out rest) (append_assoc cur (c ∷ []) t))

close_tag_lem : (t : Bytes) (out : List Bytes) → t ≢ [] → close_tag t out ≡ out ++ t ∷ []
unfolding close_tag
close_tag_lem [] out h = absurd (h refl)
close_tag_lem (c ∷ t) out h = refl

-- the tag before a comma
split_from-comma :
    (out : List Bytes) (t rest : Bytes)
    → IsTag t
    → split_from [] out (t ++ (b',' ∷ rest)) ≡ split_from [] (out ++ t ∷ []) rest
unfolding split_from
split_from-comma out t rest h =
    split_from-plain [] out t (b',' ∷ rest) h.1
    ∙ ap (λ x. split_from [] x rest) (close_tag_lem t out h.0)

split_from-join : (out ts : List Bytes) → All IsTag ts → split_from [] out (join ts) ≡ out ++ ts
unfolding join split_from close_tag
split_from-join out [] h = sym (append-nil out)
split_from-join out (t ∷ []) h =
    ap (split_from [] out) (sym (append-nil t))
    ∙ split_from-plain [] out t [] h.0.1
    ∙ close_tag_lem t out h.0.0
split_from-join out (t ∷ u ∷ ts) h =
    split_from-comma out t (join (u ∷ ts)) h.0
    ∙ split_from-join (out ++ t ∷ []) (u ∷ ts) h.1
    ∙ append_assoc out (t ∷ []) (u ∷ ts)

-- SplitTags of non-empty tags without a comma, joined by single commas, gives back the tags.
pub split_tags-join : (ts : List Bytes) → All IsTag ts → split_tags (join ts) ≡ ts
unfolding split_tags
split_tags-join ts h = split_from-join [] ts h

-- A tag as a header spells it: weak or strong, and what stands behind its opening quote.
pub record Spelled : Type 0 where
  pub weak : Bool
  pub body : Bytes

unfoldable pub spell : Spelled → Bytes
spell t = if t.weak then b'W' ∷ b'/' ∷ b'"' ∷ t.body else b'"' ∷ t.body

unfoldable pub spellings : List Spelled → List Bytes
spellings [] = []
spellings (t ∷ ts) = spell t ∷ spellings ts

-- a tag of the list has the body
unfoldable pub lists : Bytes → List Spelled → Bool
lists body [] = false
lists body (t ∷ ts) = text_eq t.body body || lists body ts

-- an ASCII tag without a comma
abbrev pub IsPlain : Spelled → Type 0
IsPlain t = Lacks b',' t.body × All (λ c. c < 128) t.body

IsTag-spell : (t : Spelled) → IsPlain t → IsTag (spell t)
unfolding spell
IsTag-spell t h = elim (Bool-cases t.weak) [
  | inl e ↦ rw e ((λ x. cc), (ground arith, (ground arith, (ground arith, h.0))))
  | inr e ↦ rw e ((λ x. cc), (ground arith, h.0))
]

IsTag-spellings : (ts : List Spelled) → All IsPlain ts → All IsTag (spellings ts)
unfolding spellings
IsTag-spellings [] h = tt
IsTag-spellings (t ∷ ts) h = (IsTag-spell t h.0, IsTag-spellings ts h.1)

strip_strong : (body : Bytes) → strip_weak (b'"' ∷ body) ≡ b'"' ∷ body
unfolding strip_weak
strip_strong [] = refl
strip_strong (c ∷ body) = elim (Bool-cases (ltb 2 (length (b'"' ∷ c ∷ body)))) [
  | inl e ↦ rw e refl
  | inr e ↦ rw e refl
]

strip_weak_tag : (body : Bytes) → strip_weak (b'W' ∷ b'/' ∷ b'"' ∷ body) ≡ b'"' ∷ body
unfolding strip_weak
strip_weak_tag body =
    let e : ltb 2 (length (b'W' ∷ b'/' ∷ b'"' ∷ body)) ≡ true = ground arith in rw e refl

strip_weak-spell : (t : Spelled) → strip_weak (spell t) ≡ b'"' ∷ t.body
unfolding spell
strip_weak-spell t = elim (Bool-cases t.weak) [
  | inl e ↦ rw e (strip_weak_tag t.body)
  | inr e ↦ rw e (strip_strong t.body)
]

any_matches-spellings :
    (body : Bytes) (ts : List Spelled) → any_matches (b'"' ∷ body) (spellings ts) ≡ lists body ts
unfolding any_matches spellings lists
any_matches-spellings body [] = refl
any_matches-spellings body (t ∷ ts) =
    rw (strip_weak-spell t) (ap (λ b. text_eq t.body body || b) (any_matches-spellings body ts))

-- Where a header joins ASCII tags by single commas, each without a comma and beginning with a
-- quote, or with W/ and a quote, etagMatches of a tag of this form says yes exactly when one of
-- them is the same from the quote on.
pub etag_matches-join :
    (tag : Spelled) (ts : List Spelled)
    → All IsPlain ts
    → etag_matches (join (spellings ts)) (spell tag) ≡ lists tag.body ts
unfolding etag_matches
etag_matches-join tag ts h =
    ap (any_matches (strip_weak (spell tag)))
      (split_tags-join (spellings ts) (IsTag-spellings ts h))
    ∙ ap (λ etag. any_matches etag (spellings ts)) (strip_weak-spell tag)
    ∙ any_matches-spellings tag.body ts
