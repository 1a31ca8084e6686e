-- ===== src/Conditional/Check.antt =====
-- `CheckConditional`, which stores the tag that it computes.
use nanite_render.Prelude.{
  ℕ, ◌≡◌, refl, sym, ap, ◌∙◌, ◌⊎◌, inl, inr, some, List, [], ◌∷◌, ◌++◌, Bool-cases, Bool, true,
  false, if◌then◌else◌, All, Bytes, codes,
}
use nanite_render.Conditional.Tags.{
  Spelled, spell, spellings, lists, IsPlain, join, etag_matches-join,
}
use nanite_render.Conditional.{
  Program, etag_matches, fingerprint, hash_content, with_etag, answer, check_conditional,
}

-- the headers of a yes
abbrev pub not_modified : Bytes → List (Bytes × Bytes)
not_modified etag =
    (codes "ETag", etag)
    ∷ (codes "Cache-Control", codes "private, max-age=7776000")
    ∷ (codes "Status", codes "304 Not Modified")
    ∷ []

module _ (digest : Bytes → Bytes) where
  -- A program with a tag keeps it.
  tagged : (p : Program) (c : ℕ) (t : Bytes) → p.etag ≡ c ∷ t → with_etag digest p ≡ some p
  unfolding with_etag
  tagged p c t e = rw (e, with_etag) (λ i. some (record p { etag = e i }))

  untagged :
      (p : Program) (s : Bytes)
      → p.etag ≡ []
      → fingerprint p ≡ some s
      → with_etag digest p ≡ some (record p { etag = codes "\"" ++ (digest s ++ codes "\"") })
  unfolding with_etag hash_content
  untagged p s e e' = rw (e, with_etag, e') refl

  check_some :
      (c : ℕ) (inm : Bytes) (p p' : Program)
      → with_etag digest p ≡ some p'
      → check_conditional digest (c ∷ inm) p ≡ some (answer digest (c ∷ inm) p')
  unfolding check_conditional
  check_some c inm p p' e = rw (e, check_conditional) refl

  -- the tag of a program: its own, or the one that is computed
  abbrev pub HasTag : Program → Spelled → Type 0
  HasTag p tag =
      (p.etag ≡ spell tag)
      ⊎ ((p.etag ≡ [])
          × (s : Bytes) × (fingerprint p ≡ some s)
          × (spell tag ≡ codes "\"" ++ (digest s ++ codes "\"")))

  spell-nonempty : (tag : Spelled) → (c : ℕ) × (t : Bytes) × (spell tag ≡ c ∷ t)
  unfolding spell
  spell-nonempty tag = elim (Bool-cases tag.weak) [
    | inl e ↦ rw e (b'W', b'/' ∷ b'"' ∷ tag.body, refl)
    | inr e ↦ rw e (b'"', tag.body, refl)
  ]

  with_etag_lem :
      (p : Program) (tag : Spelled)
      → HasTag p tag
      → with_etag digest p ≡ some (record p { etag = spell tag })
  with_etag_lem p tag (inl e) =
      let (c, t, e') = spell-nonempty tag in
      tagged p c t (e ∙ e') ∙ (λ i. some (record p { etag = e i }))
  with_etag_lem p tag (inr (e, s, f, e')) =
      untagged p s e f ∙ (λ i. some (record p { etag = sym e' i }))

  answer_lem :
      (inm : Bytes) (p : Program) (yes : Bool)
      → etag_matches inm p.etag ≡ yes
      → answer digest inm p ≡ record {
        hit = yes;
        program = p;
        headers = if yes then not_modified p.etag else [];
        request_headers = if yes then (codes "X-Render-Conditional", codes "hit") ∷ [] else [];
      }
  answer_lem inm p true e = rw e refl
  answer_lem inm p false e = rw e refl

  join-nonempty :
      (t : Spelled) (ts : List Spelled)
      → (c : ℕ) × (s : Bytes) × (join (spellings (t ∷ ts)) ≡ c ∷ s)
  unfolding join spellings
  join-nonempty t [] = spell-nonempty t
  join-nonempty t (u ∷ ts) =
      let (c, s, e) = spell-nonempty t in
      (
        c,
        s ++ (b',' ∷ join (spellings (u ∷ ts))),
        ap (λ x. x ++ (b',' ∷ join (spellings (u ∷ ts)))) e,
      )

  -- For a header that joins by single commas one or more ASCII tags, each without a comma and
  -- beginning with a quote, or with W/ and a quote, and a program with a tag of this form, its own
  -- or the one that HashContent computes: CheckConditional says yes exactly when a tag of the
  -- header is the same from the quote on, stores the tag in the program and changes nothing else
  -- there, and writes the three headers and marks the request on a yes, and neither on a no.
  pub check_conditional_lem :
      (p : Program) (tag t : Spelled) (ts : List Spelled)
      → HasTag p tag
      → All IsPlain (t ∷ ts)
      → check_conditional digest (join (spellings (t ∷ ts))) p
        ≡ some (record {
          hit = lists tag.body (t ∷ ts);
          program = record p { etag = spell tag };
          headers = if lists tag.body (t ∷ ts) then not_modified (spell tag) else [];
          request_headers =
              if lists tag.body (t ∷ ts)
              then (codes "X-Render-Conditional", codes "hit") ∷ []
              else [];
        })
  check_conditional_lem p tag t ts has h =
      let (c, s, e) = join-nonempty t ts in
      ap (λ inm. check_conditional digest inm p) e
      ∙ check_some c s p _ (with_etag_lem p tag has)
      ∙ ap some (
          answer_lem (c ∷ s) _ (lists tag.body (t ∷ ts))
            (ap (λ inm. etag_matches inm (spell tag)) (sym e) ∙ etag_matches-join tag (t ∷ ts) h))
