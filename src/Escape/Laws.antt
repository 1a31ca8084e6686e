-- ===== src/Escape/Laws.antt =====
-- The three ways to escape agree, and what they write cannot leave text or an attribute value.
use nanite_render.Prelude.{
  ℕ, ◌≡◌, ◌≢◌, refl, sym, ap, ◌∙◌, inl, inr, none, some, Option-cases, [], ◌∷◌, ◌++◌, append-nil,
  append_assoc, arith, Bytes, All, All-append,
}
use nanite_render.Writer.{Io, ByteWriter, Appended, WriterLaws}
use nanite_render.Writer.Bind.{bind_lem, as_written}
use nanite_render.Escape.{
  entity, escaped, escape_append, escape_string, write_run, escape_from, escape_bytes,
}

-- The compiler's escapeAppend appends to its destination what html.EscapeString returns.
pub escape_append-escape_string :
    (dst src : Bytes) → escape_append dst src ≡ dst ++ escape_string src
unfolding escape_append escape_string
escape_append-escape_string dst [] = sym (append-nil dst)
escape_append-escape_string dst (c ∷ src) =
    escape_append-escape_string (dst ++ escaped c) src ∙ append_assoc dst (escaped c) _

-- The bytes by which text or a quoted attribute value would end.
abbrev pub IsInert : ℕ → Type 0
IsInert c = (c ≢ b'<') × (c ≢ b'>') × (c ≢ b'"') × (c ≢ b'\'')

escaped-IsInert : (c : ℕ) → All IsInert (escaped c)
unfolding escaped entity
escaped-IsInert c = ground arith

-- An escaped text contains no less-than, greater-than, double or single quote, whatever the text
-- was.
pub escape_string-IsInert : (s : Bytes) → All IsInert (escape_string s)
unfolding escape_string
escape_string-IsInert [] = tt
escape_string-IsInert (c ∷ s) =
    All-append IsInert (escaped c) (escape_string s) (escaped-IsInert c) (escape_string-IsInert s)

pub escape_string-append :
    (s t : Bytes) → escape_string (s ++ t) ≡ escape_string s ++ escape_string t
unfolding escape_string
escape_string-append [] t = refl
escape_string-append (c ∷ s) t =
    ap (λ x. escaped c ++ x) (escape_string-append s t)
    ∙ sym (append_assoc (escaped c) (escape_string s) (escape_string t))

-- A byte that has no entity stands for itself.
escaped_plain : (c : ℕ) → entity c ≡ none → escaped c ≡ c ∷ []
unfolding escaped
escaped_plain c e = rw (e, escaped)

escaped-entity : (c : ℕ) {e : Bytes} → entity c ≡ some e → escaped c ≡ e
unfolding escaped
escaped-entity c h = rw (h, escaped)

module _ {W : Type 0} (bw : ByteWriter W) (laws : WriterLaws bw) where
  abbrev pub Result : Bytes → W → Io W → Type 0
  Result = Appended laws.Fails laws.Valid laws.contents

  write_run_lem : (run : Bytes) (w : W) → laws.Valid w → Result run w (write_run bw run w)
  unfolding write_run
  write_run_lem [] w v = (v, sym (append-nil _))
  write_run_lem (c ∷ run) w v = laws.write_lem (c ∷ run) w v

  escape_from_lem :
      (run rest : Bytes) (w : W)
      → laws.Valid w
      → Result (run ++ escape_string rest) w (escape_from bw run rest w)
  unfolding escape_from escape_string
  escape_from_lem run [] w v =
      as_written laws.Fails laws.Valid laws.contents w (write_run bw run w) (sym (append-nil run))
        (write_run_lem run w v)
  escape_from_lem run (c ∷ rest) w v = elim (Option-cases (entity c)) [
    | inl plain ↦
        rw (plain, escape_from, escaped_plain c plain, ← append_assoc)
          (escape_from_lem (run ++ c ∷ []) rest w v)
    | inr (e, hit) ↦
        rw (hit, escape_from, escaped-entity c hit, ← append_assoc)
          (bind_lem laws.Fails laws.Valid laws.contents (run ++ e) (escape_string rest) w _
            (escape_from bw [] rest)
            (bind_lem laws.Fails laws.Valid laws.contents run e w (write_run bw run w)
              (bw.write_string e) (write_run_lem run w v)
              (λ w' _ v'. laws.write_string_lem e w' v'))
            (λ w' _ v'. escape_from_lem [] rest w' v'))
  ]

  -- On a valid writer that keeps its promise, escapeBytes does not panic, and without an error it
  -- appends exactly the escaped text, run by run.
  pub escape_bytes_lem :
      (b : Bytes) (w : W) → laws.Valid w → Result (escape_string b) w (escape_bytes bw b w)
  unfolding escape_bytes
  escape_bytes_lem b w v = escape_from_lem [] b w v
