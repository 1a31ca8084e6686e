-- ===== src/Preload/Written.antt =====
-- `<PRELOADS/>`: one tag for each hint that is listed.
use nanite_render.Prelude.{sym, List, [], ◌∷◌, ◌++◌, append-nil, Bytes, codes}
use nanite_render.Writer.{Io, ◌>>=◌, ByteWriter, Appended, WriterLaws}
use nanite_render.Writer.Bind.{bind_lem}
use nanite_render.Escape.{escape_string}
use nanite_render.Preload.{
  PreloadHint, PreloadHints, preloads, write_optional, write_hint, emit_hints, emit_preloads,
}

unfoldable pub optional_html : Bytes → Bytes → Bytes
optional_html opening [] = []
optional_html opening (c ∷ value) = (opening ++ escape_string (c ∷ value)) ++ codes "\""

unfoldable pub hint_html : PreloadHint → Bytes
hint_html h =
    ((((codes "<link rel=\"preload\" href=\"" ++ escape_string h.href) ++ codes "\"")
        ++ optional_html (codes " as=\"") h.as_attr)
      ++ optional_html (codes " type=\"") h.type_attr)
    ++ codes ">"

unfoldable pub hints_html : List PreloadHint → Bytes
hints_html [] = []
hints_html (h ∷ hs) = hint_html h ++ hints_html hs

module _ {W : Type 0} (bw : ByteWriter W) (laws : WriterLaws bw) where
  abbrev Result : Bytes → W → Io W → Type 0
  Result = Appended laws.Fails laws.Valid laws.contents

  both_lem :
      (p q : Bytes) (w : W) (r : Io W) → Result p w r → Result (p ++ q) w (r >>= bw.write_string q)
  both_lem p q w r h =
      bind_lem laws.Fails laws.Valid laws.contents p q w r (bw.write_string q) h
        (λ w' _ v'. laws.write_string_lem q w' v')

  write_optional_lem :
      (opening value : Bytes) (w : W)
      → laws.Valid w
      → Result (optional_html opening value) w (write_optional bw opening value w)
  unfolding optional_html write_optional
  write_optional_lem opening [] w v = (v, sym (append-nil _))
  write_optional_lem opening (c ∷ value) w v =
      let s = escape_string (c ∷ value) in
      both_lem (opening ++ s) (codes "\"") w _
        (both_lem opening s w _ (laws.write_string_lem opening w v))

  write_hint_lem :
      (h : PreloadHint) (w : W) → laws.Valid w → Result (hint_html h) w (write_hint bw h w)
  unfolding hint_html write_hint
  write_hint_lem h w v =
      let opening = codes "<link rel=\"preload\" href=\"" in
      let href = escape_string h.href in
      let optional : (name value : Bytes) (p : Bytes) (r : Io W)
          → Result p w r
          → Result (p ++ optional_html name value) w (r >>= write_optional bw name value) =
        λ name value p r g.
          bind_lem laws.Fails laws.Valid laws.contents p (optional_html name value) w r
            (write_optional bw name value) g (λ w' _ v'. write_optional_lem name value w' v') in
      both_lem _ (codes ">") w _ (
        optional (codes " type=\"") h.type_attr _ _ (
          optional (codes " as=\"") h.as_attr _ _ (
            both_lem _ (codes "\"") w _ (both_lem _ href w _ (laws.write_string_lem opening w v)))))

  emit_hints_lem :
      (hs : List PreloadHint) (w : W) → laws.Valid w → Result (hints_html hs) w (emit_hints bw hs w)
  unfolding hints_html emit_hints
  emit_hints_lem [] w v = (v, sym (append-nil _))
  emit_hints_lem (h ∷ hs) w v =
      bind_lem laws.Fails laws.Valid laws.contents (hint_html h) (hints_html hs) w _
        (emit_hints bw hs) (write_hint_lem h w v) (λ w' _ v'. emit_hints_lem hs w' v')

  -- On a valid writer that keeps its promise emitPreloads does not panic, and without an error it
  -- appends one link tag for each hint that Preloads lists, in that order, with the values escaped and
  -- the empty As and Type left out.
  pub emit_preloads_lem :
      (r : PreloadHints) (w : W)
      → laws.Valid w
      → Result (hints_html (preloads r)) w (emit_preloads bw r w)
  unfolding emit_preloads
  emit_preloads_lem r w v = emit_hints_lem (preloads r) w v
