-- ===== src/Preload.antt =====
-- preload.go: the preload hints of a registry and the tags that `<PRELOADS/>` writes. A call of Preload or
-- Unpreload ends with a compare-and-swap against the list that it has read, and starts again when
-- another call was first: it is one step on the list. `none` is the nil pointer.
pub mod Registered
pub mod Written
use nanite_render.Prelude.{
  Bool, true, false, ◌&&◌, Option, none, some, List, [], ◌∷◌, ◌++◌, ◌==◌, if◌then◌else◌, length,
  Bytes, codes, text_eq,
}
use nanite_render.Writer.{Io, ok, ◌>>=◌, ByteWriter}
use nanite_render.Escape.{escape_string}

pub record PreloadHint : Type 0 where
  pub href : Bytes
  pub as_attr : Bytes
  pub type_attr : Bytes

abbrev pub PreloadHints : Type 0
PreloadHints = Option (List PreloadHint)

-- `existing == h`
abbrev pub hint_eq : PreloadHint → PreloadHint → Bool
hint_eq g h =
    text_eq g.href h.href && (text_eq g.as_attr h.as_attr && text_eq g.type_attr h.type_attr)

unfoldable pub has_hint : PreloadHint → List PreloadHint → Bool
has_hint h [] = false
has_hint h (g ∷ hs) = if hint_eq g h then true else has_hint h hs

unfoldable pub preload : PreloadHint → PreloadHints → PreloadHints
preload h none = some (h ∷ [])
preload h (some old) = if has_hint h old then some old else some (old ++ h ∷ [])

abbrev pub matches : Bytes → Bytes → PreloadHint → Bool
matches as_attr type_attr h = text_eq h.as_attr as_attr && text_eq h.type_attr type_attr

-- the hints that the loop copies
unfoldable pub kept : Bytes → Bytes → List PreloadHint → List PreloadHint
kept as_attr type_attr [] = []
kept as_attr type_attr (h ∷ hs) =
    if matches as_attr type_attr h then kept as_attr type_attr hs else h ∷ kept as_attr type_attr hs

unfoldable pub unpreload : Bytes → Bytes → PreloadHints → PreloadHints
unpreload as_attr type_attr none = none
unpreload as_attr type_attr (some []) = some []
unpreload as_attr type_attr (some (h ∷ hs)) =
    let cp = kept as_attr type_attr (h ∷ hs) in
    if length cp == length (h ∷ hs) then some (h ∷ hs) else some cp

unfoldable pub preloads : PreloadHints → List PreloadHint
preloads none = []
preloads (some hs) = hs

module _ {W : Type 0} (bw : ByteWriter W) where
  -- an attribute of the tag, unless it is empty
  unfoldable pub write_optional : Bytes → Bytes → W → Io W
  write_optional opening [] w = ok w
  write_optional opening (c ∷ value) w =
      bw.write_string opening w
      >>= bw.write_string (escape_string (c ∷ value))
      >>= bw.write_string (codes "\"")

  unfoldable pub write_hint : PreloadHint → W → Io W
  write_hint h w =
      bw.write_string (codes "<link rel=\"preload\" href=\"") w
      >>= bw.write_string (escape_string h.href)
      >>= bw.write_string (codes "\"")
      >>= write_optional (codes " as=\"") h.as_attr
      >>= write_optional (codes " type=\"") h.type_attr
      >>= bw.write_string (codes ">")

  unfoldable pub emit_hints : List PreloadHint → W → Io W
  emit_hints [] w = ok w
  emit_hints (h ∷ hs) w = write_hint h w >>= emit_hints hs

  unfoldable pub emit_preloads : PreloadHints → W → Io W
  emit_preloads r w = emit_hints (preloads r) w
