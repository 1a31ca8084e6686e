-- ===== src/ParseHtml/Scan.antt =====
-- The byte tests and scans of parse_html.go. A position in `src` is the rest of `src` from there
-- on; a scan gives what it passes over and the rest.
use nanite_render.Prelude.{
  ℕ, Bool, true, false, not, ◌&&◌, ◌||◌, Option, none, some, [], ◌∷◌, leb, ◌==◌, if◌then◌else◌,
  Bytes, codes, drop,
}

unfoldable pub is_tag_name_byte : ℕ → Bool
is_tag_name_byte b =
    (leb b'a' b && leb b b'z')
    || (leb b'A' b && leb b b'Z')
    || (leb b'0' b && leb b b'9')
    || b == b'-'
    || b == b'_'
    || b == b':'

unfoldable pub is_whitespace : ℕ → Bool
is_whitespace b = b == b' ' || b == b'\t' || b == b'\n' || b == b'\r'

unfoldable pub is_attr_terminator : ℕ → Bool
is_attr_terminator b =
    b == b'=' || b == b' ' || b == b'\t' || b == b'\n' || b == b'\r' || b == b'>' || b == b'/'

unfoldable pub is_unquoted_attr_terminator : ℕ → Bool
is_unquoted_attr_terminator b =
    b == b' ' || b == b'\t' || b == b'\n' || b == b'\r' || b == b'>' || b == b'/'

-- The tests under which the scans go on.
abbrev pub in_unquoted_value : ℕ → Bool
in_unquoted_value b = not (is_unquoted_attr_terminator b)

abbrev pub in_attr_name : ℕ → Bool
in_attr_name b = not (is_attr_terminator b)

abbrev pub in_text : ℕ → Bool
in_text b = not (b == b'<')

unfoldable pub is_component_tag : Bytes → Bool
is_component_tag [] = false
is_component_tag (c ∷ tag) = leb b'A' c && leb c b'Z'

-- `for end < len(src) && p(src[end]) { end++ }`
unfoldable pub span : (ℕ → Bool) → Bytes → Bytes × Bytes
span p [] = ([], [])
span p (c ∷ s) = let r = span p s in if p c then (c ∷ r.0, r.1) else ([], c ∷ s)

-- `bytes.IndexByte`: what stands before the first `q`, and what stands behind it.
unfoldable pub cut_at : ℕ → Bytes → Option (Bytes × Bytes)
cut_at q [] = none
cut_at q (c ∷ s) =
    let r : Option (Bytes × Bytes) = elim (cut_at q s) [
      | none ↦ none
      | some x ↦ some (c ∷ x.0, x.1)
    ] in
    if c == q then some ([], s) else r

unfoldable pub starts_with : Bytes → Bytes → Bool
starts_with [] s = true
starts_with (p ∷ ps) [] = false
starts_with (p ∷ ps) (c ∷ s) = (p == c) && starts_with ps s

-- The rest behind the first `-->`; nothing where there is none.
unfoldable pub after_comment : Bytes → Bytes
after_comment [] = []
after_comment (c ∷ s) =
    let r = after_comment s in if starts_with (codes "-->") (c ∷ s) then drop 3 (c ∷ s) else r

abbrev pub is_blank : ℕ → Bool
is_blank c = c == b' ' || c == b'\t'

-- A value behind its quote, with what `cut_at` finds there. Without a closing quote all of the rest is
-- the value; where nothing is left, `&src[len(src)]` panics, which is `none`.
unfoldable pub quoted : Bytes → Option (Bytes × Bytes) → Option (Bytes × Bytes)
quoted r (some x) = some x
quoted [] none = none
quoted (d ∷ r) none = some (d ∷ r, [])

-- An attribute value, from behind the blanks that follow its `=`. `none` is the same panic.
unfoldable pub value_at : Bytes → Option (Bytes × Bytes)
value_at [] = none
value_at (c ∷ r) =
    if c == b'"' || c == b'\'' then quoted r (cut_at c r) else some (span in_unquoted_value (c ∷ r))

unfoldable pub parse_value : Bytes → Option (Bytes × Bytes)
parse_value s = value_at (span is_blank s).1
