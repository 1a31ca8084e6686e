-- ===== src/Escape.antt =====
-- HTML escaping: `escapeAppend` of bytecode.go, which the compiler uses, `escapeBytes` of
-- execute.go, which the tree executor and the hydration props use, and the standard library's
-- `html.EscapeString`.
pub mod Laws
use nanite_render.Prelude.{
  ℕ, Option, none, some, List, [], ◌∷◌, ◌++◌, ◌==◌, if◌then◌else◌, Bytes, codes,
}
use nanite_render.Writer.{Io, ok, ◌>>=◌, ByteWriter}

-- The `switch` that both loops make on a byte.
unfoldable pub entity : ℕ → Option Bytes
entity c =
    if c == b'&'
    then some (codes "&amp;")
    else if c == b'<'
    then some (codes "&lt;")
    else if c == b'>'
    then some (codes "&gt;")
    else if c == b'"'
    then some (codes "&#34;")
    else if c == b'\''
    then some (codes "&#39;")
    else none

-- what `escapeAppend` appends for one byte
unfoldable pub escaped : ℕ → Bytes
escaped c = elim (entity c) [ none ↦ c ∷ [] | some e ↦ e ]

unfoldable pub escape_append : Bytes → Bytes → Bytes
escape_append dst [] = dst
escape_append dst (c ∷ src) = escape_append (dst ++ escaped c) src

-- `html.EscapeString` escapes just `<`, `>`, `&`, `'` and `"`, to the entities above.
unfoldable pub escape_string : Bytes → Bytes
escape_string [] = []
escape_string (c ∷ s) = escaped c ++ escape_string s

module _ {W : Type 0} (bw : ByteWriter W) where
  -- `w.Write(b[start:i])`, unless the run is empty
  unfoldable pub write_run : Bytes → W → Io W
  write_run [] w = ok w
  write_run (c ∷ run) w = bw.write (c ∷ run) w

  -- The loop of `escapeBytes`; the first argument is `b[start:i]`.
  unfoldable pub escape_from : Bytes → Bytes → W → Io W
  escape_from run [] w = write_run run w
  escape_from run (c ∷ rest) w = elim (entity c) [
    | none ↦ escape_from (run ++ c ∷ []) rest w
    | some e ↦ write_run run w >>= bw.write_string e >>= escape_from [] rest
  ]

  unfoldable pub escape_bytes : Bytes → W → Io W
  escape_bytes b w = escape_from [] b w
