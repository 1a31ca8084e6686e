-- ===== src/Writer/Bind.antt =====
-- The promise of `ByteWriter` for two steps in a row.
use mathlib.Core.Path.{subst}
use nanite_render.Prelude.{◌≡◌, refl, ap, ◌∙◌, ◌++◌, append_assoc, Bytes}
use nanite_render.Writer.{Io, ok, fail, panic, ◌>>=◌, Appended}

module _ {W : Type 0} (Fails : Type 0) (Valid : W → Type 0) (contents : W → Bytes) where
  -- A result is one for an earlier state, too: the bytes between stand in front.
  pub moved :
      (p q : Bytes) (w w' : W) (r : Io W)
      → contents w' ≡ contents w ++ p
      → Appended Fails Valid contents q w' r
      → Appended Fails Valid contents (p ++ q) w r
  moved p q w w' (ok c) e g = (g.0, g.1 ∙ ap (λ s. s ++ q) e ∙ append_assoc (contents w) p q)
  moved p q w w' (fail _ c) e g = g
  moved p q w w' panic e g = g

  pub bind_lem :
      (p q : Bytes) (w : W) (r : Io W) (f : W → Io W)
      → Appended Fails Valid contents p w r
      → ((w' : W) → r ≡ ok w' → Valid w' → Appended Fails Valid contents q w' (f w'))
      → Appended Fails Valid contents (p ++ q) w (r >>= f)
  bind_lem p q w (ok w') f h next = moved p q w w' (f w') h.1 (next w' refl h.0)
  bind_lem p q w (fail e w') f h next = h
  bind_lem p q w panic f h next = h

  pub as_written :
      {p q : Bytes} (w : W) (r : Io W)
      → p ≡ q
      → Appended Fails Valid contents p w r
      → Appended Fails Valid contents q w r
  as_written w r e h = subst (λ x. Appended Fails Valid contents x w r) e h
