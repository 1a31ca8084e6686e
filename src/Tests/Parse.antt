-- ===== src/Tests/Parse.antt =====
-- parse_html.go and the builder of soa.go.
use nanite_render.Prelude.{
  ℕ, ◌+◌, ◌≡◌, refl, Option, none, some, List, [], ◌∷◌, arith, length, codes,
}
use nanite_render.NodeStream.{Value}
use nanite_render.ParseHtml.{Outcome, parse_html}
use nanite_render.Tests.{parsing}
use nanite_render.ParseHtml.CutOff.{IsCutOff}
use nanite_render.ParseHtml.Result.{Finished, parse_html-Finished}

abbrev tags : Outcome → Option (List (List ℕ))
tags (Outcome.ok b) = some b.tag
tags _ = none

abbrev attributes : Outcome → Option (List (List ℕ) × List Value)
attributes (Outcome.ok b) = some (b.attr_keys, b.attr_vals)
attributes _ = none

paragraph :
    tags (parse_html (codes "<p class='a'>hi<br></p><X y=1/>") (codes "t"))
    ≡ some (codes "#document" ∷ codes "p" ∷ codes "#text" ∷ codes "br" ∷ codes "X" ∷ [])
unfolding parsing
paragraph = refl

-- The value of an unquoted attribute ends at a slash.
unquoted_slash :
    attributes (parse_html (codes "<a href=/x>") (codes "t"))
    ≡ some (codes "href" ∷ [], Value.str [] ∷ [])
unfolding parsing
unquoted_slash = refl

doctype :
    parse_html (codes "ab<!DOCTYPE html>") (codes "t")
    ≡ Outcome.err (record { name = codes "t"; offset = 2; msg = codes "expected tag name" })
unfolding parsing
doctype = refl

-- Go takes the address of the byte behind the source.
open_quote : parse_html (codes "<a b=\"") (codes "t") ≡ Outcome.panic
unfolding parsing
open_quote = refl

open_value : parse_html (codes "<a b= ") (codes "t") ≡ Outcome.panic
unfolding parsing
open_value = refl

unclosed_value :
    attributes (parse_html (codes "<a b=\"c>") (codes "t"))
    ≡ some (codes "b" ∷ [], Value.str (codes "c>") ∷ [])
unfolding parsing
unclosed_value = refl

parse_html-Finished_example :
    Finished
      (IsCutOff (codes "<p>hi</p>"))
      (length (codes "<p>hi</p>") + 1)
      (parse_html (codes "<p>hi</p>") (codes "t"))
parse_html-Finished_example = parse_html-Finished (codes "<p>hi</p>") (codes "t") (omega arith)
