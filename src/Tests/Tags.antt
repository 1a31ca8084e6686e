-- ===== src/Tests/Tags.antt =====
-- conditional.go on a parsed page.
use nanite_render.Prelude.{
  ◌≡◌, refl, inr, true, false, some, List, [], ◌∷◌, ◌++◌, Bytes, codes, All, arith, get_elem?,
}
use nanite_render.NodeStream.{text, slice, stringify}
use nanite_render.Conditional.{
  Program, close_tag, split_from, split_tags, strip_weak, any_matches, etag_matches, terminated,
  low_bytes, two_bytes, four_bytes, terminated_values, fingerprint, hash_content, with_etag,
  check_conditional,
}
use nanite_render.Conditional.Tags.{
  Spelled, spell, spellings, lists, IsPlain, join, etag_matches-join,
}
use nanite_render.Conditional.Fingerprint.{rewritten, fingerprint-rewritten}
use nanite_render.Conditional.Check.{HasTag, not_modified, check_conditional_lem}
use nanite_render.Tests.{parsing}
use nanite_render.Tests.Render.{page_builder}

checking : Unit {0}
unfolding parsing text slice stringify close_tag split_from split_tags strip_weak any_matches
    etag_matches terminated low_bytes two_bytes four_bytes terminated_values fingerprint
    hash_content with_etag check_conditional
checking = tt

abbrev strong : Bytes → Spelled
strong s = record { weak = false; body = s ++ codes "\"" }

abbrev weak_tag : Bytes → Spelled
weak_tag s = record { weak = true; body = s ++ codes "\"" }

abbrev tags : List Spelled
tags = strong (codes "a") ∷ weak_tag (codes "0123") ∷ []

tags-IsPlain : All IsPlain tags
tags-IsPlain = ground arith

header : join (spellings tags) ≡ codes "\"a\",W/\"0123\""
unfolding join spellings spell
header = refl

etag_matches-join_example :
    etag_matches (join (spellings tags)) (spell (strong (codes "0123"))) ≡ true
unfolding lists
etag_matches-join_example = etag_matches-join (strong (codes "0123")) tags tags-IsPlain

-- A space behind the comma, as browsers write it, stays a part of the tag.
spaced : etag_matches (codes "\"a\", \"b\"") (codes "\"b\"") ≡ false
unfolding checking
spaced = refl

abbrev program : Program
program = record { engine = codes "html"; name = codes "home"; nodes = page_builder; etag = [] }

span_start : get_elem? program.nodes.text_off 0 ≡ some 0
unfolding parsing
span_start = refl

span_end : get_elem? program.nodes.text_off 1 ≡ some 0
unfolding parsing
span_end = refl

fingerprint-rewritten_example :
    fingerprint (rewritten program (codes "other") []) ≡ fingerprint program
fingerprint-rewritten_example = fingerprint-rewritten program (codes "other") [] span_start span_end

abbrev first_digits : Bytes → Bytes
first_digits s = codes "0123"

abbrev computed : Spelled
computed = strong (codes "0123")

program-HasTag : HasTag first_digits program computed
unfolding checking spell
program-HasTag = inr (refl, _, refl, refl)

check_conditional_lem_example :
    check_conditional first_digits (join (spellings tags)) program
    ≡ some (record {
      hit = true;
      program = record program { etag = spell computed };
      headers = not_modified (spell computed);
      request_headers = (codes "X-Render-Conditional", codes "hit") ∷ [];
    })
unfolding lists
check_conditional_lem_example =
    check_conditional_lem first_digits program computed (strong (codes "a"))
      (weak_tag (codes "0123") ∷ []) program-HasTag tags-IsPlain
