-- ===== src/Tests/Render.antt =====
-- execute.go on a parsed page.
use nanite_render.Prelude.{
  ℕ, ◌≡◌, refl, sym, true, none, some, [], append-nil, Bytes, codes, All, ◌<◌, ◌^◌, arith,
}
use nanite_render.Writer.{Appended, Io, ok, WriterLaws}
use nanite_render.NodeStream.{
  NodeStream, num_attr, attr_key, attr_val, first_child_of, next_sibling_of, stringify,
}
use nanite_render.NodeStream.Builder.{empty, stream, finalize_children}
use nanite_render.ParseHtml.{Outcome, parse_html}
use nanite_render.Escape.{entity, escaped, escape_string}
use nanite_render.Escape.Laws.{escape_string-IsInert, IsInert}
use nanite_render.Execute.{buffer, execute}
use nanite_render.Execute.Spec.{
  value_html, attrs_html, open_html, text_html, node_html, document_html,
}
use nanite_render.Execute.Laws.{execute_lem}
use nanite_render.Execute.Laws as Laws
use nanite_render.Tests.{parsing}
use nanite_render.NodeStream.WellFormed.{IsWellFormed}
use nanite_render.NodeStream.Links.Finalize.{linked, finalize_children-linked}
use nanite_render.Execute.Total.{IsPlain, stream-execute}
use nanite_render.ParseHtml.Result.{parse_html-Finished}

-- The builder behind `ParseHTML`.
abbrev pub built : Outcome → NodeStream
built (Outcome.ok b) = b
built _ = empty

abbrev pub page_builder : NodeStream
page_builder = built (parse_html (codes "<p a='x&y'>1<br>2</p>") (codes "t"))

page_builder-IsWellFormed : IsWellFormed page_builder
unfolding parsing
page_builder-IsWellFormed =
    (parse_html-Finished (codes "<p a='x&y'>1<br>2</p>") (codes "t") (omega arith)).0

page_builder_small : page_builder.count < 2 ^ 31
unfolding parsing
page_builder_small = omega arith

page_builder-IsPlain : IsPlain page_builder
unfolding parsing
page_builder-IsPlain = record {
  no_component = (refl, (refl, (refl, (refl, (refl, tt)))));
  no_slot = (refl, (refl, (refl, (refl, (refl, tt)))));
}

finalize_children-linked_example : finalize_children page_builder ≡ some (linked page_builder)
finalize_children-linked_example =
    finalize_children-linked page_builder page_builder-IsWellFormed page_builder_small

abbrev pub parsed : Outcome → NodeStream
parsed (Outcome.ok b) = elim (stream b) [ none ↦ empty | some s ↦ s ]
parsed _ = empty

abbrev pub page : NodeStream
page = parsed (parse_html (codes "<p a='x&y'>1<br>2</p>") (codes "t"))

abbrev pub page_text : Bytes
page_text = codes "<p a=\"x&amp;y\">1<br/>2</p>"

rendering : Unit {0}
unfolding parsing stream num_attr attr_key attr_val first_child_of next_sibling_of stringify entity
    escaped escape_string value_html attrs_html open_html text_html node_html document_html
rendering = tt

pub page_html : document_html page ≡ some page_text
unfolding rendering
page_html = refl

-- The promise of a `bytes.Buffer`.
abbrev pub buffer_laws : WriterLaws buffer
buffer_laws = record {
  Fails = ⊥;
  Valid = λ _. Unit;
  contents = λ w. w;
  write_lem = λ p w v. (tt, refl);
  write_string_lem = λ p w v. (tt, refl);
  write_byte_lem = λ c w v. (tt, refl);
  flush_lem = λ w v. (tt, sym (append-nil w));
}

abbrev no_component : NodeStream → ℕ → Bytes → Io Bytes
no_component nodes i w = ok w

execute_lem_example :
    Laws.Result buffer buffer_laws
      (λ x. x)
      true
      page_text
      []
      (execute buffer true no_component page [])
execute_lem_example =
    execute_lem buffer buffer_laws (λ x. x) true no_component page [] page_text tt page_html

escape_string-IsInert_example : All IsInert (escape_string (codes "<a b='c'>"))
escape_string-IsInert_example = escape_string-IsInert (codes "<a b='c'>")

stream-execute_example :
    (t : NodeStream) × (out : Bytes) × (stream page_builder ≡ some t)
    × (document_html t ≡ some out)
    × Appended ⊥ (λ _. Unit) (λ w. w) out [] (execute buffer true no_component t [])
stream-execute_example =
    stream-execute buffer buffer_laws (λ x. x) true no_component page_builder []
      page_builder-IsWellFormed page_builder_small page_builder-IsPlain tt
