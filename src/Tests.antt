-- ===== src/Tests.antt =====
-- Tests of the models on concrete inputs, and each property at such an input.
pub mod Caches
pub mod Suspended
pub mod Requests
pub mod Keyed
pub mod Pages
pub mod Parse
pub mod Write
pub mod Render
pub mod Requested
pub mod Compile
pub mod Composed
pub mod Stores
pub mod Tags
use nanite_render.Prelude.{put, int32}
use nanite_render.NodeStream.{has, is_void_tag, any_eq, text, slice}
use nanite_render.NodeStream.Builder.{
  append_node, set_parent, set_component_name, set_attr_range, append_attrs, set_attrs_each,
  put_span, append_text, fill, link, link_from, finalize_children,
}
use nanite_render.ParseHtml.Scan.{
  is_tag_name_byte, is_whitespace, is_attr_terminator, is_unquoted_attr_terminator,
  is_component_tag, span, cut_at, starts_with, after_comment, value_at, parse_value, quoted,
}
use nanite_render.ParseHtml.{
  valued, with_attrs, attr_with, attr_at, attr_step, parse_attrs, set_top_parent, pop, place,
  open_tag, add_text, skip_close, finish_tag, name_tag, tag_step, step, parse_from, parse_html,
}

-- what a run of the parser computes
parsing : Unit {0}
unfolding has is_void_tag any_eq text slice append_node set_parent set_component_name set_attr_range
    append_attrs set_attrs_each put_span append_text fill link link_from finalize_children
    is_tag_name_byte is_whitespace is_attr_terminator is_unquoted_attr_terminator is_component_tag
    span cut_at starts_with after_comment value_at parse_value quoted valued with_attrs attr_with
    attr_at attr_step parse_attrs set_top_parent pop place open_tag add_text skip_close finish_tag
    name_tag tag_step step parse_from parse_html put int32
parsing = tt
