-- ===== src/Assets/Written.antt =====
-- `<NANO_ASSETS/>`: what is written after a render has required its assets.
use nanite_render.Prelude.{
  ◌≡◌, refl, sym, ap, ◌∙◌, List, [], ◌∷◌, ◌++◌, append-nil, append_assoc, take, Bytes,
}
use nanite_render.Writer.{Io, ByteWriter, Appended, WriterLaws}
use nanite_render.Writer.Bind.{bind_lem, as_written}
use nanite_render.Assets.{
  AssetList, Assets, inline_n, require, css_tag, js_tag, write_tags, write_list, write_asset_tags,
  clear_list, clear_assets,
}
use nanite_render.Assets.Laws.{IsValid, paths, add_once, require_lem, clear_list-IsValid}

-- the calls of one kind during a render, in order
abbrev pub require_all : List Bytes → AssetList → AssetList
require_all [] l = l
require_all (p ∷ ps) l = require_all ps (require p l)

-- a later render on assets that have been cleared
abbrev pub required_again : List Bytes → List Bytes → Assets → Assets
required_again hrefs srcs rc =
    let fresh = clear_assets rc in
    record { css = require_all hrefs fresh.css; js = require_all srcs fresh.js }

-- the paths in the order of their first requirement, behind those of `seen`; an empty path is none
unfoldable pub first_seen : List Bytes → List Bytes → List Bytes
first_seen [] seen = seen
first_seen ([] ∷ ps) seen = first_seen ps seen
first_seen ((c ∷ p) ∷ ps) seen = first_seen ps (add_once (c ∷ p) seen)

pub require_all_lem :
    (ps : List Bytes) (l : AssetList)
    → IsValid l
    → IsValid (require_all ps l) × (paths (require_all ps l) ≡ first_seen ps (paths l))
unfolding first_seen require
require_all_lem [] l v = (v, refl)
require_all_lem ([] ∷ ps) l v = require_all_lem ps l v
require_all_lem ((c ∷ p) ∷ ps) l v =
    let (v', e) = require_lem c p l v in
    let (v'', e') = require_all_lem ps (require (c ∷ p) l) v' in (v'', e' ∙ ap (first_seen ps) e)

-- the tags of a list of paths
unfoldable pub tags_html : (Bytes → Bytes) → List Bytes → Bytes
tags_html tag [] = []
tags_html tag (x ∷ xs) = tag x ++ tags_html tag xs

tags_html-append :
    (tag : Bytes → Bytes) (xs ys : List Bytes)
    → tags_html tag (xs ++ ys) ≡ tags_html tag xs ++ tags_html tag ys
unfolding tags_html
tags_html-append tag [] ys = refl
tags_html-append tag (x ∷ xs) ys =
    ap (λ t. tag x ++ t) (tags_html-append tag xs ys)
    ∙ sym (append_assoc (tag x) (tags_html tag xs) (tags_html tag ys))

module _ {W : Type 0} (bw : ByteWriter W) (laws : WriterLaws bw) where
  abbrev pub Result : Bytes → W → Io W → Type 0
  Result = Appended laws.Fails laws.Valid laws.contents

  write_tags_lem :
      (tag : Bytes → Bytes) (xs : List Bytes) (w : W)
      → laws.Valid w
      → Result (tags_html tag xs) w (write_tags bw tag xs w)
  unfolding tags_html write_tags
  write_tags_lem tag [] w v = (v, sym (append-nil _))
  write_tags_lem tag (x ∷ xs) w v =
      bind_lem laws.Fails laws.Valid laws.contents (tag x) (tags_html tag xs) w _
        (write_tags bw tag xs) (laws.write_string_lem (tag x) w v)
        (λ w' _ v'. write_tags_lem tag xs w' v')

  write_list_lem :
      (tag : Bytes → Bytes) (l : AssetList) (w : W)
      → laws.Valid w
      → Result (tags_html tag (paths l)) w (write_list bw tag l w)
  unfolding write_list
  write_list_lem tag l w v =
      let first = take (inline_n l.n) l.inline in
      as_written laws.Fails laws.Valid laws.contents w _
        (sym (tags_html-append tag first l.overflow))
        (bind_lem laws.Fails laws.Valid laws.contents (tags_html tag first)
          (tags_html tag l.overflow) w _ (write_tags bw tag l.overflow)
          (write_tags_lem tag first w v) (λ w' _ v'. write_tags_lem tag l.overflow w' v'))

  -- After any calls of RequiresCSS and RequiresJS on valid lists, writeAssetTags on a valid writer
  -- that keeps its promise does not panic, and without an error it appends the tags of the style
  -- sheets and then those of the scripts, escaped, for the paths held before and behind them each
  -- new one once, in the order of the first calls.
  pub write_asset_tags_lem :
      (hrefs srcs : List Bytes) (rc : Assets) (w : W)
      → IsValid rc.css
      → IsValid rc.js
      → laws.Valid w
      → Result
          (tags_html css_tag (first_seen hrefs (paths rc.css))
            ++ tags_html js_tag (first_seen srcs (paths rc.js)))
          w
          (write_asset_tags bw
            (record { css = require_all hrefs rc.css; js = require_all srcs rc.js })
            w)
  unfolding write_asset_tags
  write_asset_tags_lem hrefs srcs rc w vc vj v =
      let (_, e) = require_all_lem hrefs rc.css vc in
      let (_, e') = require_all_lem srcs rc.js vj in
      rw (← e, ← e')
        (bind_lem laws.Fails laws.Valid laws.contents _ _ w _
          (write_list bw js_tag (require_all srcs rc.js))
          (write_list_lem css_tag (require_all hrefs rc.css) w v)
          (λ w' _ v'. write_list_lem js_tag (require_all srcs rc.js) w' v'))

  -- After ClearAssets on valid lists and any calls of RequiresCSS and RequiresJS, writeAssetTags
  -- on a valid writer that keeps its promise does not panic, and without an error it appends the
  -- tags of the paths of these calls only, each non-empty one once, and nothing of what was held
  -- before.
  pub write_asset_tags-clear_assets :
      (hrefs srcs : List Bytes) (rc : Assets) (w : W)
      → IsValid rc.css
      → IsValid rc.js
      → laws.Valid w
      → Result
          (tags_html css_tag (first_seen hrefs []) ++ tags_html js_tag (first_seen srcs []))
          w
          (write_asset_tags bw (required_again hrefs srcs rc) w)
  unfolding clear_assets clear_list
  write_asset_tags-clear_assets hrefs srcs rc w vc vj v =
      write_asset_tags_lem hrefs srcs (clear_assets rc) w (clear_list-IsValid rc.css vc)
        (clear_list-IsValid rc.js vj) v
