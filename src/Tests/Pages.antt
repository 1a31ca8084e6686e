-- ===== src/Tests/Pages.antt =====
-- page.go at concrete inputs: a page with assets and ids in both passes, its error, and a title that is lost.
use nanite_render.Prelude.{
  ℕ, ◌<◌, ◌≡◌, ◌≢◌, refl, Option, none, some, [], ◌∷◌, Bytes, codes, replicate, arith,
}
use nanite_render.State.{Values, put_value}
use nanite_render.Assets.{AssetList}
use nanite_render.Assets.Laws.{IsValid, paths, member}
use nanite_render.Assets.Written.{first_seen}
use nanite_render.Head.{Head, use_id}
use nanite_render.Head.Ids.{calls, id_seq-calls}
use nanite_render.Components.{register}
use nanite_render.RenderContext.{RenderContext, new_context, with_layout}
use nanite_render.Page.{
  layout_missing, is_empty, page_guard, add_metas, transfer_tags, transfer, unregister, layout_pass,
  view_pass, render_page_engines,
}
use nanite_render.Page.Transferred.{assets-transfer, use_id-transfer}

-- one path in an inline array of 16
abbrev one_path : Bytes → AssetList
one_path p = record { inline = p ∷ replicate 15 []; overflow = []; n = 1 }

abbrev blank : Head
blank = (new_context {A = ℕ} {D = ℕ} 0).head

abbrev view : Head
view = record blank {
  title = codes "Posts";
  id_seq = 2;
  assets = record { css = one_path (codes "/posts.css"); js = one_path (codes "/app.js") };
}

abbrev layout : Head
layout = record blank {
  title = codes "Site";
  assets = record { css = one_path (codes "/site.css"); js = one_path (codes "/app.js") };
}

one_path-IsValid : (p : Bytes) → IsValid (one_path p)
one_path-IsValid p = record { inline_len = refl; spilled = refl }

assets-transfer_example :
    IsValid (transfer view layout).assets.css
    × IsValid (transfer view layout).assets.js
    × (paths (transfer view layout).assets.css
        ≡ first_seen (paths view.assets.css) (paths layout.assets.css))
    × (paths (transfer view layout).assets.js
        ≡ first_seen (paths view.assets.js) (paths layout.assets.js))
assets-transfer_example =
    assets-transfer view layout (one_path-IsValid (codes "/site.css"))
      (one_path-IsValid (codes "/app.js"))

both_sheets :
    first_seen (paths view.assets.css) (paths layout.assets.css)
    ≡ codes "/site.css" ∷ codes "/posts.css" ∷ []
unfolding first_seen member
both_sheets = refl

earlier : (calls 1 blank).id_seq < view.id_seq
earlier = omega (arith, id_seq-calls 1 blank)

-- The second id of the view is not the first of the layout.
use_id-transfer_example : (use_id (calls 1 blank)).0 ≢ (use_id (calls 0 (transfer view layout))).0
use_id-transfer_example = use_id-transfer (calls 1 blank) view layout 0 earlier

-- A view without a title takes the layout's away.
title_lost : (transfer blank layout).title ≡ []
unfolding transfer transfer_tags add_metas
title_lost = refl

missing_layout :
    page_guard {E = ℕ} (codes "html") [] (codes "html") (codes "posts") ≡ some layout_missing
unfolding page_guard is_empty
missing_layout = refl

-- a layout that reads its view and the registry
abbrev render_layout :
    Values Bytes → RenderContext ℕ ℕ → Option ℕ × RenderContext ℕ ℕ × Values Bytes
render_layout cr rc = (none, with_layout rc.view_bytes rc, cr)

abbrev site : RenderContext ℕ ℕ
site = new_context 0

-- The layout sees the view's HTML, and YIELD is gone behind it.
whole_page :
    (render_page_engines {E = ℕ}
      (λ html. html)
      0
      (λ rc. (none, codes "<p>", rc))
      render_layout
      (codes "html")
      (codes "app")
      (codes "html")
      (codes "posts")
      1
      site
      site
      ((codes "NAV", codes "<nav>") ∷ [])).2
    ≡ (codes "NAV", codes "<nav>") ∷ []
unfolding render_page_engines page_guard is_empty view_pass layout_pass register unregister
    put_value
whole_page = refl
