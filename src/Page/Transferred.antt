-- ===== src/Page/Transferred.antt =====
-- What the layout finds of the view.
use nanite_render.Prelude.{
  ℕ, ◌<◌, ◌≡◌, ◌≢◌, refl, sym, ap, ◌∙◌, inl, inr, Bool-cases, Option, none, some, ltb, List, [],
  ◌∷◌, ◌++◌, take, Bytes, arith,
}
use nanite_render.Assets.{AssetList, Assets, inline_n}
use nanite_render.Assets.Laws.{IsValid, paths}
use nanite_render.Assets.Written.{require_all, first_seen, require_all_lem}
use nanite_render.Head.{Head, MetaKv, append_meta, placed, add_meta, use_id}
use nanite_render.Head.Ids.{nano_id_injective, fst-use_id, calls, id_seq-calls}
use nanite_render.Page.{add_metas, transfer_assets, transfer_tags, transfer}

first_seen-append :
    (ps qs seen : List Bytes) → first_seen (ps ++ qs) seen ≡ first_seen qs (first_seen ps seen)
unfolding first_seen
first_seen-append [] qs seen = refl
first_seen-append ([] ∷ ps) qs seen = first_seen-append ps qs seen
first_seen-append ((c ∷ p) ∷ ps) qs seen = first_seen-append ps qs _

-- The layout's assets are valid, and are those it had, with each new path of the view once behind them.
transfer_assets_lem :
    (view l : AssetList)
    → IsValid l
    → IsValid (transfer_assets view l)
      × (paths (transfer_assets view l) ≡ first_seen (paths view) (paths l))
unfolding transfer_assets
transfer_assets_lem view l v =
    let first = take (inline_n view.n) view.inline in
    let (v', e) = require_all_lem first l v in
    let (v'', e') = require_all_lem view.overflow (require_all first l) v' in
    (
      v'',
      e' ∙ ap (first_seen view.overflow) e ∙ sym (first_seen-append first view.overflow (paths l)),
    )

from_same :
    {l l' : AssetList} (view : AssetList)
    → l' ≡ l
    → IsValid l
    → IsValid (transfer_assets view l')
      × (paths (transfer_assets view l') ≡ first_seen (paths view) (paths l))
from_same {l} view e v = rw e (transfer_assets_lem view l v)

assets-append_meta : (kv : MetaKv) (rc : Head) → (append_meta kv rc).assets ≡ rc.assets
unfolding append_meta
assets-append_meta kv rc = elim (Bool-cases (ltb rc.meta_n 16)) [
  | inl e ↦ rw e refl
  | inr e ↦ rw e refl
]

assets-placed :
    (o p : Option (List MetaKv)) (kv : MetaKv) (rc : Head) → (placed o p kv rc).assets ≡ rc.assets
unfolding placed
assets-placed (some xs) p kv rc = refl
assets-placed none (some ys) kv rc = refl
assets-placed none none kv rc = assets-append_meta kv rc

assets-add_meta : (name content : Bytes) (rc : Head) → (add_meta name content rc).assets ≡ rc.assets
unfolding add_meta
assets-add_meta [] content rc = refl
assets-add_meta (c ∷ name) content rc = assets-placed _ _ _ rc

assets-add_metas : (kvs : List MetaKv) (rc : Head) → (add_metas kvs rc).assets ≡ rc.assets
unfolding add_metas
assets-add_metas [] rc = refl
assets-add_metas (kv ∷ kvs) rc =
    assets-add_metas kvs (add_meta kv.name kv.content rc) ∙ assets-add_meta kv.name kv.content rc

assets-transfer_tags : (view rc : Head) → (transfer_tags view rc).assets ≡ rc.assets
unfolding transfer_tags
assets-transfer_tags view rc = assets-add_metas view.meta_overflow _ ∙ assets-add_metas _ _

-- On valid lists of assets, the layout's pass of a page finds valid ones: the style sheets and the
-- scripts that its context had, and behind them each that the view required and that was not among
-- them, once, in the order of the view.
pub assets-transfer :
    (view rc : Head)
    → IsValid rc.assets.css
    → IsValid rc.assets.js
    → IsValid (transfer view rc).assets.css
      × IsValid (transfer view rc).assets.js
      × (paths (transfer view rc).assets.css
          ≡ first_seen (paths view.assets.css) (paths rc.assets.css))
      × (paths (transfer view rc).assets.js
          ≡ first_seen (paths view.assets.js) (paths rc.assets.js))
unfolding transfer
assets-transfer view rc vc vj =
    let same = assets-transfer_tags view rc in
    let (vc', ec) = from_same view.assets.css (ap Assets.css same) vc in
    let (vj', ej) = from_same view.assets.js (ap Assets.js same) vj in (vc', vj', ec, ej)

-- An id that a component of the view got while the sequence of the view was short of its end is
-- never given to a component of the layout, after any calls of UseId there.
pub use_id-transfer :
    (earlier view rc : Head) (n : ℕ)
    → earlier.id_seq < view.id_seq
    → (use_id earlier).0 ≢ (use_id (calls n (transfer view rc))).0
unfolding transfer
use_id-transfer earlier view rc n lt e =
    let seq =
      nano_id_injective (sym (fst-use_id earlier) ∙ e ∙ fst-use_id (calls n (transfer view rc))) in
    omega (arith, seq, id_seq-calls n (transfer view rc), lt)
