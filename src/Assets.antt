-- ===== src/Assets.antt =====
-- assets.go: the style sheets and scripts that the components of a page require, each kind in an
-- inline array with a heap slice behind it.
pub mod Laws
pub mod Written
use nanite_render.Prelude.{
  ℕ, zero, suc, ◌+◌, Bool, true, false, List, [], ◌∷◌, ◌++◌, ltb, if◌then◌else◌, length, set, take,
  Bytes, codes, text_eq,
}
use nanite_render.Writer.{Io, ok, ◌>>=◌, ByteWriter}
use nanite_render.Escape.{escape_string}

abbrev pub asset_inline_cap : ℕ
asset_inline_cap = 16

-- The three fields of one kind.
pub record AssetList : Type 0 where
  pub inline : List Bytes
  pub overflow : List Bytes
  pub n : ℕ

pub record Assets : Type 0 where
  pub css : AssetList
  pub js : AssetList

-- `inlineN`
abbrev pub inline_n : ℕ → ℕ
inline_n n = if ltb asset_inline_cap n then asset_inline_cap else n

-- one of the first `n` slots holds the path
unfoldable pub holds : ℕ → Bytes → List Bytes → Bool
holds zero path xs = false
holds (suc n) path [] = false
holds (suc n) path (x ∷ xs) = if text_eq x path then true else holds n path xs

unfoldable pub add_asset : Bytes → AssetList → AssetList
add_asset path l =
    if ltb l.n asset_inline_cap
    then record l { inline = set l.inline l.n path; n = l.n + 1 }
    else record l { overflow = l.overflow ++ path ∷ []; n = l.n + 1 }

-- `RequiresCSS` and `RequiresJS` differ in the kind alone.
unfoldable pub require : Bytes → AssetList → AssetList
require [] l = l
require (c ∷ path) l =
    if holds (inline_n l.n) (c ∷ path) l.inline
    then l
    else if holds (length l.overflow) (c ∷ path) l.overflow
    then l
    else add_asset (c ∷ path) l

unfoldable pub requires_css : Bytes → Assets → Assets
requires_css href rc = record rc { css = require href rc.css }

unfoldable pub requires_js : Bytes → Assets → Assets
requires_js src rc = record rc { js = require src rc.js }

-- the first `n` slots emptied
unfoldable pub empty_slots : ℕ → List Bytes → List Bytes
empty_slots zero xs = xs
empty_slots (suc n) [] = []
empty_slots (suc n) (x ∷ xs) = [] ∷ empty_slots n xs

unfoldable pub clear_list : AssetList → AssetList
clear_list l = record { inline = empty_slots (inline_n l.n) l.inline; overflow = []; n = 0 }

unfoldable pub clear_assets : Assets → Assets
clear_assets rc = record { css = clear_list rc.css; js = clear_list rc.js }

abbrev pub css_tag : Bytes → Bytes
css_tag href = codes "<link rel=\"stylesheet\" href=\"" ++ (escape_string href ++ codes "\">")

abbrev pub js_tag : Bytes → Bytes
js_tag src = codes "<script defer src=\"" ++ (escape_string src ++ codes "\"></script>")

module _ {W : Type 0} (bw : ByteWriter W) where
  -- a loop that writes the tag of each path
  unfoldable pub write_tags : (Bytes → Bytes) → List Bytes → W → Io W
  write_tags tag [] w = ok w
  write_tags tag (x ∷ xs) w = bw.write_string (tag x) w >>= write_tags tag xs

  unfoldable pub write_list : (Bytes → Bytes) → AssetList → W → Io W
  write_list tag l w = write_tags tag (take (inline_n l.n) l.inline) w >>= write_tags tag l.overflow

  unfoldable pub write_asset_tags : Assets → W → Io W
  write_asset_tags rc w = write_list css_tag rc.css w >>= write_list js_tag rc.js
