-- ===== src/Tests/Keyed.antt =====
-- Variants at concrete inputs: three dimensions in two orders, and nine, of which one has no room.
use nanite_render.Prelude.{◌≡◌, refl, [], ◌∷◌, Bytes, codes, arith}
use nanite_render.State.{Values, get}
use nanite_render.Htmx.{text_gt, insert_name, sort_names}
use nanite_render.Variants.{
  dimensions, sorted_dimensions, value_of, key_parts, key_of, name_parts, name_of,
}
use nanite_render.Variants.Stable.{swapped, key_of-Permuted}

abbrev dims : Values Bytes
dims =
    (codes "theme", codes "dark") ∷ (codes "locale", codes "fr") ∷ (codes "size", codes "xl") ∷ []

abbrev dims_again : Values Bytes
dims_again =
    (codes "locale", codes "fr") ∷ (codes "theme", codes "dark") ∷ (codes "size", codes "xl") ∷ []

key : key_of dims ≡ codes "locale.fr@size.xl@theme.dark"
unfolding key_of sorted_dimensions dimensions sort_names insert_name text_gt key_parts value_of get
key = refl

name : name_of (codes "app") dims ≡ codes "app.fr.xl.dark"
unfolding name_of sorted_dimensions dimensions sort_names insert_name text_gt name_parts value_of
    get
name = refl

orders_agree :
    (key_of dims ≡ key_of dims_again)
    × (name_of (codes "app") dims ≡ name_of (codes "app") dims_again)
orders_agree = key_of-Permuted (codes "app") dims dims_again (swapped (λ e. cc)) (omega arith)
