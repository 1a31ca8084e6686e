-- ===== src/Variants.antt =====
-- variantKey and variantName of render.go: the dimensions of a request in the key of a cached program and in
-- a template's name. The variants are a map in the order in which Go iterates over it; sort.Strings is the
-- insertion sort of Htmx, whose result is held last name first.
pub mod Stable
use nanite_render.Prelude.{Option, none, some, List, [], ◌∷◌, ◌++◌, take, Bytes, codes}
use nanite_render.State.{Values, get}
use nanite_render.Htmx.{sort_names}
use nanite_render.RenderContext.{RenderContext, made}

unfoldable pub dimensions : Values Bytes → List Bytes
dimensions [] = []
dimensions ((k, v) ∷ vs) = k ∷ dimensions vs

-- the names that have room in `keysBuf`, sorted, last first
unfoldable pub sorted_dimensions : Values Bytes → List Bytes
sorted_dimensions vs = sort_names [] (take 8 (dimensions vs))

-- `rc.Variants[k]`
unfoldable pub value_of : Bytes → Values Bytes → Bytes
value_of k vs = elim (get k vs) [ some v ↦ v | none ↦ [] ]

-- The loop of variantKey, from its last name to its first.
unfoldable pub key_parts : Values Bytes → List Bytes → Bytes → Bytes
key_parts vs [] acc = acc
key_parts vs (k ∷ []) acc = k ++ (codes "." ++ (value_of k vs ++ acc))
key_parts vs (k ∷ l ∷ ks) acc =
    key_parts vs (l ∷ ks) (codes "@" ++ (k ++ (codes "." ++ (value_of k vs ++ acc))))

unfoldable pub name_parts : Values Bytes → List Bytes → Bytes → Bytes
name_parts vs [] acc = acc
name_parts vs (k ∷ ks) acc = name_parts vs ks (codes "." ++ (value_of k vs ++ acc))

unfoldable pub key_of : Values Bytes → Bytes
key_of vs = key_parts vs (sorted_dimensions vs) []

unfoldable pub variant_key : {A D : Type 0} → RenderContext A D → Bytes
variant_key rc = key_of (made rc.variants)

unfoldable pub name_of : Bytes → Values Bytes → Bytes
name_of name vs = name ++ name_parts vs (sorted_dimensions vs) []

unfoldable pub variant_name : {A D : Type 0} → Bytes → RenderContext A D → Bytes
variant_name name rc = name_of name (made rc.variants)
