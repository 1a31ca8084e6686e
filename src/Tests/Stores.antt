-- ===== src/Tests/Stores.antt =====
-- context.go and formerrors.go, on both sides of the inline arrays' capacities.
use nanite_render.Prelude.{
  if◌then◌else◌, text_eq, ℕ, ◌≡◌, refl, none, some, List, [], ◌∷◌, ◌++◌, codes, replicate, take,
  put, Bytes, arith, pos, ltb, true,
}
use nanite_render.Context.{
  ContextKv, ContextStack, push_context, clear_slots, clamp_ptr, clear_overflow, pop_context_to,
  slot, scan_context, get_context, context_depth,
}
use nanite_render.Context.Stack.{Holds, nearest}
use nanite_render.Context.Pop.{pop_context_to_lem}
use nanite_render.Context.Scope.{push_all, leave, frame_lem}
use nanite_render.FormErrors.{
  FormErrors, overwrite, add_error, set_form_error, find_error, get_form_error,
}
use nanite_render.FormErrors.Laws.{IsValid, HasRecorded, set_form_error_lem}
use nanite_render.FormErrors.Lookup.{get-set_form_error}
use nanite_render.Assets.{Assets, require, css_tag, js_tag, write_asset_tags}
use nanite_render.Assets.Laws.{require_lem}
use nanite_render.Assets.Laws as AssetLaws
use nanite_render.Assets.Written.{
  require_all, first_seen, tags_html, required_again, write_asset_tags_lem,
  write_asset_tags-clear_assets,
}
use nanite_render.Assets.Written as Written
use nanite_render.Execute.{buffer}
use nanite_render.Tests.Render.{buffer_laws}
use nanite_render.State.{Values, use_state, get}

storing : Unit {0}
unfolding push_context clear_slots clamp_ptr clear_overflow pop_context_to slot scan_context
    get_context context_depth overwrite add_error set_form_error find_error get_form_error put
storing = tt

abbrev kv : Bytes → ℕ → ContextKv ℕ
kv key val = record { key = key; val = val }

-- 32 bindings: the inline array is full.
abbrev full : ContextStack ℕ
full = record {
  inline_ctx = kv (codes "theme") 7 ∷ replicate 31 (kv (codes "depth") 1);
  overflow_ctx = [];
  ctx_ptr = 32;
}

abbrev bindings : List (ContextKv ℕ)
bindings = kv (codes "theme") 7 ∷ replicate 31 (kv (codes "depth") 1)

full-Holds : Holds 0 full bindings
unfolding slot
full-Holds = record {
  inline_len = refl;
  depth = refl;
  room = omega arith;
  slots = λ i lt. let e : ltb i 32 ≡ true = ground arith in rw (e, slot) refl;
}

pop_context_to_lem_example :
    (rc' : ContextStack ℕ) × (pop_context_to 0 (pos 2) full ≡ some rc')
    × Holds 0 rc' (take (clamp_ptr (pos 2) 32) bindings)
pop_context_to_lem_example = pop_context_to_lem 0 (pos 2) full bindings full-Holds

abbrev pushed : List (ContextKv ℕ)
pushed = kv (codes "theme") 8 ∷ kv (codes "user") 5 ∷ []

frame_lem_example :
    (inside : ContextStack ℕ) × (after : ContextStack ℕ) × (push_all 0 pushed full ≡ some inside)
    × (get_context 0 (codes "theme") inside
        ≡ some (nearest 0 (codes "theme") 0 (bindings ++ pushed)))
    × (leave 0 full inside ≡ some after)
    × (context_depth 0 after ≡ context_depth 0 full)
    × (get_context 0 (codes "theme") after ≡ get_context 0 (codes "theme") full)
frame_lem_example = frame_lem 0 (codes "theme") pushed full bindings full-Holds

-- the innermost binding of a key that is bound on both sides of the capacity
shadowed :
    (elim (push_all 0 pushed full) [ none ↦ none | some rc ↦ get_context 0 (codes "theme") rc ])
    ≡ some 8
unfolding storing
shadowed = refl

-- Eight errors inline, one behind them.
abbrev many : FormErrors
many = record {
  form_err_inline = replicate 8 (record { key = codes "name"; msg = codes "required" });
  form_err_overflow = (record { key = codes "mail"; msg = codes "invalid" }) ∷ [];
  form_err_n = 9;
}

many-IsValid : IsValid many
many-IsValid = record { inline_len = refl; spilled = refl }

set_form_error_lem_example :
    HasRecorded
      (codes "mail")
      (codes "taken")
      many
      (set_form_error (codes "mail") (codes "taken") many)
set_form_error_lem_example = set_form_error_lem b'm' (codes "ail") (codes "taken") many many-IsValid

get-set_form_error_example :
    get_form_error (codes "name") (set_form_error (codes "age") (codes "too low") many) ≡ (
      if text_eq (codes "age") (codes "name")
      then codes "too low"
      else get_form_error (codes "name") many)
get-set_form_error_example =
    get-set_form_error b'n' (codes "ame") b'a' (codes "ge") (codes "too low") many many-IsValid

-- Sixteen style sheets inline, one behind them, no script.
abbrev required : Assets
required = record {
  css = record { inline = replicate 16 (codes "/a.css"); overflow = codes "/b.css" ∷ []; n = 17 };
  js = record { inline = replicate 16 []; overflow = []; n = 0 };
}

css-IsValid : AssetLaws.IsValid required.css
css-IsValid = record { inline_len = refl; spilled = refl }

js-IsValid : AssetLaws.IsValid required.js
js-IsValid = record { inline_len = refl; spilled = refl }

require_lem_example :
    AssetLaws.IsValid (require (codes "/c.css") required.css)
    × (AssetLaws.paths (require (codes "/c.css") required.css)
        ≡ AssetLaws.add_once (codes "/c.css") (AssetLaws.paths required.css))
require_lem_example = require_lem b'/' (codes "c.css") required.css css-IsValid

abbrev counters : Values ℕ
counters = (codes "n", 3) ∷ []

-- The initial value counts only for a key that is not there.
counted : use_state (codes "n") 9 counters ≡ (3, counters)
unfolding use_state get
counted = refl

write_asset_tags-clear_assets_example :
    Written.Result buffer buffer_laws
      (tags_html css_tag (first_seen (codes "/c.css" ∷ codes "/c.css" ∷ []) [])
        ++ tags_html js_tag (first_seen (codes "/x.js" ∷ []) []))
      []
      (write_asset_tags buffer
        (required_again (codes "/c.css" ∷ codes "/c.css" ∷ []) (codes "/x.js" ∷ []) required)
        [])
write_asset_tags-clear_assets_example =
    write_asset_tags-clear_assets buffer buffer_laws (codes "/c.css" ∷ codes "/c.css" ∷ [])
      (codes "/x.js" ∷ []) required [] css-IsValid js-IsValid tt
