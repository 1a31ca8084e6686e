-- ===== src/Components/Memo.antt =====
-- memoComponent: what a second render of a key gives.
use nanite_render.Prelude.{◌≡◌, ◌≢◌, refl, sym, ap, ◌∙◌, Option, none, some, [], ◌∷◌, Bytes}
use nanite_render.State.{get}
use nanite_render.State.Laws.{get-put_value}
use nanite_render.RenderContext.{made}
use nanite_render.Components.{
  MemoTable, key_in, memo_html, memo_store, Output, store_output, stored, from_memo, cached,
  render_or_cache,
}

some_ne_none : {A : Type 0} {x : A} → some x ≢ none
some_ne_none e = cc

memo_html-memo_store :
    (name key html : Bytes) (memo : MemoTable)
    → memo_html name key (memo_store name key html memo) ≡ some html
unfolding memo_html memo_store key_in
memo_html-memo_store name key html memo =
    ap (key_in key) (get-put_value name _ memo) ∙ get-put_value key html (made (get name memo))

module _ {E : Type 0} where
  store_lem :
      (err : Option E) (name key : Bytes) (o : Output E)
      → o.err ≡ err
      → (store_output err name key o).err ≡ none
      → memo_html name key (store_output err name key o).memo
        ≡ some (store_output err name key o).html
  unfolding store_output
  store_lem none name key o f e = memo_html-memo_store name key o.html o.memo
  store_lem (some x) name key o f e = absurd (some_ne_none (sym f ∙ e))

  found_again :
      (name : Bytes) (c : _) (key : Bytes) (memo : MemoTable) (rendered : Output E)
      (m : Option Bytes)
      → cached name (c ∷ key) memo ≡ m
      → (from_memo m memo (stored name (c ∷ key) rendered)).err ≡ none
      → cached name (c ∷ key) (from_memo m memo (stored name (c ∷ key) rendered)).memo
        ≡ some (from_memo m memo (stored name (c ∷ key) rendered)).html
  unfolding from_memo cached stored
  found_again name c key memo rendered (some html) f e = f
  found_again name c key memo rendered none f e =
      store_lem rendered.err name (c ∷ key) rendered refl e

  -- When a render of a memoized component with a non-empty key has no error, the next render with
  -- the same key, whatever the inner component would do then, writes the same HTML without an
  -- error, and leaves the memo as it is.
  pub render_or_cache-again :
      (name key : Bytes) (inner later : MemoTable → Output E) (memo : MemoTable)
      → key ≢ []
      → (render_or_cache name key inner memo).err ≡ none
      → render_or_cache name key later (render_or_cache name key inner memo).memo ≡ record {
        html = (render_or_cache name key inner memo).html;
        err = none;
        memo = (render_or_cache name key inner memo).memo;
      }
  unfolding render_or_cache from_memo
  render_or_cache-again name [] inner later memo d e = absurd (d refl)
  render_or_cache-again name (c ∷ key) inner later memo d e =
      rw (found_again name c key memo (inner memo) _ refl e) refl
