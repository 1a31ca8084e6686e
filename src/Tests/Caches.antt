-- ===== src/Tests/Caches.antt =====
-- cache.go on a small table.
use nanite_render.Prelude.{
  ℕ, ◌+◌, ◌≡◌, ◌≢◌, refl, ◌>>=◌, Option, none, some, set, replicate, codes, arith, length, false,
  Bytes, inl, inr, ◌⊎◌, [], ◌∷◌,
}
use nanite_render.Programs.{Engine, or_error, source, compile_source, compiled, load_part}
use nanite_render.Programs.Reused.{miss, load_part-again}
use nanite_render.Cache.{
  Cache, empty_slot, position, written, fnv1a64, fnv_pair, next_power_of_two, new_cache, probe,
  get_verdict, put_verdict, delete_verdict, tag_verdict, loaded, get_hash, get, put_hash, put,
  delete_hash, delete, tag_mask, set_tag, invalidate_from, invalidate_tag,
}
use nanite_render.Cache.Laws.{IsValid}
use nanite_render.Cache.Stored.{IsReachable, answer}
use nanite_render.Cache.Answers.{get-put, get-put_ne}
use nanite_render.Cache.Remove.{get-delete, new_cache-IsValid, new_cache-IsReachable}

abbrev table : Cache ℕ
table = new_cache 5

rounded_up : next_power_of_two 65 ≡ 128
unfolding next_power_of_two
rounded_up = refl

fnv_of_a : fnv1a64 (codes "a") ≡ 12638187200555641996
unfolding fnv1a64
fnv_of_a = refl

abbrev home : ℕ
home = fnv_pair (codes "html") (codes "home")

table-IsValid : IsValid table
unfolding next_power_of_two
table-IsValid = new_cache-IsValid 5 6 refl (omega arith)

table-IsReachable : IsReachable table
table-IsReachable = new_cache-IsReachable ℕ 5

home-ne-zero : home ≢ 0
unfolding fnv_pair
home-ne-zero = λ e. absurd (omega arith)

user-ne-zero : fnv_pair (codes "html") (codes "user") ≢ 0
unfolding fnv_pair
user-ne-zero = λ e. absurd (omega arith)

home-ne-user : home ≢ fnv_pair (codes "html") (codes "user")
unfolding fnv_pair
home-ne-user = λ e. absurd (omega arith)

-- the table with one entry
abbrev filled : Cache ℕ
filled = record {
  slots = set (replicate 64 empty_slot) (position 63 home 0) (written home 0 empty_slot);
  programs = set (replicate 64 none) (position 63 home 0) (some 7);
  mask = 63;
  capacity = 64;
  hits = 0;
  misses = 0;
  evicts = 0;
}

put_home : put (codes "html") (codes "home") 7 table ≡ some filled
unfolding put put_hash probe put_verdict new_cache next_power_of_two fnv_pair
put_home = refl

get-put_example :
    (c' : Cache ℕ) × (put (codes "html") (codes "home") 7 table ≡ some c')
    × IsValid c'
    × IsReachable c'
    × (get (codes "html") (codes "home") c' ≡ some (some 7, record c' { hits = c'.hits + 1 }))
get-put_example =
    get-put 7 table table-IsValid (codes "html") (codes "home") table-IsReachable home-ne-zero

get-put_ne_example :
    answer (get (codes "html") (codes "user") filled)
    ≡ answer (get (codes "html") (codes "user") table)
unfolding new_cache
get-put_ne_example =
    get-put_ne 7 table table-IsValid (codes "html") (codes "home") (codes "html") (codes "user")
      filled table-IsReachable home-ne-zero user-ne-zero home-ne-user put_home refl

get-delete_example :
    (c' : Cache ℕ) × (delete (codes "html") (codes "home") table ≡ some c')
    × IsValid c'
    × (get (codes "html") (codes "home") c' ≡ some (none, record c' { misses = c'.misses + 1 }))
get-delete_example = get-delete (codes "html") (codes "home") table table-IsValid home-ne-zero

-- One entry of a tag is dropped.
abbrev with_answer : ℕ → Option ℕ × Cache ℕ → Option (ℕ × Option ℕ)
with_answer n (o, c) = some (n, o)

abbrev home_after : ℕ × Cache ℕ → Option (ℕ × Option ℕ)
home_after (n, c) = get (codes "html") (codes "home") c >>= with_answer n

tagged_dropped :
    (put (codes "html") (codes "home") 7 table
      >>= set_tag (codes "html") (codes "home") (codes "a" ∷ codes "b" ∷ [])
      >>= invalidate_tag (codes "b")
      >>= home_after)
    ≡ some (1, none)
unfolding put put_hash probe put_verdict new_cache next_power_of_two fnv_pair set_tag tag_verdict
    tag_mask fnv1a64 invalidate_tag invalidate_from get get_hash get_verdict loaded
tagged_dropped = refl

-- Two names whose probe sequences start at one slot: where the first is deleted, the second is not
-- found any more.
lost_behind_deleted :
    answer (
      put (codes "html") (codes "user") 7 table
      >>= put (codes "html") (codes "nav") 8
      >>= delete (codes "html") (codes "user")
      >>= get (codes "html") (codes "nav"))
    ≡ some none
unfolding put put_hash probe put_verdict new_cache next_power_of_two fnv_pair delete delete_hash
    delete_verdict get get_hash get_verdict loaded
lost_behind_deleted = refl

-- an engine that counts the bytes of a template, and one that fails
abbrev counting : Engine ℕ ℕ
counting = record { sourceless = false; compile = λ src name. inr (length src) }

abbrev failing : Engine ℕ ℕ
failing = record { sourceless = false; compile = λ src name. inl 500 }

abbrev files : Option (Bytes → ℕ ⊎ Bytes)
files = some (λ name. inr (codes "<p>"))

missing_home : get (codes "html") (codes "home") table ≡ some (none, miss table)
unfolding get get_hash probe get_verdict new_cache next_power_of_two fnv_pair loaded
missing_home = refl

compiled_home : compiled counting files (codes "home") ≡ inr 3
unfolding compiled compile_source source or_error
compiled_home = refl

load_part-again_example :
    (c' : Cache ℕ) × (load_part (some counting) (codes "html") (codes "home") files table
      ≡ some (inr 3, c'))
    × IsValid c'
    × (load_part (some failing) (codes "html") (codes "home") none c'
        ≡ some (inr 3, record c' { hits = c'.hits + 1 }))
load_part-again_example =
    load_part-again counting failing (codes "html") (codes "home") files none table 3 table-IsValid
      table-IsReachable home-ne-zero missing_home compiled_home
