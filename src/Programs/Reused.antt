-- ===== src/Programs/Reused.antt =====
-- A program is compiled once.
use nanite_render.Prelude.{◌+◌, ◌≡◌, ◌≢◌, refl, ◌⊎◌, inr, Option, none, some, Bytes}
use nanite_render.Cache.{Cache, fnv_pair, get}
use nanite_render.Cache.Laws.{IsValid}
use nanite_render.Cache.Stored.{IsReachable}
use nanite_render.Cache.Answers.{get-put}
use nanite_render.Programs.{Engine, compiled, put_compiled, after_get, load_part}

module _ {P : Type 0} where
  -- the table of a miss
  abbrev pub miss : Cache P → Cache P
  miss c = record c { misses = c.misses + 1 }

  miss-IsValid : (c : Cache P) → IsValid c → IsValid (miss c)
  miss-IsValid c v = record {
    pow = v.pow;
    mask_eq = v.mask_eq;
    small = v.small;
    slots_len = v.slots_len;
    programs_len = v.programs_len;
    unlocked = v.unlocked;
  }

module _ {E P : Type 0} where
  -- On a valid table as for Put, in which Get of a name misses, loadPart of a name whose hash is
  -- not 0 and whose source compiles ends and returns the program; loadPart of the name from the
  -- table that it leaves returns the same program, whatever the loader and the compiler would do
  -- then, and counts a hit.
  pub load_part-again :
      (eng later : Engine E P) (engine name : Bytes) (loader loader' : Option (Bytes → E ⊎ Bytes))
      (c : Cache P) (p : P)
      → IsValid c
      → IsReachable c
      → fnv_pair engine name ≢ 0
      → get engine name c ≡ some (none, miss c)
      → compiled eng loader name ≡ inr p
      → (c' : Cache P) × (load_part (some eng) engine name loader c ≡ some (inr p, c'))
        × IsValid c'
        × (load_part (some later) engine name loader' c'
            ≡ some (inr p, record c' { hits = c'.hits + 1 }))
  unfolding load_part after_get put_compiled
  load_part-again eng later engine name loader loader' c p v r nz g e =
      let (c', stored, v', r', found) = get-put p (miss c) (miss-IsValid c v) engine name r nz in
      (c', rw (g, e, stored) refl, v', rw found refl)
