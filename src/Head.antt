-- ===== src/Head.antt =====
-- head.go: the title, the meta tags and the id sequence of one request, and what `<NANO_HEAD/>` writes.
-- strconv.Itoa is written out.
pub mod Ids
use nanite_render.Prelude.{
  ℕ, zero, suc, ◌+◌, ◌-◌, ◌/◌, ◌%◌, Bool, true, false, Option, none, some, List, [], ◌∷◌, ◌++◌, ltb,
  leb, if◌then◌else◌, length, get_or, set, take, Bytes, codes, text_eq,
}
use nanite_render.Writer.{Io, ok, ◌>>=◌, ByteWriter}
use nanite_render.Escape.{escape_string}
use nanite_render.Assets.{Assets, clear_assets}

abbrev pub meta_inline_cap : ℕ
meta_inline_cap = 16

pub record MetaKv : Type 0 where
  pub name : Bytes
  pub content : Bytes

-- The head fields of `RenderContext`, with its assets.
pub record Head : Type 0 where
  pub title : Bytes
  pub meta_tags : List MetaKv
  pub meta_overflow : List MetaKv
  pub meta_n : ℕ
  pub id_seq : ℕ
  pub assets : Assets

-- `inlineN`
abbrev pub inline_n : ℕ → ℕ
inline_n n = if ltb meta_inline_cap n then meta_inline_cap else n

unfoldable pub set_title : Bytes → Head → Head
set_title title rc = record rc { title = title }

-- The loop over the first `n` slots that overwrites the content of a name; `none`: no slot has it.
unfoldable pub overwrite : ℕ → Bytes → Bytes → List MetaKv → Option (List MetaKv)
overwrite zero name content xs = none
overwrite (suc n) name content [] = none
overwrite (suc n) name content (x ∷ xs) =
    let rest : Option (List MetaKv) = elim (overwrite n name content xs) [
      | none ↦ none
      | some ys ↦ some (x ∷ ys)
    ] in
    if text_eq x.name name then some (record x { content = content } ∷ xs) else rest

-- a new tag behind all others
unfoldable pub append_meta : MetaKv → Head → Head
append_meta kv rc =
    if ltb rc.meta_n meta_inline_cap
    then record rc { meta_tags = set rc.meta_tags rc.meta_n kv; meta_n = rc.meta_n + 1 }
    else record rc { meta_overflow = rc.meta_overflow ++ kv ∷ []; meta_n = rc.meta_n + 1 }

-- the tag in a slot that has its name, inline or behind, or else at the end
unfoldable pub placed : Option (List MetaKv) → Option (List MetaKv) → MetaKv → Head → Head
placed (some xs) _ kv rc = record rc { meta_tags = xs }
placed none (some ys) kv rc = record rc { meta_overflow = ys }
placed none none kv rc = append_meta kv rc

unfoldable pub add_meta : Bytes → Bytes → Head → Head
add_meta [] content rc = rc
add_meta (c ∷ name) content rc =
    placed (overwrite (inline_n rc.meta_n) (c ∷ name) content rc.meta_tags)
      (overwrite (length rc.meta_overflow) (c ∷ name) content rc.meta_overflow)
      (record { name = c ∷ name; content = content }) rc

-- the first `n` slots zeroed
unfoldable pub zero_slots : ℕ → List MetaKv → List MetaKv
zero_slots zero xs = xs
zero_slots (suc n) [] = []
zero_slots (suc n) (x ∷ xs) = (record { name = []; content = [] }) ∷ zero_slots n xs

unfoldable pub clear_head_state : Head → Head
clear_head_state rc = record {
  title = [];
  meta_tags = zero_slots (inline_n rc.meta_n) rc.meta_tags;
  meta_overflow = [];
  meta_n = 0;
  id_seq = 0;
  assets = clear_assets rc.assets;
}

-- strconv.Itoa of a natural number; a number has fewer digits than itself, and one more
unfoldable pub decimal : ℕ → ℕ → Bytes
decimal zero n = []
decimal (suc fuel) n =
    let rest = decimal fuel (n / 10) in (if ltb n 10 then [] else rest) ++ (b'0' + n % 10) ∷ []

abbrev pub nano_id : ℕ → Bytes
nano_id n = codes "nano-" ++ decimal (suc n) n

-- the loop of `init`, from id `i + 1`
unfoldable pub ids_from : ℕ → ℕ → List Bytes
ids_from zero i = []
ids_from (suc n) i = nano_id (i + 1) ∷ ids_from n (i + 1)

unfoldable pub precomputed_ids : List Bytes
precomputed_ids = ids_from 256 0

-- the id, and the state after the call
unfoldable pub use_id : Head → Bytes × Head
use_id rc =
    let n = rc.id_seq + 1 in
    (
      if leb n (length precomputed_ids) then get_or precomputed_ids (n - 1) [] else nano_id n,
      record rc { id_seq = n },
    )

abbrev pub meta_tag : MetaKv → Bytes
meta_tag kv =
    codes "<meta name=\""
    ++ (escape_string kv.name
        ++ (codes "\" content=\"" ++ (escape_string kv.content ++ codes "\">")))

module _ {W : Type 0} (bw : ByteWriter W) where
  unfoldable pub write_metas : List MetaKv → W → Io W
  write_metas [] w = ok w
  write_metas (x ∷ xs) w = bw.write_string (meta_tag x) w >>= write_metas xs

  unfoldable pub write_title : Bytes → W → Io W
  write_title [] w = ok w
  write_title (c ∷ title) w =
      bw.write_string (codes "<title>" ++ (escape_string (c ∷ title) ++ codes "</title>")) w

  unfoldable pub write_head_tags : Head → W → Io W
  write_head_tags rc w =
      write_title rc.title w
      >>= write_metas (take (inline_n rc.meta_n) rc.meta_tags)
      >>= write_metas rc.meta_overflow
