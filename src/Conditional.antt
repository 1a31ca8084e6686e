-- ===== src/Conditional.antt =====
-- conditional.go: entity tags and `If-None-Match`. `digest` is the first 32 hexadecimal digits of
-- SHA-256. Go ranges over the runes of a header and appends each again; on valid UTF-8 that is byte
-- by byte.
pub mod Tags
pub mod Fingerprint
pub mod Check
use nanite_render.Prelude.{
  ℕ, ◌/◌, ◌%◌, ◌^◌, Bool, true, false, ◌||◌, Option, none, some, ◌>>=◌, List, [], ◌∷◌, ◌++◌, ltb,
  ◌==◌, if◌then◌else◌, length, take, drop, Bytes, codes, text_eq,
}
use nanite_render.NodeStream.{NodeStream, Value, stringify, text}

pub record Program : Type 0 where
  pub engine : Bytes
  pub name : Bytes
  pub nodes : NodeStream
  pub etag : Bytes

-- `if cur != "" { out = append(out, cur) }`
unfoldable pub close_tag : Bytes → List Bytes → List Bytes
close_tag [] out = out
close_tag (c ∷ cur) out = out ++ (c ∷ cur) ∷ []

-- the loop of `splitTags` with its variables `cur` and `out`
unfoldable pub split_from : Bytes → List Bytes → Bytes → List Bytes
split_from cur out [] = close_tag cur out
split_from cur out (c ∷ h) = elim (c == b',') [
  | true ↦ split_from [] (close_tag cur out) h
  | false ↦ split_from (cur ++ c ∷ []) out h
]

unfoldable pub split_tags : Bytes → List Bytes
split_tags h = split_from [] [] h

-- without `W/` in front
unfoldable pub strip_weak : Bytes → Bytes
strip_weak tag =
    if ltb 2 (length tag)
    then (if text_eq (take 2 tag) (codes "W/") then drop 2 tag else tag)
    else tag

-- the loop over the candidates
unfoldable pub any_matches : Bytes → List Bytes → Bool
any_matches etag [] = false
any_matches etag (candidate ∷ rest) =
    (text_eq (strip_weak candidate) (codes "*") || text_eq (strip_weak candidate) etag)
    || any_matches etag rest

unfoldable pub etag_matches : Bytes → Bytes → Bool
etag_matches header etag = any_matches (strip_weak etag) (split_tags header)

-- each text, followed by a zero byte
unfoldable pub terminated : List Bytes → Bytes
terminated [] = []
terminated (s ∷ rest) = s ++ (0 ∷ terminated rest)

-- the low byte of each flag
unfoldable pub low_bytes : List ℕ → Bytes
low_bytes [] = []
low_bytes (f ∷ rest) = f % 2 ^ 8 ∷ low_bytes rest

unfoldable pub two_bytes : List ℕ → Bytes
two_bytes [] = []
two_bytes (n ∷ rest) = n % 2 ^ 8 ∷ n / 2 ^ 8 % 2 ^ 8 ∷ two_bytes rest

unfoldable pub four_bytes : List ℕ → Bytes
four_bytes [] = []
four_bytes (c ∷ rest) =
    c % 2 ^ 8 ∷ c / 2 ^ 8 % 2 ^ 8 ∷ c / 2 ^ 16 % 2 ^ 8 ∷ c / 2 ^ 24 % 2 ^ 8 ∷ four_bytes rest

-- each value as text, followed by a zero byte
unfoldable pub terminated_values : List Value → Bytes
terminated_values [] = []
terminated_values (v ∷ rest) = stringify v ++ (0 ∷ terminated_values rest)

-- what `HashContent` writes to the hash; `none` is an index panic
unfoldable pub fingerprint : Program → Option Bytes
fingerprint p = do
  txt ← text p.nodes 0
  some (
      p.engine
      ++ (0 ∷ p.name)
      ++ (0 ∷ terminated p.nodes.tag)
      ++ low_bytes p.nodes.flags
      ++ two_bytes p.nodes.ns
      ++ four_bytes p.nodes.child_start
      ++ four_bytes p.nodes.child_end
      ++ terminated p.nodes.attr_keys
      ++ terminated_values p.nodes.attr_vals
      ++ txt)

-- the outcome of `CheckConditional`: the answer, the program with its tag, the headers written, and those
-- set on the request
pub record Checked : Type 0 where
  pub hit : Bool
  pub program : Program
  pub headers : List (Bytes × Bytes)
  pub request_headers : List (Bytes × Bytes)

module _ (digest : Bytes → Bytes) where
  unfoldable pub hash_content : Program → Option Bytes
  hash_content p = fingerprint p >>= λ s. some (codes "\"" ++ (digest s ++ codes "\""))

  -- the program with its tag, which is computed once
  unfoldable pub with_etag : Program → Option Program
  with_etag p = elim p.etag [
    | _ ∷ _ ↦ some p
    | [] ↦ hash_content p >>= λ etag. some (record p { etag = etag })
  ]

  abbrev pub answer : Bytes → Program → Checked
  answer inm p =
      if etag_matches inm p.etag
      then record {
        hit = true;
        program = p;
        headers =
            (codes "ETag", p.etag)
            ∷ (codes "Cache-Control", codes "private, max-age=7776000")
            ∷ (codes "Status", codes "304 Not Modified")
            ∷ [];
        request_headers = (codes "X-Render-Conditional", codes "hit") ∷ [];
      }
      else record { hit = false; program = p; headers = []; request_headers = [] }

  -- `inm` is the request's `If-None-Match`, empty when it has none.
  unfoldable pub check_conditional : Bytes → Program → Option Checked
  check_conditional [] p =
      some (record { hit = false; program = p; headers = []; request_headers = [] })
  check_conditional (c ∷ inm) p = with_etag p >>= λ p'. some (answer (c ∷ inm) p')
