-- ===== src/Titan/Shards.antt =====
-- The corpus of src/pww/titan/shards.py: windows of tokens in a row of files.
-- `files` is what the directory holds, by the path of a file: its tokens, already decoded. The files do
-- not change while a corpus is open, so the maps that the corpus keeps open are left out.
pub mod Reading
pub mod Windows
use project_world_wide.Prelude.{
  ℕ, zero, suc, ◌+◌, ◌-◌, ◌*◌, ◌≡◌, Bool, true, false, not, ◌&&◌, ◌||◌, String, Option, none, some,
  List, [], ◌∷◌, ◌==◌, ltb, leb, if◌then◌else◌, str_eq, length, get_elem?, take, sum_by, Result, ok,
  err, value_error, index_error, file_not_found, ◌>>=◌,
}
use project_world_wide.Prelude.Slices.{slice}

pub record ShardInfo : Type 0 where
  pub path : String
  pub windows : ℕ

pub record Manifest : Type 0 where
  pub seq_len : ℕ
  pub window : ℕ
  pub dtype : String
  pub vocab_size : ℕ
  pub tokenizer_repo : String
  pub tokenizer_sha256 : String
  pub shards : List ShardInfo
  pub format : String

-- num_windows
unfoldable pub num_windows : Manifest → ℕ
num_windows m = sum_by (λ s. s.windows) m.shards

-- total_tokens
unfoldable pub total_tokens : Manifest → ℕ
unfolding num_windows
total_tokens m = num_windows m * m.window

-- class ShardedTokenCorpus
pub record Corpus : Type 0 where
  pub manifest : Manifest
  pub offsets : List ℕ
  pub total : ℕ

-- The loop of `__init__` over the shards, from a total on: the offsets and the new total.
unfoldable pub offsets_from : ℕ → List ShardInfo → List ℕ × ℕ
offsets_from total [] = ([], total)
offsets_from total (s ∷ shards) =
    let rest = offsets_from (total + s.windows) shards in (total ∷ rest.0, rest.1)

-- __init__
unfoldable pub open_corpus : Manifest → Result Corpus
unfolding offsets_from
open_corpus m =
    if str_eq m.dtype "uint16" || str_eq m.dtype "uint32"
    then (let (offsets, total) = offsets_from 0 m.shards in
        ok (record { manifest = m; offsets = offsets; total = total }))
    else err value_error

-- bisect_right(offsets, index), the offsets being in order
unfoldable pub count_through : ℕ → List ℕ → ℕ
count_through index [] = 0
count_through index (o ∷ offsets) =
    let rest = count_through index offsets in if leb o index then suc rest else 0

module _ (files : String → Option (List ℕ)) where
  -- _map, of a shard
  unfoldable pub map_shard : ℕ → ShardInfo → Result (List ℕ)
  map_shard window s = elim (files s.path) [
    | none ↦ err file_not_found
    | some tokens ↦
        if ltb (length tokens) (s.windows * window)
        then err value_error
        else ok (take (s.windows * window) tokens)
  ]

  -- The lookups of `window_tokens`, with the index of the shard.
  unfoldable pub read_from : ℕ → List ShardInfo → List ℕ → ℕ → ℕ → Result (List ℕ)
  unfolding map_shard
  read_from window shards offsets index k = elim (get_elem? offsets k) [
    | none ↦ err index_error
    | some offset ↦ elim (get_elem? shards k) [
      | none ↦ err index_error
      | some s ↦
          map_shard window s >>= λ tokens. ok (slice ((index - offset) * window) window tokens)
    ]
  ]

  -- window_tokens
  unfoldable pub window_tokens : Corpus → ℕ → Result (List ℕ)
  unfolding count_through read_from
  window_tokens c index =
      if not (ltb index c.total)
      then err index_error
      else read_from c.manifest.window c.manifest.shards c.offsets index
          (count_through index c.offsets - 1)

-- verify_compatible; `assets` says that there is a path to the tokenizer, and the fingerprint of its
-- files is `none` if there is no tokenizer.json
unfoldable pub verify_compatible : Manifest → ℕ → Bool → Option String → Result (Unit {0})
verify_compatible m seq_len assets fingerprint =
    if not (m.seq_len == seq_len)
    then err value_error
    else if not (m.window == m.seq_len + 1)
    then err value_error
    else if not assets
    then ok tt
    else elim fingerprint [
      | none ↦ ok tt
      | some actual ↦
          if not (str_eq m.tokenizer_sha256 "") && not (str_eq actual m.tokenizer_sha256)
          then err value_error
          else ok tt
    ]
