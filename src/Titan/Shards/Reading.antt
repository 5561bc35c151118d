-- ===== src/Titan/Shards/Reading.antt =====
-- Which tokens a window of src/pww/titan/shards.py holds.
use project_world_wide.Prelude.{
  ℕ, zero, suc, ◌+◌, ◌-◌, ◌*◌, ◌≤◌, ◌<◌, ◌≡◌, refl, sym, ap, ◌∙◌, Bool, true, false, ◌&&◌, String,
  Option, none, some, List, [], ◌∷◌, ◌++◌, ltb, leb, length, length-append, take, sum_by, Result,
  ok, ◌>>=◌, arith, Bool-cases, Option-cases, inl, inr,
}
use project_world_wide.Prelude.Slices.{slice, length-take, slice-++_first, slice-++_second}
use project_world_wide.Titan.Shards.{ShardInfo, offsets_from, count_through, map_shard, read_from}

module _ (files : String → Option (List ℕ)) (window : ℕ) where
  -- The tokens of the whole corpus, one file after the other.
  unfoldable pub corpus_tokens : List ShardInfo → List ℕ
  corpus_tokens [] = []
  corpus_tokens (s ∷ shards) = elim (files s.path) [
    | none ↦ corpus_tokens shards
    | some tokens ↦ take (s.windows * window) tokens ++ corpus_tokens shards
  ]

  -- Whether every file is there, with at least the tokens that its shard claims.
  unfoldable pub are_staged : List ShardInfo → Bool
  are_staged [] = true
  are_staged (s ∷ shards) = elim (files s.path) [
    | none ↦ false
    | some tokens ↦ leb (s.windows * window) (length tokens) && are_staged shards
  ]

pub total-offsets_from :
    (total : ℕ) (shards : List ShardInfo)
    → (offsets_from total shards).1 ≡ total + sum_by (λ s. s.windows) shards
unfolding offsets_from
total-offsets_from total [] = omega arith
total-offsets_from total (s ∷ shards) = omega (arith, total-offsets_from (total + s.windows) shards)

-- No offset is counted that lies behind the window.
count_through_none :
    (index total : ℕ) (shards : List ShardInfo)
    → index < total
    → count_through index (offsets_from total shards).0 ≡ 0
unfolding count_through offsets_from
count_through_none index total [] h = refl
count_through_none index total (s ∷ shards) h = ground arith

-- The first offset is counted if it does not.
count_through_some :
    (index total : ℕ) (shards : List ShardInfo)
    → total ≤ index
    → 0 < sum_by (λ s. s.windows) shards
    → 0 < count_through index (offsets_from total shards).0
unfolding count_through offsets_from
count_through_some index total [] h k = omega arith
count_through_some index total (s ∷ shards) h k = ground arith

-- A row of windows that ends within the shard.
pub rows_fit : (i n window : ℕ) → i < n → i * window + window ≤ n * window
rows_fit i n window h = grind arith

row_moved : (i n j window : ℕ) → i ≡ n + j → i * window ≡ n * window + j * window
row_moved i n j window h = grind arith

pos_cases : (n : ℕ) → 0 < n → (k : ℕ) × (n ≡ suc k)
pos_cases zero h = ground arith
pos_cases (suc k) h = (k, refl)

module _ (files : String → Option (List ℕ)) (window : ℕ) where
  -- The tokens that a shard adds.
  corpus_tokens_of_shard :
      (s : ShardInfo) (shards : List ShardInfo) (tokens : List ℕ)
      → files s.path ≡ some tokens
      → corpus_tokens files window (s ∷ shards)
        ≡ take (s.windows * window) tokens ++ corpus_tokens files window shards
  unfolding corpus_tokens
  corpus_tokens_of_shard s shards tokens there = rw (there, corpus_tokens) refl

  map_shard_lem :
      (s : ShardInfo) (tokens : List ℕ)
      → files s.path ≡ some tokens
      → s.windows * window ≤ length tokens
      → map_shard files window s ≡ ok (take (s.windows * window) tokens)
  unfolding map_shard
  map_shard_lem s tokens there enough =
      let short : ltb (length tokens) (s.windows * window) ≡ false = ground arith in
      rw (there, map_shard, short) refl

  -- What is staged with a first shard.
  staged :
      (s : ShardInfo) (shards : List ShardInfo)
      → are_staged files window (s ∷ shards) ≡ true
      → (tokens : List ℕ) × (files s.path ≡ some tokens)
        × (s.windows * window ≤ length tokens)
        × (are_staged files window shards ≡ true)
  unfolding are_staged
  staged s shards h = elim (Option-cases (files s.path)) [
    | inl missing ↦ ground (arith, missing)
    | inr (tokens, there) ↦ (tokens, there, ground (arith, there), ground (arith, there))
  ]

  pub length-corpus_tokens :
      (shards : List ShardInfo)
      → are_staged files window shards ≡ true
      → length (corpus_tokens files window shards) ≡ sum_by (λ s. s.windows) shards * window
  unfolding corpus_tokens
  length-corpus_tokens [] h = omega arith
  length-corpus_tokens (s ∷ shards) h =
      let (tokens, there, enough, rest_staged) = staged s shards h in
      let rest = length-corpus_tokens shards rest_staged in
      let part = length-take (s.windows * window) tokens enough in
      let joined =
        length-append (take (s.windows * window) tokens) (corpus_tokens files window shards) in
      ap length (corpus_tokens_of_shard s shards tokens there) ∙ joined ∙ grind (arith, part, rest)

  -- What `window_tokens` reads, for offsets that begin with a total.
  abbrev read_at : List ShardInfo → ℕ → ℕ → Result (List ℕ)
  read_at shards total index =
      let offsets = (offsets_from total shards).0 in
      read_from files window shards offsets index (count_through index offsets - 1)

  -- A window of the first shard.
  read_at_first :
      (s : ShardInfo) (shards : List ShardInfo) (total index : ℕ)
      → are_staged files window (s ∷ shards) ≡ true
      → total ≤ index
      → index < total + s.windows
      → read_at (s ∷ shards) total index
        ≡ ok (slice ((index - total) * window) window (corpus_tokens files window (s ∷ shards)))
  unfolding read_from offsets_from count_through
  read_at_first s shards total index h after before =
      let (tokens, there, enough, rest_staged) = staged s shards h in
      let offsets = (offsets_from (total + s.windows) shards).0 in
      let reached : leb total index ≡ true = ground arith in
      let none_more = count_through_none index (total + s.windows) shards before in
      let part = length-take (s.windows * window) tokens enough in
      let inside : (index - total) * window + window ≤ s.windows * window =
        rows_fit (index - total) s.windows window (omega arith) in
      let only : count_through index (total ∷ offsets) - 1 ≡ 0 =
        ground (arith, reached, none_more) in
      let first =
        slice-++_first ((index - total) * window) window (take (s.windows * window) tokens)
          (corpus_tokens files window shards) (omega (arith, inside, part)) in
      ap (read_from files window (s ∷ shards) (total ∷ offsets) index) only
      ∙ ap (λ m. m >>= λ ts. ok (slice ((index - total) * window) window ts))
          (map_shard_lem s tokens there enough)
      ∙ ap ok (sym first)
      ∙ ap (λ ts. ok (slice ((index - total) * window) window ts))
          (sym (corpus_tokens_of_shard s shards tokens there))

  -- A window behind the first shard is read from the others.
  read_at_later :
      (s : ShardInfo) (shards : List ShardInfo) (total index : ℕ)
      → total + s.windows ≤ index
      → 0 < sum_by (λ t. t.windows) shards
      → read_at (s ∷ shards) total index ≡ read_at shards (total + s.windows) index
  unfolding read_from offsets_from count_through
  read_at_later s shards total index behind some_more =
      let offsets = (offsets_from (total + s.windows) shards).0 in
      let reached : leb total index ≡ true = ground arith in
      let more = count_through_some index (total + s.windows) shards behind some_more in
      let (k, e) = pos_cases (count_through index offsets) more in
      let here : count_through index (total ∷ offsets) - 1 ≡ suc k = ground (arith, reached, e) in
      let next : k ≡ count_through index offsets - 1 = omega (arith, e) in
      ap (read_from files window (s ∷ shards) (total ∷ offsets) index) here
      ∙ ap (read_from files window shards offsets index) next

  pub read_at_lem :
      (shards : List ShardInfo) (total index : ℕ)
      → are_staged files window shards ≡ true
      → total ≤ index
      → index < total + sum_by (λ s. s.windows) shards
      → read_at shards total index
        ≡ ok (slice ((index - total) * window) window (corpus_tokens files window shards))
  read_at_lem [] total index h after before = ground arith
  read_at_lem (s ∷ shards) total index h after before =
      elim (Bool-cases (ltb index (total + s.windows))) [
        | inl inside ↦ read_at_first s shards total index h after (ground arith)
        | inr beyond ↦
            let behind : total + s.windows ≤ index = ground arith in
            let (tokens, there, enough, rest_staged) = staged s shards h in
            let part = length-take (s.windows * window) tokens enough in
            let rest =
              read_at_lem shards (total + s.windows) index rest_staged behind (omega arith) in
            let moved : (index - total) * window
                ≡ length (take (s.windows * window) tokens)
                  + (index - (total + s.windows)) * window =
              row_moved (index - total) s.windows (index - (total + s.windows)) window (omega arith)
              ∙ ap (λ n. n + (index - (total + s.windows)) * window) (sym part) in
            let second =
              slice-++_second ((index - (total + s.windows)) * window) ((index - total) * window)
                window (take (s.windows * window) tokens) (corpus_tokens files window shards)
                moved in
            read_at_later s shards total index behind (omega arith)
            ∙ rest
            ∙ ap ok (sym second)
            ∙ ap (λ ts. ok (slice ((index - total) * window) window ts))
                (sym (corpus_tokens_of_shard s shards tokens there))
      ]
