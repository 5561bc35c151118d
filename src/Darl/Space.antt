-- ===== src/Darl/Space.antt =====
-- class BlockSpace and `blocks_for_phase` (src/pww/darl/space.py): positions, blocks and samples.
-- The seeded Fisher-Yates shuffle of Python's `random` is a parameter, `shuffled epoch position`.
pub mod Ranges
use project_world_wide.Prelude.{
  ℕ, zero, suc, ◌+◌, ◌-◌, ◌*◌, ◌/◌, ◌≡◌, Bool, true, false, List, [], ◌∷◌, ◌++◌, ltb, leb, ◌==◌,
  if◌then◌else◌, min, max, Result, ok, err, ◌>>=◌, value_error, index_error,
}
use project_world_wide.Darl.Interval.{Span, span, size}

pub record BlockSpace : Type 0 where
  pub num_samples : ℕ
  pub block_size : ℕ
  pub seed : ℕ
  pub shuffle : Bool

-- `-(-n // d)`: the quotient, rounded up
unfoldable pub ceil_div : ℕ → ℕ → ℕ
ceil_div n d = (n + (d - 1)) / d

-- BlockSpace(...), with the checks of __post_init__
unfoldable pub new_space : ℕ → ℕ → ℕ → Bool → Result BlockSpace
new_space num_samples block_size seed shuffle =
    if ltb num_samples 1
    then err value_error
    else if ltb block_size 1
    then err value_error
    else ok (record {
      num_samples = num_samples;
      block_size = block_size;
      seed = seed;
      shuffle = shuffle;
    })

-- num_blocks
unfoldable pub num_blocks : BlockSpace → ℕ
unfolding ceil_div
num_blocks s = ceil_div s.num_samples s.block_size

-- The samples of a block, `range(start, min(start + block_size, num_samples))`.
unfoldable pub samples_of : BlockSpace → ℕ → Span
samples_of s block =
    let start = block * s.block_size in span start (min (start + s.block_size) s.num_samples)

-- list(range(lo, hi))
unfoldable pub range : ℕ → ℕ → List ℕ
range zero from = []
range (suc n) from = from ∷ range n (from + 1)

-- sum(len(r) for r in ranges)
unfoldable pub total_size : List Span → ℕ
total_size [] = 0
total_size (r ∷ rs) = size r + total_size rs

-- `for r in ...: out.extend(r)`
unfoldable pub extend_all : List Span → List ℕ
unfolding range
extend_all [] = []
extend_all (r ∷ rs) = range (size r) r.lo ++ extend_all rs

module _ (shuffled : BlockSpace → ℕ → ℕ → ℕ) where
  -- physical_block
  unfoldable pub physical_block : BlockSpace → ℕ → ℕ → Result ℕ
  unfolding num_blocks
  physical_block s position epoch =
      if leb (num_blocks s) position
      then err index_error
      else ok (if s.shuffle then shuffled s epoch position else position)

  -- block_samples
  unfoldable pub block_samples : BlockSpace → ℕ → ℕ → Result Span
  unfolding physical_block samples_of
  block_samples s position epoch =
      physical_block s position epoch >>= λ block. ok (samples_of s block)

  -- the comprehension of `span_sample_ranges`, over `n` positions from `p` on
  unfoldable pub sample_ranges : BlockSpace → ℕ → ℕ → ℕ → Result (List Span)
  unfolding block_samples
  sample_ranges s epoch zero p = ok []
  sample_ranges s epoch (suc n) p =
      block_samples s p epoch >>= λ r. sample_ranges s epoch n (p + 1) >>= λ rest. ok (r ∷ rest)

  -- span_sample_ranges
  unfoldable pub span_sample_ranges : BlockSpace → ℕ → ℕ → ℕ → Result (List Span)
  unfolding sample_ranges
  span_sample_ranges s start end epoch =
      if ltb end start then err value_error else sample_ranges s epoch (end - start) start

  -- span_sample_count
  unfoldable pub span_sample_count : BlockSpace → ℕ → ℕ → ℕ → Result ℕ
  unfolding span_sample_ranges total_size
  span_sample_count s start end epoch =
      span_sample_ranges s start end epoch >>= λ rs. ok (total_size rs)

  -- span_indices
  unfoldable pub span_indices : BlockSpace → ℕ → ℕ → ℕ → Result (List ℕ)
  unfolding span_sample_ranges extend_all
  span_indices s start end epoch = span_sample_ranges s start end epoch >>= λ rs. ok (extend_all rs)

-- blocks_for_phase
unfoldable pub blocks_for_phase : BlockSpace → ℕ → ℕ → ℕ → ℕ → Result ℕ
unfolding ceil_div
blocks_for_phase s inner_steps batch_size ranks grad_accum =
    if ltb (min (min inner_steps batch_size) (min ranks grad_accum)) 1
    then err value_error
    else ok (max 1 (ceil_div (inner_steps * batch_size * ranks * grad_accum) s.block_size))
