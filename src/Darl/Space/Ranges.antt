-- ===== src/Darl/Space/Ranges.antt =====
-- How the blocks of src/pww/darl/space.py lie over the samples.
use project_world_wide.Prelude.{
  ℕ, ◌+◌, ◌*◌, ◌/◌, ◌≤◌, ◌<◌, ◌≡◌, refl, ltb, min, max, ◌⊎◌, arith, Outcome, Bool-cases, inl, inr,
  lt_cases, value_error,
}
use native.Mathlib.Nat.{lt-div-mul-add, div-lt_iff_lt-mul, le_trans, mul-le-mul_right}
use project_world_wide.Darl.Space.{BlockSpace, ceil_div, num_blocks, samples_of, blocks_for_phase}

-- The quotient rounded up is the least number of blocks of size `d` that hold `n`.
pub ceil_div_covers : (n d : ℕ) → 0 < d → (n ≤ ceil_div n d * d) × (ceil_div n d * d < n + d)
unfolding ceil_div
ceil_div_covers n d h = (omega arith, omega arith)

-- At least one block, and no more than it takes.
phase_blocks :
    (n d : ℕ)
    → 0 < d
    → (n ≤ max 1 (ceil_div n d) * d)
      × ((max 1 (ceil_div n d) ≡ 1) ⊎ (max 1 (ceil_div n d) * d < n + d))
phase_blocks n d h = elim (lt_cases 1 (ceil_div n d)) [
  | inl several ↦
      let e : max 1 (ceil_div n d) ≡ ceil_div n d = omega arith in
      rw e (let covers = ceil_div_covers n d h in (covers.0, inr covers.1))
  | inr one ↦
      let e : max 1 (ceil_div n d) ≡ 1 = omega arith in
      rw e (le_trans (ceil_div_covers n d h).0 (mul-le-mul_right d one), inl refl)
]

below_quotient : (d q b x : ℕ) → b < q → q * d ≤ x → b * d + d ≤ x
below_quotient d q b x h k = grind arith

-- Every sample lies in the block that its number divided by the block size gives, that block is one
-- of the space's, and it lies in no other block.
pub samples_of_partition :
    (s : BlockSpace) (x block : ℕ)
    → 0 < s.block_size
    → x < s.num_samples
    → (x / s.block_size < num_blocks s)
      × ((samples_of s (x / s.block_size)).lo ≤ x)
      × (x < (samples_of s (x / s.block_size)).hi)
      × ((block ≡ x / s.block_size) ⊎ (x < (samples_of s block).lo) ⊎ ((samples_of s block).hi ≤ x))
unfolding samples_of num_blocks ceil_div
samples_of_partition s x block h k =
    let d = s.block_size in
    let q = x / d in
    let room = lt-div-mul-add {a = x} h in
    (
      (div-lt_iff_lt-mul h).1 (omega (arith, ceil_div_covers s.num_samples d h)),
      omega arith,
      omega arith,
      elim (lt_cases block q) [
        | inl before ↦
            let apart = below_quotient d q block x before (omega arith) in
            inr (inr (omega (arith, apart)))
        | inr from ↦ elim (lt_cases q block) [
          | inl after ↦
              let apart = below_quotient d block q (block * d) after (omega arith) in
              inr (inl (omega (arith, apart, room)))
          | inr upto ↦ inl (omega arith)
        ]
      ],
    )

-- For positive arguments the blocks of a phase hold at least its samples, with less than one block to
-- spare or just one block in all; for any argument of zero the request is refused.
pub blocks_for_phase_lem :
    (s : BlockSpace) (inner_steps batch_size ranks grad_accum : ℕ)
    → 0 < s.block_size
    → Outcome
        (blocks_for_phase s inner_steps batch_size ranks grad_accum)
        (λ blocks.
          (inner_steps * batch_size * ranks * grad_accum ≤ blocks * s.block_size)
          × ((blocks ≡ 1)
              ⊎ (blocks * s.block_size
                  < inner_steps * batch_size * ranks * grad_accum + s.block_size)))
        (λ e. (e ≡ value_error) × (min (min inner_steps batch_size) (min ranks grad_accum) ≡ 0))
unfolding blocks_for_phase
blocks_for_phase_lem s inner_steps batch_size ranks grad_accum h =
    let n = inner_steps * batch_size * ranks * grad_accum in
    elim (Bool-cases (ltb (min (min inner_steps batch_size) (min ranks grad_accum)) 1)) [
      | inl refused ↦ rw refused (refl, ground arith)
      | inr proper ↦ rw proper (phase_blocks n s.block_size h)
    ]
