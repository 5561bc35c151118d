-- ===== src/Darl/Valid/Conservation.antt =====
-- What a valid lease table (src/pww/darl/table.py) says about the number of its blocks.
use project_world_wide.Prelude.{
  ℕ, zero, suc, ◌+◌, ◌-◌, ◌≤◌, ◌≡◌, refl, sym, ◌&&◌, List, [], ◌∷◌, arith, sum_by, count_of, ltb,
  All,
}
use project_world_wide.Prelude.Sums.{sum_to, sum_to-ext, sum_to-add, sum_to_none, sum_to-within}
use project_world_wide.Darl.Interval.{Span}
use project_world_wide.Darl.Interval.Cover.{holds, cover, sizes}
use project_world_wide.Darl.Lease.{
  BlockState, unassigned, leased, committed, quarantined, in_state, Lease, outstanding,
}
use project_world_wide.Darl.Table.{LeaseTable}
use project_world_wide.Darl.Blocks.{count_state, lease_holds, lease_cover}
use project_world_wide.Darl.Valid.{IsMarked, IsValid}

-- Spans that hold no position from `n` on have as many blocks as they hold positions below `n`.
sizes-cover :
    (n : ℕ) (xs : List Span)
    → ((p : ℕ) → n ≤ p → cover p xs ≡ 0)
    → sizes xs ≡ sum_to (λ p. cover p xs) n
sizes-cover n [] h = sym (sum_to_none n)
sizes-cover n (x ∷ xs) h =
    let rest = sizes-cover n xs (λ p k. let all = h p k in omega (arith, all)) in
    let both = sum_to-add (λ p. holds p x) (λ p. cover p xs) n in
    let last = h (x.hi - 1) in
    let one = sum_to-within x.lo x.hi n in ground (arith, rest, both, one, last)

module _ {F : Type 0} where
  sizes-lease_cover :
      (n epoch seq : ℕ) (ls : List (Lease F))
      → All (IsMarked n epoch seq) ls
      → sum_by outstanding ls ≡ sum_to (λ p. lease_cover p ls) n
  sizes-lease_cover n epoch seq [] h = sym (sum_to_none n)
  sizes-lease_cover n epoch seq (l ∷ ls) h =
      let rest = sizes-lease_cover n epoch seq ls h.1 in
      let both = sum_to-add (λ p. lease_holds p l) (λ p. lease_cover p ls) n in
      let inside = h.0.in_space in
      let begun = h.0.unfinished in
      let one = sum_to-within l.committed_end l.end n in
      omega (arith, rest, both, one, inside, begun)

pub count_state_below :
    (s : BlockState) (f : ℕ → BlockState) (n m : ℕ)
    → m ≤ n
    → sum_to (λ p. count_of (ltb p n && in_state (f p) s)) m ≡ count_state s f m
unfolding sum_to count_state
count_state_below s f n zero h = refl
count_state_below s f n (suc m) h =
    let rest = count_state_below s f n m (omega arith) in ground (arith, rest)

one_state :
    (s : BlockState)
    → count_of (in_state s unassigned)
        + count_of (in_state s leased)
        + count_of (in_state s committed)
        + count_of (in_state s quarantined)
      ≡ 1
one_state unassigned = refl
one_state leased = refl
one_state committed = refl
one_state quarantined = refl

pub all_states :
    (f : ℕ → BlockState) (n : ℕ)
    → count_state unassigned f n
        + count_state leased f n
        + count_state committed f n
        + count_state quarantined f n
      ≡ n
unfolding count_state
all_states f zero = refl
all_states f (suc n) =
    let rest = all_states f n in let here = one_state (f n) in omega (arith, rest, here)

module _ {F : Type 0} where
  -- The pool counts the unassigned blocks.
  pub free_total :
      (t : LeaseTable F)
      → IsValid t
      → t.free.total ≡ count_state unassigned t.state t.config.num_blocks
  free_total t h =
      let n = t.config.num_blocks in
      let b = h.blocks in
      let pool =
        sizes-cover n t.free.intervals (λ p k. let at_p = b.free_at p in ground (arith, at_p)) in
      let counted = b.pool.counted in
      let free =
        sum_to-ext (λ p. cover p t.free.intervals)
          (λ p. count_of (ltb p n && in_state (t.state p) unassigned)) n (λ p k. b.free_at p) in
      omega (arith, pool, counted, free, count_state_below unassigned t.state n n (omega arith))

  -- In a valid table the blocks in the pool, the blocks outstanding in leases, the committed and the
  -- quarantined ones add up to the blocks of the space: none is lost and none is counted twice.
  pub blocks_add_up :
      (t : LeaseTable F)
      → IsValid t
      → t.free.total + sum_by outstanding t.leases + t.committed + t.quarantined
        ≡ t.config.num_blocks
  blocks_add_up t h =
      let n = t.config.num_blocks in
      let b = h.blocks in
      let pool =
        sizes-cover n t.free.intervals (λ p k. let at_p = b.free_at p in ground (arith, at_p)) in
      let counted = b.pool.counted in
      let free =
        sum_to-ext (λ p. cover p t.free.intervals)
          (λ p. count_of (ltb p n && in_state (t.state p) unassigned)) n (λ p k. b.free_at p) in
      let held = sizes-lease_cover n t.epoch t.seq t.leases h.marks in
      let given =
        sum_to-ext (λ p. lease_cover p t.leases)
          (λ p. count_of (ltb p n && in_state (t.state p) leased)) n (λ p k. b.leased_at p) in
      let free_count = count_state_below unassigned t.state n n (omega arith) in
      let held_count = count_state_below leased t.state n n (omega arith) in
      let done = b.committed_count in
      let lost = b.quarantined_count in
      omega (
        arith,
        pool,
        counted,
        free,
        held,
        given,
        free_count,
        held_count,
        done,
        lost,
        all_states t.state n,
      )
