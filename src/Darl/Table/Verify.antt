-- ===== src/Darl/Table/Verify.antt =====
-- `verify` of class LeaseTable (src/pww/darl/table.py).
use project_world_wide.Prelude.{
  ℕ, zero, suc, ◌+◌, ◌-◌, Bool, false, not, ◌&&◌, ◌||◌, List, [], ◌∷◌, ◌==◌, ltb, leb,
  if◌then◌else◌, Result, ok, err, assertion_error, ◌>>=◌, count_of,
}
use project_world_wide.Prelude.Dict.{sum_values}
use project_world_wide.Darl.Lease.{
  BlockState, unassigned, leased, committed, quarantined, in_state, Lease,
}
use project_world_wide.Darl.Table.{LeaseTable}

-- The dict `counts`, by the name of the state.
pub record Counts : Type 0 where
  pub of_unassigned : ℕ
  pub of_leased : ℕ
  pub of_committed : ℕ
  pub of_quarantined : ℕ

abbrev pub no_counts : Counts
no_counts = record { of_unassigned = 0; of_leased = 0; of_committed = 0; of_quarantined = 0 }

abbrev pub count_block : BlockState → Counts → Counts
count_block unassigned c = record c { of_unassigned = c.of_unassigned + 1 }
count_block leased c = record c { of_leased = c.of_leased + 1 }
count_block committed c = record c { of_committed = c.of_committed + 1 }
count_block quarantined c = record c { of_quarantined = c.of_quarantined + 1 }

-- `for value in self._state`, with the number of positions left
unfoldable pub count_blocks : ℕ → ℕ → (ℕ → BlockState) → Counts → Counts
count_blocks zero position state c = c
count_blocks (suc n) position state c =
    count_blocks n (position + 1) state (count_block (state position) c)

-- `covered[position] = 1`
abbrev pub cover_at : ℕ → (ℕ → Bool) → ℕ → Bool
cover_at position covered p = (p == position) || covered p

-- `for position in range(lease.committed_end, lease.end)`, with the number of positions left
unfoldable pub cover_positions : ℕ → ℕ → (ℕ → BlockState) → (ℕ → Bool) → Result (ℕ → Bool)
cover_positions zero position state covered = ok covered
cover_positions (suc n) position state covered =
    let rest = cover_positions n (position + 1) state (cover_at position covered) in
    if covered position
    then err assertion_error
    else if not (in_state (state position) leased)
    then err assertion_error
    else rest

-- sum(covered)
unfoldable pub sum_covered : ℕ → (ℕ → Bool) → ℕ
sum_covered zero covered = 0
sum_covered (suc n) covered = sum_covered n covered + count_of (covered n)

module _ {F : Type 0} where
  -- lease.start <= lease.committed_end <= lease.end <= self.num_blocks
  abbrev pub is_ordered : ℕ → Lease F → Bool
  is_ordered n l = leb l.start l.committed_end && leb l.committed_end l.end && leb l.end n

  -- `for lease in self.leases.values()`
  unfoldable pub cover_leases :
      ℕ → ℕ → (ℕ → BlockState) → List (Lease F) → (ℕ → Bool) → Result (ℕ → Bool)
  unfolding cover_positions
  cover_leases n epoch state [] covered = ok covered
  cover_leases n epoch state (l ∷ ls) covered =
      if not (l.epoch == epoch)
      then err assertion_error
      else if not (is_ordered n l)
      then err assertion_error
      else cover_positions (l.end - l.committed_end) l.committed_end state covered >>= λ c.
          cover_leases n epoch state ls c

  -- The tests of `verify` on the totals.
  unfoldable pub check_totals : Counts → ℕ → LeaseTable F → Result Counts
  unfolding sum_values
  check_totals c covered t =
      if not (covered == c.of_leased)
      then err assertion_error
      else if not (t.free.total == c.of_unassigned)
      then err assertion_error
      else if not (c.of_committed == t.committed)
      then err assertion_error
      else if not (c.of_quarantined == t.quarantined)
      then err assertion_error
      else if ltb (sum_values (λ r. r.blocks_committed) t.clusters) t.committed
      then err assertion_error
      else if not
          (c.of_unassigned + c.of_leased + c.of_committed + c.of_quarantined == t.config.num_blocks)
      then err assertion_error
      else ok c

  -- verify
  unfoldable pub verify : LeaseTable F → Result Counts
  unfolding count_blocks cover_leases sum_covered check_totals
  verify t =
      let n = t.config.num_blocks in
      let c = count_blocks n 0 t.state no_counts in
      cover_leases n t.epoch t.state t.leases (λ p. false) >>= λ covered.
      check_totals c (sum_covered n covered) t
