-- ===== src/Darl/Valid/Verified.antt =====
-- What `verify` (src/pww/darl/table.py) finds out about a lease table.
use project_world_wide.Prelude.{
  ℕ, ◌+◌, ◌≤◌, ◌<◌, ◌≡◌, Bool, true, false, ◌&&◌, inl, inr, arith, ltb, count_of, All, All-map,
  assertion_error, Outcome, Outcome-map, Outcome-bind, ap, lt_cases,
}
use project_world_wide.Prelude.Sums.{sum_to, sum_to-ext, sum_to-eq_inv}
use project_world_wide.Darl.Lease.{BlockState, unassigned, leased, committed, quarantined, in_state}
use project_world_wide.Darl.Table.{LeaseTable}
use project_world_wide.Darl.Table.Verify.{
  Counts, no_counts, count_blocks, cover_leases, sum_covered, check_totals, verify,
}
use project_world_wide.Darl.Blocks.{count_state, count_state_same, lease_cover}
use project_world_wide.Darl.Valid.{IsMarked, IsValid}
use project_world_wide.Darl.Valid.Conservation.{count_state_below, all_states, free_total}
use project_world_wide.Darl.Valid.Counted.{
  IsInOrder, IsVerified, count_blocks-AreCounted, cover_leases_outcome, check_totals_outcome,
  lease_cover_beyond, sum_covered_lem,
}

abbrev pub IsCountOf : {F : Type 0} → LeaseTable F → Counts → Type 0
IsCountOf t c =
    (c.of_unassigned ≡ count_state unassigned t.state t.config.num_blocks)
    × (c.of_leased ≡ count_state leased t.state t.config.num_blocks)
    × (c.of_committed ≡ count_state committed t.state t.config.num_blocks)
    × (c.of_quarantined ≡ count_state quarantined t.state t.config.num_blocks)

module _ {F : Type 0} (t : LeaseTable F) where
  abbrev counts : Counts
  counts = count_blocks t.config.num_blocks 0 t.state no_counts

  counts-IsCountOf : IsCountOf t counts
  counts-IsCountOf =
      let n = t.config.num_blocks in
      let all = count_blocks-AreCounted n 0 t.state no_counts in
      (
        omega (arith, all, shift unassigned),
        omega (arith, all, shift leased),
        omega (arith, all, shift committed),
        omega (arith, all, shift quarantined),
      )
    where
      shift :
          (s : BlockState)
          → count_state s (λ q. t.state (0 + q)) t.config.num_blocks
            ≡ count_state s t.state t.config.num_blocks
      shift s =
          count_state_same s t.state (λ q. t.state (0 + q)) t.config.num_blocks
            (λ q k. let e : 0 + q ≡ q = omega arith in ap (λ r. in_state (t.state r) s) e)

  leased_sum :
      sum_to
        (λ p. count_of (ltb p t.config.num_blocks && in_state (t.state p) leased))
        t.config.num_blocks
      ≡ count_state leased t.state t.config.num_blocks
  leased_sum =
      count_state_below leased t.state t.config.num_blocks t.config.num_blocks (omega arith)

  -- What the leases hold, once they and the totals have passed.
  covered_exactly :
      (c : ℕ → Bool)
      → All (IsInOrder t.config.num_blocks t.epoch) t.leases
      → ((q : ℕ)
          → (count_of (c q) ≡ 0 + lease_cover q t.leases)
            × (0 < lease_cover q t.leases → in_state (t.state q) leased ≡ true))
      → sum_covered t.config.num_blocks c ≡ counts.of_leased
      → (p : ℕ)
      → lease_cover p t.leases ≡ count_of (ltb p t.config.num_blocks && in_state (t.state p) leased)
  covered_exactly c ordered once total p =
      let n = t.config.num_blocks in
      let f = λ (q : ℕ). lease_cover q t.leases in
      let g = λ (q : ℕ). count_of (ltb q n && in_state (t.state q) leased) in
      let few : (q : ℕ) → q < n → f q ≤ g q = λ q k.
        let o = once q in
        elim (lt_cases 0 (f q)) [
          | inl some_lease ↦ ground (arith, o.0, o.1 some_lease)
          | inr no_lease ↦ omega arith
        ] in
      let sums : sum_to f n ≡ sum_to g n =
        let a = sum_covered_lem n c in
        let b = sum_to-ext (λ q. count_of (c q)) f n (λ q k. let o = once q in omega (arith, o)) in
        omega (arith, a, b, total, counts-IsCountOf, leased_sum) in
      elim (lt_cases p n) [
        | inl below ↦ sum_to-eq_inv f g n few sums p below
        | inr above ↦
            let none_held = lease_cover_beyond n t.epoch p t.leases ordered above in
            ground (arith, none_held, above)
      ]

  -- `verify` returns exactly when the table is in order, and then the number of blocks in each
  -- state; otherwise it raises AssertionError, and no other exception.
  pub verify_outcome :
      Outcome
        (verify t)
        (λ c. IsVerified t × IsCountOf t c)
        (λ e. (e ≡ assertion_error) × (IsVerified t → ⊥))
  unfolding verify
  verify_outcome =
      let n = t.config.num_blocks in
      Outcome-bind (cover_leases n t.epoch t.state t.leases (λ p. false)) _ _ _ _ _
        (cover_leases_outcome n t.epoch t.state t.leases (λ p. false))
        (λ c h.
          Outcome-map (check_totals counts (sum_covered n c) t) _ _ _ _
            (λ c' k. (
              record {
                ordered = h.0;
                leased_at = covered_exactly c h.0 h.1 k.1.0;
                free_count = omega (arith, k.1, counts-IsCountOf);
                committed_count = omega (arith, k.1, counts-IsCountOf);
                quarantined_count = omega (arith, k.1, counts-IsCountOf);
                credit = omega (arith, k.1);
              },
              rw k.0 counts-IsCountOf,
            ))
            (λ e k. (
              k.0,
              λ v. k.1 (
                (let a = sum_covered_lem n c in
                    let b =
                      sum_to-ext (λ q. count_of (c q))
                        (λ q. count_of (ltb q n && in_state (t.state q) leased)) n
                        (λ q below.
                          let o = h.1 q in let x = v.leased_at q in omega (arith, o, x)) in
                    omega (arith, a, b, counts-IsCountOf, leased_sum)),
                (let x = v.free_count in omega (arith, x, counts-IsCountOf)),
                (let x = v.committed_count in omega (arith, x, counts-IsCountOf)),
                (let x = v.quarantined_count in omega (arith, x, counts-IsCountOf)),
                v.credit,
                omega (arith, counts-IsCountOf, all_states t.state n),
              ),
            ))
            (check_totals_outcome counts (sum_covered n c) t))
        (λ e h. (h.0, λ v. h.1 v.ordered (λ q. let x = v.leased_at q in ground (arith, x))))

  -- The invariant that the operations keep is more than what `verify` asks for.
  pub IsValid-IsVerified : IsValid t → IsVerified t
  IsValid-IsVerified h = record {
    ordered =
        All-map (IsMarked t.config.num_blocks t.epoch t.seq) (IsInOrder t.config.num_blocks t.epoch)
          (λ l m. (
            m.current,
            m.started,
            (let a = m.consumed in let b = m.within_end in omega (arith, a, b)),
            m.in_space,
          ))
          t.leases h.marks;
    leased_at = h.blocks.leased_at;
    free_count = free_total t h;
    committed_count = h.blocks.committed_count;
    quarantined_count = h.blocks.quarantined_count;
    credit = h.credit;
  }
