-- ===== src/Darl/Table/Reclaim/Safe.antt =====
-- The block map, the pool and the leases after `_reclaim` (src/pww/darl/table.py).
use project_world_wide.Prelude.{
  ℕ, ◌+◌, ◌-◌, ◌≤◌, ◌<◌, ◌≡◌, refl, Bool, true, false, ◌&&◌, ◌⊎◌, inl, [], ◌∷◌, ltb, leb, within,
  count_of, arith, Returns, Returns-bind, sum_by-append, some, ok, ◌>>=◌,
}
use project_world_wide.Darl.Interval.{span}
use project_world_wide.Darl.Interval.Cover.{holds, cover}
use project_world_wide.Darl.Lease.{
  unassigned, leased, committed, quarantined, in_state, Lease, find_lease, del_lease,
}
use project_world_wide.Darl.Table.{LeaseTable}
use project_world_wide.Darl.Table.Reclaim.{Scan, scan, runs_to, free_all, reclaim}
use project_world_wide.Darl.Table.Reclaim.Runs.{
  IsFrame, IsFrame-refl, IsFrame-trans, IsFreed, free_all-IsFreed, IsScanned, scan-IsScanned,
}
use project_world_wide.Darl.Blocks.{
  count_state, count_state_same, lease_holds, sum_by-del_lease, IsConsistent,
}
use project_world_wide.Darl.Valid.{IsMarked}

-- The table `t` without the lease `l`, and its uncommitted blocks unassigned or quarantined.
pub record IsReclaimed {F : Type 0} (t : LeaseTable F) (l : Lease F) (u : LeaseTable F) (k : ℕ)
    : Type 0 where
  pub blocks :
      IsConsistent t.config.num_blocks u.state u.free
        (del_lease l.lease_id t.leases)
        t.committed
        u.quarantined
  pub frame : IsFrame (record t { leases = del_lease l.lease_id t.leases }) u
  pub elsewhere : (p : ℕ) → within l.committed_end l.end p ≡ false → u.state p ≡ t.state p
  pub given_back :
      (p : ℕ)
      → within l.committed_end l.end p ≡ true
      → (t.state p ≡ leased) × ((u.state p ≡ unassigned) ⊎ (u.state p ≡ quarantined))
  pub returned : k ≡ l.end - l.committed_end

module _ {F : Type 0} (t : LeaseTable F) (l : Lease F) where
  without : LeaseTable F
  without = record t { leases = del_lease l.lease_id t.leases }

  module _
      (ok_t : IsConsistent t.config.num_blocks t.state t.free t.leases t.committed t.quarantined)
      (held : find_lease l.lease_id t.leases ≡ some l)
      (mark : IsMarked t.config.num_blocks t.epoch t.seq l) where
    leased_tail : (p : ℕ) → l.committed_end ≤ p → p < l.end → t.state p ≡ leased
    leased_tail p a b =
        let has = ok_t.leased_at p in
        ground (arith, has, sum_by-del_lease (lease_holds p) l.lease_id l t.leases held)

    module _ (s : Scan F) (h : IsScanned t.config.num_blocks l.committed_end l.end without s) where
      cover-runs_to :
          (p : ℕ)
          → cover p (runs_to l.end s)
            ≡ count_of (within l.committed_end l.end p && in_state (s.table.state p) leased)
      unfolding runs_to
      cover-runs_to p =
          ground
            (arith, h.runs p, sum_by-append (holds p) s.free_runs (span s.run_start l.end ∷ []))

      cover-pool :
          (p : ℕ)
          → cover p s.table.free.intervals
            ≡ count_of (ltb p t.config.num_blocks && in_state (t.state p) unassigned)
      unfolding without
      cover-pool p = rw h.free (ok_t.free_at p)

      runs_once : (p : ℕ) → cover p s.table.free.intervals + cover p (runs_to l.end s) ≤ 1
      unfolding without
      runs_once p = ground (arith, cover-pool p, cover-runs_to p, h.state p)

      still_committed :
          (u : LeaseTable F)
          → IsFreed s.table (runs_to l.end s) u
          → count_state committed u.state t.config.num_blocks
            ≡ count_state committed t.state t.config.num_blocks
      unfolding without
      still_committed u k =
          count_state_same committed t.state u.state t.config.num_blocks
            λ p _. let after = k.state p in ground (arith, after, cover-runs_to p, h.state p)

      still_quarantined :
          (u : LeaseTable F)
          → IsFreed s.table (runs_to l.end s) u
          → count_state quarantined u.state t.config.num_blocks
            ≡ count_state quarantined s.table.state t.config.num_blocks
      unfolding without
      still_quarantined u k =
          count_state_same quarantined s.table.state u.state t.config.num_blocks
            λ p _. let after = k.state p in ground (arith, after, cover-runs_to p, h.state p)

      freed-IsReclaimed :
          (u : LeaseTable F)
          → IsFreed s.table (runs_to l.end s) u
          → IsReclaimed t l u (l.end - l.committed_end)
      unfolding without
      freed-IsReclaimed u k = record {
        blocks = record {
          pool = k.pool;
          free_at = λ p.
              let freed = k.freed p in
              let after = k.state p in
              ground (arith, freed, after, cover-pool p, cover-runs_to p, h.state p, leased_tail p);
          leased_at = λ p.
              let has = ok_t.leased_at p in
              let after = k.state p in
              ground (
                arith,
                after,
                has,
                cover-runs_to p,
                h.state p,
                leased_tail p,
                sum_by-del_lease (lease_holds p) l.lease_id l t.leases held,
              );
          committed_count =
              let old = ok_t.committed_count in omega (arith, old, still_committed u k);
          quarantined_count =
              let old = ok_t.quarantined_count in
              let lost = h.lost in
              let lost' = k.lost in omega (arith, old, lost, lost', still_quarantined u k);
        };
        frame =
            let first = h.frame in
            let later = k.frame in IsFrame-trans without s.table u first later;
        elsewhere =
            λ p a. let after = k.state p in ground (arith, after, cover-runs_to p, h.state p);
        given_back = λ p a.
            let after = k.state p in
            ground (arith, after, cover-runs_to p, h.state p, leased_tail p);
        returned = refl;
      }

      -- Freeing the runs never finds a block free already.
      free_runs-IsReclaimed :
          Returns {A = LeaseTable F × ℕ}
            (free_all (runs_to l.end s) s.table >>= λ u. ok (u, l.end - l.committed_end))
            (λ r. IsReclaimed t l r.0 r.1)
      free_runs-IsReclaimed =
          Returns-bind (free_all (runs_to l.end s) s.table) (λ u. ok (u, l.end - l.committed_end))
            (IsFreed s.table (runs_to l.end s)) (λ r. IsReclaimed t l r.0 r.1)
            (free_all-IsFreed (runs_to l.end s) s.table (rw h.free (unfold without in ok_t.pool))
              runs_once)
            λ u k. freed-IsReclaimed u k

    abbrev begin : Scan F
    begin = record { table = without; run_start = l.committed_end; free_runs = [] }

    begin-IsScanned :
        (q : ℕ)
        → l.committed_end ≤ q
        → q ≤ l.end
        → IsScanned t.config.num_blocks l.committed_end q without begin
    unfolding without
    begin-IsScanned q a b = record {
      from = omega arith;
      upto = a;
      runs = λ p. ground (arith, leased_tail p);
      state = λ p. inl refl;
      frame = IsFrame-refl without;
      free = refl;
      lost = refl;
    }

    -- A held lease is reclaimed without an error, whether attempts are counted or not.
    pub reclaim-IsReclaimed :
        (count_attempt : Bool) → Returns (reclaim count_attempt l t) (λ r. IsReclaimed t l r.0 r.1)
    unfolding reclaim without
    reclaim-IsReclaimed true =
        let some_left : leb l.end l.committed_end ≡ false =
          let below = mark.unfinished in ground (arith, below) in
        rw some_left (
          free_runs-IsReclaimed (scan (l.end - l.committed_end) l.cluster l.committed_end begin) (
            scan-IsScanned t.config.num_blocks l.committed_end l.end without
              (let inside = mark.in_space in inside) (l.end - l.committed_end) l.cluster
              l.committed_end begin (omega arith)
              (let below = mark.unfinished in omega (arith, below)) leased_tail
              (begin-IsScanned l.committed_end (omega arith)
                (let below = mark.unfinished in omega (arith, below)))))
    reclaim-IsReclaimed false =
        let some_left : leb l.end l.committed_end ≡ false =
          let below = mark.unfinished in ground (arith, below) in
        rw some_left (
          free_runs-IsReclaimed begin (
            begin-IsScanned l.end (let below = mark.unfinished in omega (arith, below))
              (omega arith)))
