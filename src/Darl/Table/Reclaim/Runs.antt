-- ===== src/Darl/Table/Reclaim/Runs.antt =====
-- `_reclaim` (src/pww/darl/table.py): the blocks of a lease go back to the pool or to quarantine.
use project_world_wide.Prelude.{
  ℕ, zero, suc, ◌+◌, ◌≤◌, ◌<◌, ◌≡◌, refl, Bool, true, not, ◌&&◌, ◌⊎◌, inl, inr, String, List, [],
  ◌∷◌, ◌==◌, leb, within, count_of, if◌then◌else◌, arith, Returns, Returns-bind, Returns-map,
  sum_by-append, Bool-cases, subst,
}
use project_world_wide.Darl.Interval.{Span, span, IntervalSet, add}
use project_world_wide.Darl.Interval.Cover.{holds, cover, IsPool}
use project_world_wide.Darl.Interval.Add.{IsAdded, add-IsAdded}
use project_world_wide.Darl.Lease.{unassigned, leased, quarantined, in_state}
use project_world_wide.Darl.Table.{LeaseTable, fill}
use project_world_wide.Darl.Table.Reclaim.{Scan, scan_block, scan, free_all}
use project_world_wide.Darl.Blocks.{count_state, count_state-fill}

-- What a loop over positions leaves alone.
pub record IsFrame {F : Type 0} (t u : LeaseTable F) : Type 0 where
  pub config : u.config ≡ t.config
  pub epoch : u.epoch ≡ t.epoch
  pub seq : u.seq ≡ t.seq
  pub clusters : u.clusters ≡ t.clusters
  pub leases : u.leases ≡ t.leases
  pub committed : u.committed ≡ t.committed

lt_or_eq : (p q : ℕ) → ((p < q) ⊎ (p ≡ q)) ⊎ (q < p)
lt_or_eq p q = omega arith

module _ {F : Type 0} where
  pub IsFrame-refl : (t : LeaseTable F) → IsFrame t t
  IsFrame-refl t = ground arith

  pub IsFrame-trans : (t u v : LeaseTable F) → IsFrame t u → IsFrame u v → IsFrame t v
  IsFrame-trans t u v h k = ground arith

  -- The runs are freed: every position of a run is unassigned afterwards.
  pub record IsFreed (t : LeaseTable F) (runs : List Span) (u : LeaseTable F) : Type 0 where
    pub pool : IsPool u.free
    pub freed : (p : ℕ) → cover p u.free.intervals ≡ cover p t.free.intervals + cover p runs
    pub state : (p : ℕ) → u.state p ≡ (if cover p runs == 0 then t.state p else unassigned)
    pub frame : IsFrame t u
    pub lost : u.quarantined ≡ t.quarantined

  pub free_all-IsFreed :
      (runs : List Span) (t : LeaseTable F)
      → IsPool t.free
      → ((p : ℕ) → cover p t.free.intervals + cover p runs ≤ 1)
      → Returns (free_all runs t) (IsFreed t runs)
  unfolding free_all
  free_all-IsFreed [] t h once = record {
    pool = h;
    freed = λ p. omega arith;
    state = λ p. refl;
    frame = IsFrame-refl t;
    lost = refl;
  }
  free_all-IsFreed (r ∷ runs) t h once =
      Returns-bind (add t.free r.lo r.hi) (λ free. free_all runs (after free)) (IsAdded t.free r)
        (IsFreed t (r ∷ runs)) (add-IsAdded t.free r.lo r.hi h (λ p a b. ground (arith, once p)))
        λ free added.
          Returns-map (free_all runs (after free)) (IsFreed (after free) runs)
            (IsFreed t (r ∷ runs))
            (λ u k. record {
              pool = k.pool;
              freed = λ p. let later = k.freed p in omega (arith, added.1 p, later);
              state = λ p. let later = k.state p in ground (arith, later);
              frame = IsFrame-trans t (after free) u (ground arith) k.frame;
              lost = k.lost;
            })
            (free_all-IsFreed runs (after free) added.0 (λ p. omega (arith, once p, added.1 p)))
    where
      after : IntervalSet → LeaseTable F
      after free = record t { free = free; state = fill r.lo r.hi unassigned t.state }

  -- What the scan has done up to position `q`, from the table `t` on.
  pub record IsScanned (n lo q : ℕ) (t : LeaseTable F) (s : Scan F) : Type 0 where
    pub from : lo ≤ s.run_start
    pub upto : s.run_start ≤ q
    pub runs :
        (p : ℕ)
        → cover p s.free_runs + count_of (within s.run_start q p)
          ≡ count_of (within lo q p && in_state (s.table.state p) leased)
    pub state :
        (p : ℕ)
        → (s.table.state p ≡ t.state p)
          ⊎ ((within lo q p ≡ true) × (t.state p ≡ leased) × (s.table.state p ≡ quarantined))
    pub frame : IsFrame t s.table
    pub free : s.table.free ≡ t.free
    pub lost :
        s.table.quarantined + count_state quarantined t.state n
        ≡ t.quarantined + count_state quarantined s.table.state n

  module _ (n lo hi : ℕ) (t : LeaseTable F) (inside : hi ≤ n) where
    scan_block-IsScanned :
        (cid : String) (q : ℕ) (s : Scan F)
        → lo ≤ q
        → q < hi
        → t.state q ≡ leased
        → IsScanned n lo q t s
        → IsScanned n lo (q + 1) t (scan_block cid q s)
    unfolding scan_block
    scan_block-IsScanned cid q s a b l h = elim (Bool-cases (gives_up t q s)) [
      | inl poison ↦ rw poison (record {
        from = ground arith;
        upto = ground arith;
        runs = λ p.
            ground (
              arith,
              h.runs p,
              at p,
              sum_by-append (holds p) s.free_runs (span s.run_start q ∷ []),
            );
        state = λ p. ground (arith, h.state p, at p, l);
        frame = ground arith;
        free = h.free;
        lost = ground (arith, marked);
      })
      | inr fine ↦ rw fine (record {
        from = h.from;
        upto = ground arith;
        runs = λ p. ground (arith, h.runs p, at p);
        state = λ p. ground (arith, h.state p);
        frame = ground arith;
        free = h.free;
        lost = h.lost;
      })
    ]
      where
        gives_up : LeaseTable F → ℕ → Scan F → Bool
        gives_up t q s =
            not (s.table.config.max_attempts == 0)
            && leb s.table.config.max_attempts (s.table.attempts q + 1)

        here : s.table.state q ≡ leased
        here = ground (arith, h.state q, l)

        at :
            (p : ℕ)
            → (p < q) ⊎ ((p ≡ q) × (s.table.state p ≡ leased) × (t.state p ≡ leased)) ⊎ (q < p)
        at p = elim (lt_or_eq p q) [
          | inl (inl below) ↦ inl below
          | inl (inr e) ↦ inr (inl (e, rw e here, rw e l))
          | inr above ↦ inr (inr above)
        ]

        marked :
            count_state quarantined (fill q (q + 1) quarantined s.table.state) n
            ≡ count_state quarantined s.table.state n + 1
        marked = omega (
          arith,
          count_state-fill quarantined q (q + 1) s.table.state n (omega arith)
              (λ p c d. ground (arith, at p)),
        )

    pub scan-IsScanned :
        (k : ℕ) (cid : String) (q : ℕ) (s : Scan F)
        → lo ≤ q
        → q + k ≡ hi
        → ((p : ℕ) → lo ≤ p → p < hi → t.state p ≡ leased)
        → IsScanned n lo q t s
        → IsScanned n lo hi t (scan k cid q s)
    unfolding scan
    scan-IsScanned zero cid q s a e l h =
        let e' : q ≡ hi = omega arith in subst (λ j. IsScanned n lo j t s) e' h
    scan-IsScanned (suc k) cid q s a e l h =
        scan-IsScanned k cid (q + 1) (scan_block cid q s) (omega arith) (omega arith) l
          (scan_block-IsScanned cid q s a (omega arith) (l q a (omega arith)) h)
