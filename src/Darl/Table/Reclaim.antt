-- ===== src/Darl/Table/Reclaim.antt =====
-- `_reclaim`, `reap` and `release` of class LeaseTable (src/pww/darl/table.py).
pub mod Runs
pub mod Safe
use project_world_wide.Prelude.{
  ℕ, zero, suc, ◌+◌, ◌-◌, ◌≡◌, refl, Bool, true, false, not, ◌&&◌, ◌||◌, String, Option, none, some,
  List, [], ◌∷◌, ◌++◌, ◌==◌, ltb, leb, if◌then◌else◌, length, str_eq, Result, ok, err, ◌>>=◌,
}
use project_world_wide.Prelude.Dict.{lookup}
use project_world_wide.Darl.Interval.{Span, span, IntervalSet, add}
use project_world_wide.Darl.Floats.{Floats}
use project_world_wide.Darl.Lease.{
  LeaseId, unassigned, quarantined, Lease, ClusterRecord, Event, release_refused, released, expired,
  block_quarantined, find_lease, del_lease,
}
use project_world_wide.Darl.Table.{LeaseTable, fill, record_event, modify_cluster, is_other}

-- The variables of the loop over the positions of a reclaimed lease.
pub record Scan (F : Type 0) : Type 0 where
  pub table : LeaseTable F
  pub run_start : ℕ
  pub free_runs : List Span

module _ {F : Type 0} where
  -- One position, when attempts are counted.
  unfoldable pub scan_block : String → ℕ → Scan F → Scan F
  scan_block cid position s =
      let t = s.table in
      let tries = t.attempts position + 1 in
      let counted = record t { attempts = λ p. if p == position then tries else t.attempts p } in
      if not (t.config.max_attempts == 0) && leb t.config.max_attempts tries
      then record {
        table = record_event (block_quarantined position tries cid) (record counted {
          state = fill position (position + 1) quarantined t.state;
          quarantined = t.quarantined + 1;
        });
        run_start = position + 1;
        free_runs =
            if ltb s.run_start position
            then s.free_runs ++ (span s.run_start position ∷ [])
            else s.free_runs;
      }
      else record s { table = counted }

  -- `for position in range(lo, hi)`, with the number of positions left
  unfoldable pub scan : ℕ → String → ℕ → Scan F → Scan F
  unfolding scan_block
  scan zero cid position s = s
  scan (suc n) cid position s = scan n cid (position + 1) (scan_block cid position s)

  -- the runs, with the one that reaches `hi`
  unfoldable pub runs_to : ℕ → Scan F → List Span
  runs_to hi s =
      if ltb s.run_start hi then s.free_runs ++ (span s.run_start hi ∷ []) else s.free_runs

  -- `for start, end in free_runs`
  unfoldable pub free_all : List Span → LeaseTable F → Result (LeaseTable F)
  unfolding add
  free_all [] t = ok t
  free_all (r ∷ runs) t = add t.free r.lo r.hi >>= λ free.
      free_all runs (record t { free = free; state = fill r.lo r.hi unassigned t.state })

  -- _reclaim
  unfoldable pub reclaim : Bool → Lease F → LeaseTable F → Result (LeaseTable F × ℕ)
  unfolding scan runs_to free_all del_lease
  reclaim count_attempt l t =
      let lo = l.committed_end in
      let hi = l.end in
      let t' = record t { leases = del_lease l.lease_id t.leases } in
      let begin : Scan F = record { table = t'; run_start = lo; free_runs = [] } in
      let s = if count_attempt then scan (hi - lo) l.cluster lo begin else begin in
      if leb hi lo then ok (t', 0) else (free_all (runs_to hi s) s.table >>= λ u. ok (u, hi - lo))

module _ {F : Type 0} ⦃fl : Floats F⦄ where
  -- `l.deadline < now`
  abbrev pub is_overdue : F → Lease F → Bool
  is_overdue now l = fl.lt l.deadline now

  unfoldable pub overdue : F → List (Lease F) → List (Lease F)
  overdue now [] = []
  overdue now (l ∷ ls) = if is_overdue now l then l ∷ overdue now ls else overdue now ls

  -- The counters and the event of one expired lease.
  unfoldable pub note_expiry : F → Lease F → ℕ → LeaseTable F → LeaseTable F
  unfolding modify_cluster
  note_expiry now l n t =
      let t' =
        modify_cluster l.cluster
          (λ r. record r { blocks_lost = r.blocks_lost + n; expiries = r.expiries + 1 }) t in
      let silent_for = fl.round 1 (fl.add (fl.sub now l.deadline) l.ttl) in
      if n == 0 then t' else record_event (expired l.cluster n l.lease_id silent_for) t'

  -- the loop of `reap` over the expired leases
  unfoldable pub reap_all : F → List (Lease F) → LeaseTable F → Result (LeaseTable F × ℕ)
  unfolding reclaim note_expiry
  reap_all now [] t = ok (t, 0)
  reap_all now (l ∷ ls) t = reclaim true l t >>= λ r.
      reap_all now ls (note_expiry now l r.1 r.0) >>= λ rest. ok (rest.0, r.1 + rest.1)

  -- reap
  unfoldable pub reap : F → LeaseTable F → Result (LeaseTable F × ℕ)
  unfolding reap_all overdue
  reap now t = reap_all now (overdue now t.leases) t

module _ {F : Type 0} where
  -- [lid for lid, l in self.leases.items() if l.cluster == cluster_id]
  unfoldable pub leases_of : String → List (Lease F) → List LeaseId
  leases_of cid [] = []
  leases_of cid (l ∷ ls) =
      if str_eq l.cluster cid then l.lease_id ∷ leases_of cid ls else leases_of cid ls

  -- the loop of `release` over its targets
  unfoldable pub release_all :
      Bool → String → List LeaseId → LeaseTable F → Result (LeaseTable F × ℕ)
  unfolding reclaim find_lease
  release_all count_attempt cid [] t = ok (t, 0)
  release_all count_attempt cid (i ∷ targets) t =
      let skip = release_all count_attempt cid targets t in
      elim (find_lease i t.leases) [
        | none ↦ skip
        | some l ↦
            if not (str_eq l.cluster cid)
            then skip
            else (reclaim count_attempt l t >>= λ r.
                release_all count_attempt cid targets r.0 >>= λ rest. ok (rest.0, r.1 + rest.1))
      ]

  -- the targets of `release`, or none at all for another process under the same id
  unfoldable pub release_targets :
      String → Option LeaseId → String → LeaseTable F → Option (List LeaseId)
  unfolding leases_of lookup
  release_targets cid (some i) incarnation t = some (i ∷ [])
  release_targets cid none incarnation t =
      let all = some (leases_of cid t.leases) in
      elim (lookup cid t.clusters) [
        | none ↦ all
        | some r ↦ if is_other incarnation r then none else all
      ]

  -- release
  unfoldable pub release :
      String → Option LeaseId → String → Bool → LeaseTable F → Result (LeaseTable F × ℕ)
  unfolding release_targets release_all
  release cid lease_id incarnation count_attempt t =
      elim (release_targets cid lease_id incarnation t) [
        | none ↦ ok (record_event (release_refused cid (length (leases_of cid t.leases))) t, 0)
        | some targets ↦ release_all count_attempt cid targets t >>= λ r.
            ok (if r.1 == 0 then r.0 else record_event (released cid r.1) r.0, r.1)
      ]
