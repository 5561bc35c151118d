-- ===== src/Darl/Table/Steal.antt =====
-- `_steal` of class LeaseTable (src/pww/darl/table.py).
use project_world_wide.Prelude.{
  ℕ, ◌+◌, ◌-◌, ◌*◌, ◌/◌, Bool, ◌||◌, String, Option, none, some, List, [], ◌∷◌, ◌++◌, ltb, leb,
  if◌then◌else◌, str_eq, min, max,
}
use project_world_wide.Prelude.Dict.{lookup}
use project_world_wide.Darl.Interval.{Span, span}
use project_world_wide.Darl.Floats.{Floats}
use project_world_wide.Darl.Lease.{Lease, ClusterRecord, stolen_from, outstanding, set_lease}
use project_world_wide.Darl.Table.{LeaseTable, record_event, modify_cluster}

-- a candidate of `_steal`: its time to finish, what may be taken, and the lease
pub record Candidate (F : Type 0) : Type 0 where
  pub eta : F
  pub available : ℕ
  pub lease : Lease F

-- The spans that were taken from other leases, and the table they were taken from.
pub record Stealing (F : Type 0) : Type 0 where
  pub table : LeaseTable F
  pub spans : List Span
  pub taken : ℕ

module _ {F : Type 0} ⦃fl : Floats F⦄ where
  -- the rate of a lease's holder, if it has one
  unfoldable pub victim_rate : Option (ClusterRecord F) → F
  victim_rate none = fl.decimal 1 9
  victim_rate (some v) = if fl.lt (fl.of_nat 0) v.rate then v.rate else fl.decimal 1 9

  -- the loop that collects candidates
  unfoldable pub candidates : String → LeaseTable F → List (Lease F) → List (Candidate F)
  unfolding victim_rate lookup
  candidates cid t [] = []
  candidates cid t (l ∷ ls) =
      let rest = candidates cid t ls in
      let available = l.end - max l.progress_end l.committed_end in
      if str_eq l.cluster cid || ltb available (t.config.steal_min_blocks * 2)
      then rest
      else record {
        eta = fl.div (fl.of_nat (outstanding l)) (victim_rate (lookup l.cluster t.clusters));
        available = available;
        lease = l;
      }
        ∷ rest

  -- the order of the keys (-eta, -available)
  abbrev pub goes_before : Candidate F → Candidate F → Bool
  goes_before c d = if fl.eq c.eta d.eta then ltb d.available c.available else fl.lt d.eta c.eta

  -- candidates.sort(key=...), a stable sort
  unfoldable pub sort_in : Candidate F → List (Candidate F) → List (Candidate F)
  sort_in c [] = c ∷ []
  sort_in c (d ∷ ds) = if goes_before d c then d ∷ sort_in c ds else c ∷ d ∷ ds

  unfoldable pub sort : List (Candidate F) → List (Candidate F)
  unfolding sort_in
  sort [] = []
  sort (c ∷ cs) = sort_in c (sort cs)

  -- Where the lease of a candidate is cut, for `blocks` blocks still wanted.
  unfoldable pub cut_at : ℕ → ℕ → Candidate F → ℕ
  cut_at least blocks c =
      let want = min blocks (max least (c.available / 2)) in
      max (c.lease.end - want) (max c.lease.progress_end c.lease.committed_end)

  -- The tail of the lease from `cut` on is taken.
  unfoldable pub take_tail : String → Lease F → ℕ → Stealing F → Stealing F
  unfolding modify_cluster set_lease
  take_tail cid l cut s =
      let n = l.end - cut in
      let t = record (s.table) {
        leases = set_lease (record l { stolen = l.stolen + n; end = cut }) s.table.leases;
      } in
      record {
        table = record_event (stolen_from cid l.cluster n l.lease_id) (
            modify_cluster l.cluster
              (λ v. record v { blocks_stolen_from = v.blocks_stolen_from + n }) t);
        spans = s.spans ++ (span cut l.end ∷ []);
        taken = s.taken + n;
      }

  -- the loop over the sorted candidates
  unfoldable pub steal_loop : String → ℕ → List (Candidate F) → Stealing F → Stealing F
  unfolding cut_at take_tail
  steal_loop cid blocks [] s = s
  steal_loop cid blocks (c ∷ cs) s =
      let least = s.table.config.steal_min_blocks in
      let cut = cut_at least (blocks - s.taken) c in
      let next =
        steal_loop cid blocks cs
          (if ltb (c.lease.end - cut) least then s else take_tail cid c.lease cut s) in
      if leb blocks s.taken then s else next

  -- _steal
  unfoldable pub steal : String → ℕ → LeaseTable F → Stealing F
  unfolding steal_loop candidates sort
  steal cid blocks t =
      steal_loop cid blocks (sort (candidates cid t t.leases))
        (record { table = t; spans = []; taken = 0 })
