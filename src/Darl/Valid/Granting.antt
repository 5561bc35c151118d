-- ===== src/Darl/Valid/Granting.antt =====
-- The table while `acquire` (src/pww/darl/table.py) hands out spans that it has taken.
use project_world_wide.Prelude.{
  ℕ, ◌+◌, ◌-◌, ◌≤◌, ◌<◌, ◌≡◌, refl, Bool, true, false, ◌&&◌, inl, inr, String, none, some, List, [],
  ◌∷◌, ◌%◌, if◌then◌else◌, All, All-map, arith, Bool-cases, within, ap, count_of, ltb, ◌∙◌,
}
use project_world_wide.Prelude.Dict.{lookup, put, sum_values-put, lookup-put_self}
use project_world_wide.Darl.Interval.{Span}
use project_world_wide.Darl.Interval.Cover.{cover, IsPool}
use project_world_wide.Darl.Floats.{Floats}
use project_world_wide.Darl.Lease.{
  BlockState, committed, unassigned, quarantined, leased, in_state, Lease, LeaseId, ClusterRecord,
  find_lease, same_id, same_id→eq,
}
use project_world_wide.Darl.Table.{LeaseTable, fill, modify_cluster}
use project_world_wide.Darl.Table.Acquire.{new_lease, grant_one, grant_all}
use project_world_wide.Darl.Blocks.{
  count_state, count_state_same, lease_holds, lease_cover, sum_by-set_lease_new, All-set_lease,
  set_lease-IsUnique, IsUnique,
}
use project_world_wide.Darl.Valid.{IsMarked, IsOwned, IsValid, credited}
use project_world_wide.Darl.Valid.Frames.{IsOwned-put}

-- As `IsValid`, but for the spans `rest` that are on their way to the cluster `cid`: they have left
-- the pool, or the leases if they are stolen, and no lease has them yet.
pub record IsGranting {F : Type 0} (cid : String) (stolen : Bool) (rest : List Span)
    (t : LeaseTable F) : Type 0 where
  pub pool : IsPool t.free
  pub free_at :
      (p : ℕ)
      → cover p t.free.intervals + (if stolen then 0 else cover p rest)
        ≡ count_of (ltb p t.config.num_blocks && in_state (t.state p) unassigned)
  pub leased_at :
      (p : ℕ)
      → lease_cover p t.leases + (if stolen then cover p rest else 0)
        ≡ count_of (ltb p t.config.num_blocks && in_state (t.state p) leased)
  pub committed_count : t.committed ≡ count_state committed t.state t.config.num_blocks
  pub quarantined_count : t.quarantined ≡ count_state quarantined t.state t.config.num_blocks
  pub marks : All (IsMarked t.config.num_blocks t.epoch t.seq) t.leases
  pub unique : IsUnique t.leases
  pub owned : All (IsOwned t.clusters) t.leases
  pub credit : t.committed ≤ credited t.clusters
  pub proper : All (λ x. x.lo < x.hi) rest
  pub known : (r : ClusterRecord F) × (lookup cid t.clusters ≡ some r)

-- A lease of a reply: the cluster's own, and within the space.
abbrev pub IsGrantTo : {F : Type 0} → String → ℕ → Lease F → Type 0
IsGrantTo cid n l = (l.cluster ≡ cid) × (l.start ≤ l.end) × (l.end ≤ n)

module _ {F : Type 0} where
  fresh :
      (n epoch seq : ℕ) (i : LeaseId) (ls : List (Lease F))
      → All (IsMarked n epoch seq) ls
      → seq < i.seq
      → find_lease i ls ≡ none
  unfolding find_lease
  fresh n epoch seq i [] h k = refl
  fresh n epoch seq i (l ∷ ls) h k = elim (Bool-cases (same_id l.lease_id i)) [
    | inl e ↦
        let same : l.lease_id.seq ≡ i.seq =
          ap (λ (j : LeaseId). j.seq) (same_id→eq l.lease_id i e) in
        let given = h.0.numbered in absurd (omega (arith, same, given))
    | inr e ↦ rw e (fresh n epoch seq i ls h.1 k)
  ]

  later_mark :
      (n epoch seq : ℕ) (l : Lease F) → IsMarked n epoch seq l → IsMarked n epoch (seq + 1) l
  later_mark n epoch seq l m = record {
    started = m.started;
    consumed = m.consumed;
    within_end = m.within_end;
    unfinished = m.unfinished;
    in_space = m.in_space;
    current = m.current;
    numbered = let given = m.numbered in omega arith;
  }

module _ {F : Type 0} ⦃fl : Floats F⦄ (cid : String) (stolen : Bool) (x : Span) (rest : List Span)
    (ttl now : F) (t : LeaseTable F) (h : IsGranting cid stolen (x ∷ rest) t) where
  -- A position of the span was unassigned, or leased if the span is stolen.
  was_taken :
      (p : ℕ)
      → within x.lo x.hi p ≡ true
      → (in_state (t.state p) (if stolen then leased else unassigned) ≡ true)
        × (p < t.config.num_blocks)
        × (cover p rest ≡ 0)
  was_taken p a =
      let free = h.free_at p in
      let has = h.leased_at p in
      elim (Bool-cases stolen) [
        | inl e ↦ rw e (let has' = (rw e at has) in ground (arith, has'))
        | inr e ↦ rw e (let free' = (rw e at free) in ground (arith, free'))
      ]

  abbrev n : Lease F
  n = unfold new_lease in new_lease cid x ttl now t

  not_settled :
      (s : BlockState)
      → in_state unassigned s ≡ false
      → in_state leased s ≡ false
      → count_state s (fill x.lo x.hi leased t.state) t.config.num_blocks
        ≡ count_state s t.state t.config.num_blocks
  not_settled s a b =
      count_state_same s t.state (fill x.lo x.hi leased t.state) t.config.num_blocks
        λ p _. ground (arith, was_taken p)

  grant_one-IsGranting : IsGranting cid stolen rest (grant_one cid x ttl now t)
  unfolding grant_one modify_cluster new_lease
  grant_one-IsGranting =
      let (r, known) = h.known in
      let r' : ClusterRecord F = record r { cursor = x.hi % t.config.num_blocks } in
      let new = fresh t.config.num_blocks t.epoch t.seq n.lease_id t.leases h.marks (omega arith) in
      let nonempty = h.proper.0 in
      let last = was_taken (x.hi - 1) (ground (arith, nonempty)) in
      rw (known, grant_one, modify_cluster)
        (record {
          pool = h.pool;
          free_at = λ p. let old = h.free_at p in ground (arith, old, was_taken p);
          leased_at = λ p.
              let old = h.leased_at p in
              ground (arith, old, was_taken p, sum_by-set_lease_new (lease_holds p) n t.leases new);
          committed_count =
              let old = h.committed_count in omega (arith, old, not_settled committed refl refl);
          quarantined_count =
              let old = h.quarantined_count in
              omega (arith, old, not_settled quarantined refl refl);
          marks =
              All-set_lease (IsMarked t.config.num_blocks t.epoch (t.seq + 1)) n t.leases
                (record {
                  started = omega arith;
                  consumed = omega arith;
                  within_end = omega (arith, nonempty);
                  unfinished = nonempty;
                  in_space = omega (arith, last.1, nonempty);
                  current = refl;
                  numbered = omega arith;
                })
                (All-map (IsMarked t.config.num_blocks t.epoch t.seq)
                  (IsMarked t.config.num_blocks t.epoch (t.seq + 1))
                  (later_mark t.config.num_blocks t.epoch t.seq) t.leases h.marks);
          unique = set_lease-IsUnique n t.leases h.unique;
          owned =
              All-set_lease (IsOwned (put cid r' t.clusters)) n t.leases
                (r', lookup-put_self cid r' t.clusters)
                (All-map (IsOwned t.clusters) (IsOwned (put cid r' t.clusters))
                  (IsOwned-put cid r' t.clusters) t.leases h.owned);
          credit =
              let old = h.credit in
              omega (
                arith,
                old,
                sum_values-put (λ (c : ClusterRecord F). c.blocks_committed) cid r' r t.clusters
                    known,
              );
          proper = h.proper.1;
          known = (r', lookup-put_self cid r' t.clusters);
        })

  grant_one_keeps :
      (p : ℕ)
      → in_state (t.state p) committed ≡ true
      → (grant_one cid x ttl now t).state p ≡ t.state p
  unfolding grant_one modify_cluster
  grant_one_keeps p a =
      let (r, known) = h.known in
      rw (known, grant_one, modify_cluster) (ground (arith, was_taken p))

  grant_one_frame :
      ((grant_one cid x ttl now t).epoch ≡ t.epoch)
      × ((grant_one cid x ttl now t).config ≡ t.config)
  unfolding grant_one modify_cluster
  grant_one_frame = let (r, known) = h.known in rw (known, grant_one, modify_cluster) (refl, refl)

  new_lease-IsGrantTo : IsGrantTo cid t.config.num_blocks (new_lease cid x ttl now t)
  unfolding new_lease
  new_lease-IsGrantTo =
      let nonempty = h.proper.0 in
      let last = was_taken (x.hi - 1) (ground (arith, nonempty)) in
      (refl, omega (arith, nonempty), omega (arith, last.1, nonempty))

module _ {F : Type 0} ⦃fl : Floats F⦄ (cid : String) (stolen : Bool) (ttl now : F) where
  -- Once every span is granted nothing is on its way, no committed block has been given out, and
  -- the leases are the cluster's.
  pub grant_all-IsGranting :
      (spans : List Span) (t : LeaseTable F)
      → IsGranting cid stolen spans t
      → let (ls, u) = grant_all cid spans ttl now t in
        IsGranting cid stolen [] u
        × (u.epoch ≡ t.epoch)
        × ((p : ℕ) → in_state (t.state p) committed ≡ true → u.state p ≡ t.state p)
        × (u.config ≡ t.config)
        × All (IsGrantTo cid t.config.num_blocks) ls
  unfolding grant_all
  grant_all-IsGranting [] t h = (h, refl, (λ p a. refl), refl, tt)
  grant_all-IsGranting (x ∷ spans) t h =
      let u = grant_one cid x ttl now t in
      let rest =
        grant_all-IsGranting spans u (grant_one-IsGranting cid stolen x spans ttl now t h) in
      let frame = grant_one_frame cid stolen x spans ttl now t h in
      let same : u.config.num_blocks ≡ t.config.num_blocks = ap (λ c. c.num_blocks) frame.1 in
      (
        rest.0,
        rest.1 ∙ frame.0,
        (λ p a.
            let first = grant_one_keeps cid stolen x spans ttl now t h p a in
            rest.2 p (rw first a) ∙ first),
        rest.3 ∙ frame.1,
        (new_lease-IsGrantTo cid stolen x spans ttl now t h, rw same at rest.4),
      )

  pub IsGranting-IsValid : (t : LeaseTable F) → IsGranting cid stolen [] t → IsValid t
  IsGranting-IsValid t h = record {
    blocks = record {
      pool = h.pool;
      free_at = λ p. let old = h.free_at p in ground (arith, old);
      leased_at = λ p. let old = h.leased_at p in ground (arith, old);
      committed_count = h.committed_count;
      quarantined_count = h.quarantined_count;
    };
    marks = h.marks;
    unique = h.unique;
    owned = h.owned;
    credit = h.credit;
  }
