-- ===== src/Darl/Valid/Frames.antt =====
-- Building the invariant of the lease table (src/pww/darl/table.py) from its parts.
use project_world_wide.Prelude.{
  ℕ, ◌≤◌, ◌≡◌, refl, sym, inl, inr, String, some, List, All, All-map, arith, Option-cases, str_eq,
  Bool-cases, subst,
}
use project_world_wide.Prelude.Dict.{
  Dict, lookup, put, lookup-put, sum_values-put, sum_values-put_new,
}
use project_world_wide.Darl.Interval.{IntervalSet}
use project_world_wide.Darl.Lease.{BlockState, Lease, ClusterRecord, Event}
use project_world_wide.Darl.Table.{LeaseTable, modify_cluster, record_event}
use project_world_wide.Darl.Blocks.{IsConsistent, IsUnique}
use project_world_wide.Darl.Valid.{IsMarked, IsOwned, IsValid, credited}

module _ {F : Type 0} where
  IsConsistent-eq :
      (n n' : ℕ) (state : ℕ → BlockState) (free : IntervalSet) (ls ls' : List (Lease F))
      (done done' lost : ℕ)
      → n' ≡ n
      → ls' ≡ ls
      → done' ≡ done
      → IsConsistent n state free ls done lost
      → IsConsistent n' state free ls' done' lost
  IsConsistent-eq n n' state free ls ls' done done' lost e1 e2 e3 h = rw (e1, e2, e3) h

  marks_eq :
      (n n' e e' s s' : ℕ) (ls ls' : List (Lease F))
      → n' ≡ n
      → e' ≡ e
      → s' ≡ s
      → ls' ≡ ls
      → All (IsMarked n e s) ls
      → All (IsMarked n' e' s') ls'
  marks_eq n n' e e' s s' ls ls' e1 e2 e3 e4 h = rw (e1, e2, e3, e4) h

  IsOwned-eq :
      (c c' : Dict (ClusterRecord F)) (ls ls' : List (Lease F))
      → c' ≡ c
      → ls' ≡ ls
      → All (IsOwned c) ls
      → All (IsOwned c') ls'
  IsOwned-eq c c' ls ls' e1 e2 h = rw (e1, e2) h

  -- A table whose fields are known up to equations.
  pub IsValid-of :
      (u : LeaseTable F) (n epoch seq : ℕ) (clusters : Dict (ClusterRecord F))
      (leases : List (Lease F)) (done : ℕ)
      → u.config.num_blocks ≡ n
      → u.epoch ≡ epoch
      → u.seq ≡ seq
      → u.clusters ≡ clusters
      → u.leases ≡ leases
      → u.committed ≡ done
      → IsConsistent n u.state u.free leases done u.quarantined
      → All (IsMarked n epoch seq) leases
      → IsUnique leases
      → All (IsOwned clusters) leases
      → done ≤ credited clusters
      → IsValid u
  IsValid-of u n epoch seq clusters leases done en ee es ec el ed blocks marks unique owned credit =
      record {
        blocks =
            IsConsistent-eq n u.config.num_blocks u.state u.free leases u.leases done u.committed
              u.quarantined en el ed blocks;
        marks =
            marks_eq n u.config.num_blocks epoch u.epoch seq u.seq leases u.leases en ee es el
              marks;
        unique = subst IsUnique (sym el) unique;
        owned = IsOwned-eq clusters u.clusters leases u.leases ec el owned;
        credit = subst (λ c. u.committed ≤ credited c) (sym ec) (omega arith);
      }

  pub IsOwned-put :
      (cid : String) (r : ClusterRecord F) (c : Dict (ClusterRecord F)) (l : Lease F)
      → IsOwned c l
      → IsOwned (put cid r c) l
  IsOwned-put cid r c l h = elim (Bool-cases (str_eq cid l.cluster)) [
    | inl same ↦ (r, rw lookup-put (rw same refl))
    | inr other ↦ (h.0, rw lookup-put (rw other h.1))
  ]

  -- A record may be replaced by one with as many committed blocks, or a new one added.
  pub put-IsValid :
      (t : LeaseTable F) (cid : String) (r : ClusterRecord F)
      → IsValid t
      → ((old : ClusterRecord F)
          → lookup cid t.clusters ≡ some old
          → old.blocks_committed ≤ r.blocks_committed)
      → IsValid (record t { clusters = put cid r t.clusters })
  put-IsValid t cid r h more = record {
    blocks = h.blocks;
    marks = h.marks;
    unique = h.unique;
    owned =
        All-map (IsOwned t.clusters) (IsOwned (put cid r t.clusters)) (IsOwned-put cid r t.clusters)
          t.leases h.owned;
    credit = elim (Option-cases (lookup cid t.clusters)) [
      | inl absent ↦
          let old = h.credit in
          omega (
            arith,
            old,
            sum_values-put_new (λ (x : ClusterRecord F). x.blocks_committed) cid r t.clusters
                absent,
          )
      | inr (o, e) ↦
          let old = h.credit in
          omega (
            arith,
            old,
            more o e,
            sum_values-put (λ (x : ClusterRecord F). x.blocks_committed) cid r o t.clusters e,
          )
    ];
  }

  pub modify_cluster-IsValid :
      (cid : String) (f : ClusterRecord F → ClusterRecord F) (t : LeaseTable F)
      → ((r : ClusterRecord F) → r.blocks_committed ≤ (f r).blocks_committed)
      → IsValid t
      → IsValid (modify_cluster cid f t)
  unfolding modify_cluster
  modify_cluster-IsValid cid f t more h = elim (Option-cases (lookup cid t.clusters)) [
    | inl e ↦ rw (e, modify_cluster) h
    | inr (r, e) ↦
        rw (e, modify_cluster)
          (put-IsValid t cid (f r) h (λ o e'. let same : r ≡ o = cc in rw (← same) (more r)))
  ]

  pub record_event-IsValid :
      (e : Event F) (t : LeaseTable F) → IsValid t → IsValid (record_event e t)
  record_event-IsValid e t h = record {
    blocks = h.blocks;
    marks = h.marks;
    unique = h.unique;
    owned = h.owned;
    credit = h.credit;
  }
