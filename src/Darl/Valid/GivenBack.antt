-- ===== src/Darl/Valid/GivenBack.antt =====
-- The invariant under `_reclaim` (src/pww/darl/table.py), and under counters and events.
use project_world_wide.Prelude.{
  ℕ, ◌≤◌, ◌≡◌, refl, Bool, true, false, inl, inr, String, none, some, List, [], ◌∷◌, All, arith,
  Option-cases, Bool-cases, Returns, Returns-map, ◌∙◌, ap,
}
use project_world_wide.Prelude.Dict.{lookup}
use project_world_wide.Darl.Lease.{
  committed, leased, in_state, Lease, ClusterRecord, Event, find_lease, del_lease, same_id,
}
use project_world_wide.Darl.Table.{LeaseTable, modify_cluster, record_event}
use project_world_wide.Darl.Table.Reclaim.{reclaim}
use project_world_wide.Darl.Table.Reclaim.Safe.{IsReclaimed, reclaim-IsReclaimed}
use project_world_wide.Darl.Blocks.{
  All-find_lease, All-del_lease, del_lease-IsUnique, find_lease-del_lease_ne, same_id_sym,
}
use project_world_wide.Darl.Valid.{IsMarked, IsOwned, IsValid}
use project_world_wide.Darl.Valid.Frames.{IsValid-of, modify_cluster-IsValid, record_event-IsValid}

-- What giving blocks back leaves alone: blocks that are not leased keep their state, and no lease is
-- made. A leased block stays leased or becomes unassigned or quarantined, never committed.
pub record IsGivenBack {F : Type 0} (t u : LeaseTable F) : Type 0 where
  pub valid : IsValid u
  pub settled : (p : ℕ) → in_state (t.state p) leased ≡ false → u.state p ≡ t.state p
  pub unsettled :
      (p : ℕ) → in_state (t.state p) leased ≡ true → in_state (u.state p) committed ≡ false
  pub done : u.committed ≡ t.committed
  pub epoch : u.epoch ≡ t.epoch
  pub config : u.config ≡ t.config

module _ {F : Type 0} where
  pub IsGivenBack-refl : (t : LeaseTable F) → IsValid t → IsGivenBack t t
  IsGivenBack-refl t h = record {
    valid = h;
    settled = λ p k. refl;
    unsettled = λ p k. ground arith;
    done = refl;
    epoch = refl;
    config = refl;
  }

  pub IsGivenBack-trans :
      (t u v : LeaseTable F) → IsGivenBack t u → IsGivenBack u v → IsGivenBack t v
  IsGivenBack-trans t u v h k = record {
    valid = k.valid;
    settled = λ p a.
        let first = h.settled p a in
        let same : in_state (u.state p) leased ≡ false = rw first a in k.settled p same ∙ first;
    unsettled = λ p a.
        let first = h.unsettled p a in
        elim (Bool-cases (in_state (u.state p) leased)) [
          | inl still ↦ k.unsettled p still
          | inr gone ↦ rw (k.settled p gone) first
        ];
    done = let a = h.done in let b = k.done in b ∙ a;
    epoch = let a = h.epoch in let b = k.epoch in b ∙ a;
    config = let a = h.config in let b = k.config in b ∙ a;
  }

  pub same-IsGivenBack :
      (t u : LeaseTable F)
      → IsValid u
      → u.state ≡ t.state
      → u.committed ≡ t.committed
      → u.epoch ≡ t.epoch
      → u.config ≡ t.config
      → IsGivenBack t u
  same-IsGivenBack t u h es ed ee ec = record {
    valid = h;
    settled = λ p k. ap (λ f. f p) es;
    unsettled = λ p k. let e : u.state p ≡ t.state p = ap (λ f. f p) es in rw e (ground arith);
    done = ed;
    epoch = ee;
    config = ec;
  }

  module _ (t : LeaseTable F) (l : Lease F) (h : IsValid t)
      (held : find_lease l.lease_id t.leases ≡ some l) where
    -- Reclaiming a held lease raises nothing, and removes exactly it from the leases.
    pub reclaim-IsGivenBack :
        (count_attempt : Bool)
        → Returns
            (reclaim count_attempt l t)
            (λ r. IsGivenBack t r.0 × (r.0.leases ≡ del_lease l.lease_id t.leases))
    reclaim-IsGivenBack count_attempt =
        Returns-map (reclaim count_attempt l t) (λ r. IsReclaimed t l r.0 r.1)
          (λ r. IsGivenBack t r.0 × (r.0.leases ≡ del_lease l.lease_id t.leases))
          (λ r k. (
            record {
              valid =
                  IsValid-of r.0 t.config.num_blocks t.epoch t.seq t.clusters
                    (del_lease l.lease_id t.leases) t.committed
                    (let e = k.frame.config in ap (λ c. c.num_blocks) e) k.frame.epoch k.frame.seq
                    k.frame.clusters k.frame.leases k.frame.committed k.blocks
                    (All-del_lease (IsMarked t.config.num_blocks t.epoch t.seq) l.lease_id t.leases
                      h.marks)
                    (del_lease-IsUnique l.lease_id t.leases h.unique)
                    (All-del_lease (IsOwned t.clusters) l.lease_id t.leases h.owned) h.credit;
              settled = λ p a.
                  let inside = k.given_back p in
                  let outside = k.elsewhere p in ground (arith, inside, outside);
              unsettled = λ p a.
                  let inside = k.given_back p in
                  let outside = k.elsewhere p in ground (arith, inside, outside);
              done = k.frame.committed;
              epoch = k.frame.epoch;
              config = k.frame.config;
            },
            k.frame.leases,
          ))
          (reclaim-IsReclaimed t l h.blocks held
            (All-find_lease (IsMarked t.config.num_blocks t.epoch t.seq) l.lease_id l t.leases held
              h.marks)
            count_attempt)

  -- A change that only counters and events see.
  abbrev pub IsNoted : LeaseTable F → LeaseTable F → Type 0
  IsNoted t u = IsGivenBack t u × (u.leases ≡ t.leases)

  pub modify_cluster-IsNoted :
      (cid : String) (f : ClusterRecord F → ClusterRecord F) (t : LeaseTable F)
      → ((r : ClusterRecord F) → r.blocks_committed ≤ (f r).blocks_committed)
      → IsValid t
      → IsNoted t (modify_cluster cid f t)
  unfolding modify_cluster
  modify_cluster-IsNoted cid f t more h =
      let valid' = modify_cluster-IsValid cid f t more h in
      elim (Option-cases (lookup cid t.clusters)) [
        | inl e ↦ rw (e, modify_cluster) (IsGivenBack-refl t h, refl)
        | inr (r, e) ↦
            rw (e, modify_cluster)
              (
                record {
                  valid = rw (e, modify_cluster) at valid';
                  settled = λ p k. refl;
                  unsettled = λ p k. ground arith;
                  done = refl;
                  epoch = refl;
                  config = refl;
                },
                refl,
              )
      ]

  pub record_event-IsNoted :
      (e : Event F) (t : LeaseTable F) → IsValid t → IsNoted t (record_event e t)
  record_event-IsNoted e t h = (
    record {
      valid = record_event-IsValid e t h;
      settled = λ p k. refl;
      unsettled = λ p k. ground arith;
      done = refl;
      epoch = refl;
      config = refl;
    },
    refl,
  )

  pub IsNoted-trans : (t u v : LeaseTable F) → IsNoted t u → IsNoted u v → IsNoted t v
  IsNoted-trans t u v h k = (IsGivenBack-trans t u v h.0 k.0, k.1 ∙ h.1)

  -- All of these leases stand in the table under their ids.
  abbrev pub AreHeld : List (Lease F) → List (Lease F) → Type 0
  AreHeld held = All (λ l. find_lease l.lease_id held ≡ some l)

  pub absent_ne :
      (l : Lease F) (ls : List (Lease F))
      → find_lease l.lease_id ls ≡ none
      → All (λ m. same_id l.lease_id m.lease_id ≡ false) ls
  unfolding find_lease
  absent_ne l [] h = tt
  absent_ne l (m ∷ ls) h = elim (Bool-cases (same_id m.lease_id l.lease_id)) [
    | inl e ↦ let h' = (rw e at h) in cc h'
    | inr e ↦ (same_id_sym l.lease_id m.lease_id ∙ e, absent_ne l ls (rw e at h))
  ]

  pub AreHeld-del_lease :
      (held : List (Lease F)) (l : Lease F) (ls : List (Lease F))
      → All (λ m. same_id l.lease_id m.lease_id ≡ false) ls
      → AreHeld held ls
      → AreHeld (del_lease l.lease_id held) ls
  AreHeld-del_lease held l [] a h = tt
  AreHeld-del_lease held l (m ∷ ls) a h = (
    find_lease-del_lease_ne l.lease_id m.lease_id held a.0 ∙ h.0,
    AreHeld-del_lease held l ls a.1 h.1,
  )
