-- ===== src/Darl/Valid/Expiry.antt =====
-- The invariant of the lease table under `reap` (src/pww/darl/table.py).
use project_world_wide.Prelude.{
  ℕ, ◌+◌, ◌≡◌, refl, true, false, inl, inr, none, List, [], ◌∷◌, ◌==◌, All, arith, Bool-cases,
  Returns, Returns-bind, ok, ◌∙◌,
}
use project_world_wide.Darl.Floats.{Floats}
use project_world_wide.Darl.Lease.{
  Lease, LeaseId, ClusterRecord, find_lease, del_lease, same_id, same_id_refl, expired,
}
use project_world_wide.Darl.Table.{LeaseTable, modify_cluster, record_event}
use project_world_wide.Darl.Table.Reclaim.{
  reclaim, note_expiry, reap_all, overdue, is_overdue, reap,
}
use project_world_wide.Darl.Blocks.{IsUnique}
use project_world_wide.Darl.Valid.{IsValid}
use project_world_wide.Darl.Valid.GivenBack.{
  IsGivenBack, IsGivenBack-refl, IsGivenBack-trans, reclaim-IsGivenBack, IsNoted,
  modify_cluster-IsNoted, record_event-IsNoted, IsNoted-trans, AreHeld, absent_ne,
  AreHeld-del_lease,
}

module _ {F : Type 0} ⦃fl : Floats F⦄ where
  note_expiry-IsNoted :
      (now : F) (l : Lease F) (n : ℕ) (t : LeaseTable F)
      → IsValid t
      → IsNoted t (note_expiry now l n t)
  unfolding note_expiry
  note_expiry-IsNoted now l n t h =
      let f : ClusterRecord F → ClusterRecord F =
        λ r. record r { blocks_lost = r.blocks_lost + n; expiries = r.expiries + 1 } in
      let noted = modify_cluster-IsNoted l.cluster f t (λ r. omega arith) h in
      let u = modify_cluster l.cluster f t in
      elim (Bool-cases (n == 0)) [
        | inl e ↦ rw e noted
        | inr e ↦ rw e (
            IsNoted-trans t u
              (record_event
                (expired l.cluster n l.lease_id (fl.round 1 (fl.add (fl.sub now l.deadline) l.ttl)))
                u)
              noted (record_event-IsNoted _ u noted.0.valid))
      ]

  reap_all-IsGivenBack :
      (now : F) (ls : List (Lease F)) (t : LeaseTable F)
      → IsValid t
      → IsUnique ls
      → AreHeld t.leases ls
      → Returns (reap_all now ls t) (λ r. IsGivenBack t r.0)
  unfolding reap_all
  reap_all-IsGivenBack now [] t h a b = IsGivenBack-refl t h
  reap_all-IsGivenBack now (l ∷ ls) t h a b =
      Returns-bind (reclaim true l t) _
        (λ r. IsGivenBack t r.0 × (r.0.leases ≡ del_lease l.lease_id t.leases))
        (λ r. IsGivenBack t r.0) (reclaim-IsGivenBack t l h b.0 true)
        λ r k.
          let u = note_expiry now l r.1 r.0 in
          let noted = note_expiry-IsNoted now l r.1 r.0 k.0.valid in
          let still : AreHeld u.leases ls =
            rw (noted.1 ∙ k.1) (AreHeld-del_lease t.leases l ls (absent_ne l ls a.0) b.1) in
          Returns-bind (reap_all now ls u) (λ rest. ok (rest.0, r.1 + rest.1))
            (λ s. IsGivenBack u s.0) (λ s. IsGivenBack t s.0)
            (reap_all-IsGivenBack now ls u noted.0.valid a.1 still)
            λ s q. IsGivenBack-trans t u s.0 (IsGivenBack-trans t r.0 u k.0 noted.0) q

  overdue-none :
      (now : F) (i : LeaseId) (ls : List (Lease F))
      → find_lease i ls ≡ none
      → find_lease i (overdue now ls) ≡ none
  unfolding overdue find_lease
  overdue-none now i [] h = refl
  overdue-none now i (m ∷ ls) h = ground (arith, overdue-none now i ls)

  overdue-IsUnique : (now : F) (ls : List (Lease F)) → IsUnique ls → IsUnique (overdue now ls)
  unfolding overdue
  overdue-IsUnique now [] h = tt
  overdue-IsUnique now (m ∷ ls) h = elim (Bool-cases (is_overdue now m)) [
    | inl e ↦ rw e (overdue-none now m.lease_id ls h.0, overdue-IsUnique now ls h.1)
    | inr e ↦ rw e (overdue-IsUnique now ls h.1)
  ]

  -- In a list with unique ids every member is found; so are the overdue ones.
  AreHeld-cons :
      (m : Lease F) (held ls : List (Lease F))
      → All (λ l. same_id m.lease_id l.lease_id ≡ false) ls
      → AreHeld held ls
      → AreHeld (m ∷ held) ls
  unfolding find_lease
  AreHeld-cons m held [] a h = tt
  AreHeld-cons m held (l ∷ ls) a h = (rw a.0 h.0, AreHeld-cons m held ls a.1 h.1)

  overdue-AreHeld : (now : F) (ls : List (Lease F)) → IsUnique ls → AreHeld ls (overdue now ls)
  unfolding overdue find_lease
  overdue-AreHeld now [] h = tt
  overdue-AreHeld now (m ∷ ls) h =
      let rest =
        AreHeld-cons m ls (overdue now ls)
          (absent_ne m (overdue now ls) (overdue-none now m.lease_id ls h.0))
          (overdue-AreHeld now ls h.1) in
      elim (Bool-cases (is_overdue now m)) [
        | inl e ↦ rw e (rw (same_id_refl m.lease_id) refl, rest)
        | inr e ↦ rw e rest
      ]

  -- From a valid table, reaping at any time raises nothing (no block is found free twice) and leaves
  -- a valid table; it commits no block, and blocks that were not leased keep their state.
  pub reap-IsGivenBack :
      (now : F) (t : LeaseTable F) → IsValid t → Returns (reap now t) (λ r. IsGivenBack t r.0)
  unfolding reap
  reap-IsGivenBack now t h =
      reap_all-IsGivenBack now (overdue now t.leases) t h (overdue-IsUnique now t.leases h.unique)
        (overdue-AreHeld now t.leases h.unique)
