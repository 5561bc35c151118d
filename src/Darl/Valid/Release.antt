-- ===== src/Darl/Valid/Release.antt =====
-- The invariant of the lease table under `release` (src/pww/darl/table.py).
use project_world_wide.Prelude.{
  ◌+◌, ◌≡◌, sym, Bool, not, inl, inr, String, Option, some, List, [], ◌∷◌, ◌==◌, Option-cases,
  str_eq, Bool-cases, Returns, Returns-bind, ok, subst,
}
use project_world_wide.Darl.Lease.{LeaseId, find_lease, del_lease, released}
use project_world_wide.Darl.Table.{LeaseTable, record_event}
use project_world_wide.Darl.Table.Reclaim.{reclaim, release_all, release, release_targets}
use project_world_wide.Darl.Blocks.{find_lease_id}
use project_world_wide.Darl.Valid.{IsValid}
use project_world_wide.Darl.Valid.GivenBack.{
  IsGivenBack, IsGivenBack-refl, IsGivenBack-trans, reclaim-IsGivenBack, record_event-IsNoted,
}

module _ {F : Type 0} where
  release_all-IsGivenBack :
      (count_attempt : Bool) (cid : String) (targets : List LeaseId) (t : LeaseTable F)
      → IsValid t
      → Returns (release_all count_attempt cid targets t) (λ r. IsGivenBack t r.0)
  unfolding release_all
  release_all-IsGivenBack count_attempt cid [] t h = IsGivenBack-refl t h
  release_all-IsGivenBack count_attempt cid (i ∷ targets) t h =
      let skip = release_all-IsGivenBack count_attempt cid targets t h in
      elim (Option-cases (find_lease i t.leases)) [
        | inl e ↦ rw (e, release_all) skip
        | inr (l, e) ↦ elim (Bool-cases (not (str_eq l.cluster cid))) [
          | inl other ↦ rw (e, release_all, other) skip
          | inr own ↦
              rw (e, release_all, own)
                (Returns-bind (reclaim count_attempt l t) _
                  (λ r. IsGivenBack t r.0 × (r.0.leases ≡ del_lease l.lease_id t.leases))
                  (λ r. IsGivenBack t r.0)
                  (reclaim-IsGivenBack t l h
                    (subst (λ j. find_lease j t.leases ≡ some l)
                      (sym (find_lease_id i l t.leases e)) e)
                    count_attempt)
                  λ r k.
                    Returns-bind (release_all count_attempt cid targets r.0)
                      (λ rest. ok (rest.0, r.1 + rest.1)) (λ s. IsGivenBack r.0 s.0)
                      (λ s. IsGivenBack t s.0)
                      (release_all-IsGivenBack count_attempt cid targets r.0 k.0.valid)
                      λ s q. IsGivenBack-trans t r.0 s.0 k.0 q)
        ]
      ]

  -- From a valid table, releasing one lease or all of a cluster's leases raises nothing, whoever asks
  -- and whether attempts are counted or not, and leaves a valid table; it commits no block, and
  -- blocks that were not leased keep their state.
  pub release-IsGivenBack :
      (cid : String) (lease_id : Option LeaseId) (incarnation : String) (count_attempt : Bool)
      (t : LeaseTable F)
      → IsValid t
      → Returns (release cid lease_id incarnation count_attempt t) (λ r. IsGivenBack t r.0)
  unfolding release
  release-IsGivenBack cid lease_id incarnation count_attempt t h =
      elim (Option-cases (release_targets cid lease_id incarnation t)) [
        | inl e ↦ rw (e, release) ((record_event-IsNoted _ t h).0)
        | inr (targets, e) ↦
            rw (e, release)
              (Returns-bind (release_all count_attempt cid targets t) _ (λ r. IsGivenBack t r.0)
                (λ r. IsGivenBack t r.0) (release_all-IsGivenBack count_attempt cid targets t h)
                λ r k. elim (Bool-cases (r.1 == 0)) [
                  | inl empty ↦ rw empty k
                  | inr some_back ↦ rw some_back (
                      IsGivenBack-trans t r.0 (record_event (released cid r.1) r.0) k
                        (record_event-IsNoted (released cid r.1) r.0 k.valid).0)
                ])
      ]
