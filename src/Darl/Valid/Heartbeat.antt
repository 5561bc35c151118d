-- ===== src/Darl/Valid/Heartbeat.antt =====
-- The invariant of the lease table under `heartbeat` (src/pww/darl/table.py).
use project_world_wide.Prelude.{
  ℕ, ◌≡◌, refl, not, ◌||◌, inl, inr, String, some, List, [], ◌∷◌, ◌==◌, arith, Option-cases, str_eq,
  Bool-cases, Returns, Returns-bind, subst, sym, eq_iff,
}
use project_world_wide.Prelude.Dict.{lookup, lookup-put}
use project_world_wide.Darl.Floats.{Floats}
use project_world_wide.Darl.Lease.{Lease, LeaseId, ClusterRecord, find_lease, set_lease}
use project_world_wide.Darl.Table.{LeaseTable, modify_cluster, register_plain}
use project_world_wide.Darl.Table.Reclaim.{reap}
use project_world_wide.Darl.Table.Hold.{
  heartbeat, heartbeat_one, heartbeat_all, renew, measure, granted_ttl,
}
use project_world_wide.Darl.Blocks.{
  lease_holds, sum_by-set_lease, All-find_lease, All-set_lease, set_lease-IsUnique, find_lease_id,
}
use project_world_wide.Darl.Valid.{IsMarked, IsOwned, IsValid}
use project_world_wide.Darl.Valid.GivenBack.{
  IsGivenBack, IsGivenBack-refl, IsGivenBack-trans, modify_cluster-IsNoted, same-IsGivenBack,
}
use project_world_wide.Darl.Valid.Expiry.{reap-IsGivenBack}
use project_world_wide.Darl.Valid.Registration.{register_plain-IsRegistered, IsRegistered}

module _ {F : Type 0} ⦃fl : Floats F⦄ where
  renewed-IsValid :
      (t : LeaseTable F) (l : Lease F) (watermark : ℕ) (now ttl : F)
      → IsValid t
      → find_lease l.lease_id t.leases ≡ some l
      → IsValid (record t { leases = set_lease (renew watermark now ttl l) t.leases })
  unfolding renew
  renewed-IsValid t l watermark now ttl h held =
      let n = renew watermark now ttl l in
      let m =
        All-find_lease (IsMarked t.config.num_blocks t.epoch t.seq) l.lease_id l t.leases held
          h.marks in
      record {
        blocks = record {
          pool = h.blocks.pool;
          free_at = h.blocks.free_at;
          leased_at = λ p.
              let old = h.blocks.leased_at p in
              omega (arith, old, sum_by-set_lease (lease_holds p) n l t.leases held);
          committed_count = h.blocks.committed_count;
          quarantined_count = h.blocks.quarantined_count;
        };
        marks =
            All-set_lease (IsMarked t.config.num_blocks t.epoch t.seq) n t.leases
              (record {
                started = m.started;
                consumed = let a = m.consumed in omega (arith, a);
                within_end = let a = m.within_end in omega (arith, a);
                unfinished = m.unfinished;
                in_space = m.in_space;
                current = m.current;
                numbered = m.numbered;
              })
              h.marks;
        unique = set_lease-IsUnique n t.leases h.unique;
        owned =
            All-set_lease (IsOwned t.clusters) n t.leases
              (All-find_lease (IsOwned t.clusters) l.lease_id l t.leases held h.owned) h.owned;
        credit = h.credit;
      }

  heartbeat_one-IsGivenBack :
      (cid : String) (now ttl : F) (i : LeaseId) (watermark : ℕ) (t : LeaseTable F)
      → IsValid t
      → IsGivenBack t (heartbeat_one cid now ttl i watermark t).1
  unfolding heartbeat_one
  heartbeat_one-IsGivenBack cid now ttl i watermark t h =
      elim (Option-cases (find_lease i t.leases)) [
        | inl e ↦ rw (e, heartbeat_one) (IsGivenBack-refl t h)
        | inr (l, e) ↦ elim (Bool-cases (not (str_eq l.cluster cid) || not (l.epoch == t.epoch))) [
          | inl foreign ↦ rw (e, heartbeat_one, foreign) (IsGivenBack-refl t h)
          | inr own ↦
              rw (e, heartbeat_one, own)
                (same-IsGivenBack t
                  (record t { leases = set_lease (renew watermark now ttl l) t.leases })
                  (renewed-IsValid t l watermark now ttl h (
                    subst (λ j. find_lease j t.leases ≡ some l) (sym (find_lease_id i l t.leases e))
                      e))
                  refl refl refl refl)
        ]
      ]

  heartbeat_all-IsGivenBack :
      (cid : String) (now ttl : F) (progress : List (LeaseId × ℕ)) (t : LeaseTable F)
      → IsValid t
      → IsGivenBack t (heartbeat_all cid now ttl progress t).1
  unfolding heartbeat_all
  heartbeat_all-IsGivenBack cid now ttl [] t h = IsGivenBack-refl t h
  heartbeat_all-IsGivenBack cid now ttl ((i, watermark) ∷ progress) t h =
      let u = (heartbeat_one cid now ttl i watermark t).1 in
      let first = heartbeat_one-IsGivenBack cid now ttl i watermark t h in
      IsGivenBack-trans t u (heartbeat_all cid now ttl progress u).1 first
        (heartbeat_all-IsGivenBack cid now ttl progress u first.valid)

  pub measured_known :
      (cid : String) (macro_step_s rtt_s : F) (t : LeaseTable F) (r : ClusterRecord F)
      → lookup cid t.clusters ≡ some r
      → (s : ClusterRecord F) × (lookup cid
            (modify_cluster cid (measure macro_step_s rtt_s) t).clusters
          ≡ some s)
  unfolding modify_cluster
  measured_known cid macro_step_s rtt_s t r e = (
    measure macro_step_s rtt_s r,
    rw (e, modify_cluster) (rw lookup-put (rw ((eq_iff cid cid).1 refl) refl)),
  )

  -- From a valid table a heartbeat of any cluster, whatever it reports, raises nothing and leaves a
  -- valid table. It commits no block; blocks that were not leased keep their state.
  pub heartbeat-IsGivenBack :
      (cid : String) (progress : List (LeaseId × ℕ)) (macro_step_s rtt_s ttl now : F)
      (t : LeaseTable F)
      → IsValid t
      → Returns (heartbeat cid progress macro_step_s rtt_s ttl now t) (λ a. IsGivenBack t a.1)
  unfolding heartbeat
  heartbeat-IsGivenBack cid progress macro_step_s rtt_s ttl now t h =
      Returns-bind (reap now t) _ (λ r. IsGivenBack t r.0) (λ a. IsGivenBack t a.1)
        (reap-IsGivenBack now t h)
        λ r k.
          Returns-bind (register_plain cid now r.0) _ (IsRegistered cid r.0)
            (λ a. IsGivenBack t a.1) (register_plain-IsRegistered cid now r.0 k.valid)
            λ t1 reg.
              let t2 = modify_cluster cid (measure macro_step_s rtt_s) t1 in
              let noted =
                modify_cluster-IsNoted cid (measure macro_step_s rtt_s) t1
                  (λ s. unfold measure in omega arith) reg.0 in
              let upto = IsGivenBack-trans t r.0 t2 k (
                IsGivenBack-trans r.0 t1 t2 (same-IsGivenBack r.0 t1 reg.0 reg.3 reg.7 reg.6 reg.5)
                  noted.0) in
              let (s, known) = measured_known cid macro_step_s rtt_s t1 reg.1.0 reg.1.1 in
              rw (known, heartbeat)
                (IsGivenBack-trans t t2 (heartbeat_all cid now (granted_ttl ttl s t2) progress t2).1
                  upto
                  (heartbeat_all-IsGivenBack cid now (granted_ttl ttl s t2) progress t2 upto.valid))
