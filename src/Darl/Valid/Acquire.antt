-- ===== src/Darl/Valid/Acquire.antt =====
-- The invariant of the lease table under `acquire` (src/pww/darl/table.py).
use project_world_wide.Prelude.{
  All, ℕ, ◌+◌, ◌<◌, ◌≡◌, refl, sym, true, false, ◌&&◌, ◌⊎◌, inl, inr, String, some, ◌==◌, arith,
  Bool-cases, ap, length, leb, ltb, ◌∙◌, Returns, Returns-bind, Returns-map, Returns-eq, ok, [],
  ◌∷◌, List, ◌≤◌, Option-cases,
}
use project_world_wide.Prelude.Dict.{lookup, lookup-map_values}
use project_world_wide.Darl.Floats.{Floats}
use project_world_wide.Darl.Lease.{Lease, Grant, leased, in_state, ClusterRecord}
use project_world_wide.Darl.Table.{
  LeaseTable, modify_cluster, register_plain, advance_epoch, reset_epoch, reset_cursor,
  epoch_is_complete,
}
use project_world_wide.Darl.Table.Reclaim.{reap}
use project_world_wide.Darl.Table.Hold.{measure}
use project_world_wide.Darl.Table.Acquire.{allocate, serve, acquire}
use project_world_wide.Darl.Valid.{IsValid}
use project_world_wide.Darl.Valid.GivenBack.{
  IsGivenBack, IsGivenBack-trans, modify_cluster-IsNoted, same-IsGivenBack,
}
use project_world_wide.Darl.Valid.Expiry.{reap-IsGivenBack}
use project_world_wide.Darl.Valid.Registration.{
  IsRegistered, register_plain-IsRegistered, advance_epoch-IsValid,
}
use project_world_wide.Darl.Valid.Heartbeat.{measured_known}
use project_world_wide.Darl.Valid.Granting.{IsGrantTo}
use project_world_wide.Darl.Valid.Allocation.{IsAllocated, IsAllocatedTo, allocate-IsAllocated}

-- No lease is left, and as many blocks as there are have been committed or quarantined.
abbrev pub IsOver : {F : Type 0} → LeaseTable F → Type 0
IsOver t = (t.config.num_blocks ≤ t.committed + t.quarantined) × (t.leases ≡ [])

-- The table is over once its silent leases have been reaped.
abbrev pub IsOverAt : {F : Type 0} → ⦃fl : Floats F⦄ → F → LeaseTable F → Type 0
IsOverAt {F} now t = (r : LeaseTable F × ℕ) × (reap now t ≡ ok r) × IsOver r.0

-- What a request keeps: within the epoch no committed block has lost its state, and the only other
-- outcome is the epoch after it, if what `Over` says of the table holds.
abbrev pub IsAcquired : {F : Type 0} → Type 0 → LeaseTable F → LeaseTable F → Type 0
IsAcquired Over t u =
    IsAllocated t u ⊎ (IsValid u × (u.epoch ≡ t.epoch + 1) × (u.config ≡ t.config) × Over)

abbrev pub IsServed :
    {F : Type 0} → Type 0 → String → LeaseTable F → Grant F × LeaseTable F → Type 0
IsServed Over cid t a = IsAcquired Over t a.1 × All (IsGrantTo cid t.config.num_blocks) a.0.leases

module _ {F : Type 0} ⦃fl : Floats F⦄ where
  no_leases : (ls : List (Lease F)) → (length ls == 0) ≡ true → ls ≡ []
  no_leases [] h = refl
  no_leases (l ∷ ls) h = absurd (ground arith)

  modify_cluster_same :
      (cid : String) (f : ClusterRecord F → ClusterRecord F) (t : LeaseTable F)
      → ((modify_cluster cid f t).quarantined ≡ t.quarantined)
        × ((modify_cluster cid f t).committed ≡ t.committed)
        × ((modify_cluster cid f t).leases ≡ t.leases)
        × ((modify_cluster cid f t).config ≡ t.config)
  unfolding modify_cluster
  modify_cluster_same cid f t = elim (Option-cases (lookup cid t.clusters)) [
    | inl e ↦ rw (e, modify_cluster) (refl, refl, refl, refl)
    | inr (r, e) ↦ rw (e, modify_cluster) (refl, refl, refl, refl)
  ]

  IsGivenBack-IsAllocated : (t u : LeaseTable F) → IsGivenBack t u → IsAllocated t u
  IsGivenBack-IsAllocated t u k = (
    k.valid,
    k.epoch,
    (λ p a.
        let free : in_state (t.state p) leased ≡ false = ground (arith, a) in
        rw (k.settled p free) a),
    k.config,
  )

  IsAllocated-trans : (t u v : LeaseTable F) → IsAllocated t u → IsAllocated u v → IsAllocated t v
  IsAllocated-trans t u v h k = (k.0, k.1 ∙ h.1, (λ p a. k.2 p (h.2 p a)), k.3 ∙ h.3)

  advanced_known :
      (cid : String) (clk : F) (t : LeaseTable F) (r : ClusterRecord F)
      → lookup cid t.clusters ≡ some r
      → (s : ClusterRecord F) × (lookup cid (advance_epoch clk t).1.clusters ≡ some s)
  unfolding advance_epoch reset_epoch
  advanced_known cid clk t r e = elim (Bool-cases (leb t.config.max_epochs (t.epoch + 1))) [
    | inl spent ↦ rw spent (r, e)
    | inr left ↦ rw left (reset_cursor r, rw lookup-map_values (rw e refl))
  ]

  pub advance_config : (clk : F) (t : LeaseTable F) → (advance_epoch clk t).1.config ≡ t.config
  unfolding advance_epoch reset_epoch
  advance_config clk t = ground arith

  -- `acquire` after the silent leases have been reaped and the cluster has registered.
  IsServed-IsAcquired :
      (cid : String) (blocks max_spans : ℕ) (ttl now clk : F) (t : LeaseTable F)
      (r : ClusterRecord F)
      → lookup cid t.clusters ≡ some r
      → 0 < t.config.num_blocks
      → 0 < t.config.steal_min_blocks
      → IsValid t
      → Returns (serve cid blocks ttl max_spans now clk t) (IsServed (IsOver t) cid t)
  unfolding serve
  IsServed-IsAcquired cid blocks max_spans ttl now clk t r known some_blocks some_steal h =
      elim (Bool-cases (epoch_is_complete t && length t.leases == 0)) [
        | inr going ↦ rw going (
            Returns-map (allocate cid blocks ttl max_spans now clk t) (IsAllocatedTo cid t)
              (IsServed (IsOver t) cid t) (λ a k. (inl k.0, k.1))
              (allocate-IsAllocated cid t h r known some_steal blocks max_spans ttl now clk))
        | inl complete ↦
            let over : IsOver t =
              (ground (arith, complete), no_leases t.leases (ground (arith, complete))) in
            let next = advance_epoch-IsValid clk t some_blocks h in
            let u = (advance_epoch clk t).1 in
            elim (Bool-cases (advance_epoch clk t).0) [
              | inr spent ↦ rw (complete, spent) (inl (h, refl, (λ p a. a), refl), tt)
              | inl advanced ↦
                  let (s, there) = advanced_known cid clk t r known in
                  let budget : ltb (t.epoch + 1) t.config.max_epochs ≡ true =
                    sym next.1 ∙ advanced in
                  let epoch : u.epoch ≡ t.epoch + 1 = rw budget at next.2 in
                  rw (complete, advanced)
                    (Returns-map (allocate cid blocks ttl max_spans now clk u) (IsAllocatedTo cid u)
                      (IsServed (IsOver t) cid t)
                      (λ a k. (
                        inr (k.0.0, k.0.1 ∙ epoch, k.0.3 ∙ advance_config clk t, over),
                        let n : u.config.num_blocks ≡ t.config.num_blocks =
                              ap (λ c. c.num_blocks) (advance_config clk t) in
                            rw n at k.1,
                      ))
                      (allocate-IsAllocated cid u next.0 s there
                        (rw (advance_config clk t) some_steal) blocks max_spans ttl now clk))
            ]
      ]

  -- From a valid table of at least one block, where a theft takes at least one block, a request of
  -- any cluster raises nothing, provided that int() is defined for the floats that it is given, and
  -- leaves a valid table, so no block is with two leases. Either the epoch is the same and no committed
  -- block has lost its state; or the next epoch has begun, and then the reaped table had no lease and
  -- all of its blocks were committed or quarantined. The arguments of the table stay, and the leases of
  -- the answer are the cluster's and within the space.
  pub acquire-IsAcquired :
      (cid : String) (blocks max_spans : ℕ) (ttl macro_step_s rtt_s now clk : F) (t : LeaseTable F)
      → IsValid t
      → 0 < t.config.num_blocks
      → 0 < t.config.steal_min_blocks
      → Returns
          (acquire cid blocks ttl max_spans macro_step_s rtt_s now clk t)
          (IsServed (IsOverAt now t) cid t)
  unfolding acquire
  acquire-IsAcquired cid blocks max_spans ttl macro_step_s rtt_s now clk t h some_blocks
        some_steal =
      Returns-bind (reap now t) _ (λ r. IsGivenBack t r.0 × (reap now t ≡ ok r))
        (IsServed (IsOverAt now t) cid t) (Returns-eq _ _ (reap-IsGivenBack now t h))
        λ r (k, reaped).
          Returns-bind (register_plain cid now r.0) _ (IsRegistered cid r.0)
            (IsServed (IsOverAt now t) cid t) (register_plain-IsRegistered cid now r.0 k.valid)
            λ t1 reg.
              let t2 = modify_cluster cid (measure macro_step_s rtt_s) t1 in
              let noted =
                modify_cluster-IsNoted cid (measure macro_step_s rtt_s) t1
                  (λ s. unfold measure in omega arith) reg.0 in
              let upto = IsGivenBack-trans t r.0 t2 k (
                IsGivenBack-trans r.0 t1 t2 (same-IsGivenBack r.0 t1 reg.0 reg.3 reg.7 reg.6 reg.5)
                  noted.0) in
              let (s, known) = measured_known cid macro_step_s rtt_s t1 reg.1.0 reg.1.1 in
              Returns-map (serve cid blocks ttl max_spans now clk t2) (IsServed (IsOver t2) cid t2)
                (IsServed (IsOverAt now t) cid t)
                (λ a m. (
                  elim m.0 [
                    | inl same ↦
                        inl (IsAllocated-trans t t2 a.1 (IsGivenBack-IsAllocated t t2 upto) same)
                    | inr next ↦ inr (
                      next.0,
                      (let e = upto.epoch in next.1 ∙ ap (λ n. n + 1) e),
                      (let e = upto.config in next.2 ∙ e),
                      (r, reaped, over_before r.0 t1 reg next.3),
                    )
                  ],
                  let e = upto.config in
                      let n : t2.config.num_blocks ≡ t.config.num_blocks =
                        ap (λ c. c.num_blocks) e in
                      rw n at m.1,
                ))
                (IsServed-IsAcquired cid blocks max_spans ttl now clk t2 s known
                  (let e = upto.config in rw e some_blocks) (let e = upto.config in rw e some_steal)
                  upto.valid)
    where
      over_before :
          (u t1 : LeaseTable F)
          → IsRegistered cid u t1
          → IsOver (modify_cluster cid (measure macro_step_s rtt_s) t1)
          → IsOver u
      over_before u t1 reg (full, empty) =
          let same = modify_cluster_same cid (measure macro_step_s rtt_s) t1 in
          let blocks = ap (λ c. c.num_blocks) (same.3 ∙ reg.5) in
          let done = same.1 ∙ reg.7 in
          let bad = same.0 ∙ reg.8 in
          (omega (arith, full, blocks, done, bad), sym reg.2 ∙ sym same.2 ∙ empty)
