-- ===== src/Darl/Valid/Registration.antt =====
-- The invariant under `__init__`, `register` and `advance_epoch` (src/pww/darl/table.py).
use project_world_wide.Prelude.{
  [], ℕ, zero, suc, ◌+◌, ◌≤◌, ◌<◌, ◌≡◌, refl, sym, Bool, true, false, not, ◌&&◌, ◌⊎◌, inl, inr,
  String, none, some, if◌then◌else◌, arith, Option-cases, str_eq, Bool-cases, Returns, Outcome, leb,
  ltb, eq_iff, value_error, cluster_busy,
}
use project_world_wide.Prelude.Dict.{lookup, put, lookup-put}
use project_world_wide.Darl.Floats.{Floats}
use project_world_wide.Darl.Lease.{
  BlockState, committed, unassigned, quarantined, in_state, ClusterRecord, Event, registered,
  superseded,
}
use project_world_wide.Darl.Table.{
  LeaseTable, Config, record_event, reset_epoch, advance_epoch, new_table, blank, register,
  register_plain, touch, new_record, is_live, is_text, is_other,
}
use project_world_wide.Darl.Blocks.{count_state}
use project_world_wide.Darl.Valid.{IsValid}
use project_world_wide.Darl.Valid.Frames.{put-IsValid, record_event-IsValid}

count_state_none :
    (s : BlockState) (n : ℕ) → in_state unassigned s ≡ false → count_state s (λ p. unassigned) n ≡ 0
unfolding count_state
count_state_none s zero h = refl
count_state_none s (suc n) h = rw h (omega (arith, count_state_none s n h))

module _ {F : Type 0} where
  -- An epoch begins with every block unassigned and free, and no lease.
  pub reset_epoch-IsValid :
      (epoch : ℕ) (clk : F) (t : LeaseTable F)
      → 0 < t.config.num_blocks
      → IsValid (reset_epoch epoch clk t)
  unfolding reset_epoch
  reset_epoch-IsValid epoch clk t some_blocks = record {
    blocks = record {
      pool = record { ascending = omega arith; counted = omega arith };
      free_at = λ p. ground arith;
      leased_at = λ p. ground arith;
      committed_count = sym (count_state_none committed t.config.num_blocks refl);
      quarantined_count = sym (count_state_none quarantined t.config.num_blocks refl);
    };
    marks = tt;
    unique = tt;
    owned = tt;
    credit = omega arith;
  }

  -- From a valid table of at least one block, the next epoch starts exactly within the budget of epochs.
  -- Then it starts over: the table is valid, has no lease, and all of its blocks are unassigned. Otherwise
  -- the table is as it was.
  pub advance_epoch-IsValid :
      (clk : F) (t : LeaseTable F)
      → 0 < t.config.num_blocks
      → IsValid t
      → IsValid (advance_epoch clk t).1
        × ((advance_epoch clk t).0 ≡ ltb (t.epoch + 1) t.config.max_epochs)
        × ((advance_epoch clk t).1.epoch
            ≡ (if ltb (t.epoch + 1) t.config.max_epochs then t.epoch + 1 else t.epoch))
        × ((((advance_epoch clk t).0 ≡ false) × ((advance_epoch clk t).1 ≡ t))
            ⊎ (((advance_epoch clk t).0 ≡ true)
                × ((advance_epoch clk t).1.leases ≡ [])
                × ((advance_epoch clk t).1.committed ≡ 0)
                × ((advance_epoch clk t).1.quarantined ≡ 0)
                × ((p : ℕ) → (advance_epoch clk t).1.state p ≡ unassigned)))
  unfolding advance_epoch reset_epoch
  advance_epoch-IsValid clk t some_blocks h =
      elim (Bool-cases (leb t.config.max_epochs (t.epoch + 1))) [
        | inl spent ↦ rw spent (h, ground arith, ground arith, inl (refl, refl))
        | inr left ↦ rw left (
          record_event-IsValid _ _ (
              reset_epoch-IsValid (t.epoch + 1) clk
                (record t { epochs_completed = t.epochs_completed + 1 }) some_blocks),
          ground arith,
          ground arith,
          inr (refl, refl, refl, refl, λ p. refl),
        )
      ]

module _ {F : Type 0} ⦃fl : Floats F⦄ where
  -- A table of at least one block begins valid.
  pub new_table-IsValid :
      (c : Config F) (epoch : ℕ) (clk : F)
      → 0 < c.num_blocks
      → Returns (new_table c epoch clk) IsValid
  unfolding new_table
  new_table-IsValid c epoch clk some_blocks =
      let proper : ltb c.num_blocks 1 ≡ false = ground arith in
      rw proper (reset_epoch-IsValid epoch clk (blank c epoch clk) some_blocks)

  touch_credit :
      (incarnation : String) (ranks : ℕ) (now : F) (r : ClusterRecord F)
      → (touch incarnation ranks now r).blocks_committed ≡ r.blocks_committed
  unfolding touch
  touch_credit incarnation ranks now r = refl

  -- What a registration that is accepted has done to the table.
  abbrev pub IsRegistered : String → LeaseTable F → LeaseTable F → Type 0
  IsRegistered cid t u =
      IsValid u
      × ((r : ClusterRecord F) × (lookup cid u.clusters ≡ some r))
      × (u.leases ≡ t.leases)
      × (u.state ≡ t.state)
      × (u.free ≡ t.free)
      × (u.config ≡ t.config)
      × (u.epoch ≡ t.epoch)
      × (u.committed ≡ t.committed)
      × (u.quarantined ≡ t.quarantined)

  put-IsRegistered :
      (cid : String) (r : ClusterRecord F) (t : LeaseTable F)
      → IsValid t
      → ((old : ClusterRecord F)
          → lookup cid t.clusters ≡ some old
          → old.blocks_committed ≤ r.blocks_committed)
      → IsRegistered cid t (record t { clusters = put cid r t.clusters })
  put-IsRegistered cid r t h more = (
    put-IsValid t cid r h more,
    (r, rw lookup-put (rw ((eq_iff cid cid).1 refl) refl)),
    refl,
    refl,
    refl,
    refl,
    refl,
    refl,
    refl,
  )

  event-IsRegistered :
      (cid : String) (e : Event F) (t u : LeaseTable F)
      → IsRegistered cid t u
      → IsRegistered cid t (record_event e u)
  event-IsRegistered cid e t u h =
      (record_event-IsValid e u h.0, h.1, h.2, h.3, h.4, h.5, h.6, h.7, h.8)

  -- The two cases of an accepted registration.
  new_cluster-IsRegistered :
      (cid incarnation : String) (ranks : ℕ) (now : F) (t : LeaseTable F)
      → IsValid t
      → lookup cid t.clusters ≡ none
      → IsRegistered cid t (
          record_event (registered cid) (record t {
            clusters = put cid (touch incarnation ranks now (new_record cid now)) t.clusters;
          }))
  new_cluster-IsRegistered cid incarnation ranks now t h e =
      let r = touch incarnation ranks now (new_record cid now) in
      event-IsRegistered cid (registered cid) t (record t { clusters = put cid r t.clusters })
        (put-IsRegistered cid r t h (λ o e'. cc))

  old_cluster-IsRegistered :
      (cid incarnation : String) (ranks : ℕ) (now : F) (t : LeaseTable F) (r : ClusterRecord F)
      → IsValid t
      → lookup cid t.clusters ≡ some r
      → IsRegistered cid t
          (record t { clusters = put cid (touch incarnation ranks now r) t.clusters })
  old_cluster-IsRegistered cid incarnation ranks now t r h e =
      put-IsRegistered cid (touch incarnation ranks now r) t h (λ o e'.
        let same : o ≡ r = cc in rw same (omega (arith, touch_credit incarnation ranks now r)))

  -- A call without digest and incarnation, as the other operations make it, is always accepted: the
  -- cluster is known afterwards, the blocks and leases are untouched and the table stays valid.
  pub register_plain-IsRegistered :
      (cid : String) (now : F) (t : LeaseTable F)
      → IsValid t
      → Returns (register_plain cid now t) (IsRegistered cid t)
  unfolding register
  register_plain-IsRegistered cid now t h = elim (Option-cases (lookup cid t.clusters)) [
    | inl e ↦ rw (e, register) (new_cluster-IsRegistered cid "" 0 now t h e)
    | inr (r, e) ↦ rw (e, register) (old_cluster-IsRegistered cid "" 0 now t r h e)
  ]

  -- Whether a registration is refused for its digest.
  abbrev pub digests_differ : String → LeaseTable F → Bool
  digests_differ digest t =
      is_text digest && is_text t.config.digest && not (str_eq digest t.config.digest)

  -- Whether a live process holds the id under another incarnation.
  abbrev pub is_held_by_other : String → String → F → LeaseTable F → Bool
  is_held_by_other cid incarnation now t = elim (lookup cid t.clusters) [
    | none ↦ false
    | some r ↦ is_other incarnation r && is_live t r now
  ]

  -- Registering in a valid table raises ValueError exactly when the digests differ, and otherwise
  -- ClusterBusy exactly when the conflict is checked and a live process holds the id under another
  -- incarnation. In every other case it is accepted: the cluster is known, no block, lease or
  -- counter of blocks has changed and the table stays valid.
  pub register_outcome :
      (cid digest incarnation : String) (ranks : ℕ) (check_conflict : Bool) (now : F)
      (t : LeaseTable F)
      → IsValid t
      → Outcome
          (register cid digest ranks incarnation check_conflict now t)
          (λ u.
            (digests_differ digest t ≡ false)
            × ((check_conflict && is_held_by_other cid incarnation now t) ≡ false)
            × IsRegistered cid t u)
          (λ e.
            ((e ≡ value_error) × (digests_differ digest t ≡ true))
            ⊎ ((e ≡ cluster_busy)
                × (digests_differ digest t ≡ false)
                × ((check_conflict && is_held_by_other cid incarnation now t) ≡ true)))
  unfolding register
  register_outcome cid digest incarnation ranks check_conflict now t h =
      elim (Bool-cases (digests_differ digest t)) [
        | inl differ ↦ rw differ (inl (refl, refl))
        | inr agree ↦ elim (Option-cases (lookup cid t.clusters)) [
          | inl e ↦
              rw (agree, e, register)
                (refl, ground arith, new_cluster-IsRegistered cid incarnation ranks now t h e)
          | inr (r, e) ↦ elim (Bool-cases (is_other incarnation r)) [
            | inl other ↦ elim (Bool-cases (check_conflict && is_live t r now)) [
              | inl busy ↦
                  rw (agree, e, register, other, busy)
                    (inr (refl, refl, rw (held_by r e other) busy))
              | inr stale ↦
                  rw (agree, e, register, other, stale)
                    (
                      refl,
                      rw (held_by r e other) stale,
                      event-IsRegistered cid (superseded cid (fl.round 1 (fl.sub now r.last_seen)))
                          t
                          (record t {
                            clusters = put cid (touch incarnation ranks now r) t.clusters;
                          })
                          (old_cluster-IsRegistered cid incarnation ranks now t r h e),
                    )
            ]
            | inr own ↦
                rw (agree, e, register, own)
                  (
                    refl,
                    rw (not_held r e own) (ground arith),
                    old_cluster-IsRegistered cid incarnation ranks now t r h e,
                  )
          ]
        ]
      ]
    where
      held_by :
          (r : ClusterRecord F)
          → lookup cid t.clusters ≡ some r
          → is_other incarnation r ≡ true
          → is_held_by_other cid incarnation now t ≡ is_live t r now
      held_by r e other = rw (e, is_held_by_other, other)

      not_held :
          (r : ClusterRecord F)
          → lookup cid t.clusters ≡ some r
          → is_other incarnation r ≡ false
          → is_held_by_other cid incarnation now t ≡ false
      not_held r e own = rw (e, is_held_by_other, own)
