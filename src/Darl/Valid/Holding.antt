-- ===== src/Darl/Valid/Holding.antt =====
-- The block map and the leases after `commit` has filled blocks (src/pww/darl/table.py).
use project_world_wide.Prelude.{
  ℕ, ◌+◌, ◌-◌, ◌≤◌, ◌<◌, ◌≡◌, refl, true, false, inl, inr, some, List, [], ◌∷◌, ◌==◌, All, All-map,
  arith, Bool-cases, Returns, ok, ◌>>=◌, within, ap, count_of, max, leb,
}
use project_world_wide.Prelude.Dict.{lookup, put, sum_values-put}
use project_world_wide.Darl.Floats.{Floats}
use project_world_wide.Darl.Lease.{
  committed, quarantined, leased, Lease, ClusterRecord, Event, find_lease, del_lease, set_lease,
  same_id, same_id_refl, committed_blocks,
}
use project_world_wide.Darl.Table.{LeaseTable, fill, record_event}
use project_world_wide.Darl.Table.Hold.{CommitReply, commit_blocks, close_lease, credit}
use project_world_wide.Darl.Blocks.{
  count_state_same, count_state-fill, lease_holds, lease_cover, IsConsistent, IsUnique,
  All-find_lease, All-del_lease, All-set_lease, del_lease-IsUnique, set_lease-IsUnique,
  sum_by-del_lease, sum_by-set_lease,
}
use project_world_wide.Darl.Valid.{IsMarked, IsOwned, IsValid}
use project_world_wide.Darl.Valid.Frames.{record_event-IsValid, IsOwned-put}

-- The table `u` is `t` with the blocks of `l` up to `through` committed.
pub record IsCommitted {F : Type 0} (t : LeaseTable F) (l : Lease F) (through : ℕ)
    (u : LeaseTable F) : Type 0 where
  pub valid : IsValid u
  pub marked :
      (p : ℕ)
      → within l.committed_end through p ≡ true
      → (t.state p ≡ leased) × (u.state p ≡ committed)
  pub elsewhere : (p : ℕ) → within l.committed_end through p ≡ false → u.state p ≡ t.state p
  pub counted : u.committed ≡ t.committed + (through - l.committed_end)
  pub config : u.config ≡ t.config
  pub epoch : u.epoch ≡ t.epoch

del_lease-set_lease :
    {F : Type 0} (n : Lease F) (ls : List (Lease F))
    → del_lease n.lease_id (set_lease n ls) ≡ del_lease n.lease_id ls
unfolding del_lease set_lease
del_lease-set_lease n [] = rw (same_id_refl n.lease_id) refl
del_lease-set_lease n (m ∷ ls) = elim (Bool-cases (same_id m.lease_id n.lease_id)) [
  | inl e ↦ rw (e, same_id_refl n.lease_id) refl
  | inr e ↦ rw (e, del_lease, e) (ap (◌∷◌ m) (del_lease-set_lease n ls))
]

module _ {F : Type 0} (t : LeaseTable F) (l : Lease F) (through : ℕ) (h : IsValid t)
    (held : find_lease l.lease_id t.leases ≡ some l) (low : l.committed_end ≤ through)
    (high : through ≤ l.end) where
  mark : IsMarked t.config.num_blocks t.epoch t.seq l
  mark =
      All-find_lease (IsMarked t.config.num_blocks t.epoch t.seq) l.lease_id l t.leases held h.marks

  leased_tail : (p : ℕ) → within l.committed_end through p ≡ true → t.state p ≡ leased
  leased_tail p a =
      let has = h.blocks.leased_at p in
      ground (arith, has, sum_by-del_lease (lease_holds p) l.lease_id l t.leases held)

  -- Whatever the leases are, if they have lost just the committed blocks.
  filled-IsConsistent :
      (ls : List (Lease F))
      → ((p : ℕ)
          → lease_cover p ls + count_of (within l.committed_end through p) ≡ lease_cover p t.leases)
      → IsConsistent t.config.num_blocks
          (fill l.committed_end through committed t.state)
          t.free
          ls
          (t.committed + (through - l.committed_end))
          t.quarantined
  filled-IsConsistent ls lost = record {
    pool = h.blocks.pool;
    free_at = λ p. let old = h.blocks.free_at p in ground (arith, old, leased_tail p);
    leased_at = λ p. let old = h.blocks.leased_at p in ground (arith, old, lost p, leased_tail p);
    committed_count =
        let old = h.blocks.committed_count in
        let room = mark.in_space in
        omega (
          arith,
          old,
          room,
          count_state-fill committed l.committed_end through t.state t.config.num_blocks low
              (λ p a b. ground (arith, leased_tail p)),
        );
    quarantined_count =
        let old = h.blocks.quarantined_count in
        omega (
          arith,
          old,
          count_state_same quarantined t.state (fill l.committed_end through committed t.state)
              t.config.num_blocks (λ p _. ground (arith, leased_tail p)),
        );
  }

  abbrev advanced : Lease F
  advanced = record l { committed_end = through; progress_end = max l.progress_end through }

module _ {F : Type 0} ⦃fl : Floats F⦄ (t : LeaseTable F) (l : Lease F) (through : ℕ) (now : F)
    (r : ClusterRecord F) (h : IsValid t) (held : find_lease l.lease_id t.leases ≡ some l)
    (low : l.committed_end < through) (high : through ≤ l.end)
    (known : lookup l.cluster t.clusters ≡ some r) where
  abbrev filled : List (Lease F) → LeaseTable F
  filled ls = record t {
    state = fill l.committed_end through committed t.state;
    committed = t.committed + (through - l.committed_end);
    leases = ls;
    clusters = put l.cluster (credit (through - l.committed_end) now r) t.clusters;
  }

  filled-IsCommitted :
      (ls : List (Lease F))
      → ((p : ℕ)
          → lease_cover p ls + count_of (within l.committed_end through p) ≡ lease_cover p t.leases)
      → All (IsMarked t.config.num_blocks t.epoch t.seq) ls
      → IsUnique ls
      → All (IsOwned t.clusters) ls
      → IsCommitted t l through (filled ls)
  unfolding credit
  filled-IsCommitted ls lost marks unique owned = record {
    valid = record {
      blocks = filled-IsConsistent t l through h held (omega arith) high ls lost;
      marks = marks;
      unique = unique;
      owned =
          All-map (IsOwned t.clusters) (IsOwned (filled ls).clusters)
            (IsOwned-put l.cluster (credit (through - l.committed_end) now r) t.clusters) ls owned;
      credit =
          let old = h.credit in
          omega (
            arith,
            old,
            sum_values-put (λ (x : ClusterRecord F). x.blocks_committed) l.cluster
                (credit (through - l.committed_end) now r) r t.clusters known,
          );
    };
    marked = λ p a. (leased_tail t l through h held (omega arith) high p a, rw a refl);
    elsewhere = λ p a. rw a refl;
    counted = refl;
    config = refl;
    epoch = refl;
  }

  -- The lease stays, with its watermarks advanced.
  advance-IsCommitted :
      through < l.end
      → IsCommitted t l through
          (filled (set_lease (advanced t l through h held (omega arith) high) t.leases))
  advance-IsCommitted more =
      let m = mark t l through h held (omega arith) high in
      let n = advanced t l through h held (omega arith) high in
      filled-IsCommitted (set_lease n t.leases)
        (λ p. ground (arith, sum_by-set_lease (lease_holds p) n l t.leases held))
        (All-set_lease (IsMarked t.config.num_blocks t.epoch t.seq) n t.leases
          (record {
            started = let a = m.started in omega arith;
            consumed = omega arith;
            within_end = let a = m.within_end in omega arith;
            unfinished = more;
            in_space = m.in_space;
            current = m.current;
            numbered = m.numbered;
          })
          h.marks)
        (set_lease-IsUnique n t.leases h.unique)
        (All-set_lease (IsOwned t.clusters) n t.leases
          (All-find_lease (IsOwned t.clusters) l.lease_id l t.leases held h.owned) h.owned)

  -- The lease is finished and leaves the table.
  finish-IsCommitted :
      through ≡ l.end → IsCommitted t l through (filled (del_lease l.lease_id t.leases))
  finish-IsCommitted whole =
      filled-IsCommitted (del_lease l.lease_id t.leases)
        (λ p. ground (arith, sum_by-del_lease (lease_holds p) l.lease_id l t.leases held))
        (All-del_lease (IsMarked t.config.num_blocks t.epoch t.seq) l.lease_id t.leases h.marks)
        (del_lease-IsUnique l.lease_id t.leases h.unique)
        (All-del_lease (IsOwned t.clusters) l.lease_id t.leases h.owned)

  record_event-IsCommitted :
      (e : Event F) (u : LeaseTable F)
      → IsCommitted t l through u
      → IsCommitted t l through (record_event e u)
  record_event-IsCommitted e u k = record {
    valid = record_event-IsValid e u k.valid;
    marked = k.marked;
    elsewhere = k.elsewhere;
    counted = k.counted;
    config = k.config;
    epoch = k.epoch;
  }

  pub commit_blocks_then_close :
      Returns {A = CommitReply × LeaseTable F}
        (commit_blocks l.cluster l through now t >>= λ u. ok (close_lease l.cluster l through u))
        (λ a. IsCommitted t l through a.1)
  unfolding commit_blocks close_lease
  commit_blocks_then_close =
      let some_new : (through - l.committed_end == 0) ≡ false = ground arith in
      let e : Event F = committed_blocks l.cluster (through - l.committed_end) l.lease_id in
      elim (Bool-cases (leb l.end through)) [
        | inl whole ↦
            rw (known, commit_blocks, whole, some_new)
              (rw del_lease-set_lease (
                record_event-IsCommitted e (filled (del_lease l.lease_id t.leases))
                  (finish-IsCommitted (ground arith))))
        | inr partial ↦
            rw (known, commit_blocks, partial, some_new)
              (record_event-IsCommitted e
                (filled (set_lease (advanced t l through h held (omega arith) high) t.leases))
                (advance-IsCommitted (ground arith)))
      ]
