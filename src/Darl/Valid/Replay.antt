-- ===== src/Darl/Valid/Replay.antt =====
-- The invariant of the lease table under `replay_lease` (src/pww/darl/table.py).
use project_world_wide.Prelude.{
  ℕ, zero, suc, ◌+◌, ◌-◌, ◌≤◌, ◌<◌, ◌≡◌, refl, Bool, true, false, not, inl, inr, none, ◌==◌,
  if◌then◌else◌, All-map, arith, Bool-cases, Option-cases, within, leb, max, Returns, Returns-bind,
  Returns-map,
}
use project_world_wide.Darl.Interval.{span, IntervalSet, remove}
use project_world_wide.Darl.Interval.Remove.{IsRemoved, remove-IsRemoved}
use project_world_wide.Darl.Floats.{Floats}
use project_world_wide.Darl.Lease.{
  BlockState, unassigned, leased, committed, quarantined, in_state, Lease, find_lease, set_lease,
}
use project_world_wide.Darl.Table.{LeaseTable, fill}
use project_world_wide.Darl.Table.Durable.{seek, clamp_lease, replay_lease}
use project_world_wide.Darl.Blocks.{
  count_state, count_state_same, lease_holds, sum_by-set_lease_new, All-set_lease,
  set_lease-IsUnique,
}
use project_world_wide.Darl.Valid.{IsMarked, IsOwned, IsValid}

-- Replaying a lease keeps the table valid and its epoch; it changes no block but some that were
-- unassigned, and nothing at all if it answers False.
pub record IsReplayed {F : Type 0} (t : LeaseTable F) (r : Bool × LeaseTable F) : Type 0 where
  pub valid : IsValid r.1
  pub epoch : r.1.epoch ≡ t.epoch
  pub config : r.1.config ≡ t.config
  pub clusters : r.1.clusters ≡ t.clusters
  pub settled : (p : ℕ) → in_state (t.state p) unassigned ≡ false → r.1.state p ≡ t.state p
  pub refused : r.0 ≡ false → r.1 ≡ t

module _ {F : Type 0} ⦃fl : Floats F⦄ (t : LeaseTable F) where
  seek-bounds :
      (sought : Bool) (n position : ℕ)
      → position + n ≤ t.config.num_blocks
      → Returns (seek sought n position t) (λ q. (position ≤ q) × (q ≤ position + n))
  unfolding seek
  seek-bounds sought zero position h = omega arith
  seek-bounds sought (suc n) position h =
      let rest = seek-bounds sought n (position + 1) (omega arith) in
      let inside : leb t.config.num_blocks position ≡ false = ground arith in
      let found = in_state (t.state position) unassigned in
      elim (Bool-cases (if sought then found else not found)) [
        | inl here ↦ rw (inside, here) (omega arith)
        | inr later ↦
            rw (inside, later)
              (Returns-map (seek sought n (position + 1) t) _ _ (λ q k. omega (arith, k)) rest)
      ]

  -- Up to where the second loop stops, every block is unassigned.
  seek-unassigned :
      (n position : ℕ)
      → position + n ≤ t.config.num_blocks
      → Returns (seek false n position t) (λ q.
        (position ≤ q)
        × (q ≤ position + n)
        × ((p : ℕ) → position ≤ p → p < q → in_state (t.state p) unassigned ≡ true))
  unfolding seek
  seek-unassigned zero position h = (omega arith, omega arith, λ p a b. absurd (omega arith))
  seek-unassigned (suc n) position h =
      let rest = seek-unassigned n (position + 1) (omega arith) in
      let inside : leb t.config.num_blocks position ≡ false = ground arith in
      elim (Bool-cases (in_state (t.state position) unassigned)) [
        | inr taken ↦ rw (inside, taken) (omega arith, omega arith, λ p a b. absurd (omega arith))
        | inl free ↦
            rw (inside, free)
              (Returns-map (seek false n (position + 1) t) _ _
                (λ q k. (
                  omega (arith, k),
                  omega (arith, k),
                  λ p a b. elim (Bool-cases (p == position)) [
                    | inl here ↦ let e : p ≡ position = ground arith in rw e free
                    | inr later ↦ k.2 p (ground arith) b
                  ],
                ))
                rest)
      ]

  module _ (h : IsValid t) (l : Lease F) (lo hi : ℕ) (floor : F)
      (new : find_lease l.lease_id t.leases ≡ none) (current : l.epoch ≡ t.epoch)
      (owner : IsOwned t.clusters l) (nonempty : lo < hi) (in_space : hi ≤ t.config.num_blocks)
      (free : (p : ℕ) → lo ≤ p → p < hi → in_state (t.state p) unassigned ≡ true) where
    abbrev n : Lease F
    n = unfold clamp_lease in clamp_lease floor lo hi l

    free_within : (p : ℕ) → within lo hi p ≡ true → in_state (t.state p) unassigned ≡ true
    free_within p w = free p (ground arith) (ground arith)

    same_count :
        (s : BlockState)
        → in_state unassigned s ≡ false
        → in_state leased s ≡ false
        → count_state s (fill lo hi leased t.state) t.config.num_blocks
          ≡ count_state s t.state t.config.num_blocks
    same_count s a b =
        count_state_same s t.state (fill lo hi leased t.state) t.config.num_blocks
          λ p _. ground (arith, free_within p)

    replayed : IntervalSet → LeaseTable F
    replayed pool = record t {
      free = pool;
      state = fill lo hi leased t.state;
      leases = set_lease n t.leases;
      seq = max t.seq l.lease_id.seq;
    }

    replayed-IsValid :
        (pool : IntervalSet) → IsRemoved t.free (span lo hi) pool → IsValid (replayed pool)
    unfolding replayed clamp_lease
    replayed-IsValid pool k = record {
      blocks = record {
        pool = k.0;
        free_at = λ p.
            let old = h.blocks.free_at p in
            let moved = k.1 p in ground (arith, old, moved, free_within p);
        leased_at = λ p.
            let old = h.blocks.leased_at p in
            ground (arith, old, free_within p, sum_by-set_lease_new (lease_holds p) n t.leases new);
        committed_count =
            let old = h.blocks.committed_count in
            omega (arith, old, same_count committed refl refl);
        quarantined_count =
            let old = h.blocks.quarantined_count in
            omega (arith, old, same_count quarantined refl refl);
      };
      marks =
          All-set_lease (IsMarked t.config.num_blocks t.epoch (max t.seq l.lease_id.seq)) n t.leases
            (record {
              started = omega arith;
              consumed = omega arith;
              within_end = omega arith;
              unfinished = nonempty;
              in_space = in_space;
              current = current;
              numbered = omega arith;
            })
            (All-map (IsMarked t.config.num_blocks t.epoch t.seq)
              (IsMarked t.config.num_blocks t.epoch (max t.seq l.lease_id.seq))
              (λ m k'. record {
                started = k'.started;
                consumed = k'.consumed;
                within_end = k'.within_end;
                unfinished = k'.unfinished;
                in_space = k'.in_space;
                current = k'.current;
                numbered = let given = k'.numbered in omega (arith, given);
              })
              t.leases h.marks);
      unique = set_lease-IsUnique n t.leases h.unique;
      owned = All-set_lease (IsOwned t.clusters) n t.leases owner h.owned;
      credit = h.credit;
    }

    replayed-IsReplayed :
        (pool : IntervalSet)
        → IsRemoved t.free (span lo hi) pool
        → IsReplayed t (true, replayed pool)
    unfolding replayed
    replayed-IsReplayed pool k = record {
      valid = replayed-IsValid pool k;
      epoch = refl;
      config = refl;
      clusters = refl;
      settled = λ p a. ground (arith, free_within p, a);
      refused = λ e. cc;
    }

  unchanged-IsReplayed : IsValid t → IsReplayed t (false, t)
  unchanged-IsReplayed h = record {
    valid = h;
    epoch = refl;
    config = refl;
    clusters = refl;
    settled = λ p a. refl;
    refused = λ e. refl;
  }

  -- From a valid table, a lease of a registered cluster that ends within the space is replayed
  -- without an error. The table stays valid, only unassigned blocks change, and if the lease is
  -- refused the table is as before.
  pub replay_lease-IsReplayed :
      (floor : F) (l : Lease F)
      → IsValid t
      → IsOwned t.clusters l
      → l.start ≤ l.end
      → l.end ≤ t.config.num_blocks
      → Returns (replay_lease floor l t) (IsReplayed t)
  unfolding replay_lease replayed
  replay_lease-IsReplayed floor l h owner proper in_space =
      elim (Option-cases (find_lease l.lease_id t.leases)) [
        | inr (m, e) ↦ rw (e, replay_lease) (unchanged-IsReplayed h)
        | inl new ↦ elim (Bool-cases (l.epoch == t.epoch)) [
          | inr old ↦ rw (new, replay_lease, old) (unchanged-IsReplayed h)
          | inl current ↦
              rw (new, replay_lease, current)
                (Returns-bind (seek true (l.end - l.start) l.start t) _ _ (IsReplayed t)
                  (seek-bounds true (l.end - l.start) l.start (omega arith))
                  λ lo a.
                    Returns-bind (seek false (l.end - lo) lo t) _ _ (IsReplayed t)
                      (seek-unassigned (l.end - lo) lo (omega (arith, a)))
                      λ hi b. elim (Bool-cases (leb hi lo)) [
                        | inl nothing ↦ rw nothing (unchanged-IsReplayed h)
                        | inr something ↦
                            let some_free : lo < hi = ground arith in
                            rw something (
                              Returns-bind (remove t.free lo hi) _ (IsRemoved t.free (span lo hi))
                                (IsReplayed t)
                                (remove-IsRemoved t.free lo hi h.blocks.pool some_free (λ p c d.
                                  let at_p = h.blocks.free_at p in
                                  let is_free = b.2 p c d in ground (arith, at_p, is_free, a, b)))
                                λ pool k.
                                  replayed-IsReplayed h l lo hi floor new (ground arith) owner
                                    some_free (omega (arith, a, b)) b.2 pool k)
                      ])
        ]
      ]
