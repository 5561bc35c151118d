-- ===== src/Darl/Valid/Restored.antt =====
-- The table that `restore` builds from a snapshot (src/pww/darl/table.py).
use project_world_wide.Prelude.{
  ℕ, ◌+◌, ◌<◌, ◌≡◌, refl, sym, true, false, ◌&&◌, inl, inr, none, List, [], ◌∷◌, ◌==◌, length,
  arith, ltb, count_of, ap, ◌∙◌, map, All, Bool-cases, Returns, Returns-bind, ok, lt_cases,
}
use project_world_wide.Prelude.Dict.{Dict, map_values, lookup-map_values, sum_values-map_values}
use project_world_wide.Darl.Interval.{IntervalSet}
use project_world_wide.Darl.Interval.Cover.{cover, IsPool}
use project_world_wide.Darl.Interval.Unique.{IsPool-unique}
use project_world_wide.Darl.Floats.{Floats}
use project_world_wide.Darl.Lease.{
  BlockState, unassigned, leased, committed, quarantined, in_state, Lease, LeaseId, ClusterRecord,
  find_lease, same_id,
}
use project_world_wide.Darl.Table.{LeaseTable, Config, new_table, blank, reset_epoch}
use project_world_wide.Darl.Table.Durable.{
  snapshot, restore, extend, load_record, free_runs, state_at, values_from,
}
use project_world_wide.Darl.Blocks.{count_state, count_state_same, lease_cover, IsUnique}
use project_world_wide.Darl.Valid.{IsMarked, IsOwned, IsValid}
use project_world_wide.Darl.Valid.Runs.{
  expand-runs_of_nil, length-values_from, state_at-values_from, free_runs_lem,
}

-- The arguments as `__init__` keeps them.
abbrev pub IsKept : {F : Type 0} → Config F → Type 0
IsKept c = (0 < c.num_blocks) × (0 < c.min_blocks) × (0 < c.max_blocks) × (0 < c.steal_min_blocks)

-- What is the same after a restart, and what is not: leases last at least until `floor`, the time
-- of a cluster's last commit is forgotten, and so are the events.
pub record IsRestored {F : Type 0} ⦃fl : Floats F⦄ (floor : F) (t u : LeaseTable F) : Type 0 where
  pub config : u.config ≡ t.config
  pub epoch : u.epoch ≡ t.epoch
  pub epochs_completed : u.epochs_completed ≡ t.epochs_completed
  pub epoch_started_at : u.epoch_started_at ≡ t.epoch_started_at
  pub seq : u.seq ≡ t.seq
  pub attempts : u.attempts ≡ t.attempts
  pub committed : u.committed ≡ t.committed
  pub quarantined : u.quarantined ≡ t.quarantined
  pub state : (p : ℕ) → p < t.config.num_blocks → u.state p ≡ t.state p
  pub free : u.free ≡ t.free
  pub leases : u.leases ≡ map (extend floor) t.leases
  pub clusters : u.clusters ≡ map_values load_record t.clusters

module _ {F : Type 0} ⦃fl : Floats F⦄ (floor : F) where
  lease_cover-extend :
      (p : ℕ) (ls : List (Lease F)) → lease_cover p (map (extend floor) ls) ≡ lease_cover p ls
  unfolding extend
  lease_cover-extend p [] = refl
  lease_cover-extend p (l ∷ ls) = omega (arith, lease_cover-extend p ls)

  All-extend :
      (P Q : Lease F → Type 0) (ls : List (Lease F))
      → ((l : Lease F) → P l → Q (extend floor l))
      → All P ls
      → All Q (map (extend floor) ls)
  All-extend P Q [] f h = tt
  All-extend P Q (l ∷ ls) f h = (f l h.0, All-extend P Q ls f h.1)

  find_lease-extend :
      (i : LeaseId) (ls : List (Lease F))
      → find_lease i ls ≡ none
      → find_lease i (map (extend floor) ls) ≡ none
  unfolding find_lease extend
  find_lease-extend i [] h = refl
  find_lease-extend i (l ∷ ls) h = elim (Bool-cases (same_id l.lease_id i)) [
    | inl e ↦ let h' = (rw e at h) in cc
    | inr e ↦ let h' = (rw e at h) in rw e (find_lease-extend i ls h')
  ]

  IsUnique-extend : (ls : List (Lease F)) → IsUnique ls → IsUnique (map (extend floor) ls)
  unfolding extend
  IsUnique-extend [] h = tt
  IsUnique-extend (l ∷ ls) h = (find_lease-extend l.lease_id ls h.0, IsUnique-extend ls h.1)

  extend-IsMarked :
      (n epoch seq : ℕ) (l : Lease F)
      → IsMarked n epoch seq l
      → IsMarked n epoch seq (extend floor l)
  unfolding extend
  extend-IsMarked n epoch seq l m = record {
    started = m.started;
    consumed = m.consumed;
    within_end = m.within_end;
    unfinished = m.unfinished;
    in_space = m.in_space;
    current = m.current;
    numbered = m.numbered;
  }

  extend-IsOwned :
      (c : Dict (ClusterRecord F)) (l : Lease F)
      → IsOwned c l
      → IsOwned (map_values load_record c) (extend floor l)
  unfolding extend
  extend-IsOwned c l (r, e) = (load_record r, rw lookup-map_values (rw e refl))

  load_record_credit : (r : ClusterRecord F) → (load_record r).blocks_committed ≡ r.blocks_committed
  unfolding load_record
  load_record_credit r = refl

  -- The table that `restore` returns, but for its pool.
  abbrev rebuilt : LeaseTable F → IntervalSet → LeaseTable F
  rebuilt t pool = record t {
    state = state_at (values_from t.config.num_blocks 0 t.state);
    free = pool;
    events = [];
    clusters = map_values load_record t.clusters;
    leases = map (extend floor) t.leases;
  }

  module _ (t : LeaseTable F) (h : IsValid t) where
    state_kept :
        (p : ℕ)
        → p < t.config.num_blocks
        → state_at (values_from t.config.num_blocks 0 t.state) p ≡ t.state p
    state_kept p k =
        let e : 0 + p ≡ p = omega arith in
        state_at-values_from t.config.num_blocks 0 t.state p k ∙ ap t.state e

    count_kept :
        (s : BlockState)
        → count_state s (state_at (values_from t.config.num_blocks 0 t.state)) t.config.num_blocks
          ≡ count_state s t.state t.config.num_blocks
    count_kept s =
        count_state_same s t.state (state_at (values_from t.config.num_blocks 0 t.state))
          t.config.num_blocks (λ p k. ap (λ v. in_state v s) (state_kept p k))

    tests_kept :
        (p : ℕ) (s : BlockState)
        → count_of (
            ltb p t.config.num_blocks
            && in_state (state_at (values_from t.config.num_blocks 0 t.state) p) s)
          ≡ count_of (ltb p t.config.num_blocks && in_state (t.state p) s)
    tests_kept p s = elim (lt_cases p t.config.num_blocks) [
      | inl below ↦ rw (state_kept p below) refl
      | inr above ↦ ground (arith, above)
    ]

    rebuilt-IsValid : (pool : IntervalSet) → pool ≡ t.free → IsValid (rebuilt t pool)
    rebuilt-IsValid pool same = record {
      blocks = record {
        pool = rw same h.blocks.pool;
        free_at =
            λ p. let old = h.blocks.free_at p in rw same (old ∙ sym (tests_kept p unassigned));
        leased_at = λ p.
            let old = h.blocks.leased_at p in
            lease_cover-extend p t.leases ∙ old ∙ sym (tests_kept p leased);
        committed_count =
            let old = h.blocks.committed_count in omega (arith, old, count_kept committed);
        quarantined_count =
            let old = h.blocks.quarantined_count in omega (arith, old, count_kept quarantined);
      };
      marks =
          All-extend (IsMarked t.config.num_blocks t.epoch t.seq)
            (IsMarked t.config.num_blocks t.epoch t.seq) t.leases
            (extend-IsMarked t.config.num_blocks t.epoch t.seq) h.marks;
      unique = IsUnique-extend t.leases h.unique;
      owned =
          All-extend (IsOwned t.clusters) (IsOwned (map_values load_record t.clusters)) t.leases
            (extend-IsOwned t.clusters) h.owned;
      credit =
          let old = h.credit in
          omega (
            arith,
            old,
            sum_values-map_values (λ (r : ClusterRecord F). r.blocks_committed) load_record
                load_record_credit t.clusters,
          );
    }

    rebuilt-IsRestored : (pool : IntervalSet) → pool ≡ t.free → IsRestored floor t (rebuilt t pool)
    rebuilt-IsRestored pool same = record {
      config = refl;
      epoch = refl;
      epochs_completed = refl;
      epoch_started_at = refl;
      seq = refl;
      attempts = refl;
      committed = refl;
      quarantined = refl;
      state = state_kept;
      free = same;
      leases = refl;
      clusters = refl;
    }

module _ {F : Type 0} ⦃fl : Floats F⦄ where
  kept_config : (c : Config F) (epoch : ℕ) (clk : F) → IsKept c → (blank c epoch clk).config ≡ c
  kept_config c epoch clk h = ground (arith, h)

  new_table_lem :
      (c : Config F) (epoch : ℕ) (clk : F)
      → IsKept c
      → new_table c epoch clk
        ≡ ok (record (reset_epoch epoch clk (blank c epoch clk)) { config = c })
  unfolding new_table reset_epoch
  new_table_lem c epoch clk h =
      let proper : ltb c.num_blocks 1 ≡ false = ground arith in
      rw (proper, kept_config c epoch clk h) refl

  pub restore-snapshot :
      (grace_s clk : F) (t : LeaseTable F)
      → IsValid t
      → IsKept t.config
      → Returns
          (restore grace_s clk (snapshot t))
          (λ u. IsValid u × IsRestored (fl.add clk grace_s) t u)
  unfolding restore snapshot reset_epoch
  restore-snapshot grace_s clk t h kept =
      let n = t.config.num_blocks in
      let floor = fl.add clk grace_s in
      let code = expand-runs_of_nil (values_from n 0 t.state) in
      let whole : (length (values_from n 0 t.state) == n) ≡ true =
        let l = length-values_from n 0 t.state in ground (arith, l) in
      rw (restore, new_table_lem t.config t.epoch clk kept)
        (rw (code, whole)
          (Returns-bind
            (free_runs 0 (values_from n 0 t.state) none (record { intervals = []; total = 0 })) _
            (λ r.
              IsPool r
              × ((p : ℕ)
                  → cover p r.intervals ≡ count_of (ltb p n && in_state (t.state p) unassigned)))
            (λ u. IsValid u × IsRestored floor t u) (free_runs_lem n t.state)
            λ pool k.
              let same =
                IsPool-unique pool t.free k.0 h.blocks.pool
                  (λ p. let new = k.1 p in let old = h.blocks.free_at p in new ∙ sym old) in
              (rebuilt-IsValid floor t h pool same, rebuilt-IsRestored floor t h pool same)))
