-- ===== src/Darl/Table/Durable.antt =====
-- `snapshot`, `restore` and `replay_lease` of class LeaseTable (src/pww/darl/table.py).
use project_world_wide.Prelude.{
  ℕ, zero, suc, ◌+◌, ◌-◌, Bool, true, false, not, Option, none, some, List, [], ◌∷◌, ◌++◌, ◌==◌,
  leb, if◌then◌else◌, length, min, max, Result, ok, err, value_error, index_error, ◌>>=◌, map,
}
use project_world_wide.Prelude.Dict.{Dict, map_values}
use project_world_wide.Darl.Interval.{IntervalSet, add, remove}
use project_world_wide.Darl.Interval
use project_world_wide.Darl.Floats.{Floats, fmax}
use project_world_wide.Darl.Lease.{
  BlockState, unassigned, leased, in_state, Lease, ClusterRecord, find_lease, set_lease,
}
use project_world_wide.Darl.Table.{LeaseTable, Config, fill, new_table}

-- What `snapshot` writes; a missing field of an older snapshot is not modelled.
pub record Snapshot (F : Type 0) : Type 0 where
  pub config : Config F
  pub epoch : ℕ
  pub epochs_completed : ℕ
  pub epoch_started_at : F
  pub committed : ℕ
  pub quarantined : ℕ
  pub seq : ℕ
  pub state_rle : List (BlockState × ℕ)
  pub attempts : ℕ → ℕ
  pub leases : List (Lease F)
  pub clusters : Dict (ClusterRecord F)

-- One round of the loop over `_state`: the last run is longer by one, or a new one begins.
unfoldable pub push_value : BlockState → List (BlockState × ℕ) → List (BlockState × ℕ)
push_value v [] = (v, 1) ∷ []
push_value v ((w, c) ∷ []) = if in_state w v then (w, c + 1) ∷ [] else (w, c) ∷ (v, 1) ∷ []
push_value v (r ∷ s ∷ runs) = r ∷ push_value v (s ∷ runs)

unfoldable pub runs_of : List BlockState → List (BlockState × ℕ) → List (BlockState × ℕ)
unfolding push_value
runs_of [] runs = runs
runs_of (v ∷ vs) runs = runs_of vs (push_value v runs)

-- The bytearray `_state`: the values at `position` and the following ones, `n` in number.
unfoldable pub values_from : ℕ → ℕ → (ℕ → BlockState) → List BlockState
values_from zero position state = []
values_from (suc n) position state = state position ∷ values_from n (position + 1) state

-- bytes([value]) * count
unfoldable pub repeat : BlockState → ℕ → List BlockState
repeat v zero = []
repeat v (suc n) = v ∷ repeat v n

-- `for value, count in snapshot["state_rle"]`
unfoldable pub expand : List (BlockState × ℕ) → List BlockState
unfolding repeat
expand [] = []
expand ((v, count) ∷ runs) = repeat v count ++ expand runs

-- The bytearray of these values, as a function of the position.
abbrev pub state_at : List BlockState → ℕ → BlockState
state_at [] p = unassigned
state_at (v ∷ vs) zero = v
state_at (v ∷ vs) (suc p) = state_at vs p

-- One round of `for position, value in enumerate(state)`.
unfoldable pub free_block :
    ℕ → BlockState → Option ℕ → IntervalSet → Result (Option ℕ × IntervalSet)
unfolding add
free_block position v none pool =
    ok (if in_state v unassigned then (some position, pool) else (none, pool))
free_block position v (some from) pool =
    if in_state v unassigned
    then ok (some from, pool)
    else (add pool from position >>= λ grown. ok (none, grown))

-- The loop, and the run that reaches the end.
unfoldable pub free_runs : ℕ → List BlockState → Option ℕ → IntervalSet → Result IntervalSet
unfolding free_block add
free_runs position [] none pool = ok pool
free_runs position [] (some from) pool = add pool from position
free_runs position (v ∷ vs) run pool =
    free_block position v run pool >>= λ next. free_runs (position + 1) vs next.0 next.1

module _ {F : Type 0} where
  -- snapshot
  unfoldable pub snapshot : LeaseTable F → Snapshot F
  snapshot t = record {
    config = t.config;
    epoch = t.epoch;
    epochs_completed = t.epochs_completed;
    epoch_started_at = t.epoch_started_at;
    committed = t.committed;
    quarantined = t.quarantined;
    seq = t.seq;
    state_rle = runs_of (values_from t.config.num_blocks 0 t.state) [];
    attempts = t.attempts;
    leases = t.leases;
    clusters = t.clusters;
  }

module _ {F : Type 0} ⦃fl : Floats F⦄ where
  -- The deadline of a restored lease.
  unfoldable pub extend : F → Lease F → Lease F
  extend floor l = record l { deadline = fmax l.deadline floor }

  -- ClusterRecord(**data): `_last_commit_at` is not written, and begins at 0.0 again.
  unfoldable pub load_record : ClusterRecord F → ClusterRecord F
  load_record r = record r { last_commit_at = fl.of_nat 0 }

  -- restore
  unfoldable pub restore : F → F → Snapshot F → Result (LeaseTable F)
  unfolding extend load_record map_values
  restore grace_s clk s = new_table s.config s.epoch clk >>= λ t.
      let state = expand s.state_rle in
      if not (length state == t.config.num_blocks)
      then err value_error
      else (free_runs 0 state none Interval.empty >>= λ free. ok (record t {
        state = state_at state;
        committed = s.committed;
        quarantined = s.quarantined;
        epochs_completed = s.epochs_completed;
        epoch_started_at = s.epoch_started_at;
        seq = s.seq;
        attempts = s.attempts;
        free = free;
        clusters = map_values load_record s.clusters;
        leases = map (extend (fl.add clk grace_s)) s.leases;
      }))

  -- The two `while` loops of `replay_lease`: the first position from `position` on, and before the
  -- end of the lease, whose block is unassigned (`sought` true) or is not (`sought` false). Reading
  -- behind the end of `_state` raises IndexError.
  unfoldable pub seek : Bool → ℕ → ℕ → LeaseTable F → Result ℕ
  seek sought zero position t = ok position
  seek sought (suc n) position t =
      let rest = seek sought n (position + 1) t in
      let found = in_state (t.state position) unassigned in
      if leb t.config.num_blocks position
      then err index_error
      else if (if sought then found else not found)
      then ok position
      else rest

  -- The lease that is put back, with the blocks [lo, hi).
  unfoldable pub clamp_lease : F → ℕ → ℕ → Lease F → Lease F
  clamp_lease floor lo hi l = record l {
    start = lo;
    end = hi;
    committed_end = lo;
    progress_end = min (max l.progress_end lo) hi;
    deadline = fmax l.deadline floor;
  }

  -- replay_lease
  unfoldable pub replay_lease : F → Lease F → LeaseTable F → Result (Bool × LeaseTable F)
  unfolding seek clamp_lease find_lease set_lease
  replay_lease floor l t = elim (find_lease l.lease_id t.leases) [
    | some _ ↦ ok (false, t)
    | none ↦
        if not (l.epoch == t.epoch)
        then ok (false, t)
        else (seek true (l.end - l.start) l.start t >>= λ lo. seek false (l.end - lo) lo t >>= λ hi.
            if leb hi lo
            then ok (false, t)
            else (remove t.free lo hi >>= λ free. ok (
              true,
              record t {
                free = free;
                state = fill lo hi leased t.state;
                leases = set_lease (clamp_lease floor lo hi l) t.leases;
                seq = max t.seq l.lease_id.seq;
              },
            )))
  ]
