-- ===== src/Darl/Table.antt =====
-- class LeaseTable (src/pww/darl/table.py): its state, the epoch lifecycle and registration.
-- An operation takes the time `now`, and `clk` where it reads the clock once more.
pub mod Reclaim
pub mod Hold
pub mod Sizing
pub mod Steal
pub mod Acquire
pub mod Verify
pub mod Durable
use project_world_wide.Prelude.{
  ℕ, zero, suc, ◌+◌, ◌-◌, ◌≡◌, refl, Bool, true, false, not, ◌&&◌, ◌||◌, String, Option, none, some,
  List, [], ◌∷◌, ◌++◌, ◌==◌, ltb, leb, within, if◌then◌else◌, length, str_eq, Result, ok, err,
  Error, value_error, cluster_busy, ◌>>=◌, max, drop,
}
use project_world_wide.Prelude.Dict.{Dict, lookup, put, values, map_values}
use project_world_wide.Darl.Interval.{IntervalSet, span}
use project_world_wide.Darl.Floats.{Floats, fmax, fmin}
use project_world_wide.Darl.Lease.{
  BlockState, unassigned, Lease, ClusterRecord, Event, registered, superseded, epoch_advanced,
}

-- The arguments of `LeaseTable` that no operation changes.
pub record Config (F : Type 0) : Type 0 where
  pub num_blocks : ℕ
  pub digest : String
  pub max_epochs : ℕ
  pub max_attempts : ℕ
  pub min_blocks : ℕ
  pub max_blocks : ℕ
  pub first_grant_fraction : F
  pub allow_stealing : Bool
  pub steal_min_blocks : ℕ
  pub min_ttl : F

-- `state` and `attempts` are functions of the position: the bytearray `_state` is the part of
-- `state` below `num_blocks`, and `_attempts.get(position, 0)` is `attempts position`.
pub record LeaseTable (F : Type 0) : Type 0 where
  pub config : Config F
  pub epoch : ℕ
  pub epochs_completed : ℕ
  pub epoch_started_at : F
  pub clusters : Dict (ClusterRecord F)
  pub leases : List (Lease F)
  pub events : List (Event F)
  pub seq : ℕ
  pub state : ℕ → BlockState
  pub attempts : ℕ → ℕ
  pub free : IntervalSet
  pub committed : ℕ
  pub quarantined : ℕ

-- `if text:`
abbrev pub is_text : String → Bool
is_text s = not (str_eq s "")

-- self._state[start:end] = bytes([int(state)]) * (end - start)
abbrev pub fill : ℕ → ℕ → BlockState → (ℕ → BlockState) → ℕ → BlockState
fill start end s f p = if within start end p then s else f p

module _ {F : Type 0} where
  -- _record, without the time stamp: the last events, at most 512 of them
  abbrev pub trim : List (Event F) → List (Event F)
  trim es = if ltb 512 (length es) then drop 256 es else es

  abbrev pub record_event : Event F → LeaseTable F → LeaseTable F
  record_event e t = record t { events = trim (t.events ++ (e ∷ [])) }

  -- A change of the record object that stands in `clusters`, if there is one.
  unfoldable pub modify_cluster :
      String → (ClusterRecord F → ClusterRecord F) → LeaseTable F → LeaseTable F
  modify_cluster cid f t = elim (lookup cid t.clusters) [
    | none ↦ t
    | some r ↦ record t { clusters = put cid (f r) t.clusters }
  ]

  unfoldable pub reset_cursor : ClusterRecord F → ClusterRecord F
  reset_cursor r = record r { cursor = 0 }

  -- _reset_epoch
  unfoldable pub reset_epoch : ℕ → F → LeaseTable F → LeaseTable F
  unfolding reset_cursor
  reset_epoch epoch clk t = record t {
    epoch = epoch;
    epoch_started_at = clk;
    state = λ p. unassigned;
    attempts = λ p. 0;
    free = record { intervals = span 0 t.config.num_blocks ∷ []; total = t.config.num_blocks };
    committed = 0;
    quarantined = 0;
    leases = [];
    clusters = map_values reset_cursor t.clusters;
  }

  -- advance_epoch
  unfoldable pub advance_epoch : F → LeaseTable F → Bool × LeaseTable F
  unfolding reset_epoch
  advance_epoch clk t = if leb t.config.max_epochs (t.epoch + 1) then (false, t) else (
    true,
    record_event (epoch_advanced (t.epoch + 1))
        (reset_epoch (t.epoch + 1) clk (record t { epochs_completed = t.epochs_completed + 1 })),
  )

  -- the property epoch_complete
  abbrev pub epoch_is_complete : LeaseTable F → Bool
  epoch_is_complete t = leb t.config.num_blocks (t.committed + t.quarantined)

  -- any(lease.cluster == cluster_id for lease in self.leases.values())
  unfoldable pub holds_lease : String → List (Lease F) → Bool
  holds_lease cid [] = false
  holds_lease cid (l ∷ ls) = str_eq l.cluster cid || holds_lease cid ls

  -- Whether another process, by its incarnation, has registered under this id before.
  abbrev pub is_other : String → ClusterRecord F → Bool
  is_other incarnation r =
      is_text incarnation && is_text r.incarnation && not (str_eq incarnation r.incarnation)

module _ {F : Type 0} ⦃fl : Floats F⦄ where
  -- The attributes that `__init__` sets before it resets the epoch.
  abbrev pub blank : Config F → ℕ → F → LeaseTable F
  blank c epoch clk = record {
    config = record c {
      min_blocks = max 1 c.min_blocks;
      max_blocks = if c.max_blocks == 0 then c.num_blocks else c.max_blocks;
      steal_min_blocks = max 1 c.steal_min_blocks;
    };
    epoch = epoch;
    epochs_completed = 0;
    epoch_started_at = clk;
    clusters = [];
    leases = [];
    events = [];
    seq = 0;
    state = λ p. unassigned;
    attempts = λ p. 0;
    free = record { intervals = []; total = 0 };
    committed = 0;
    quarantined = 0;
  }

  -- LeaseTable(num_blocks, digest=..., ...), from the arguments `c` and the first epoch
  unfoldable pub new_table : Config F → ℕ → F → Result (LeaseTable F)
  unfolding reset_epoch
  new_table c epoch clk =
      if ltb c.num_blocks 1 then err value_error else ok (reset_epoch epoch clk (blank c epoch clk))

  -- ClusterRecord(cluster_id=cid, joined_at=now, last_seen=now)
  unfoldable pub new_record : String → F → ClusterRecord F
  new_record cid now = record {
    cluster_id = cid;
    joined_at = now;
    last_seen = now;
    ranks = 0;
    grants = 0;
    blocks_granted = 0;
    blocks_committed = 0;
    blocks_lost = 0;
    blocks_stolen_from = 0;
    blocks_stolen_by = 0;
    expiries = 0;
    macro_step_s = fl.of_nat 0;
    rtt_s = fl.of_nat 0;
    rate = fl.of_nat 0;
    cursor = 0;
    incarnation = "";
    incarnations = 0;
    last_commit_at = fl.of_nat 0;
  }

  -- TTL_BETA
  abbrev pub ttl_beta : F
  ttl_beta = fl.decimal 100 1

  -- is_live
  unfoldable pub is_live : LeaseTable F → ClusterRecord F → F → Bool
  unfolding holds_lease
  is_live t r now =
      let window = fmax t.config.min_ttl (fl.mul r.rtt_s ttl_beta) in
      holds_lease r.cluster_id t.leases || fl.lt (fl.sub now r.last_seen) window

  -- The last lines of `register`: the incarnation, the time and the ranks of the record.
  unfoldable pub touch : String → ℕ → F → ClusterRecord F → ClusterRecord F
  touch incarnation ranks now r =
      let renewed = is_text incarnation && not (str_eq incarnation r.incarnation) in
      record r {
        incarnation = if renewed then incarnation else r.incarnation;
        incarnations = if renewed then r.incarnations + 1 else r.incarnations;
        last_seen = now;
        ranks = if ranks == 0 then r.ranks else ranks;
      }

  -- register
  unfoldable pub register :
      String → String → ℕ → String → Bool → F → LeaseTable F → Result (LeaseTable F)
  unfolding is_live touch new_record lookup put
  register cid digest ranks incarnation check_conflict now t =
      if is_text digest && is_text t.config.digest && not (str_eq digest t.config.digest)
      then err value_error
      else elim (lookup cid t.clusters) [
        | none ↦
            let r = touch incarnation ranks now (new_record cid now) in
            ok (record_event (registered cid) (record t { clusters = put cid r t.clusters }))
        | some r ↦
            let t' = record t { clusters = put cid (touch incarnation ranks now r) t.clusters } in
            if is_other incarnation r
            then (if check_conflict && is_live t r now
                then err cluster_busy
                else ok (record_event (superseded cid (fl.round 1 (fl.sub now r.last_seen))) t'))
            else ok t'
      ]

  -- register(cluster_id, now=now), as the other operations call it: no digest, no incarnation
  abbrev pub register_plain : String → F → LeaseTable F → Result (LeaseTable F)
  register_plain cid now = register cid "" 0 "" true now
