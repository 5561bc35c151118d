-- ===== src/Darl/Samples.antt =====
-- A small lease table (src/pww/darl/table.py) for the tests.
use project_world_wide.Prelude.{
  ℕ, zero, suc, ◌+◌, ◌-◌, ◌*◌, ◌/◌, ◌≤◌, ◌<◌, ◌≡◌, ◌⊎◌, ◌≢◌, ◌^◌, double_free, refl, Bool, true,
  false, ◌&&◌, String, Option, none, some, List, [], ◌∷◌, ltb, leb, ◌==◌, within, count_of, length,
  Returns, Result, ok, err, Error, min, max, key_error, permission_error, arith, if◌then◌else◌,
}
use project_world_wide.Darl.Interval.{span}
use project_world_wide.Darl.Floats.{Floats}
use project_world_wide.Darl.Lease.{
  BlockState, unassigned, leased, committed, Lease, LeaseId, ClusterRecord, find_lease,
}
use project_world_wide.Darl.Table.{LeaseTable, Config}
use project_world_wide.Darl.Blocks.{count_state}
use project_world_wide.Darl.Valid.{IsValid}
use project_world_wide.Prelude.{sum_by}
use project_world_wide.Prelude.{Outcome, value_error, cluster_busy, map}

-- Whole seconds for floats.
instance abbrev pub seconds : Floats ℕ
seconds = record {
  of_nat = λ n. n;
  decimal = λ digits places. digits / 10 ^ places;
  add = ◌+◌;
  sub = ◌-◌;
  mul = ◌*◌;
  div = ◌/◌;
  lt = ltb;
  le = leb;
  eq = ◌==◌;
  truncate = λ n. n;
  round = λ places n. n;
}

-- Six blocks: 0 is committed, 1 and 2 are outstanding on a lease of "lumi", the rest is free.
abbrev pub lumi_id : LeaseId
lumi_id = record { epoch = 0; start = 0; seq = 1 }

abbrev pub lumi_lease : Lease ℕ
lumi_lease = record {
  lease_id = lumi_id;
  cluster = "lumi";
  epoch = 0;
  start = 0;
  end = 3;
  committed_end = 1;
  progress_end = 2;
  granted_at = 0;
  deadline = 900;
  ttl = 900;
  stolen = 0;
}

abbrev pub six_config : Config ℕ
six_config = record {
  num_blocks = 6;
  digest = "";
  max_epochs = 1;
  max_attempts = 3;
  min_blocks = 1;
  max_blocks = 6;
  first_grant_fraction = 1;
  allow_stealing = true;
  steal_min_blocks = 2;
  min_ttl = 30;
}

abbrev pub six_state : ℕ → BlockState
six_state p = if ltb p 1 then committed else if ltb p 3 then leased else unassigned

abbrev pub lumi_record : ClusterRecord ℕ
lumi_record = record {
  cluster_id = "lumi";
  joined_at = 0;
  last_seen = 0;
  ranks = 8;
  grants = 1;
  blocks_granted = 3;
  blocks_committed = 1;
  blocks_lost = 0;
  blocks_stolen_from = 0;
  blocks_stolen_by = 0;
  expiries = 0;
  macro_step_s = 0;
  rtt_s = 0;
  rate = 0;
  cursor = 3;
  incarnation = "a";
  incarnations = 1;
  last_commit_at = 0;
}

abbrev pub six : LeaseTable ℕ
six = record {
  config = six_config;
  epoch = 0;
  epochs_completed = 0;
  epoch_started_at = 0;
  clusters = ("lumi", lumi_record) ∷ [];
  leases = lumi_lease ∷ [];
  events = [];
  seq = 1;
  state = six_state;
  attempts = λ p. 0;
  free = record { intervals = span 3 6 ∷ []; total = 3 };
  committed = 1;
  quarantined = 0;
}

pub six-IsValid : IsValid six
unfolding count_state find_lease project_world_wide.Prelude.Dict.lookup
    project_world_wide.Prelude.Dict.sum_values
six-IsValid = record {
  blocks = record {
    pool = record { ascending = omega arith; counted = omega arith };
    free_at = λ p. ground arith;
    leased_at = λ p. ground arith;
    committed_count = refl;
    quarantined_count = refl;
  };
  marks = omega arith;
  unique = (refl, tt);
  owned = ((lumi_record, refl), tt);
  credit = omega arith;
}

-- The same with every block leased.
abbrev pub all_leased : LeaseTable ℕ
all_leased = record six {
  leases = record lumi_lease { end = 6 } ∷ [];
  state = λ p. if ltb p 1 then committed else leased;
  free = record { intervals = []; total = 0 };
}
