-- ===== src/Darl/Server/Tests.antt =====
-- The theorems about the durable table and the coordinator (src/pww/darl) at a small table.
use project_world_wide.Prelude.{
  ℕ, ◌+◌, ◌≤◌, ◌<◌, ◌≡◌, ◌⊎◌, refl, Bool, true, false, Option, none, some, List, [], ◌∷◌, arith,
  Returns, Outcome, Result, ok, err, length, ◌==◌, assertion_error, value_error, type_error, ltb,
  if◌then◌else◌,
}
use project_world_wide.Darl.Interval.{span}
use project_world_wide.Darl.Interval.Cover.{cover}
use project_world_wide.Darl.Lease.{Lease, Grant, granted, find_lease, BlockState, committed, leased}
use project_world_wide.Darl.Blocks.{lease_cover}
use project_world_wide.Darl.Table.{LeaseTable, new_table, reset_epoch, blank}
use project_world_wide.Darl.Table.Acquire.{acquire}
use project_world_wide.Darl.Table.Verify.{verify}
use project_world_wide.Darl.Table.Durable.{Snapshot, snapshot, replay_lease}
use project_world_wide.Darl.Valid.Verified.{IsCountOf, verify_outcome}
use project_world_wide.Darl.Valid.Counted.{IsVerified}
use project_world_wide.Darl.Valid.Replay.{IsReplayed, replay_lease-IsReplayed}
use project_world_wide.Darl.Server.{
  Coordinator, Op, given_back, on_release, answered, on_acquire, note_grant, is_expected, load,
  acquires, commits, replay,
}
use project_world_wide.Darl.Server.Routes.{to_release, unreadable, sent, dispatch, do_post}
use project_world_wide.Darl.Server.Sound.{IsSound}
use project_world_wide.Darl.Server.Recovery.{IsLoaded, load-IsLoaded}
use project_world_wide.Darl.Server.Life.{new_coordinator, here, next, posted, never_twice}
use project_world_wide.Darl.Server.Retry.{on_acquire_again}
use project_world_wide.Darl.Server.Lost.{refused_release_replayed}
use project_world_wide.Darl.Samples.{
  seconds, lumi_id, lumi_lease, six_config, lumi_record, six, six-IsValid,
}

verify_outcome_example :
    Outcome
      (verify six)
      (λ c. IsVerified six × IsCountOf six c)
      (λ e. (e ≡ assertion_error) × (IsVerified six → ⊥))
verify_outcome_example = verify_outcome six

-- A lease over the blocks 2 to 4, of which 2 is leased already.
abbrev lost_lease : Lease ℕ
lost_lease = record lumi_lease {
  lease_id = record { epoch = 0; start = 2; seq = 2 };
  start = 2;
  end = 5;
  committed_end = 2;
  progress_end = 2;
}

replay_lease-IsReplayed_example : Returns (replay_lease 950 lost_lease six) (IsReplayed six)
unfolding project_world_wide.Prelude.Dict.lookup
replay_lease-IsReplayed_example =
    replay_lease-IsReplayed six 950 lost_lease six-IsValid (lumi_record, refl) (omega arith)
      (omega arith)

replay_runs :
    Returns
      (replay_lease 950 lost_lease six)
      (λ a. a.1.free ≡ record { intervals = span 5 6 ∷ []; total = 1 })
unfolding replay_lease project_world_wide.Darl.Interval.remove project_world_wide.Darl.Lease.same_id
replay_runs = refl

abbrev begun : LeaseTable ℕ
begun = reset_epoch 0 0 (blank six_config 0 0)

abbrev started : Coordinator ℕ
started = new_coordinator six true 60 true

unreadable_runs : (do_post true (unreadable type_error) 60 60 started).0 ≡ sent 500 none
unfolding do_post dispatch
unreadable_runs = refl

-- After a snapshot, the lease that is journalled is put back by a restart.
abbrev stopped : Coordinator ℕ
stopped = record started {
  saved = some (snapshot six);
  journal = (acquires "lumi" (lost_lease ∷ []), 60) ∷ (commits "lumi" lumi_id 2, 70) ∷ [];
}

stopped-IsSound : IsSound stopped
unfolding new_coordinator
stopped-IsSound = record {
  valid = six-IsValid;
  kept = omega arith;
  journal = (((refl, omega arith, omega arith), tt), (tt, tt));
  saved = (six, refl, (six-IsValid, refl));
}

load-IsLoaded_example : Outcome (load (some 6) "" 60 1000 stopped) (IsLoaded 60 1000 stopped) (λ e.
    (e ≡ value_error)
    × ((s : Snapshot ℕ) × (stopped.saved ≡ some s) × (is_expected (some 6) "" s ≡ false)))
load-IsLoaded_example = load-IsLoaded (some 6) "" 60 1000 stopped stopped-IsSound

refused_release_replayed_example : Returns (on_release "lumi" none "b" true 60 started) (λ a.
    (a.0 ≡ given_back 0 a.1.table.epoch)
    × (a.1.table.leases ≡ six.leases)
    × ((entry : Op ℕ × ℕ) × (a.1.journal ≡ entry ∷ [])
        × Returns (replay 950 1000 entry six) (λ u. find_lease lumi_id u.leases ≡ none)))
unfolding project_world_wide.Prelude.Dict.lookup find_lease project_world_wide.Darl.Lease.same_id
    new_coordinator
refused_release_replayed_example =
    refused_release_replayed 950 1000 60 "lumi" "b" true lumi_id lumi_record lumi_lease started refl
      six-IsValid refl refl refl refl

never_twice_example :
    let c = new_coordinator begun true 60 true in
    let d = (do_post true (to_release "lumi" none "" true) 10 10 c).1 in
    cover 3 d.table.free.intervals + lease_cover 3 d.table.leases ≤ 1
unfolding new_table
never_twice_example = never_twice six_config 0 0 true 60 true begun _ 3 (omega arith) refl (
    next here
      (posted (new_coordinator begun true 60 true) true (to_release "lumi" none "" true) 10 10))

-- The grant of a first request, and the table after it.
abbrev got : Result (Grant ℕ × LeaseTable ℕ) → Grant ℕ × LeaseTable ℕ
got (ok a) = a
got (err e) = (record { status = granted; epoch = 0; leases = []; retry_after = 0 }, six)

abbrev first_grant : Grant ℕ × LeaseTable ℕ
first_grant = got (acquire "mn5" 2 0 4 0 0 10 10 six)

abbrev after_first : Coordinator ℕ
after_first = note_grant "mn5" "r1" 10 first_grant.0 (record started { table = first_grant.1 })

on_acquire_again_example :
    on_acquire "mn5" 5 0 4 0 0 "r1" 20 20 after_first ≡ ok (answered first_grant.0, after_first)
unfolding new_coordinator on_acquire acquire project_world_wide.Darl.Lease.same_id
on_acquire_again_example =
    on_acquire_again "mn5" "r1" 2 5 4 4 0 0 0 0 0 0 10 20 10 20 first_grant.0 started after_first
      refl refl refl
