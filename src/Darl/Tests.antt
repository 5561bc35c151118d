-- ===== src/Darl/Tests.antt =====
-- Runs of the lease coordinator (src/pww/darl) at small inputs, and theorems applied there.
use project_world_wide.Prelude.{
  ℕ, zero, suc, ◌+◌, ◌-◌, ◌*◌, ◌/◌, ◌≤◌, ◌<◌, ◌≡◌, ◌⊎◌, ◌≢◌, ◌^◌, double_free, refl, Bool, true,
  false, ◌&&◌, String, Option, none, some, List, [], ◌∷◌, ltb, leb, ◌==◌, within, count_of, length,
  Returns, Result, ok, err, Error, min, max, key_error, permission_error, arith, if◌then◌else◌,
}
use project_world_wide.Darl.Samples.{seconds, lumi_id, lumi_lease, six, six-IsValid, all_leased}
use project_world_wide.Darl.Interval.{span, IntervalSet, add, take_near, remove}
use project_world_wide.Darl.Interval.Cover.{IsPool}
use project_world_wide.Darl.Interval.Add.{IsAdded, add-IsAdded}
use project_world_wide.Darl.Interval.Take.{IsTaken, take_near-IsTaken, take_near_takes}
use project_world_wide.Darl.Interval.Remove.{IsRemoved, remove-IsRemoved}
use project_world_wide.Darl.Lease.{
  BlockState, unassigned, leased, committed, quarantined, in_state, Lease, LeaseId, ClusterRecord,
  find_lease,
}
use project_world_wide.Darl.Table.Reclaim.{reap, release}
use project_world_wide.Darl.Table.Hold.{commit}
use project_world_wide.Darl.Table.Acquire.{acquire}
use project_world_wide.Darl.Valid.Acquire.{IsOverAt, IsServed, acquire-IsAcquired}
use project_world_wide.Darl.Valid.{IsValid}
use project_world_wide.Darl.Valid.GivenBack.{IsGivenBack}
use project_world_wide.Darl.Valid.Conservation.{blocks_add_up}
use project_world_wide.Darl.Lease.{outstanding}
use project_world_wide.Prelude.{sum_by}
use project_world_wide.Darl.Valid.Expiry.{reap-IsGivenBack}
use project_world_wide.Darl.Valid.Release.{release-IsGivenBack}
use project_world_wide.Darl.Valid.Holding.{IsCommitted}
use project_world_wide.Darl.Valid.Commit.{commit-IsCommitted, commit_errors}
use project_world_wide.Prelude.{Outcome, value_error, cluster_busy, map}
use project_world_wide.Darl.Space.{BlockSpace, num_blocks, samples_of, span_indices}
use project_world_wide.Darl.Space.Ranges.{samples_of_partition}
use project_world_wide.Darl.Table.{advance_epoch, register}
use project_world_wide.Darl.Table.Hold.{heartbeat}
use project_world_wide.Darl.Valid.Heartbeat.{heartbeat-IsGivenBack}
use project_world_wide.Darl.Valid.Registration.{
  IsRegistered, digests_differ, is_held_by_other, register_outcome, advance_epoch-IsValid,
}

abbrev sample : IntervalSet
sample = record { intervals = span 0 4 ∷ span 8 12 ∷ []; total = 8 }

add_joins : add sample 4 8 ≡ ok (record { intervals = span 0 12 ∷ []; total = 12 })
unfolding add
add_joins = refl

add_overlap : add sample 3 5 ≡ err double_free
unfolding add
add_overlap = refl

take_wraps :
    take_near sample 9 6 4
    ≡ ok (span 9 12 ∷ span 0 3 ∷ [], record { intervals = span 3 4 ∷ span 8 9 ∷ []; total = 2 })
unfolding take_near
take_wraps = refl

sample-IsPool : IsPool sample
sample-IsPool = record { ascending = omega arith; counted = omega arith }

add-IsAdded_example : Returns (add sample 4 8) (IsAdded sample (span 4 8))
add-IsAdded_example = add-IsAdded sample 4 8 sample-IsPool (λ p a b. ground arith)

take_near-IsTaken_example : Returns (take_near sample 9 6 4) (IsTaken sample 6 4)
take_near-IsTaken_example = take_near-IsTaken sample 9 6 4 sample-IsPool

take_near_takes_example : Returns (take_near sample 9 6 4) (λ r. 0 < length r.0)
take_near_takes_example =
    take_near_takes sample 9 6 4 sample-IsPool (omega arith) (omega arith) (omega arith)

remove-IsRemoved_example : Returns (remove sample 9 11) (IsRemoved sample (span 9 11))
remove-IsRemoved_example =
    remove-IsRemoved sample 9 11 sample-IsPool (omega arith) (λ p a b. ground arith)

reap-IsGivenBack_example : Returns (reap 901 six) (λ r. IsGivenBack six r.0)
reap-IsGivenBack_example = reap-IsGivenBack 901 six six-IsValid

blocks_add_up_example :
    six.free.total + sum_by outstanding six.leases + six.committed + six.quarantined ≡ 6
blocks_add_up_example = blocks_add_up six six-IsValid

acquire-IsAcquired_example :
    Returns (acquire "mn5" 2 0 4 0 0 10 10 six) (IsServed (IsOverAt 10 six) "mn5" six)
acquire-IsAcquired_example =
    acquire-IsAcquired "mn5" 2 4 0 0 0 10 10 six six-IsValid (omega arith) (omega arith)

-- Three blocks are free and two clusters share them, so a request for two gets one.
acquire_runs :
    Returns
      (acquire "mn5" 2 0 4 0 0 10 10 six)
      (λ a. a.1.free ≡ record { intervals = span 4 6 ∷ []; total = 2 })
unfolding acquire project_world_wide.Darl.Lease.same_id
acquire_runs = refl

-- With every block leased, a request takes the tail of the other cluster's lease.
steal_runs :
    Returns
      (acquire "mn5" 2 0 4 0 0 10 10 all_leased)
      (λ a. map (λ (l : Lease ℕ). span l.start l.end) a.1.leases ≡ span 0 4 ∷ span 4 6 ∷ [])
unfolding acquire project_world_wide.Darl.Lease.same_id
steal_runs = refl

-- The lease is gone and its blocks are free again.
reap_runs : Returns (reap 901 six) (λ r. r.0.free ≡ record { intervals = span 1 6 ∷ []; total = 5 })
unfolding reap project_world_wide.Darl.Lease.same_id project_world_wide.Darl.Lease.del_lease
    project_world_wide.Prelude.Dict.lookup
reap_runs = refl

release-IsGivenBack_example : Returns (release "lumi" none "a" true six) (λ r. IsGivenBack six r.0)
release-IsGivenBack_example = release-IsGivenBack "lumi" none "a" true six six-IsValid

lumi_is_held : find_lease lumi_id six.leases ≡ some lumi_lease
unfolding find_lease project_world_wide.Darl.Lease.same_id
lumi_is_held = refl

commit-IsCommitted_example :
    Returns (commit "lumi" lumi_id 2 60 six) (λ a. IsCommitted six lumi_lease (min (max 2 1) 3) a.1)
commit-IsCommitted_example = commit-IsCommitted six lumi_lease lumi_id 2 60 six-IsValid lumi_is_held

commit_by_other : commit "snellius" lumi_id 2 60 six ≡ err permission_error
unfolding commit project_world_wide.Darl.Lease.same_id
commit_by_other = refl

commit_errors_example :
    ((permission_error ≡ key_error) × (find_lease lumi_id six.leases ≡ none))
    ⊎ ((permission_error ≡ permission_error)
        × ((l : Lease ℕ) × (find_lease lumi_id six.leases ≡ some l) × (l.cluster ≢ "snellius")))
commit_errors_example =
    commit_errors six "snellius" lumi_id 2 60 permission_error six-IsValid commit_by_other

heartbeat-IsGivenBack_example :
    Returns (heartbeat "lumi" ((lumi_id, 9) ∷ []) 0 0 0 60 six) (λ a. IsGivenBack six a.1)
heartbeat-IsGivenBack_example =
    heartbeat-IsGivenBack "lumi" ((lumi_id, 9) ∷ []) 0 0 0 60 six six-IsValid

-- A watermark past the end of the lease is taken as the end.
heartbeat_runs :
    Returns
      (heartbeat "lumi" ((lumi_id, 9) ∷ []) 0 0 0 60 six)
      (λ a. map (λ l. l.progress_end) a.1.leases ≡ 3 ∷ [])
unfolding heartbeat project_world_wide.Darl.Lease.same_id
heartbeat_runs = refl

register_outcome_example :
    Outcome
      (register "lumi" "" 8 "b" true 1000 six)
      (λ u.
        (digests_differ "" six ≡ false)
        × ((true && is_held_by_other "lumi" "b" 1000 six) ≡ false)
        × IsRegistered "lumi" six u)
      (λ e.
        ((e ≡ value_error) × (digests_differ "" six ≡ true))
        ⊎ ((e ≡ cluster_busy)
            × (digests_differ "" six ≡ false)
            × ((true && is_held_by_other "lumi" "b" 1000 six) ≡ true)))
register_outcome_example = register_outcome "lumi" "" "b" 8 true 1000 six six-IsValid

-- A second process is refused while the first still holds a lease.
register_busy : register "lumi" "" 8 "b" true 1000 six ≡ err cluster_busy
unfolding register
register_busy = refl

advance_epoch-IsValid_example :
    IsValid (advance_epoch 1000 six).1
    × ((advance_epoch 1000 six).0 ≡ ltb (0 + 1) 1)
    × ((advance_epoch 1000 six).1.epoch ≡ (if ltb (0 + 1) 1 then 0 + 1 else 0))
    × ((((advance_epoch 1000 six).0 ≡ false) × ((advance_epoch 1000 six).1 ≡ six))
        ⊎ (((advance_epoch 1000 six).0 ≡ true)
            × ((advance_epoch 1000 six).1.leases ≡ [])
            × ((advance_epoch 1000 six).1.committed ≡ 0)
            × ((advance_epoch 1000 six).1.quarantined ≡ 0)
            × ((p : ℕ) → (advance_epoch 1000 six).1.state p ≡ unassigned)))
advance_epoch-IsValid_example = advance_epoch-IsValid 1000 six (omega arith) six-IsValid

-- Ten samples in blocks of four: the last block is short.
abbrev ten : BlockSpace
ten = record { num_samples = 10; block_size = 4; seed = 0; shuffle = true }

-- A shuffle that reverses the positions.
abbrev reversed : BlockSpace → ℕ → ℕ → ℕ
reversed s epoch position = 2 - position

indices_run : span_indices reversed ten 0 2 0 ≡ ok (8 ∷ 9 ∷ 4 ∷ 5 ∷ 6 ∷ 7 ∷ [])
unfolding span_indices
indices_run = refl

samples_of_partition_example :
    (9 / 4 < num_blocks ten)
    × ((samples_of ten (9 / 4)).lo ≤ 9)
    × (9 < (samples_of ten (9 / 4)).hi)
    × ((1 ≡ 9 / 4) ⊎ (9 < (samples_of ten 1).lo) ⊎ ((samples_of ten 1).hi ≤ 9))
samples_of_partition_example = samples_of_partition ten 9 1 (omega arith) (omega arith)
