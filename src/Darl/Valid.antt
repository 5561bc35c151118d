-- ===== src/Darl/Valid.antt =====
-- The invariant of the lease table (src/pww/darl/table.py): what `verify` asserts, and more.
pub mod Allocation
pub mod Counted
pub mod Frames
pub mod GivenBack
pub mod Expiry
pub mod Release
pub mod Holding
pub mod Commit
pub mod Registration
pub mod Heartbeat
pub mod Granting
pub mod Stealing
pub mod Thieves
pub mod Acquire
pub mod Conservation
pub mod Verified
pub mod Replay
pub mod Runs
pub mod Restored
use project_world_wide.Prelude.{
  ℕ, zero, suc, ◌+◌, ◌-◌, ◌≤◌, ◌<◌, ◌≡◌, refl, Bool, true, false, ◌&&◌, Option, none, some, List,
  [], ◌∷◌, count_of, if◌then◌else◌, sum_by, All, arith,
}
use project_world_wide.Prelude.Dict.{Dict, lookup, sum_values}
use project_world_wide.Darl.Lease.{Lease, ClusterRecord}
use project_world_wide.Darl.Table.{LeaseTable}
use project_world_wide.Darl.Blocks.{IsConsistent, IsUnique}

-- The watermarks of a lease of this epoch are in order, it has a block outstanding, and its number
-- has been given out.
pub record IsMarked {F : Type 0} (n epoch seq : ℕ) (l : Lease F) : Type 0 where
  pub started : l.start ≤ l.committed_end
  pub consumed : l.committed_end ≤ l.progress_end
  pub within_end : l.progress_end ≤ l.end
  pub unfinished : l.committed_end < l.end
  pub in_space : l.end ≤ n
  pub current : l.epoch ≡ epoch
  pub numbered : l.lease_id.seq ≤ seq

-- The cluster of a lease is registered.
abbrev pub IsOwned : {F : Type 0} → Dict (ClusterRecord F) → Lease F → Type 0
IsOwned {F} clusters l = (r : ClusterRecord F) × (lookup l.cluster clusters ≡ some r)

-- Between them the clusters have been credited with at least the committed blocks.
abbrev pub credited : {F : Type 0} → Dict (ClusterRecord F) → ℕ
credited = sum_values (λ r. r.blocks_committed)

pub record IsValid {F : Type 0} (t : LeaseTable F) : Type 0 where
  pub blocks : IsConsistent t.config.num_blocks t.state t.free t.leases t.committed t.quarantined
  pub marks : All (IsMarked t.config.num_blocks t.epoch t.seq) t.leases
  pub unique : IsUnique t.leases
  pub owned : All (IsOwned t.clusters) t.leases
  pub credit : t.committed ≤ credited t.clusters
