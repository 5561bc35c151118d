-- ===== src/Darl/Lease.antt =====
-- The records of src/pww/darl/table.py: blocks, leases, clusters, grants and events.
use project_world_wide.Prelude.{
  ℕ, zero, suc, ◌-◌, ◌≡◌, Bool, true, ◌&&◌, String, Option, none, some, List, [], ◌∷◌, ◌==◌,
  if◌then◌else◌, arith,
}

-- class BlockState(IntEnum)
pub data BlockState : Type 0 where
  unassigned leased committed quarantined : BlockState

-- The value of the member.
abbrev pub value : BlockState → ℕ
value unassigned = 0
value leased = 1
value committed = 2
value quarantined = 3

-- BlockState(n), for the values of members.
abbrev pub of_value : ℕ → BlockState
of_value zero = unassigned
of_value (suc zero) = leased
of_value (suc (suc zero)) = committed
of_value _ = quarantined

-- Members are compared as integers.
abbrev pub in_state : BlockState → BlockState → Bool
in_state s s' = value s == value s'

-- The text `e<epoch>-b<start>-<seq>`, as its three numbers.
pub record LeaseId : Type 0 where
  pub epoch : ℕ
  pub start : ℕ
  pub seq : ℕ

unfoldable pub same_id : LeaseId → LeaseId → Bool
same_id a b = (a.epoch == b.epoch) && (a.start == b.start) && (a.seq == b.seq)

pub same_id→eq : (a b : LeaseId) → same_id a b ≡ true → a ≡ b
unfolding same_id
same_id→eq a b h = ground arith

pub same_id_refl : (a : LeaseId) → same_id a a ≡ true
unfolding same_id
same_id_refl a = ground arith

pub record Lease (F : Type 0) : Type 0 where
  pub lease_id : LeaseId
  pub cluster : String
  pub epoch : ℕ
  pub start : ℕ
  pub end : ℕ
  pub committed_end : ℕ
  pub progress_end : ℕ
  pub granted_at : F
  pub deadline : F
  pub ttl : F
  pub stolen : ℕ

pub record ClusterRecord (F : Type 0) : Type 0 where
  pub cluster_id : String
  pub joined_at : F
  pub last_seen : F
  pub ranks : ℕ
  pub grants : ℕ
  pub blocks_granted : ℕ
  pub blocks_committed : ℕ
  pub blocks_lost : ℕ
  pub blocks_stolen_from : ℕ
  pub blocks_stolen_by : ℕ
  pub expiries : ℕ
  pub macro_step_s : F
  pub rtt_s : F
  pub rate : F
  pub cursor : ℕ
  pub incarnation : String
  pub incarnations : ℕ
  pub last_commit_at : F

-- `status` of a Grant
pub data GrantStatus : Type 0 where
  granted drain epoch_complete : GrantStatus

-- The entries of the event ring, without the wall-clock time that each is stamped with.
pub data Event (F : Type 0) : Type 0 where
  registered : String → Event F
  superseded : String → F → Event F
  acquired : String → ℕ → ℕ → ℕ → F → Event F
  committed_blocks : String → ℕ → LeaseId → Event F
  release_refused : String → ℕ → Event F
  released : String → ℕ → Event F
  expired : String → ℕ → LeaseId → F → Event F
  block_quarantined : ℕ → ℕ → String → Event F
  stolen_from : String → String → ℕ → LeaseId → Event F
  epoch_advanced : ℕ → Event F

-- class Grant, without the text of its `reason`
pub record Grant (F : Type 0) : Type 0 where
  pub status : GrantStatus
  pub epoch : ℕ
  pub leases : List (Lease F)
  pub retry_after : F

module _ {F : Type 0} where
  -- Lease.blocks
  abbrev pub blocks : Lease F → ℕ
  blocks l = l.end - l.start

  -- Lease.outstanding
  abbrev pub outstanding : Lease F → ℕ
  outstanding l = l.end - l.committed_end

  -- ClusterRecord.is_new
  abbrev pub is_new : ClusterRecord F → Bool
  is_new r = r.blocks_committed == 0

  -- self.leases, a dict by lease id, as its values in insertion order.
  -- self.leases.get(lease_id)
  unfoldable pub find_lease : LeaseId → List (Lease F) → Option (Lease F)
  find_lease i [] = none
  find_lease i (l ∷ ls) = if same_id l.lease_id i then some l else find_lease i ls

  -- del self.leases[lease_id]
  unfoldable pub del_lease : LeaseId → List (Lease F) → List (Lease F)
  del_lease i [] = []
  del_lease i (l ∷ ls) = if same_id l.lease_id i then ls else l ∷ del_lease i ls

  -- self.leases[lease.lease_id] = lease, and a change of the lease object that stands there
  unfoldable pub set_lease : Lease F → List (Lease F) → List (Lease F)
  set_lease n [] = n ∷ []
  set_lease n (l ∷ ls) = if same_id l.lease_id n.lease_id then n ∷ ls else l ∷ set_lease n ls
