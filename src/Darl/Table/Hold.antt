-- ===== src/Darl/Table/Hold.antt =====
-- `heartbeat` and `commit` of class LeaseTable, and `compute_ttl` (src/pww/darl/table.py).
use project_world_wide.Prelude.{
  ℕ, ◌+◌, ◌-◌, Bool, not, ◌||◌, String, none, some, List, [], ◌∷◌, ◌==◌, leb, if◌then◌else◌, str_eq,
  Result, ok, err, ◌>>=◌, min, max, key_error, permission_error,
}
use project_world_wide.Prelude.Dict.{lookup, put}
use project_world_wide.Darl.Floats.{Floats, fmax, fmin, is_set}
use project_world_wide.Darl.Lease.{
  LeaseId, committed, Lease, ClusterRecord, committed_blocks, find_lease, del_lease, set_lease,
}
use project_world_wide.Darl.Table.{
  LeaseTable, fill, record_event, modify_cluster, register, register_plain, epoch_is_complete,
}
use project_world_wide.Darl.Table.Reclaim.{reap}

-- The answer about one lease in a heartbeat.
pub data HeartbeatReply : Type 0 where
  valid : ℕ → ℕ → HeartbeatReply
  expired_or_unknown : HeartbeatReply

pub record CommitReply : Type 0 where
  pub epoch : ℕ
  pub committed_end : ℕ
  pub lease_closed : Bool
  pub committed : ℕ
  pub epoch_complete : Bool

module _ {F : Type 0} ⦃fl : Floats F⦄ where
  -- compute_ttl
  unfoldable pub compute_ttl : F → F → F → F → F → F → F
  compute_ttl macro_step_s rtt_s alpha beta floor ceiling =
      let ttl =
        fl.add (fl.mul alpha (fmax (fl.of_nat 0) macro_step_s))
          (fl.mul beta (fmax (fl.of_nat 0) rtt_s)) in
      fmin ceiling (fmax floor ttl)

  -- MAX_TTL
  abbrev pub max_ttl : F
  max_ttl = fl.of_nat 21600

  -- compute_ttl(macro_step_s, rtt_s), with TTL_ALPHA, TTL_BETA, MIN_TTL and MAX_TTL
  abbrev pub default_ttl_of : F → F → F
  default_ttl_of macro_step_s rtt_s =
      compute_ttl macro_step_s rtt_s (fl.decimal 25 1) (fl.decimal 100 1) (fl.decimal 300 1) max_ttl

  -- `ttl`, or what the record's measurements give, between the table's floor and MAX_TTL
  unfoldable pub granted_ttl : F → ClusterRecord F → LeaseTable F → F
  unfolding compute_ttl
  granted_ttl ttl r t =
      let wanted = if is_set ttl then ttl else default_ttl_of r.macro_step_s r.rtt_s in
      fmin max_ttl (fmax t.config.min_ttl wanted)

  -- the measurements that a cluster reports
  unfoldable pub measure : F → F → ClusterRecord F → ClusterRecord F
  measure macro_step_s rtt_s r = record r {
    macro_step_s = if is_set macro_step_s then macro_step_s else r.macro_step_s;
    rtt_s = if is_set rtt_s then rtt_s else r.rtt_s;
  }

  -- The lease of one reported watermark, renewed.
  unfoldable pub renew : ℕ → F → F → Lease F → Lease F
  renew watermark now ttl l = record l {
    progress_end = max l.progress_end (min watermark l.end);
    deadline = fl.add now ttl;
    ttl = ttl;
  }

  -- one round of the loop over `progress`
  unfoldable pub heartbeat_one :
      String → F → F → LeaseId → ℕ → LeaseTable F → HeartbeatReply × LeaseTable F
  unfolding renew find_lease set_lease
  heartbeat_one cid now ttl i watermark t = elim (find_lease i t.leases) [
    | none ↦ (expired_or_unknown, t)
    | some l ↦
        if not (str_eq l.cluster cid) || not (l.epoch == t.epoch)
        then (expired_or_unknown, t)
        else (
          valid l.end l.committed_end,
          record t { leases = set_lease (renew watermark now ttl l) t.leases },
        )
  ]

  unfoldable pub heartbeat_all :
      String → F → F → List (LeaseId × ℕ) → LeaseTable F → List HeartbeatReply × LeaseTable F
  unfolding heartbeat_one
  heartbeat_all cid now ttl [] t = ([], t)
  heartbeat_all cid now ttl ((i, watermark) ∷ progress) t =
      let (reply, t') = heartbeat_one cid now ttl i watermark t in
      let (replies, u) = heartbeat_all cid now ttl progress t' in (reply ∷ replies, u)

  -- heartbeat: the renewed time to live, an answer for each lease, and whether the epoch is complete
  unfoldable pub heartbeat :
      String
      → List (LeaseId × ℕ)
      → F
      → F
      → F
      → F
      → LeaseTable F
      → Result ((F × List HeartbeatReply × Bool) × LeaseTable F)
  unfolding reap register measure modify_cluster granted_ttl heartbeat_all lookup
  heartbeat cid progress macro_step_s rtt_s ttl now t = reap now t >>= λ reaped.
      register_plain cid now reaped.0 >>= λ t1.
      let t2 = modify_cluster cid (measure macro_step_s rtt_s) t1 in
      elim (lookup cid t2.clusters) [
        | none ↦ err key_error
        | some r ↦
            let renewed = granted_ttl ttl r t2 in
            let (replies, u) = heartbeat_all cid now renewed progress t2 in
            ok ((renewed, replies, epoch_is_complete u), u)
      ]

  -- The throughput estimate after `newly` more blocks.
  unfoldable pub new_rate : ℕ → F → ClusterRecord F → F
  new_rate newly now r =
      if is_set r.last_commit_at
      then (let elapsed = fmax (fl.decimal 1 6) (fl.sub now r.last_commit_at) in
          let rate = fl.div (fl.of_nat newly) elapsed in
          if fl.le r.rate (fl.of_nat 0)
          then rate
          else fl.add (fl.mul (fl.decimal 7 1) r.rate) (fl.mul (fl.decimal 3 1) rate))
      else r.rate

  -- The record after `newly` more blocks.
  unfoldable pub credit : ℕ → F → ClusterRecord F → ClusterRecord F
  unfolding new_rate
  credit newly now r = record r {
    blocks_committed = r.blocks_committed + newly;
    last_seen = now;
    rate = new_rate newly now r;
    last_commit_at = now;
  }

  -- `if newly:`, the blocks, the counters and the record
  unfoldable pub commit_blocks : String → Lease F → ℕ → F → LeaseTable F → Result (LeaseTable F)
  unfolding credit set_lease lookup put
  commit_blocks cid l through now t =
      let newly = through - l.committed_end in
      let l' = record l { committed_end = through; progress_end = max l.progress_end through } in
      elim (lookup cid t.clusters) [
        | none ↦ err key_error
        | some r ↦ ok (record t {
          state = fill l.committed_end through committed t.state;
          committed = t.committed + newly;
          leases = set_lease l' t.leases;
          clusters = put cid (credit newly now r) t.clusters;
        })
      ]

  -- the rest of `commit`: a finished lease is closed, the event, the reply
  unfoldable pub close_lease : String → Lease F → ℕ → LeaseTable F → CommitReply × LeaseTable F
  unfolding del_lease
  close_lease cid l through t =
      let newly = through - l.committed_end in
      let closed = leb l.end through in
      let t1 = if closed then record t { leases = del_lease l.lease_id t.leases } else t in
      let t2 = if newly == 0 then t1 else record_event (committed_blocks cid newly l.lease_id) t1 in
      (
        record {
          epoch = t2.epoch;
          committed_end = through;
          lease_closed = closed;
          committed = t2.committed;
          epoch_complete = epoch_is_complete t2;
        },
        t2,
      )

  -- commit
  unfoldable pub commit :
      String → LeaseId → ℕ → F → LeaseTable F → Result (CommitReply × LeaseTable F)
  unfolding commit_blocks close_lease find_lease
  commit cid i asked now t = elim (find_lease i t.leases) [
    | none ↦ err key_error
    | some l ↦
        let through = min (max asked l.committed_end) l.end in
        if not (str_eq l.cluster cid)
        then err permission_error
        else if through == l.committed_end
        then ok (close_lease cid l through t)
        else (commit_blocks cid l through now t >>= λ u. ok (close_lease cid l through u))
  ]
