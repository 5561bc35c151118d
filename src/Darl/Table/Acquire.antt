-- ===== src/Darl/Table/Acquire.antt =====
-- `acquire` of class LeaseTable (src/pww/darl/table.py).
use project_world_wide.Prelude.{
  ℕ, ◌+◌, ◌%◌, ◌&&◌, String, none, some, List, [], ◌∷◌, ◌==◌, if◌then◌else◌, length, Result, ok,
  err, ◌>>=◌, key_error, sum_by,
}
use project_world_wide.Prelude.Dict.{lookup}
use project_world_wide.Darl.Interval.{Span, size, take_near}
use project_world_wide.Darl.Floats.{Floats, fmax, fmin, is_set}
use project_world_wide.Darl.Lease.{
  leased, Lease, ClusterRecord, acquired, Grant, granted, drain, epoch_complete, outstanding,
  set_lease,
}
use project_world_wide.Darl.Table.{
  LeaseTable, fill, record_event, modify_cluster, register, register_plain, epoch_is_complete,
  advance_epoch,
}
use project_world_wide.Darl.Table.Reclaim.{reap}
use project_world_wide.Darl.Table.Hold.{measure, granted_ttl}
use project_world_wide.Darl.Table.Sizing.{grant_size}
use project_world_wide.Darl.Table.Steal.{Stealing, steal}

module _ {F : Type 0} ⦃fl : Floats F⦄ where
  -- The lease of one granted span.
  unfoldable pub new_lease : String → Span → F → F → LeaseTable F → Lease F
  new_lease cid x ttl now t = record {
    lease_id = record { epoch = t.epoch; start = x.lo; seq = t.seq + 1 };
    cluster = cid;
    epoch = t.epoch;
    start = x.lo;
    end = x.hi;
    committed_end = x.lo;
    progress_end = x.lo;
    granted_at = now;
    deadline = fl.add now ttl;
    ttl = ttl;
    stolen = 0;
  }

  -- One round of the loop over the spans.
  unfoldable pub grant_one : String → Span → F → F → LeaseTable F → LeaseTable F
  unfolding new_lease set_lease modify_cluster
  grant_one cid x ttl now t =
      modify_cluster cid (λ r. record r { cursor = x.hi % t.config.num_blocks })
        (record t {
          seq = t.seq + 1;
          state = fill x.lo x.hi leased t.state;
          leases = set_lease (new_lease cid x ttl now t) t.leases;
        })

  unfoldable pub grant_all :
      String → List Span → F → F → LeaseTable F → List (Lease F) × LeaseTable F
  unfolding grant_one
  grant_all cid [] ttl now t = ([], t)
  grant_all cid (x ∷ xs) ttl now t =
      let (ls, u) = grant_all cid xs ttl now (grant_one cid x ttl now t) in
      (new_lease cid x ttl now t ∷ ls, u)

  -- min(lease.deadline for lease in ...)
  unfoldable pub soonest_deadline : F → List (Lease F) → F
  soonest_deadline least [] = least
  soonest_deadline least (l ∷ ls) = soonest_deadline (fmin least l.deadline) ls

  -- _retry_after, with HEARTBEAT_DIVISOR 3 and DEFAULT_TTL 900.0
  unfoldable pub retry_after : F → F → LeaseTable F → List (Lease F) → F
  unfolding soonest_deadline
  retry_after ttl clk t [] = fl.div t.config.min_ttl (fl.of_nat 3)
  retry_after ttl clk t (l ∷ ls) =
      let soonest = fl.sub (soonest_deadline l.deadline ls) clk in
      let longest = if is_set ttl then ttl else fl.of_nat 900 in
      fmax (fl.of_nat 1) (fl.div (fmin longest soonest) (fl.of_nat 3))

  -- The answer when there is nothing to give.
  unfoldable pub nothing_left : F → F → LeaseTable F → Grant F
  unfolding retry_after
  nothing_left ttl clk t = record {
    status = if sum_by outstanding t.leases == 0 then epoch_complete else drain;
    epoch = t.epoch;
    leases = [];
    retry_after = retry_after ttl clk t t.leases;
  }

  -- The answer when spans have been found, of which `taken` blocks were stolen.
  unfoldable pub grant_spans :
      String → ClusterRecord F → List Span → ℕ → F → F → LeaseTable F → Grant F × LeaseTable F
  unfolding grant_all granted_ttl modify_cluster
  grant_spans cid r spans taken ttl now t =
      let lasting = granted_ttl ttl r t in
      let (ls, u) = grant_all cid spans lasting now t in
      let n = sum_by size spans in
      (
        record { status = granted; epoch = u.epoch; leases = ls; retry_after = fl.of_nat 0 },
        record_event (acquired cid n (length ls) taken (fl.round 1 lasting)) (
            modify_cluster cid
              (λ v. record v {
                grants = v.grants + 1;
                blocks_granted = v.blocks_granted + n;
                blocks_stolen_by = v.blocks_stolen_by + taken;
                last_seen = now;
              })
              u),
      )

  -- The spans of a request of `want` blocks: from the pool, or else stolen.
  unfoldable pub find_spans : String → ClusterRecord F → ℕ → ℕ → LeaseTable F → Result (Stealing F)
  unfolding take_near steal
  find_spans cid r want max_spans t = take_near t.free r.cursor want max_spans >>= λ a.
      let t' = record t { free = a.1 } in
      ok (
        if length a.0 == 0 && t.config.allow_stealing
        then steal cid want t'
        else record { table = t'; spans = a.0; taken = 0 })

  -- `acquire` once the epoch is known to have work.
  unfoldable pub allocate :
      String → ℕ → F → ℕ → F → F → LeaseTable F → Result (Grant F × LeaseTable F)
  unfolding find_spans grant_size grant_spans nothing_left lookup
  allocate cid blocks ttl max_spans now clk t = elim (lookup cid t.clusters) [
    | none ↦ err key_error
    | some r ↦ find_spans cid r (grant_size r blocks clk t) max_spans t >>= λ s. ok (
        if length s.spans == 0
        then (nothing_left ttl clk s.table, s.table)
        else grant_spans cid r s.spans s.taken ttl now s.table)
  ]

  -- `acquire` once the cluster is registered.
  unfoldable pub serve : String → ℕ → F → ℕ → F → F → LeaseTable F → Result (Grant F × LeaseTable F)
  unfolding advance_epoch allocate
  serve cid blocks ttl max_spans now clk t =
      let (advanced, u) = advance_epoch clk t in
      if epoch_is_complete t && length t.leases == 0
      then (if advanced
          then allocate cid blocks ttl max_spans now clk u
          else ok (
            record {
              status = epoch_complete;
              epoch = t.epoch;
              leases = [];
              retry_after = fl.of_nat 0;
            },
            t,
          ))
      else allocate cid blocks ttl max_spans now clk t

  -- acquire
  unfoldable pub acquire :
      String → ℕ → F → ℕ → F → F → F → F → LeaseTable F → Result (Grant F × LeaseTable F)
  unfolding reap register measure modify_cluster serve
  acquire cid blocks ttl max_spans macro_step_s rtt_s now clk t = reap now t >>= λ reaped.
      register_plain cid now reaped.0 >>= λ t1.
      serve cid blocks ttl max_spans now clk (modify_cluster cid (measure macro_step_s rtt_s) t1)
