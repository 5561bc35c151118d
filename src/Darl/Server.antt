-- ===== src/Darl/Server.antt =====
-- class Coordinator and the routes of src/pww/darl/server.py: a lease table with a journal, periodic
-- snapshots and a cache of grants.
-- One lock is held through each operation, so operations follow one another. `now` is time.time() in
-- the operation and `clk` the clock of the table. The journal and the snapshot are lists of entries
-- and a record; their JSON text, with a torn last line, is not modelled.
pub mod Routes
pub mod Sound
pub mod Operations
pub mod Answers
pub mod Replaying
pub mod Recovery
pub mod Life
pub mod Retry
pub mod Lost
mod Tests
use project_world_wide.Prelude.{
  ℕ, zero, suc, ◌+◌, ◌-◌, ◌≡◌, Bool, true, false, not, ◌&&◌, ◌||◌, String, Option, none, some, List,
  [], ◌∷◌, ◌++◌, ◌==◌, ltb, if◌then◌else◌, length, str_eq, Result, ok, err, Error, value_error,
  key_error, permission_error, cluster_busy, ◌>>=◌, map,
}
use project_world_wide.Prelude.Dict.{lookup}
use project_world_wide.Darl.Floats.{Floats}
use project_world_wide.Darl.Lease.{LeaseId, Lease, ClusterRecord, Grant}
use project_world_wide.Darl.Table.{LeaseTable, register, register_plain, advance_epoch, is_text}
use project_world_wide.Darl.Table.Reclaim.{reap, release}
use project_world_wide.Darl.Table.Hold.{heartbeat, commit, HeartbeatReply, CommitReply}
use project_world_wide.Darl.Table.Acquire.{acquire}
use project_world_wide.Darl.Table.Verify.{verify}
use project_world_wide.Darl.Table.Durable.{Snapshot, snapshot, restore, replay_lease}

-- An entry of the journal, by its `op`.
pub data Op (F : Type 0) : Type 0 where
  registers : String → String → String → ℕ → Op F
  acquires : String → List (Lease F) → Op F
  commits : String → LeaseId → ℕ → Op F
  releases : String → Option LeaseId → String → Op F
  heartbeats : String → List (LeaseId × ℕ) → F → Op F
  reaps : ℕ → Op F
  advances : Op F

-- The coordinator, with the files of its state directory: `is_durable` says that there is one.
pub record Coordinator (F : Type 0) : Type 0 where
  pub table : LeaseTable F
  pub is_durable : Bool
  pub journal : List (Op F × F)
  pub saved : Option (Snapshot F)
  pub snapshot_interval : F
  pub verify_on_snapshot : Bool
  pub last_snapshot : F
  pub grant_cache : List ((String × String) × Grant F)
  pub requests : ℕ

-- What a route answers. The sorted names of the known clusters are left out.
pub data Reply (F : Type 0) : Type 0 where
  welcome : ClusterRecord F → ℕ → ℕ → String → ℕ → Reply F
  answered : Grant F → Reply F
  renewed : F → List HeartbeatReply → Bool → Reply F
  settled : CommitReply → Reply F
  given_back : ℕ → ℕ → Reply F
  written : Bool → Reply F
  advanced : Bool → ℕ → Reply F

-- The exceptions that `_replay` catches.
abbrev pub is_skipped : Error → Bool
is_skipped value_error = true
is_skipped key_error = true
is_skipped permission_error = true
is_skipped _ = false

module _ {F : Type 0} where
  -- _log_op
  abbrev pub log_op : Op F → F → Coordinator F → Coordinator F
  log_op op now c = if c.is_durable then record c { journal = c.journal ++ ((op, now) ∷ []) } else c

  -- self._grant_cache.get((cluster, request_id))
  unfoldable pub find_grant :
      String → String → List ((String × String) × Grant F) → Option (Grant F)
  find_grant cid rid [] = none
  find_grant cid rid (((cid', rid'), g) ∷ cache) =
      if str_eq cid' cid && str_eq rid' rid then some g else find_grant cid rid cache

  -- `while len(self._grant_cache) > _GRANT_CACHE`, with _GRANT_CACHE 256
  unfoldable pub evict : List ((String × String) × Grant F) → List ((String × String) × Grant F)
  evict [] = []
  evict (g ∷ cache) = if ltb 256 (length (g ∷ cache)) then evict cache else g ∷ cache

  -- The `except` clause of `_replay`: a skipped operation leaves the table `t`.
  abbrev pub or_skip : LeaseTable F → Result (LeaseTable F) → Result (LeaseTable F)
  or_skip t (ok u) = ok u
  or_skip t (err e) = if is_skipped e then ok t else err e

module _ {F : Type 0} ⦃fl : Floats F⦄ where
  -- register
  unfoldable pub on_register :
      String → String → ℕ → String → F → Coordinator F → Result (Reply F × Coordinator F)
  on_register cid digest ranks incarnation now c =
      register cid digest ranks incarnation true now c.table >>= λ t. elim (lookup cid t.clusters) [
        | none ↦ err key_error
        | some r ↦ ok (
          welcome r t.epoch t.config.num_blocks t.config.digest t.committed,
          log_op (registers cid digest r.incarnation r.ranks) now (record c { table = t }),
        )
      ]

  -- The journal entry and the cache entry of a grant.
  unfoldable pub note_grant : String → String → F → Grant F → Coordinator F → Coordinator F
  unfolding evict
  note_grant cid rid now g c =
      let some_leases = not (length g.leases == 0) in
      let logged = if some_leases then log_op (acquires cid g.leases) now c else c in
      if is_text rid && some_leases
      then record logged { grant_cache = evict (logged.grant_cache ++ (((cid, rid), g) ∷ [])) }
      else logged

  -- acquire; the cache has no entry for the request when one is added
  unfoldable pub on_acquire :
      String → ℕ → F → ℕ → F → F → String → F → F → Coordinator F → Result (Reply F × Coordinator F)
  unfolding find_grant note_grant
  on_acquire cid blocks ttl max_spans macro_step_s rtt_s rid now clk c =
      elim (if is_text rid then find_grant cid rid c.grant_cache else none) [
        | some g ↦ ok (answered g, c)
        | none ↦ acquire cid blocks ttl max_spans macro_step_s rtt_s now clk c.table >>= λ a.
            ok (answered a.0, note_grant cid rid now a.0 (record c { table = a.1 }))
      ]

  -- heartbeat, which is not journalled
  unfoldable pub on_heartbeat :
      String → List (LeaseId × ℕ) → F → F → F → F → Coordinator F → Result (Reply F × Coordinator F)
  on_heartbeat cid progress macro_step_s rtt_s ttl now c =
      heartbeat cid progress macro_step_s rtt_s ttl now c.table >>= λ a.
      ok (renewed a.0.0 a.0.1 a.0.2, record c { table = a.1 })

  -- commit
  unfoldable pub on_commit :
      String → LeaseId → ℕ → F → Coordinator F → Result (Reply F × Coordinator F)
  on_commit cid i through now c = commit cid i through now c.table >>= λ a.
      ok (settled a.0, log_op (commits cid i through) now (record c { table = a.1 }))

  -- release
  unfoldable pub on_release :
      String → Option LeaseId → String → Bool → F → Coordinator F → Result (Reply F × Coordinator F)
  on_release cid lease_id incarnation count_attempt now c =
      release cid lease_id incarnation count_attempt c.table >>= λ a. ok (
        given_back a.1 a.0.epoch,
        log_op (releases cid lease_id incarnation) now (record c { table = a.0 }),
      )

  -- save_snapshot, and whether it has written one
  unfoldable pub save_snapshot : Bool → F → Coordinator F → Result (Bool × Coordinator F)
  save_snapshot force now c =
      let write =
        ok
          (true, record c { saved = some (snapshot c.table); journal = []; last_snapshot = now }) in
      if not c.is_durable || (not force && fl.lt (fl.sub now c.last_snapshot) c.snapshot_interval)
      then ok (false, c)
      else if c.verify_on_snapshot
      then (verify c.table >>= λ _. write)
      else write

  -- tick
  unfoldable pub tick : F → Coordinator F → Result (Coordinator F)
  tick now c = reap now c.table >>= λ a.
      let c1 = record c { table = a.0 } in
      save_snapshot false now (if a.1 == 0 then c1 else log_op (reaps a.1) now c1) >>= λ b. ok b.1

  -- The route /advance, which is journalled whether the epoch advances or not.
  unfoldable pub on_advance : F → F → Coordinator F → Reply F × Coordinator F
  on_advance now clk c =
      let (done, t) = advance_epoch clk c.table in
      (advanced done t.epoch, log_op advances now (record c { table = t }))

  -- The loop over the leases of a replayed `acquire`. An exception that is caught ends the loop, and
  -- what it has done stays.
  unfoldable pub replay_leases : F → List (Lease F) → LeaseTable F → Result (LeaseTable F)
  replay_leases floor [] t = ok t
  replay_leases floor (l ∷ ls) t = elim (replay_lease floor l t) [
    | ok (_, u) ↦ replay_leases floor ls u
    | err e ↦ or_skip t (err e)
  ]

  -- _replay, with the time to which replayed leases last at least
  unfoldable pub replay : F → F → Op F × F → LeaseTable F → Result (LeaseTable F)
  replay floor clk (registers cid digest incarnation ranks, now) t =
      or_skip t (register cid digest ranks incarnation false now t)
  replay floor clk (acquires cid leases, now) t =
      or_skip t (register_plain cid now t >>= replay_leases floor leases)
  replay floor clk (commits cid i through, now) t =
      or_skip t (commit cid i through now t >>= λ a. ok a.1)
  replay floor clk (releases cid lease_id _, now) t =
      or_skip t (release cid lease_id "" true t >>= λ a. ok a.0)
  replay floor clk (heartbeats cid progress ttl, now) t =
      or_skip t (heartbeat cid progress (fl.of_nat 0) (fl.of_nat 0) ttl now t >>= λ a. ok a.1)
  replay floor clk (reaps _, now) t = or_skip t (reap now t >>= λ a. ok a.0)
  replay floor clk (advances, now) t = ok (advance_epoch clk t).1

  -- `for line in journal.read_text().splitlines()`
  unfoldable pub replay_all : F → F → List (Op F × F) → LeaseTable F → Result (LeaseTable F)
  unfolding replay
  replay_all floor clk [] t = ok t
  replay_all floor clk (entry ∷ entries) t =
      replay floor clk entry t >>= replay_all floor clk entries

  -- The two checks of `load` against what the coordinator is started for.
  unfoldable pub is_expected : Option ℕ → String → Snapshot F → Bool
  is_expected blocks digest s =
      (elim blocks [ none ↦ true | some n ↦ s.config.num_blocks == n ])
      && not (is_text digest && is_text s.config.digest && not (str_eq s.config.digest digest))

  -- load, from the files that the coordinator `c` has left; the other fields begin anew
  unfoldable pub load : Option ℕ → String → F → F → Coordinator F → Result (Option (Coordinator F))
  load blocks digest grace_s clk c = elim c.saved [
    | none ↦ ok none
    | some s ↦
        if not (is_expected blocks digest s)
        then err value_error
        else (restore grace_s clk s >>= λ t.
            replay_all (fl.add clk grace_s) clk c.journal t >>= λ u. ok (
              some (record c {
                table = u;
                last_snapshot = fl.of_nat 0;
                grant_cache = [];
                requests = 0;
              })))
  ]
