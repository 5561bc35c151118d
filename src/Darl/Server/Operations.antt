-- ===== src/Darl/Server/Operations.antt =====
-- Each operation of the coordinator (src/pww/darl/server.py) on a sound one.
use project_world_wide.Prelude.{
  ℕ, ◌≡◌, refl, sym, Bool, true, false, not, ◌&&◌, ◌||◌, String, inl, inr, ◌⊎◌, Option, none, some,
  List, [], ◌∷◌, ◌++◌, ◌==◌, if◌then◌else◌, length, str_eq, All, Bool-cases, Option-cases, Returns,
  Returns-bind, Outcome, Outcome-bind, Outcome-Returns, Result, ok, err, ◌>>=◌, value_error,
  key_error, permission_error, cluster_busy, assertion_error, subst, eq_iff,
}
use project_world_wide.Darl.Floats.{Floats}
use project_world_wide.Darl.Lease.{LeaseId, Lease, Grant, find_lease}
use project_world_wide.Darl.Table.{LeaseTable, register, advance_epoch, is_text}
use project_world_wide.Darl.Table.Reclaim.{reap, release}
use project_world_wide.Darl.Table.Hold.{heartbeat, commit}
use project_world_wide.Darl.Table.Acquire.{acquire}
use project_world_wide.Darl.Table.Verify.{Counts, verify}
use project_world_wide.Darl.Table.Durable.{snapshot}
use project_world_wide.Darl.Valid.{IsValid}
use project_world_wide.Darl.Valid.Granting.{IsGrantTo}
use project_world_wide.Darl.Valid.Acquire.{IsOverAt, IsServed, acquire-IsAcquired, advance_config}
use project_world_wide.Darl.Valid.GivenBack.{IsGivenBack}
use project_world_wide.Darl.Valid.Expiry.{reap-IsGivenBack}
use project_world_wide.Darl.Valid.Release.{release-IsGivenBack}
use project_world_wide.Darl.Valid.Heartbeat.{heartbeat-IsGivenBack}
use project_world_wide.Darl.Valid.Registration.{register_outcome, advance_epoch-IsValid}
use project_world_wide.Darl.Valid.Commit.{commit-IsCommitted}
use project_world_wide.Darl.Valid.Verified.{IsCountOf, verify_outcome, IsValid-IsVerified}
use project_world_wide.Darl.Valid.Counted.{IsVerified}
use project_world_wide.Darl.Server.{
  acquires, registers, commits, releases, reaps, advances, Coordinator, log_op, find_grant, evict,
  on_register, note_grant, on_acquire, on_heartbeat, on_commit, on_release, save_snapshot, tick,
  on_advance,
}
use project_world_wide.Darl.Server.Sound.{IsSound, IsTable, with_table-IsSound, log_op-IsSound}

module _ {F : Type 0} ⦃fl : Floats F⦄ where
  -- What a commit leaves, and which exceptions it raises.
  pub commit_outcome :
      (cid : String) (i : LeaseId) (asked : ℕ) (now : F) (t : LeaseTable F)
      → IsValid t
      → Outcome
          (commit cid i asked now t)
          (λ a. IsTable t a.1)
          (λ e. (e ≡ key_error) ⊎ (e ≡ permission_error))
  commit_outcome cid i asked now t h = elim (Option-cases (find_lease i t.leases)) [
    | inl absent ↦ unfold commit in rw (absent, commit) (inl refl)
    | inr (l, held) ↦ elim (Bool-cases (str_eq l.cluster cid)) [
      | inr other ↦ unfold commit in rw (held, commit, other) (inr refl)
      | inl own ↦
          let mine : l.cluster ≡ cid = (eq_iff l.cluster cid).0 own in
          subst
            (λ c.
              Outcome (commit c i asked now t) (λ a. IsTable t a.1)
                (λ e. (e ≡ key_error) ⊎ (e ≡ permission_error)))
            mine (owned l held)
    ]
  ]
    where
      owned :
          (l : Lease F)
          → find_lease i t.leases ≡ some l
          → Outcome
              (commit l.cluster i asked now t)
              (λ a. IsTable t a.1)
              (λ e. (e ≡ key_error) ⊎ (e ≡ permission_error))
      owned l held =
          Outcome-Returns (commit l.cluster i asked now t) _ _ _ (λ a k. (k.valid, k.config))
            (commit-IsCommitted t l i asked now h held)

  pub on_register_outcome :
      (cid digest : String) (ranks : ℕ) (incarnation : String) (now : F) (c : Coordinator F)
      → IsSound c
      → Outcome
          (on_register cid digest ranks incarnation now c)
          (λ a. IsSound a.1)
          (λ e. (e ≡ value_error) ⊎ (e ≡ cluster_busy))
  unfolding on_register
  on_register_outcome cid digest ranks incarnation now c h =
      Outcome-bind (register cid digest ranks incarnation true now c.table) _ _ (λ a. IsSound a.1) _
        _ (register_outcome cid digest incarnation ranks true now c.table h.valid)
        (λ t k.
          let reg = k.2 in
          let (r, known) = reg.1 in
          rw known (
            log_op-IsSound (registers cid digest r.incarnation r.ranks) now (record c { table = t })
              (with_table-IsSound c t h (reg.0, reg.5)) tt))
        (λ e k. elim k [ inl a ↦ inl a.0 | inr b ↦ inr b.0 ])

  note_grant-IsSound :
      (cid rid : String) (now : F) (g : Grant F) (c : Coordinator F)
      → IsSound c
      → All (IsGrantTo cid c.table.config.num_blocks) g.leases
      → IsSound (note_grant cid rid now g c)
  unfolding note_grant
  note_grant-IsSound cid rid now g c h leases =
      let some_leases = not (length g.leases == 0) in
      let log = log_op-IsSound (acquires cid g.leases) now c h leases in
      elim (Bool-cases some_leases) [
        | inl e ↦
            rw e (cached cid rid g (log_op (acquires cid g.leases) now c) log (is_text rid && true))
        | inr e ↦ rw e (cached cid rid g c h (is_text rid && false))
      ]
    where
      cached :
          (cid rid : String) (g : Grant F) (c : Coordinator F)
          → IsSound c
          → (keep : Bool)
          → IsSound (
              if keep
              then record c { grant_cache = evict (c.grant_cache ++ (((cid, rid), g) ∷ [])) }
              else c)
      cached cid rid g c h true = record {
        valid = h.valid;
        kept = h.kept;
        journal = h.journal;
        saved = h.saved;
      }
      cached cid rid g c h false = h

  -- What `acquire` may leave as a table, and what its answer holds.
  served-IsTable :
      (Over : Type 0) (cid : String) (t : LeaseTable F) (a : Grant F × LeaseTable F)
      → IsServed Over cid t a
      → IsTable t a.1 × All (IsGrantTo cid a.1.config.num_blocks) a.0.leases
  served-IsTable Over cid t a k =
      let is_table : IsTable t a.1 = elim k.0 [
        | inl same ↦ (same.0, same.3)
        | inr next ↦ (next.0, next.2)
      ] in
      (is_table, subst (λ b. All (IsGrantTo cid b.num_blocks) a.0.leases) (sym is_table.1) k.1)

  pub on_acquire-IsSound :
      (cid : String) (blocks max_spans : ℕ) (ttl macro_step_s rtt_s : F) (rid : String)
      (now clk : F) (c : Coordinator F)
      → IsSound c
      → Returns
          (on_acquire cid blocks ttl max_spans macro_step_s rtt_s rid now clk c)
          (λ a. IsSound a.1)
  unfolding on_acquire note_grant
  on_acquire-IsSound cid blocks max_spans ttl macro_step_s rtt_s rid now clk c h =
      elim (Option-cases (if is_text rid then find_grant cid rid c.grant_cache else none)) [
        | inr (g, e) ↦ rw (e, on_acquire) h
        | inl e ↦
            rw (e, on_acquire)
              (Returns-bind (acquire cid blocks ttl max_spans macro_step_s rtt_s now clk c.table) _
                (IsServed (IsOverAt now c.table) cid c.table) (λ a. IsSound a.1)
                (acquire-IsAcquired cid blocks max_spans ttl macro_step_s rtt_s now clk c.table
                  h.valid h.kept.0 h.kept.3)
                λ a k.
                  let (is_table, leases) = served-IsTable (IsOverAt now c.table) cid c.table a k in
                  note_grant-IsSound cid rid now a.0 (record c { table = a.1 })
                    (with_table-IsSound c a.1 h is_table) leases)
      ]

  pub on_heartbeat-IsSound :
      (cid : String) (progress : List (LeaseId × ℕ)) (macro_step_s rtt_s ttl now : F)
      (c : Coordinator F)
      → IsSound c
      → Returns (on_heartbeat cid progress macro_step_s rtt_s ttl now c) (λ a. IsSound a.1)
  unfolding on_heartbeat
  on_heartbeat-IsSound cid progress macro_step_s rtt_s ttl now c h =
      Returns-bind (heartbeat cid progress macro_step_s rtt_s ttl now c.table) _
        (λ a. IsGivenBack c.table a.1) (λ a. IsSound a.1)
        (heartbeat-IsGivenBack cid progress macro_step_s rtt_s ttl now c.table h.valid)
        (λ a k. with_table-IsSound c a.1 h (k.valid, k.config))

  pub on_commit_outcome :
      (cid : String) (i : LeaseId) (through : ℕ) (now : F) (c : Coordinator F)
      → IsSound c
      → Outcome
          (on_commit cid i through now c)
          (λ a. IsSound a.1)
          (λ e. (e ≡ key_error) ⊎ (e ≡ permission_error))
  unfolding on_commit
  on_commit_outcome cid i through now c h =
      Outcome-bind (commit cid i through now c.table) _ _ (λ a. IsSound a.1) _ _
        (commit_outcome cid i through now c.table h.valid)
        (λ a k.
          log_op-IsSound (commits cid i through) now (record c { table = a.1 })
            (with_table-IsSound c a.1 h k) tt)
        (λ e k. k)

  pub on_release-IsSound :
      (cid : String) (lease_id : Option LeaseId) (incarnation : String) (count_attempt : Bool)
      (now : F) (c : Coordinator F)
      → IsSound c
      → Returns (on_release cid lease_id incarnation count_attempt now c) (λ a. IsSound a.1)
  unfolding on_release
  on_release-IsSound cid lease_id incarnation count_attempt now c h =
      Returns-bind (release cid lease_id incarnation count_attempt c.table) _
        (λ a. IsGivenBack c.table a.0) (λ a. IsSound a.1)
        (release-IsGivenBack cid lease_id incarnation count_attempt c.table h.valid)
        (λ a k.
          log_op-IsSound (releases cid lease_id incarnation) now (record c { table = a.0 })
            (with_table-IsSound c a.0 h (k.valid, k.config)) tt)

  pub written-IsSound :
      (now : F) (c : Coordinator F)
      → IsSound c
      → IsSound (record c { saved = some (snapshot c.table); journal = []; last_snapshot = now })
  written-IsSound now c h = record {
    valid = h.valid;
    kept = h.kept;
    journal = tt;
    saved = (c.table, refl, (h.valid, refl));
  }

  pub save_snapshot-IsSound :
      (force : Bool) (now : F) (c : Coordinator F)
      → IsSound c
      → Returns (save_snapshot force now c) (λ a. IsSound a.1)
  unfolding save_snapshot
  save_snapshot-IsSound force now c h =
      let skipped =
        not c.is_durable || (not force && fl.lt (fl.sub now c.last_snapshot) c.snapshot_interval) in
      elim (Bool-cases skipped) [
        | inl skip ↦ rw skip h
        | inr due ↦ rw due (either c.verify_on_snapshot)
      ]
    where
      verified :
          (m : Result Counts)
          → Outcome m
              (λ k. IsVerified c.table × IsCountOf c.table k)
              (λ e. (e ≡ assertion_error) × (IsVerified c.table → ⊥))
          → Returns m (λ _. Unit {0})
      verified (ok _) k = tt
      verified (err e) k = k.1 (IsValid-IsVerified c.table h.valid)

      write : Result (Bool × Coordinator F)
      write =
          ok (true, record c { saved = some (snapshot c.table); journal = []; last_snapshot = now })

      either :
          (check : Bool)
          → Returns (if check then (verify c.table >>= λ _. write) else write) (λ a. IsSound a.1)
      either true =
          Returns-bind (verify c.table) (λ _. write) (λ _. Unit {0}) (λ a. IsSound a.1)
            (verified (verify c.table) (verify_outcome c.table)) (λ _ _. written-IsSound now c h)
      either false = written-IsSound now c h

  pub tick-IsSound : (now : F) (c : Coordinator F) → IsSound c → Returns (tick now c) IsSound
  unfolding tick
  tick-IsSound now c h =
      Returns-bind (reap now c.table) _ (λ a. IsGivenBack c.table a.0) IsSound
        (reap-IsGivenBack now c.table h.valid)
        λ a k.
          let c1 = record c { table = a.0 } in
          let first = with_table-IsSound c a.0 h (k.valid, k.config) in
          let logged : IsSound (if a.1 == 0 then c1 else log_op (reaps a.1) now c1) =
            elim (Bool-cases (a.1 == 0)) [
              | inl none_lost ↦ rw none_lost first
              | inr some_lost ↦ rw some_lost (log_op-IsSound (reaps a.1) now c1 first tt)
            ] in
          Returns-bind
            (save_snapshot false now (if a.1 == 0 then c1 else log_op (reaps a.1) now c1)) _
            (λ b. IsSound b.1) IsSound (save_snapshot-IsSound false now _ logged) (λ b s. s)

  pub on_advance-IsSound :
      (now clk : F) (c : Coordinator F) → IsSound c → IsSound (on_advance now clk c).1
  unfolding on_advance
  on_advance-IsSound now clk c h =
      let t = (advance_epoch clk c.table).1 in
      log_op-IsSound advances now (record c { table = t })
        (with_table-IsSound c t h
          ((advance_epoch-IsValid clk c.table h.kept.0 h.valid).0, advance_config clk c.table))
        tt
