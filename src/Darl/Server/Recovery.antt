-- ===== src/Darl/Server/Recovery.antt =====
-- Restarting a coordinator from its files (`load` of src/pww/darl/server.py).
use project_world_wide.Prelude.{
  ℕ, ◌<◌, ◌≡◌, refl, sym, false, not, String, inl, inr, Option, none, some, [], if◌then◌else◌, All,
  Bool-cases, Returns, Returns-bind, Outcome, Outcome-Returns, Returns-eq, Result, ok, err, ◌>>=◌,
  value_error, ap, ◌∙◌, subst,
}
use project_world_wide.Darl.Floats.{Floats}
use project_world_wide.Darl.Table.{LeaseTable}
use project_world_wide.Darl.Table.Durable.{Snapshot, snapshot, restore}
use project_world_wide.Darl.Valid.{IsValid}
use project_world_wide.Darl.Valid.Restored.{IsKept, IsRestored, restore-snapshot}
use project_world_wide.Darl.Server.{Coordinator, replay_all, is_expected, load}
use project_world_wide.Darl.Server.Sound.{
  IsSound, IsTable, IsReplayable, IsSnapshotOf, IsSnapshotOf-eq,
}
use project_world_wide.Darl.Server.Replaying.{Replayed, replay_all-IsTable, replay_all-Replayed}

module _ {F : Type 0} ⦃fl : Floats F⦄ where
  -- What a restart finds: nothing, if no snapshot was written, or else a sound coordinator, whose table
  -- is that of the snapshot after every entry of the journal has been replayed.
  abbrev pub IsLoaded : F → F → Coordinator F → Option (Coordinator F) → Type 0
  IsLoaded grace_s clk c none = c.saved ≡ none
  IsLoaded grace_s clk c (some d) =
      IsSound d
      × (d.table.config ≡ c.table.config)
      × (d.journal ≡ c.journal)
      × ((s : Snapshot F) × (t : LeaseTable F) × (c.saved ≡ some s)
          × (restore grace_s clk s ≡ ok t)
          × Replayed (fl.add clk grace_s) clk c.journal t d.table)

  -- The new coordinator of a table, with `s` as its files say.
  loaded :
      (grace_s clk last : F) (c : Coordinator F) (s : Snapshot F) (u v : LeaseTable F)
      → IsSound c
      → c.saved ≡ some s
      → restore grace_s clk s ≡ ok u
      → u.config ≡ c.table.config
      → replay_all (fl.add clk grace_s) clk c.journal u ≡ ok v
      → IsTable u v
      → IsLoaded grace_s clk c
          (some (record c { table = v; last_snapshot = last; grant_cache = []; requests = 0 }))
  loaded grace_s clk last c s u v h saved restored config replayed m =
      let config' : v.config ≡ c.table.config = m.1 ∙ config in
      (
        record {
          valid = m.0;
          kept = subst IsKept (sym config') h.kept;
          journal = subst (λ a. All (IsReplayable a.num_blocks) c.journal) (sym config') h.journal;
          saved = IsSnapshotOf-eq c.table v c.saved config' h.saved;
        },
        config',
        refl,
        (
          s,
          u,
          saved,
          restored,
          replay_all-Replayed (fl.add clk grace_s) clk c.journal u v replayed,
        ),
      )

  load_snapshot :
      (grace_s clk : F) (c : Coordinator F) (t : LeaseTable F) (last : F)
      → IsSound c
      → c.saved ≡ some (snapshot t)
      → IsTable c.table t
      → Returns
          (restore grace_s clk (snapshot t) >>= λ u.
            replay_all (fl.add clk grace_s) clk c.journal u >>= λ v.
            ok
              (some (record c { table = v; last_snapshot = last; grant_cache = []; requests = 0 })))
          (IsLoaded grace_s clk c)
  load_snapshot grace_s clk c t last h saved (valid, same) =
      let kept : IsKept t.config = subst IsKept (sym same) h.kept in
      Returns-bind (restore grace_s clk (snapshot t)) _
        (λ u.
          (IsValid u × IsRestored (fl.add clk grace_s) t u)
          × (restore grace_s clk (snapshot t) ≡ ok u))
        (IsLoaded grace_s clk c) (Returns-eq _ _ (restore-snapshot grace_s clk t valid kept))
        λ u k.
          let e = k.0.1.config in
          let config : u.config ≡ c.table.config = e ∙ same in
          Returns-bind (replay_all (fl.add clk grace_s) clk c.journal u) _
            (λ v. IsTable u v × (replay_all (fl.add clk grace_s) clk c.journal u ≡ ok v))
            (IsLoaded grace_s clk c)
            (Returns-eq _ _ (
              replay_all-IsTable (fl.add clk grace_s) clk c.journal u k.0.0
                (subst (λ a. 0 < a.num_blocks) (sym config) h.kept.0)
                (subst (λ a. All (IsReplayable a.num_blocks) c.journal) (sym config) h.journal)))
            λ v m. loaded grace_s clk last c (snapshot t) u v h saved k.1 config m.1 m.0

  load_saved :
      (blocks : Option ℕ) (digest : String) (grace_s clk : F) (c : Coordinator F)
      (saved : Option (Snapshot F))
      → IsSound c
      → c.saved ≡ saved
      → IsSnapshotOf c.table saved
      → Outcome
          (elim saved as (λ _. Result (Option (Coordinator F))) [
            | none ↦ ok none
            | some s ↦
                if not (is_expected blocks digest s)
                then err value_error
                else (restore grace_s clk s >>= λ t.
                    replay_all (fl.add clk grace_s) clk c.journal t >>= λ u. ok (
                      some (record c {
                        table = u;
                        last_snapshot = fl.of_nat 0;
                        grant_cache = [];
                        requests = 0;
                      })))
          ])
          (IsLoaded grace_s clk c)
          (λ e.
            (e ≡ value_error)
            × ((s : Snapshot F) × (c.saved ≡ some s) × (is_expected blocks digest s ≡ false)))
  load_saved blocks digest grace_s clk c none h e k = e
  load_saved blocks digest grace_s clk c (some s) h e (t, same, is_table) =
      elim (Bool-cases (is_expected blocks digest s)) [
        | inr other ↦ rw other (refl, (s, e, other))
        | inl fits ↦ rw fits (
            Outcome-Returns _ (IsLoaded grace_s clk c) _ _ (λ o m. m)
              (subst
                (λ x.
                  Returns
                    (restore grace_s clk x >>= λ u.
                      replay_all (fl.add clk grace_s) clk c.journal u >>= λ v. ok (
                        some (record c {
                          table = v;
                          last_snapshot = fl.of_nat 0;
                          grant_cache = [];
                          requests = 0;
                        })))
                    (IsLoaded grace_s clk c))
                (sym same)
                (load_snapshot grace_s clk c t (fl.of_nat 0) h (e ∙ ap some same) is_table)))
      ]

  -- From the files of a sound coordinator `load` gives a sound one with the same arguments, or none
  -- if no snapshot was written. Its table is the one of the snapshot after every entry of the
  -- journal has been replayed in order, and no exception of a replayed operation leaves it. The one
  -- error is ValueError, for a snapshot of another size or digest.
  pub load-IsLoaded :
      (blocks : Option ℕ) (digest : String) (grace_s clk : F) (c : Coordinator F)
      → IsSound c
      → Outcome (load blocks digest grace_s clk c) (IsLoaded grace_s clk c) (λ e.
        (e ≡ value_error)
        × ((s : Snapshot F) × (c.saved ≡ some s) × (is_expected blocks digest s ≡ false)))
  unfolding load
  load-IsLoaded blocks digest grace_s clk c h =
      load_saved blocks digest grace_s clk c c.saved h refl h.saved
