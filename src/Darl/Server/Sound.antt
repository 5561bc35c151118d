-- ===== src/Darl/Server/Sound.antt =====
-- What holds of a coordinator (src/pww/darl/server.py) between two requests.
use project_world_wide.Prelude.{
  ℕ, ◌≡◌, sym, inl, inr, Option, none, some, [], ◌∷◌, All, All-append, Bool-cases, ◌∙◌, subst,
}
use project_world_wide.Darl.Table.{LeaseTable}
use project_world_wide.Darl.Table.Durable.{Snapshot, snapshot}
use project_world_wide.Darl.Valid.{IsValid}
use project_world_wide.Darl.Valid.Granting.{IsGrantTo}
use project_world_wide.Darl.Valid.Restored.{IsKept}
use project_world_wide.Darl.Server.{
  Op, acquires, registers, commits, releases, heartbeats, reaps, advances, Coordinator, log_op,
}

-- The leases of a journalled `acquire` are the cluster's and lie within the space.
abbrev pub IsReplayable : {F : Type 0} → ℕ → Op F × F → Type 0
IsReplayable n (acquires cid ls, now) = All (IsGrantTo cid n) ls
IsReplayable n (registers _ _ _ _, now) = Unit {0}
IsReplayable n (commits _ _ _, now) = Unit {0}
IsReplayable n (releases _ _ _, now) = Unit {0}
IsReplayable n (heartbeats _ _ _, now) = Unit {0}
IsReplayable n (reaps _, now) = Unit {0}
IsReplayable n (advances, now) = Unit {0}

-- A table that the coordinator may have: valid, and with the arguments `config` that it began with.
abbrev pub IsTable : {F : Type 0} → LeaseTable F → LeaseTable F → Type 0
IsTable t u = IsValid u × (u.config ≡ t.config)

-- The snapshot on disk, if there is one, is that of a valid table with the same arguments.
abbrev pub IsSnapshotOf : {F : Type 0} → LeaseTable F → Option (Snapshot F) → Type 0
IsSnapshotOf t none = Unit {0}
IsSnapshotOf {F} t (some s) = (u : LeaseTable F) × (s ≡ snapshot u) × IsTable t u

pub record IsSound {F : Type 0} (c : Coordinator F) : Type 0 where
  pub valid : IsValid c.table
  pub kept : IsKept c.table.config
  pub journal : All (IsReplayable c.table.config.num_blocks) c.journal
  pub saved : IsSnapshotOf c.table c.saved

module _ {F : Type 0} where
  pub IsSnapshotOf-eq :
      (t u : LeaseTable F) (s : Option (Snapshot F))
      → u.config ≡ t.config
      → IsSnapshotOf t s
      → IsSnapshotOf u s
  IsSnapshotOf-eq t u none e h = tt
  IsSnapshotOf-eq t u (some s) e (v, k, is_table) = (v, k, (is_table.0, is_table.1 ∙ sym e))

  -- A coordinator whose table has changed.
  pub with_table-IsSound :
      (c : Coordinator F) (u : LeaseTable F)
      → IsSound c
      → IsTable c.table u
      → IsSound (record c { table = u })
  with_table-IsSound c u h (valid, e) = record {
    valid = valid;
    kept = subst IsKept (sym e) h.kept;
    journal = subst (λ k. All (IsReplayable k.num_blocks) c.journal) (sym e) h.journal;
    saved = IsSnapshotOf-eq c.table u c.saved e h.saved;
  }

  pub log_op-IsSound :
      (op : Op F) (now : F) (c : Coordinator F)
      → IsSound c
      → IsReplayable c.table.config.num_blocks (op, now)
      → IsSound (log_op op now c)
  log_op-IsSound op now c h k = elim (Bool-cases c.is_durable) [
    | inr volatile ↦
        rw volatile
          (record { valid = h.valid; kept = h.kept; journal = h.journal; saved = h.saved })
    | inl durable ↦ rw durable (record {
      valid = h.valid;
      kept = h.kept;
      journal =
          All-append (IsReplayable c.table.config.num_blocks) c.journal ((op, now) ∷ []) h.journal
            (k, tt);
      saved = h.saved;
    })
  ]
