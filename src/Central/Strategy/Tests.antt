-- ===== src/Central/Strategy/Tests.antt =====
-- The theorems about src/pww/central/strategy.py with two clusters.
use project_world_wide.Prelude.{
  ℕ, ◌-◌, ◌≤◌, ◌≡◌, refl, Bool, true, false, String, Option, none, some, List, [], ◌∷◌, Result, ok,
  ◌⊎◌, ◌==◌, if◌then◌else◌, arith,
}
use project_world_wide.Prelude.Dict.{Dict, lookup}
use project_world_wide.Central.Tests.{whole_seconds}
use project_world_wide.Central.Global.{is_initialised}
use project_world_wide.Central.Global.Tests.{
  scalars, scalar_sums, first_model, warm, warm-IsGlobal, from_leonardo, from_lumi,
}
use project_world_wide.Central.Names.{global_blob}
use project_world_wide.Central.Strategy.{
  FitReply, Settings, Plane, count_cluster, reject_duplicates, aggregate_blob,
}
use project_world_wide.Central.Strategy.Unique.{count_cluster-reject_duplicates}
use project_world_wide.Central.Strategy.Rounds.{IsSeeded, IsRoundFrom, aggregate_blob_outcome}

abbrev settings : Settings ℕ
settings = record { run_id = "r"; server_learning_rate = 1; server_momentum = 0; keep_rounds = 1 }

abbrev plane : Plane ℕ
plane = record { state = warm; blobs = ("a", ("w", 2) ∷ []) ∷ ("r-init.pww", first_model) ∷ [] }

abbrev reply : FitReply
reply = record {
  cluster = "leonardo";
  delta_blob = "a";
  num_examples = 5;
  steps = 8;
  base_round = some 0;
  uploaded_init = false;
}

abbrev replies : List FitReply
replies = reply ∷ record reply { cluster = "lumi"; delta_blob = "missing" } ∷ []

count_cluster-reject_duplicates_example :
    let items = from_lumi ∷ from_leonardo ∷ from_lumi ∷ [] in
    (count_cluster "lumi" (reject_duplicates items)
      ≡ (if count_cluster "lumi" items == 1 then 1 else 0))
    × (count_cluster "lumi" (reject_duplicates items) ≤ 1)
count_cluster-reject_duplicates_example =
    count_cluster-reject_duplicates "lumi" (from_lumi ∷ from_leonardo ∷ from_lumi ∷ [])

reject_duplicates_runs :
    reject_duplicates (from_lumi ∷ from_leonardo ∷ from_lumi ∷ []) ≡ from_leonardo ∷ []
unfolding reject_duplicates
reject_duplicates_runs = refl

aggregate_blob_outcome_example :
    ((is_initialised plane.state ≡ false)
      × (aggregate_blob settings replies plane ≡ (ok none, plane)))
    ⊎ ((start : Plane ℕ) × (((is_initialised plane.state ≡ true) × (start ≡ plane))
          ⊎ ((is_initialised plane.state ≡ false) × IsSeeded settings plane start))
        × IsRoundFrom settings replies start (aggregate_blob settings replies plane))
aggregate_blob_outcome_example = aggregate_blob_outcome settings replies plane warm-IsGlobal

aggregate_blob_runs :
    ((aggregate_blob settings replies plane).0 ≡ ok (some 1))
    × ((aggregate_blob settings replies plane).1.blobs
        ≡ ("r-init.pww", first_model) ∷ ("r-global-r1.pww", ("w", 42) ∷ []) ∷ [])
unfolding aggregate_blob project_world_wide.Prelude.Dict.lookup project_world_wide.Prelude.Dict.put
    global_blob project_world_wide.Central.Names.init_blob
aggregate_blob_runs = (refl, refl)
