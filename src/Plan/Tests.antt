-- ===== src/Plan/Tests.antt =====
-- The theorems about the planner (src/pww/plan) at concrete input.
use project_world_wide.Prelude.{
  ℕ, ◌+◌, ◌*◌, ◌≤◌, ◌<◌, ◌≡◌, ◌⊎◌, refl, Bool, true, String, Option, none, some, List, [], ◌∷◌,
  ◌++◌, map, Outcome, value_error, arith,
}
use project_world_wide.Darl.Space.{ceil_div}
use project_world_wide.Plan.Budget.{plan_epochs}
use project_world_wide.Plan.Budget.Enough.{plan_epochs_enough}
use project_world_wide.Plan.Jobs.{JobEvent, Triple, submitted, status, submit_failed, fold}
use project_world_wide.Plan.Jobs.Rows.{fold_rows}
use project_world_wide.Plan.Jobs.Distinct.{are_distinct, place_of}

abbrev budget : ℕ
budget = 1000

abbrev windows : ℕ
windows = 30

abbrev window_size : ℕ
window_size = 8

plan_epochs_enough_example :
    Outcome
      (plan_epochs ceil_div budget windows window_size)
      (λ b.
        (budget ≤ b.tokens_at_epochs)
        × (b.tokens_at_epochs < budget + b.tokens_per_epoch)
        × (b.tokens_at_epochs ≡ b.epochs_needed * (windows * window_size))
        × (b.tokens_per_epoch ≡ windows * window_size)
        × (0 < budget)
        × (0 < windows)
        × (0 < window_size))
      (λ e. (e ≡ value_error) × ((budget ≡ 0) ⊎ (windows ≡ 0) ⊎ (window_size ≡ 0)))
plan_epochs_enough_example =
    plan_epochs_enough ceil_div (λ a b h k l. refl) budget windows window_size (omega arith)
      (omega arith)

abbrev first_job : JobEvent ℕ
first_job = record {
  kind = submitted;
  job_id = "17";
  place = record { site = "lumi"; lane_id = "a"; link = 0 };
  role = none;
  shape = "2x8";
  ts = some 5;
  host = some "uan01";
  reason = "";
  state = none;
}

-- A poll of the queue that knows the job's id only.
abbrev running : JobEvent ℕ
running = record first_job {
  kind = status;
  place = record { site = ""; lane_id = ""; link = 0 };
  ts = some 9;
  state = some "RUNNING";
}

abbrev failed_job : JobEvent ℕ
failed_job = record first_job {
  kind = submit_failed;
  job_id = "";
  place = record { site = "lumi"; lane_id = "a"; link = 1 };
}

-- Any text is left as it is.
abbrev as_is : String → String
as_is s = s

fold_rows_example :
    (are_distinct (map place_of (fold as_is (first_job ∷ running ∷ []))) ≡ true)
    × ((new : List Triple) × (map place_of
            (fold as_is ((first_job ∷ running ∷ []) ++ (failed_job ∷ [])))
          ≡ map place_of (fold as_is (first_job ∷ running ∷ [])) ++ new))
fold_rows_example = fold_rows as_is (first_job ∷ running ∷ []) (failed_job ∷ [])

fold_runs :
    map (λ v. v.history) (fold as_is (first_job ∷ running ∷ failed_job ∷ []))
    ≡ ("submitted" ∷ "RUNNING" ∷ []) ∷ ("failed" ∷ []) ∷ []
unfolding fold project_world_wide.Prelude.Dict.put project_world_wide.Plan.Jobs.same_triple
fold_runs = refl
