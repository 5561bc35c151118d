-- ===== src/Plan/Steps/Tests.antt =====
-- The pace of a run, by the strategy and by the planner, with whole numbers for floats.
use project_world_wide.Prelude.{ℕ, ◌≡◌, refl, true, none, some, List, [], ◌∷◌, ok, Outcome}
use project_world_wide.Darl.Floats.{MathOps}
use project_world_wide.Central.Tests.{whole_seconds}
use project_world_wide.Central.Pace.{PaceSettings, PaceReply, Pace, new_pace, next_inner_steps}
use project_world_wide.Plan.Steps.{
  QsrSchedule, HSchedule, replay, new_qsr, next_h, trace_at, make_schedule,
}
use project_world_wide.Plan.Steps.Schedules.{unused, drawn, is_draw, IsUnrounded, draws_return}
use project_world_wide.Plan.Steps.Agree.{PaceRound, play_pace}

instance abbrev whole_math : MathOps ℕ
whole_math = record {
  is_finite = λ x. true;
  nearest = λ x. ok x;
  square = λ x. x;
  sqrt = λ x. x;
  cos = λ x. x;
  pi = 3;
}

abbrev trace : List ℕ
trace = 80 ∷ 90 ∷ []

abbrev at_start : HSchedule ℕ
at_start = replay trace 100 0

abbrev after_one : HSchedule ℕ
after_one = replay trace 100 1

draws_return_example :
    Outcome (next_h 7 after_one) (λ a. is_draw after_one a.0 ≡ true) (IsUnrounded after_one)
unfolding make_schedule next_h trace_at
draws_return_example =
    draws_return "replay" 100 0 0 0 none (some trace) at_start after_one 7 refl
      (drawn at_start after_one 3 80 unused refl)

abbrev settings : PaceSettings ℕ
settings = record {
  qsr_h0 = 100;
  qsr_max = 500;
  qsr_warmup_steps = 10;
  jensen_lo = 1;
  jensen_hi = 2;
  jensen_warmup_rounds = 0;
}

-- Two clusters with rates 4 and 2, and a pooled loss above their mean.
abbrev rounds : List (PaceRound ℕ)
rounds =
    record {
      results =
          record { lr = some 4; local_eval_loss = some 3; local_eval_tokens = 10 }
          ∷ record { lr = some 2; local_eval_loss = some 3; local_eval_tokens = 30 }
          ∷ [];
      pooled = some 5;
    }
    ∷ []

abbrev schedule : QsrSchedule ℕ
unfolding new_qsr
schedule = new_qsr 100 500 10 none 100

pace_runs :
    ((play_pace settings rounds (new_pace 8)).lr_last ≡ 4)
    × ((play_pace settings rounds (new_pace 8)).jensen_ema ≡ some 2)
    × (next_inner_steps settings 20 (new_pace 8) ≡ ok 100)
unfolding play_pace new_pace next_inner_steps project_world_wide.Central.Pace.update_jensen
    project_world_wide.Central.Pace.observe_fit_results
pace_runs = (refl, refl, refl)
