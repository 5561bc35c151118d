-- ===== src/Plan/Budget.antt =====
-- `plan_epochs` of src/pww/plan/budget.py. The overshoot, a float, is left out.
pub mod Enough
use project_world_wide.Prelude.{ℕ, ◌*◌, ◌==◌, if◌then◌else◌, Result, ok, err, value_error}

pub record TokenBudget : Type 0 where
  pub token_budget : ℕ
  pub tokens_per_epoch : ℕ
  pub epochs_needed : ℕ
  pub tokens_at_epochs : ℕ

-- plan_epochs, for arguments that are not negative. `ceil_quotient a b` is `math.ceil(a / b)`.
unfoldable pub plan_epochs : (ceil_quotient : ℕ → ℕ → ℕ) → ℕ → ℕ → ℕ → Result TokenBudget
plan_epochs ceil_quotient token_budget num_windows seq_len =
    if token_budget == 0
    then err value_error
    else if num_windows == 0
    then err value_error
    else if seq_len == 0
    then err value_error
    else (let tokens_per_epoch = num_windows * seq_len in
        let epochs_needed = ceil_quotient token_budget tokens_per_epoch in
        ok (record {
          token_budget = token_budget;
          tokens_per_epoch = tokens_per_epoch;
          epochs_needed = epochs_needed;
          tokens_at_epochs = epochs_needed * tokens_per_epoch;
        }))
