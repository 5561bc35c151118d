-- ===== src/Plan/Budget/Enough.antt =====
-- The epochs that a token budget needs (src/pww/plan/budget.py).
use project_world_wide.Prelude.{
  ℕ, ◌+◌, ◌*◌, ◌≤◌, ◌<◌, ◌≡◌, refl, ◌==◌, arith, Outcome, value_error, Bool-cases, inl, inr, ◌⊎◌,
}
use project_world_wide.Darl.Space.{ceil_div}
use project_world_wide.Darl.Space.Ranges.{ceil_div_covers}
use project_world_wide.Plan.Budget.{plan_epochs}

mul_pos : (a b : ℕ) → 0 < a → 0 < b → 0 < a * b
mul_pos a b h k = grind arith

-- 2 ** 53: the integers below are floats.
abbrev pub float_limit : ℕ
float_limit = 9007199254740992

-- `math.ceil(a / b)` is the exact ceiling, where both are below the limit: the quotient of two floats is
-- the float nearest to it, and that is on the same side of every integer.
abbrev pub IsCeiling : (ℕ → ℕ → ℕ) → Type 0
IsCeiling ceil_quotient =
    (a b : ℕ) → a < float_limit → 0 < b → b < float_limit → ceil_quotient a b ≡ ceil_div a b

-- If the division of floats is exact enough, and the budget and the tokens of an epoch are below 2 ** 53:
-- for positive arguments the planned epochs buy at least the budget, and less than one epoch more;
-- one epoch has all the windows once. ValueError is raised exactly when an argument is zero.
pub plan_epochs_enough :
    (ceil_quotient : ℕ → ℕ → ℕ)
    → IsCeiling ceil_quotient
    → (token_budget num_windows seq_len : ℕ) → token_budget < float_limit
    → num_windows * seq_len < float_limit
    → Outcome
        (plan_epochs ceil_quotient token_budget num_windows seq_len)
        (λ b.
          (token_budget ≤ b.tokens_at_epochs)
          × (b.tokens_at_epochs < token_budget + b.tokens_per_epoch)
          × (b.tokens_at_epochs ≡ b.epochs_needed * (num_windows * seq_len))
          × (b.tokens_per_epoch ≡ num_windows * seq_len)
          × (0 < token_budget)
          × (0 < num_windows)
          × (0 < seq_len))
        (λ e. (e ≡ value_error) × ((token_budget ≡ 0) ⊎ (num_windows ≡ 0) ⊎ (seq_len ≡ 0)))
unfolding plan_epochs
plan_epochs_enough ceil_quotient exact token_budget num_windows seq_len small bounded =
    elim (Bool-cases (token_budget == 0)) [
      | inl e ↦ rw e (refl, inl (ground arith))
      | inr e1 ↦ elim (Bool-cases (num_windows == 0)) [
        | inl e ↦ rw (e1, e) (refl, inr (inl (ground arith)))
        | inr e2 ↦ elim (Bool-cases (seq_len == 0)) [
          | inl e ↦ rw (e1, e2, e) (refl, inr (inr (ground arith)))
          | inr e3 ↦
              let windows : 0 < num_windows = ground arith in
              let length : 0 < seq_len = ground arith in
              let some_tokens = mul_pos num_windows seq_len windows length in
              let covers = ceil_div_covers token_budget (num_windows * seq_len) some_tokens in
              let same = exact token_budget (num_windows * seq_len) small some_tokens bounded in
              rw (e1, e2, e3)
                (rw same (covers.0, covers.1, refl, refl, ground arith, windows, length))
        ]
      ]
    ]
