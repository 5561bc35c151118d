-- ===== src/Central/Pace.antt =====
-- How many steps a round has: the QSR rule and the Jensen gauge of class PWWFedMom
-- (src/pww/central/strategy.py). What is only logged is left out.
use project_world_wide.Prelude.{
  Result, ok, ◌>>=◌, ℕ, ◌+◌, ◌/◌, not, ◌&&◌, ◌||◌, Option, none, some, List, [], ◌∷◌, ◌==◌, ltb,
  leb, max, min, length, if◌then◌else◌,
}
use project_world_wide.Darl.Floats.{Floats, MathOps, fmax, fmin}

-- The arguments of __init__ that are about the pace, and its state.
pub record PaceSettings (F : Type 0) : Type 0 where
  pub qsr_h0 : ℕ
  pub qsr_max : ℕ
  pub qsr_warmup_steps : ℕ
  pub jensen_lo : F
  pub jensen_hi : F
  pub jensen_warmup_rounds : ℕ

pub record Pace (F : Type 0) : Type 0 where
  pub lr_ref : F
  pub lr_last : F
  pub last_local_eval : Option (F × ℕ)
  pub jensen_ema : Option F
  pub gauge_rounds : ℕ
  pub h_multiplier : F

-- What the metrics of a reply say of the pace; without a count of tokens it is 0.
pub record PaceReply (F : Type 0) : Type 0 where
  pub lr : Option F
  pub local_eval_loss : Option F
  pub local_eval_tokens : ℕ

module _ {F : Type 0} ⦃fl : Floats F⦄ where
  -- The state of __init__; `qsr_lr_max` is 0 unless it is given.
  unfoldable pub new_pace : F → Pace F
  new_pace qsr_lr_max = record {
    lr_ref = fmax (fl.decimal 0 1) qsr_lr_max;
    lr_last = fl.decimal 0 1;
    last_local_eval = none;
    jensen_ema = none;
    gauge_rounds = 0;
    h_multiplier = fl.decimal 10 1;
  }

  -- max(lrs)
  unfoldable pub largest : F → List F → F
  largest x [] = x
  largest x (y ∷ ys) = largest (fmax x y) ys

  -- sum(l * t for l, t in scored), and sum(t for _, t in scored)
  unfoldable pub sum_scores : F → List (F × ℕ) → F
  sum_scores total [] = total
  sum_scores total ((loss, tokens) ∷ scored) =
      sum_scores (fl.add total (fl.mul loss (fl.of_nat tokens))) scored

  unfoldable pub sum_tokens : List (F × ℕ) → ℕ
  sum_tokens [] = 0
  sum_tokens ((_, tokens) ∷ scored) = tokens + sum_tokens scored

  -- _last_local_eval, of the scores of a round
  unfoldable pub mean_score : List (F × ℕ) → Option (F × ℕ)
  unfolding sum_scores sum_tokens
  mean_score [] = none
  mean_score (s ∷ scored) = some (
    fl.div (sum_scores (fl.of_nat 0) (s ∷ scored)) (fl.of_nat (sum_tokens (s ∷ scored))),
    length (s ∷ scored),
  )

  -- `if lrs:`
  unfoldable pub note_rates : List F → Pace F → Pace F
  unfolding largest
  note_rates [] p = p
  note_rates (x ∷ lrs) p = record p {
    lr_last = largest x lrs;
    lr_ref = fmax p.lr_ref (largest x lrs);
  }

  -- _update_jensen from its measurement on; the warm-up only measures
  unfoldable pub measure_gap : PaceSettings F → F → Pace F → Pace F
  measure_gap c gap p =
      let half = fl.decimal 5 1 in
      let ema : F = elim p.jensen_ema [
        | none ↦ gap
        | some e ↦ fl.add (fl.mul half e) (fl.mul half gap)
      ] in
      let before = p.h_multiplier in
      let after =
        if leb (p.gauge_rounds + 1) c.jensen_warmup_rounds
        then before
        else if fl.le (fl.decimal 0 1) ema
        then fl.mul before (fl.decimal 7 1)
        else if fl.lt (fl.sub (fl.of_nat 0) c.jensen_lo) ema
        then fl.mul before (fl.decimal 115 2)
        else if fl.lt ema (fl.sub (fl.of_nat 0) c.jensen_hi)
        then fl.mul before (fl.decimal 85 2)
        else fl.add before (fl.mul (fl.sub (fl.decimal 10 1) before) (fl.decimal 10 2)) in
      record p {
        jensen_ema = some ema;
        gauge_rounds = p.gauge_rounds + 1;
        h_multiplier = fmin (fl.decimal 20 1) (fmax (fl.decimal 5 1) after);
      }

  -- _update_jensen after its first test
  unfoldable pub measure_local : PaceSettings F → F → Option (F × ℕ) → Pace F → Pace F
  unfolding measure_gap
  measure_local c pooled none p = p
  measure_local c pooled (some (mean, n)) p =
      if ltb n 2 then p else measure_gap c (fl.sub pooled mean) p

module _ {F : Type 0} ⦃fl : Floats F⦄ ⦃mo : MathOps F⦄ where
  -- The learning rates of the replies, and the losses with their tokens.
  unfoldable pub rates_of : List (PaceReply F) → List F
  rates_of [] = []
  rates_of (r ∷ results) =
      let rest = rates_of results in
      elim r.lr [ none ↦ rest | some x ↦ if mo.is_finite x then x ∷ rest else rest ]

  unfoldable pub scores_of : List (PaceReply F) → List (F × ℕ)
  scores_of [] = []
  scores_of (r ∷ results) =
      let rest = scores_of results in
      elim r.local_eval_loss [
        | none ↦ rest
        | some x ↦
            if (r.local_eval_tokens == 0) || not (mo.is_finite x)
            then rest
            else (x, r.local_eval_tokens) ∷ rest
      ]

  -- _observe_fit_results
  unfoldable pub observe_fit_results : List (PaceReply F) → Pace F → Pace F
  unfolding rates_of scores_of mean_score note_rates
  observe_fit_results results p = record (note_rates (rates_of results) p) {
    last_local_eval = mean_score (scores_of results);
  }

  -- _update_jensen
  unfoldable pub update_jensen : PaceSettings F → Option F → Pace F → Pace F
  unfolding measure_local
  update_jensen c none p = p
  update_jensen c (some pooled) p =
      if (c.qsr_h0 == 0) || not (mo.is_finite pooled)
      then p
      else measure_local c pooled p.last_local_eval p

  -- _next_inner_steps
  unfoldable pub next_inner_steps : PaceSettings F → ℕ → Pace F → Result ℕ
  next_inner_steps c global_step p =
      let h0 = fl.of_nat c.qsr_h0 in
      let zero_rate = fl.of_nat 0 in
      let ratio = fmin (fl.div p.lr_ref p.lr_last) (fl.of_nat 1000) in
      let h =
        if leb c.qsr_warmup_steps global_step
          && fl.lt zero_rate p.lr_last
          && fl.lt zero_rate p.lr_ref
        then fl.mul h0 (mo.square ratio)
        else h0 in
      let capped = fl.mul (fmin h (fl.of_nat c.qsr_max)) p.h_multiplier in
      if c.qsr_h0 == 0
      then ok 0
      else (mo.nearest capped >>= λ rounded.
          ok (min c.qsr_max (max (max 1 (c.qsr_h0 / 2)) rounded)))
