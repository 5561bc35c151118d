-- ===== src/Plan/Steps/Agree.antt =====
-- The planner's copy of the pace (src/pww/plan/rounds.py) against the strategy's own
-- (src/pww/central/strategy.py).
use project_world_wide.Prelude.{ℕ, ◌≡◌, Option, none, some, List, [], ◌∷◌, if◌then◌else◌}
use project_world_wide.Darl.Floats.{Floats, MathOps, fmax, fmin}
use project_world_wide.Central.Pace.{
  PaceSettings, Pace, PaceReply, mean_score, scores_of, observe_fit_results, update_jensen,
}
use project_world_wide.Plan.Steps.{JensenController, observe_jensen}

-- A round as the strategy sees it: the replies, and the pooled loss of the evaluation.
pub record PaceRound (F : Type 0) : Type 0 where
  pub results : List (PaceReply F)
  pub pooled : Option F

module _ {F : Type 0} ⦃fl : Floats F⦄ where
  -- The range of the multiplier.
  abbrev clamp : F → F
  clamp x = fmin (fl.decimal 20 1) (fmax (fl.decimal 5 1) x)

  -- The planner's controller that has the settings and the gauge of the strategy.
  abbrev pub controller_of : PaceSettings F → Pace F → JensenController F
  controller_of c p = record {
    lo = c.jensen_lo;
    hi = c.jensen_hi;
    warmup_rounds = c.jensen_warmup_rounds;
    multiplier = p.h_multiplier;
    ema = p.jensen_ema;
    gauge_rounds = p.gauge_rounds;
  }

module _ {F : Type 0} ⦃fl : Floats F⦄ ⦃mo : MathOps F⦄ where
  -- The rounds of the strategy, one after the other.
  unfoldable pub play_pace : PaceSettings F → List (PaceRound F) → Pace F → Pace F
  play_pace c [] p = p
  play_pace c (r ∷ rounds) p =
      play_pace c rounds (update_jensen c r.pooled (observe_fit_results r.results p))

  -- The gap of a round and how many clusters it is of.
  unfoldable pub gap_of : Option F → Option (F × ℕ) → Option F × ℕ
  gap_of none local = (none, 0)
  gap_of (some pooled) none = (none, 0)
  gap_of (some pooled) (some (mean, n)) =
      if mo.is_finite pooled then (some (fl.sub pooled mean), n) else (none, 0)

  -- The planner's controller, given these gaps.
  unfoldable pub play_jensen : List (PaceRound F) → JensenController F → JensenController F
  unfolding gap_of
  play_jensen [] j = j
  play_jensen (r ∷ rounds) j =
      let seen = gap_of r.pooled (mean_score (scores_of r.results)) in
      play_jensen rounds (observe_jensen seen.0 seen.1 j)

  -- The controller has the gauge of the strategy, whose multiplier is in its range.
  abbrev IsAgreed : PaceSettings F → JensenController F → Pace F → Type 0
  IsAgreed c j p = (j ≡ controller_of c p) × (clamp p.h_multiplier ≡ p.h_multiplier)
