-- ===== src/Plan/Steps.antt =====
-- The number of steps of a round as the planner simulates it: the learning rate, the Jensen controller and
-- the schedules of src/pww/plan/rounds.py.
pub mod Agree
pub mod Schedules
pub mod Tests
use project_world_wide.Prelude.{
  ℕ, zero, suc, ◌+◌, ◌-◌, ◌*◌, ◌/◌, ◌≡◌, Bool, true, false, not, ◌&&◌, ◌||◌, String, Option, none,
  some, List, [], ◌∷◌, ◌==◌, ltb, leb, max, min, length, if◌then◌else◌, str_eq, Result, ok, err,
  value_error, index_error, zero_division_error, ◌>>=◌,
}
use project_world_wide.Darl.Floats.{Floats, MathOps, fmax, fmin}

pub record LrSchedule (F : Type 0) : Type 0 where
  pub lr : F
  pub warmup_steps : ℕ
  pub training_steps : ℕ
  pub decay_ratio : Option F
  pub decay_type : String
  pub min_lr_factor : F

pub record JensenController (F : Type 0) : Type 0 where
  pub lo : F
  pub hi : F
  pub warmup_rounds : ℕ
  pub multiplier : F
  pub ema : Option F
  pub gauge_rounds : ℕ

pub record QsrSchedule (F : Type 0) : Type 0 where
  pub h0 : ℕ
  pub qsr_max : ℕ
  pub warmup_steps : ℕ
  pub lr : LrSchedule F
  pub lr_ref_pin : Option F
  pub jensen : JensenController F
  pub fallback_inner_steps : ℕ
  pub lr_ref : F

-- The subclasses of HSchedule, a replay with its place in the trace.
pub data HSchedule (F : Type 0) : Type 0 where
  fixed : ℕ → HSchedule F
  qsr : QsrSchedule F → HSchedule F
  replay : List ℕ → ℕ → ℕ → HSchedule F

-- trace[i]
unfoldable pub trace_at : List ℕ → ℕ → Result ℕ
trace_at [] i = err index_error
trace_at (h ∷ trace) zero = ok h
trace_at (h ∷ trace) (suc i) = trace_at trace i

-- DCLT_H_TRACE_HEAD
abbrev pub dclt_h_trace_head : List ℕ
dclt_h_trace_head =
    100 ∷ 70 ∷ 50 ∷ 55 ∷ 60 ∷ 64 ∷ 67 ∷ 50 ∷ 57 ∷ 62 ∷ 71 ∷ 74 ∷ 77 ∷ 79 ∷ 81 ∷ 83 ∷ 85 ∷ 97 ∷ 98
    ∷ 99 ∷ 113 ∷ 79 ∷ 56 ∷ 50 ∷ []

-- `trace or DCLT_H_TRACE_HEAD`
unfoldable pub trace_or_default : Option (List ℕ) → List ℕ
trace_or_default none = dclt_h_trace_head
trace_or_default (some []) = dclt_h_trace_head
trace_or_default (some (h ∷ trace)) = h ∷ trace

module _ {F : Type 0} ⦃fl : Floats F⦄ ⦃mo : MathOps F⦄ where
  -- `decay` of LRSchedule.factor, after a warmup of that many steps
  unfoldable pub decay_steps : LrSchedule F → ℕ → Result ℕ
  decay_steps s warmup =
      let rest = s.training_steps - warmup in
      elim s.decay_ratio [
        | none ↦ ok rest
        | some ratio ↦ mo.nearest (fl.mul (fl.of_nat s.training_steps) ratio) >>= λ decay.
            ok (if ltb s.training_steps (warmup + decay) then rest else decay)
      ]

  -- `adj`
  unfoldable pub adjustment : String → F → F
  adjustment decay_type progress =
      let one = fl.decimal 10 1 in
      if str_eq decay_type "linear"
      then fl.sub one progress
      else if str_eq decay_type "sqrt"
      then fl.sub one (mo.sqrt progress)
      else fl.mul (fl.decimal 5 1) (fl.add one (mo.cos (fl.mul mo.pi progress)))

  -- LRSchedule.factor, once the steps of the decay are known
  unfoldable pub factor_from : LrSchedule F → ℕ → ℕ → Result F
  unfolding adjustment
  factor_from s step decay =
      let one = fl.decimal 10 1 in
      let warmup = min s.warmup_steps s.training_steps in
      let stable = s.training_steps + 1 - warmup - decay in
      if ltb step warmup
      then ok (if warmup == 0 then one else fl.div (fl.of_nat (step + 1)) (fl.of_nat warmup))
      else if ltb step (warmup + stable)
      then ok one
      else if decay == 0
      then err zero_division_error
      else (let progress = fl.div (fl.of_nat (step + 1 - warmup - stable)) (fl.of_nat decay) in
          ok (
            fl.add s.min_lr_factor
              (fl.mul (fl.sub one s.min_lr_factor) (adjustment s.decay_type progress))))

  -- LRSchedule.factor
  unfoldable pub factor : LrSchedule F → ℕ → Result F
  unfolding decay_steps factor_from
  factor s step =
      decay_steps s (min s.warmup_steps s.training_steps) >>= λ decay. factor_from s step decay

  -- LRSchedule.at
  unfoldable pub at : LrSchedule F → ℕ → Result F
  unfolding factor
  at s step = factor s (min step s.training_steps) >>= λ x. ok (fl.mul s.lr x)

module _ {F : Type 0} ⦃fl : Floats F⦄ where
  -- JensenController()
  unfoldable pub new_controller : F → F → ℕ → JensenController F
  new_controller lo hi warmup_rounds = record {
    lo = lo;
    hi = hi;
    warmup_rounds = warmup_rounds;
    multiplier = fl.decimal 10 1;
    ema = none;
    gauge_rounds = 0;
  }

  -- JensenController.observe from its measurement on
  unfoldable pub observe_gap : F → JensenController F → JensenController F
  observe_gap gap j =
      let half = fl.decimal 5 1 in
      let ema : F = elim j.ema [ none ↦ gap | some e ↦ fl.add (fl.mul half e) (fl.mul half gap) ] in
      let measured = record j { ema = some ema; gauge_rounds = j.gauge_rounds + 1 } in
      let moved =
        if fl.le (fl.decimal 0 1) ema
        then fl.mul j.multiplier (fl.decimal 7 1)
        else if fl.lt (fl.sub (fl.of_nat 0) j.lo) ema
        then fl.mul j.multiplier (fl.decimal 115 2)
        else if fl.lt ema (fl.sub (fl.of_nat 0) j.hi)
        then fl.mul j.multiplier (fl.decimal 85 2)
        else fl.add j.multiplier
            (fl.mul (fl.sub (fl.decimal 10 1) j.multiplier) (fl.decimal 10 2)) in
      if leb (j.gauge_rounds + 1) j.warmup_rounds
      then measured
      else record measured { multiplier = fmin (fl.decimal 20 1) (fmax (fl.decimal 5 1) moved) }

  -- JensenController.observe
  unfoldable pub observe_jensen : Option F → ℕ → JensenController F → JensenController F
  unfolding observe_gap
  observe_jensen none n_clusters j = j
  observe_jensen (some gap) n_clusters j = if ltb n_clusters 2 then j else observe_gap gap j

  -- The observe of a schedule.
  unfoldable pub observe : ℕ → Option F → HSchedule F → HSchedule F
  unfolding observe_jensen
  observe n_fit gap (fixed n) = fixed n
  observe n_fit gap (qsr q) = qsr (record q { jensen = observe_jensen gap n_fit q.jensen })
  observe n_fit gap (replay trace fallback i) = replay trace fallback i

  -- The reset of a schedule.
  unfoldable pub reset : HSchedule F → HSchedule F
  unfolding new_controller
  reset (fixed n) = fixed n
  reset (qsr q) = qsr (record q {
    lr_ref = q.lr.lr;
    jensen = new_controller q.jensen.lo q.jensen.hi q.jensen.warmup_rounds;
  })
  reset (replay trace fallback i) = replay trace fallback 0

module _ {F : Type 0} ⦃fl : Floats F⦄ ⦃mo : MathOps F⦄ where
  -- The rule of QsrSchedule.next_h, for the two learning rates.
  unfoldable pub qsr_steps : QsrSchedule F → ℕ → F → F → Result ℕ
  qsr_steps q global_step lr_last lr_ref =
      let h0 = fl.of_nat q.h0 in
      let h =
        if leb q.warmup_steps global_step
          && fl.lt (fl.of_nat 0) lr_last
          && fl.lt (fl.of_nat 0) lr_ref
        then fl.mul h0 (mo.square (fmin (fl.div lr_ref lr_last) (fl.of_nat 1000)))
        else h0 in
      let capped = fl.mul (fmin h (fl.of_nat q.qsr_max)) q.jensen.multiplier in
      mo.nearest capped >>= λ rounded. ok (min q.qsr_max (max (max 1 (q.h0 / 2)) rounded))

  -- `lr_ref` of QsrSchedule.next_h, and what it leaves in `self._lr_ref`
  unfoldable pub reference_rate : QsrSchedule F → F → F × F
  reference_rate q lr_last = elim q.lr_ref_pin [
    | some pin ↦ (pin, q.lr_ref)
    | none ↦ (fmax q.lr_ref lr_last, fmax q.lr_ref lr_last)
  ]

  -- QsrSchedule.next_h
  unfoldable pub qsr_next_h : ℕ → QsrSchedule F → Result (ℕ × QsrSchedule F)
  unfolding at qsr_steps reference_rate
  qsr_next_h global_step q =
      if q.h0 == 0
      then ok (q.fallback_inner_steps, q)
      else (at q.lr global_step >>= λ lr_last.
          let (used, kept) = reference_rate q lr_last in
          qsr_steps q global_step lr_last used >>= λ h. ok (h, record q { lr_ref = kept }))

  -- next_h
  unfoldable pub next_h : ℕ → HSchedule F → Result (ℕ × HSchedule F)
  unfolding qsr_next_h trace_at
  next_h global_step (fixed n) = ok (n, fixed n)
  next_h global_step (qsr q) = qsr_next_h global_step q >>= λ a. ok (a.0, qsr (a.1))
  next_h global_step (replay trace fallback i) =
      trace_at trace (min i (length trace - 1)) >>= λ h. ok (h, replay trace fallback (i + 1))

module _ {F : Type 0} where
  -- ReplayH()
  unfoldable pub new_replay : List ℕ → ℕ → Result (HSchedule F)
  new_replay [] fallback = err value_error
  new_replay (h ∷ trace) fallback = ok (replay (h ∷ trace) fallback 0)

module _ {F : Type 0} ⦃fl : Floats F⦄ where
  -- LRSchedule(), and `lr or LRSchedule()`
  unfoldable pub rates_or_default : Option (LrSchedule F) → LrSchedule F
  rates_or_default (some s) = s
  rates_or_default none = record {
    lr = fl.decimal 45 5;
    warmup_steps = 300;
    training_steps = 20000;
    decay_ratio = some (fl.decimal 5 1);
    decay_type = "cosine";
    min_lr_factor = fl.decimal 5 2;
  }

  -- QsrSchedule() with a fresh controller and without a pin
  unfoldable pub new_qsr : ℕ → ℕ → ℕ → Option (LrSchedule F) → ℕ → QsrSchedule F
  unfolding rates_or_default new_controller
  new_qsr h0 qsr_max warmup_steps lr fallback =
      let rates = rates_or_default lr in
      record {
        h0 = h0;
        qsr_max = qsr_max;
        warmup_steps = warmup_steps;
        lr = rates;
        lr_ref_pin = none;
        jensen = new_controller (fl.decimal 15 3) (fl.decimal 6 2) 5;
        fallback_inner_steps = fallback;
        lr_ref = rates.lr;
      }

  -- make_schedule
  unfoldable pub make_schedule :
      String → ℕ → ℕ → ℕ → ℕ → Option (LrSchedule F) → Option (List ℕ) → Result (HSchedule F)
  unfolding new_qsr new_replay trace_or_default
  make_schedule h_model inner_steps qsr_h0 qsr_max qsr_warmup_steps lr trace =
      if str_eq h_model "fixed"
      then ok (fixed inner_steps)
      else if str_eq h_model "qsr"
      then ok (qsr (new_qsr qsr_h0 qsr_max qsr_warmup_steps lr inner_steps))
      else if str_eq h_model "replay"
      then new_replay (trace_or_default trace) inner_steps
      else err value_error
