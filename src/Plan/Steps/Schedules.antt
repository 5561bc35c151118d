-- ===== src/Plan/Steps/Schedules.antt =====
-- What the schedules of src/pww/plan/rounds.py draw once they are made.
use project_world_wide.Prelude.{
  ℕ, zero, suc, ◌+◌, ◌-◌, ◌/◌, ◌≤◌, ◌<◌, ◌≡◌, refl, Bool, true, false, ◌&&◌, ◌||◌, String, Option,
  none, some, List, [], ◌∷◌, ◌==◌, leb, max, min, length, if◌then◌else◌, str_eq, ok, value_error,
  ◌>>=◌, Returns, Returns-bind, Returns-map, err, Error, Outcome-self, Outcome, Outcome-map,
  Outcome-bind, Outcome-ok, Outcome-Returns, Bool-cases, Option-cases, inl, inr, arith,
}
use project_world_wide.Darl.Floats.{Floats, MathOps}
use project_world_wide.Plan.Steps.{
  LrSchedule, QsrSchedule, HSchedule, fixed, qsr, replay, trace_at, decay_steps, factor,
  factor_from, at, reference_rate, qsr_steps, qsr_next_h, next_h, observe, reset, make_schedule,
  new_replay, trace_or_default,
}

-- Whether a number is in a list.
unfoldable pub has_number : ℕ → List ℕ → Bool
has_number h [] = false
has_number h (x ∷ trace) = (x == h) || has_number h trace

trace_at-Returns :
    (trace : List ℕ) (i : ℕ)
    → i < length trace
    → Returns (trace_at trace i) (λ h. has_number h trace ≡ true)
unfolding trace_at has_number
trace_at-Returns [] i h = absurd (omega (arith, h))
trace_at-Returns (x ∷ trace) zero h = ground arith
trace_at-Returns (x ∷ trace) (suc i) h =
    Returns-map (trace_at trace i) _ _ (λ y k. ground (arith, k))
      (trace_at-Returns trace i (omega (arith, h)))

-- The exceptions that `round` raises for a float.
abbrev pub IsRaised : (F : Type 0) ⦃mo : MathOps F⦄ → Error → Type 0
IsRaised F ⦃mo⦄ e = (x : F) × (mo.nearest x ≡ err e)

module _ {F : Type 0} ⦃fl : Floats F⦄ ⦃mo : MathOps F⦄ where
  nearest_lem : (x : F) → Outcome (mo.nearest x) (λ n. Unit {0}) (IsRaised F)
  nearest_lem x =
      Outcome-map (mo.nearest x) _ (λ n. Unit {0}) _ (IsRaised F) (λ n h. tt) (λ e h. (x, h))
        (Outcome-self (mo.nearest x))

  decay_steps_bound :
      (s : LrSchedule F) (warmup : ℕ)
      → warmup ≤ s.training_steps
      → Outcome (decay_steps s warmup) (λ decay. warmup + decay ≤ s.training_steps) (IsRaised F)
  unfolding decay_steps
  decay_steps_bound s warmup h = elim (Option-cases s.decay_ratio) [
    | inl nothing ↦ rw (nothing, decay_steps) (omega (arith, h))
    | inr (ratio, there) ↦
        rw (there, decay_steps)
          (Outcome-bind (mo.nearest (fl.mul (fl.of_nat s.training_steps) ratio)) _ (λ n. Unit {0})
            (λ decay. warmup + decay ≤ s.training_steps) (IsRaised F) (IsRaised F)
            (nearest_lem (fl.mul (fl.of_nat s.training_steps) ratio)) (λ n k. ground (arith, h))
            (λ e k. k))
  ]

  -- A step of the schedule is never in a decay of no steps, so nothing is divided by zero.
  factor_from-Returns :
      (s : LrSchedule F) (step decay : ℕ)
      → step ≤ s.training_steps
      → min s.warmup_steps s.training_steps + decay ≤ s.training_steps
      → Returns (factor_from s step decay) (λ x. Unit {0})
  unfolding factor_from
  factor_from-Returns s step decay h bound = ground (arith, bound)

  at_lem : (s : LrSchedule F) (step : ℕ) → Outcome (at s step) (λ x. Unit {0}) (IsRaised F)
  unfolding at factor
  at_lem s step =
      let warmup = min s.warmup_steps s.training_steps in
      let i = min step s.training_steps in
      Outcome-bind (factor s i) _ (λ x. Unit {0}) (λ x. Unit {0}) (IsRaised F) (IsRaised F)
        (Outcome-bind (decay_steps s warmup) _ (λ decay. warmup + decay ≤ s.training_steps)
          (λ x. Unit {0}) (IsRaised F) (IsRaised F) (decay_steps_bound s warmup (omega arith))
          (λ decay bound.
            Outcome-Returns (factor_from s i decay) (λ x. Unit {0}) _ (IsRaised F) (λ x h. h)
              (factor_from-Returns s i decay (omega arith) bound))
          (λ e k. k))
        (λ x h. tt) (λ e k. k)

module _ {F : Type 0} where
  -- A replay has a trace.
  abbrev IsSchedule : HSchedule F → Type 0
  IsSchedule (fixed n) = Unit {0}
  IsSchedule (qsr q) = Unit {0}
  IsSchedule (replay trace fallback i) = 0 < length trace

  -- Whether a number of steps is one that a schedule may draw.
  unfoldable pub is_draw : HSchedule F → ℕ → Bool
  is_draw (fixed n) h = h == n
  is_draw (qsr q) h =
      if q.h0 == 0
      then h == q.fallback_inner_steps
      else leb (min q.qsr_max (max 1 (q.h0 / 2))) h && leb h q.qsr_max
  is_draw (replay trace fallback i) h = has_number h trace

new_replay_lem :
    (F : Type 0) (trace : Option (List ℕ)) (fallback : ℕ)
    → Returns (new_replay {F = F} (trace_or_default trace) fallback) IsSchedule
unfolding new_replay trace_or_default
new_replay_lem F none fallback = omega arith
new_replay_lem F (some []) fallback = omega arith
new_replay_lem F (some (h ∷ trace)) fallback = omega arith

module _ {F : Type 0} ⦃fl : Floats F⦄ ⦃mo : MathOps F⦄ where
  -- A schedule after draws, observations and resets.
  pub data Uses (s : HSchedule F) : HSchedule F → Type 0 where
    unused : Uses s s
    drawn : (t u : HSchedule F) (step h : ℕ) → Uses s t → next_h step t ≡ ok (h, u) → Uses s u
    observed :
        (t : HSchedule F) (n_fit : ℕ) (gap : Option F) → Uses s t → Uses s (observe n_fit gap t)
    restarted : (t : HSchedule F) → Uses s t → Uses s (reset t)

  -- Only QSR rounds floats, when it is on.
  abbrev pub IsUnrounded : HSchedule F → Error → Type 0
  IsUnrounded (fixed n) e = ⊥
  IsUnrounded (qsr q) e = (0 < q.h0) × IsRaised F e
  IsUnrounded (replay trace fallback i) e = ⊥

  clamped_lem :
      (q : QsrSchedule F) (x : F)
      → Outcome
          (mo.nearest x >>= λ rounded. ok (min q.qsr_max (max (max 1 (q.h0 / 2)) rounded)))
          (λ h. (min q.qsr_max (max 1 (q.h0 / 2)) ≤ h) × (h ≤ q.qsr_max))
          (IsRaised F)
  clamped_lem q x =
      Outcome-bind (mo.nearest x) _ (λ n. Unit {0}) _ (IsRaised F) (IsRaised F) (nearest_lem x)
        (λ n h. (omega arith, omega arith)) (λ e k. k)

  qsr_steps_lem :
      (global_step : ℕ) (q : QsrSchedule F) (lr_last lr_ref : F)
      → Outcome
          (qsr_steps q global_step lr_last lr_ref)
          (λ h. (min q.qsr_max (max 1 (q.h0 / 2)) ≤ h) × (h ≤ q.qsr_max))
          (IsRaised F)
  unfolding qsr_steps
  qsr_steps_lem global_step q lr_last lr_ref = clamped_lem q _

  qsr_next_h_lem :
      (global_step : ℕ) (q : QsrSchedule F)
      → Outcome
          (qsr_next_h global_step q)
          (λ a. is_draw (qsr q) a.0 ≡ true)
          (λ e. (0 < q.h0) × IsRaised F e)
  unfolding qsr_next_h is_draw
  qsr_next_h_lem global_step q = elim (Bool-cases (q.h0 == 0)) [
    | inl off ↦ rw (off, qsr_next_h) (ground (arith, off))
    | inr on ↦
        let positive : 0 < q.h0 = ground (arith, on) in
        rw (on, qsr_next_h)
          (Outcome-bind (at q.lr global_step) _ (λ x. Unit {0}) _ (IsRaised F) _
            (at_lem q.lr global_step)
            (λ lr_last h.
              Outcome-bind (qsr_steps q global_step lr_last (reference_rate q lr_last).0) _
                (λ h. (min q.qsr_max (max 1 (q.h0 / 2)) ≤ h) × (h ≤ q.qsr_max)) _ (IsRaised F) _
                (qsr_steps_lem global_step q lr_last (reference_rate q lr_last).0)
                (λ h k. ground (arith, on, k)) (λ e k. (positive, k)))
            (λ e k. (positive, k)))
  ]

  next_h_lem :
      (global_step : ℕ) (s : HSchedule F)
      → IsSchedule s
      → Outcome
          (next_h global_step s)
          (λ a. (is_draw s a.0 ≡ true) × IsSchedule a.1)
          (IsUnrounded s)
  unfolding next_h is_draw
  next_h_lem global_step (fixed n) h = (ground arith, tt)
  next_h_lem global_step (qsr q) h =
      Outcome-bind (qsr_next_h global_step q) _ (λ a. is_draw (qsr q) a.0 ≡ true) _
        (λ e. (0 < q.h0) × IsRaised F e) _ (qsr_next_h_lem global_step q) (λ a k. (k, tt))
        (λ e k. k)
  next_h_lem global_step (replay trace fallback i) h =
      Outcome-Returns (next_h {F = F} global_step (replay trace fallback i))
        (λ a. (is_draw {F = F} (replay trace fallback i) a.0 ≡ true) × IsSchedule a.1) _ _
        (λ a k. k)
        (Returns-bind (trace_at trace (min i (length trace - 1))) _ (λ x. has_number x trace ≡ true)
          _ (trace_at-Returns trace (min i (length trace - 1)) (omega (arith, h))) (λ x k. (k, h)))

  Uses-IsSchedule : {s t : HSchedule F} → Uses s t → IsSchedule s → IsSchedule t
  unfolding observe reset
  Uses-IsSchedule unused h = h
  Uses-IsSchedule (drawn t u step n r e) h =
      (Outcome-ok (next_h step t) _ _ (n, u) (next_h_lem step t (Uses-IsSchedule r h)) e).1
  Uses-IsSchedule (observed (fixed n) n_fit gap r) h = tt
  Uses-IsSchedule (observed (qsr q) n_fit gap r) h = tt
  Uses-IsSchedule (observed (replay trace fallback i) n_fit gap r) h = Uses-IsSchedule r h
  Uses-IsSchedule (restarted (fixed n) r) h = tt
  Uses-IsSchedule (restarted (qsr q) r) h = tt
  Uses-IsSchedule (restarted (replay trace fallback i) r) h = Uses-IsSchedule r h

  make_schedule_lem :
      (h_model : String) (inner_steps qsr_h0 qsr_max qsr_warmup_steps : ℕ)
      (lr : Option (LrSchedule F)) (trace : Option (List ℕ))
      → Outcome
          (make_schedule h_model inner_steps qsr_h0 qsr_max qsr_warmup_steps lr trace)
          IsSchedule
          (λ e. e ≡ value_error)
  unfolding make_schedule
  make_schedule_lem h_model inner_steps qsr_h0 qsr_max qsr_warmup_steps lr trace =
      elim (Bool-cases (str_eq h_model "fixed")) [
        | inl is_fixed ↦ rw (is_fixed, make_schedule) tt
        | inr not_fixed ↦ elim (Bool-cases (str_eq h_model "qsr")) [
          | inl is_qsr ↦ rw (not_fixed, make_schedule, is_qsr) tt
          | inr not_qsr ↦ elim (Bool-cases (str_eq h_model "replay")) [
            | inl is_replay ↦
                rw (not_fixed, make_schedule, not_qsr, is_replay)
                  (Outcome-Returns _ _ IsSchedule _ (λ s h. h) (new_replay_lem F trace inner_steps))
            | inr unknown ↦ rw (not_fixed, make_schedule, not_qsr, unknown) refl
          ]
        ]
      ]

  -- Whatever is drawn from a schedule, observed and reset after `make_schedule` has made it, another
  -- draw, at any step, gives a number of steps: no rate is divided by zero and a replay has a value. The
  -- number of QSR is the fallback when `h0` is 0; otherwise it is at most `qsr_max`, and at least half of `h0`
  -- unless `qsr_max` is less. Only QSR with `h0` not 0 may raise, and only what `round` raises for a float.
  pub draws_return :
      (h_model : String) (inner_steps qsr_h0 qsr_max qsr_warmup_steps : ℕ)
      (lr : Option (LrSchedule F)) (trace : Option (List ℕ)) (s t : HSchedule F) (global_step : ℕ)
      → make_schedule h_model inner_steps qsr_h0 qsr_max qsr_warmup_steps lr trace ≡ ok s
      → Uses s t
      → Outcome (next_h global_step t) (λ a. is_draw t a.0 ≡ true) (IsUnrounded t)
  draws_return h_model inner_steps qsr_h0 qsr_max qsr_warmup_steps lr trace s t global_step e r =
      let made = make_schedule_lem h_model inner_steps qsr_h0 qsr_max qsr_warmup_steps lr trace in
      Outcome-map (next_h global_step t) _ (λ a. is_draw t a.0 ≡ true) (IsUnrounded t) _
        (λ a h. h.0) (λ x k. k)
        (next_h_lem global_step t (
          Uses-IsSchedule r (
            Outcome-ok (make_schedule h_model inner_steps qsr_h0 qsr_max qsr_warmup_steps lr trace)
              _ _ s made e)))
