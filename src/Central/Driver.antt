-- ===== src/Central/Driver.antt =====
-- `wait_for_all`, `_collect` and `run_rounds` of src/pww/central/httpround.py.
-- What the other threads do while the driver waits is a list of wake-ups: at each of them the time, the
-- clusters that are live, and what has been submitted in the meantime.
pub mod Complete
use project_world_wide.Prelude.{
  ℕ, suc, zero, ◌+◌, ◌≡◌, Bool, true, false, ◌&&◌, ◌||◌, not, String, Option, none, some, List, [],
  ◌∷◌, ◌==◌, if◌then◌else◌, length, Result, ok, err, Error, value_error, ◌>>=◌,
}
use project_world_wide.Prelude.Dict.{Dict, lookup, put}
use project_world_wide.Darl.Floats.{Floats}
use project_world_wide.Central.Members.{has}
use project_world_wide.Central.Round.{
  Kind, idle, fit, evaluate, Reason, reported, silent, late, Payload, RoundState, has_key,
  open_round, close_round, submit, all_answered, outstanding, any_live, has_answered,
}

pub record Wake (F P : Type 0) : Type 0 where
  pub arrivals : List (String × ℕ × Payload P)
  pub now : F
  pub live : List String

-- the loop over `missing`, which are in neither dict
unfoldable pub fill_missing :
    {P : Type 0} → List String → List String → Dict (Payload P) → Dict Reason → Dict Reason
unfolding has_key
fill_missing live_now [] got bad = bad
fill_missing live_now (c ∷ cs) got bad = fill_missing live_now cs got (
    if has_key c got || has_key c bad
    then bad
    else put c (if has c live_now then late else silent) bad)

module _ {C P : Type 0} where
  -- What the handler threads submit while the lock is free.
  unfoldable pub arrive : List (String × ℕ × Payload P) → RoundState C P → RoundState C P
  unfolding submit
  arrive [] s = s
  arrive ((cluster, server_round, payload) ∷ arrivals) s =
      arrive arrivals (submit cluster server_round payload s).1

module _ {F C P : Type 0} ⦃fl : Floats F⦄ where
  -- Whether the loop of `wait_for_all` ends at a wake-up.
  unfoldable pub is_over : F → Wake F P → RoundState C P → Bool
  unfolding all_answered outstanding any_live
  is_over deadline w s =
      not (fl.lt w.now deadline)
      || all_answered s.expected s
      || (not (length (outstanding s.expected s) == 0)
          && not (any_live (outstanding s.expected s) w.live))

  -- wait_for_all; a list that ends before the loop does is an observation that was cut short
  unfoldable pub wait_for_all : F → List (Wake F P) → RoundState C P → RoundState C P
  unfolding arrive is_over
  wait_for_all deadline [] s = s
  wait_for_all deadline (w ∷ wakes) s =
      let s' = arrive w.arrivals s in
      let rest = wait_for_all deadline wakes s' in if is_over deadline w s' then s' else rest

  -- _collect, with one config for all the clusters: the results, the failures and the state after it
  unfoldable pub collect :
      Kind
      → ℕ
      → C
      → List String
      → F
      → List (Wake F P)
      → List String
      → RoundState C P
      → (Dict (Payload P) × Dict Reason) × RoundState C P
  unfolding open_round wait_for_all fill_missing close_round
  collect kind server_round config clusters deadline wakes live_now s =
      let waited = wait_for_all deadline wakes (open_round server_round kind config clusters s) in
      (
        (waited.results, fill_missing live_now clusters waited.results waited.failures),
        close_round waited,
      )

-- The strategy, with its own state `T` and the model's parameters `M`: which clusters are asked, with
-- which config, and what is made of their answers.
pub record Strategy (C P T M : Type 0) : Type 0 where
  pub initialize_parameters : T → M × T
  pub configure_fit : ℕ → M → List String → T → Option (C × List String) × T
  pub aggregate_fit : ℕ → Dict (Payload P) → Dict Reason → T → Option M × T
  pub configure_evaluate : ℕ → M → List String → T → Option (C × List String) × T
  pub aggregate_evaluate : ℕ → Dict (Payload P) → Dict Reason → T → T

-- What happens around a round: who is live when it begins and when it ends, and the waiting.
pub record Around (F P : Type 0) : Type 0 where
  pub live : List String
  pub fit_deadline : F
  pub fit_wakes : List (Wake F P)
  pub fit_live : List String
  pub eval_deadline : F
  pub eval_wakes : List (Wake F P)
  pub eval_live : List String

pub record Run (C P T M : Type 0) : Type 0 where
  pub parameters : M
  pub strategy_state : T
  pub state : RoundState C P

module _ {F C P T M : Type 0} ⦃fl : Floats F⦄ (strategy : Strategy C P T M) where
  -- `if eval_ins:`
  unfoldable pub evaluate_round : ℕ → Around F P → Run C P T M → Run C P T M
  unfolding collect
  evaluate_round server_round a r =
      let (ins, t) =
        strategy.configure_evaluate server_round r.parameters a.live r.strategy_state in
      elim ins [
        | none ↦ record r { strategy_state = t }
        | some (config, clusters) ↦
            let (answers, s) =
              collect evaluate server_round config clusters a.eval_deadline a.eval_wakes a.eval_live
                r.state in
            record r {
              strategy_state = strategy.aggregate_evaluate server_round answers.0 answers.1 t;
              state = s;
            }
      ]

  -- The body of the loop over the rounds; `none` of configure_fit is its empty list.
  unfoldable pub play_round : ℕ → Around F P → Run C P T M → Run C P T M
  unfolding collect evaluate_round
  play_round server_round a r =
      let (ins, t) = strategy.configure_fit server_round r.parameters a.live r.strategy_state in
      elim ins [
        | none ↦ record r { strategy_state = t }
        | some (config, clusters) ↦
            let (answers, s) =
              collect fit server_round config clusters a.fit_deadline a.fit_wakes a.fit_live
                r.state in
            let (merged, t') = strategy.aggregate_fit server_round answers.0 answers.1 t in
            evaluate_round server_round a (record {
              parameters = elim merged [ none ↦ r.parameters | some m ↦ m ];
              strategy_state = t';
              state = s;
            })
      ]

  -- `for server_round in range(1, num_rounds + 1)`, from `server_round` on
  unfoldable pub play_rounds : ℕ → List (Around F P) → Run C P T M → Run C P T M
  unfolding play_round
  play_rounds server_round [] r = r
  play_rounds server_round (a ∷ rounds) r =
      play_rounds (server_round + 1) rounds (play_round server_round a r)

  -- run_rounds, with one element for each round
  unfoldable pub run_rounds : List (Around F P) → T → RoundState C P → Run C P T M
  unfolding play_rounds
  run_rounds rounds t s =
      let (m, t') = strategy.initialize_parameters t in
      let r = play_rounds 1 rounds (record { parameters = m; strategy_state = t'; state = s }) in
      record r { state = record (r.state) { finished = true } }
