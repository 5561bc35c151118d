-- ===== src/Central/Tests.antt =====
-- The theorems about the rounds (src/pww/central/httpround.py) with two clusters.
use project_world_wide.Prelude.{
  ℕ, ◌≤◌, ◌≡◌, refl, Bool, true, false, ◌&&◌, ◌||◌, not, String, Option, none, some, List, [], ◌∷◌,
  length, if◌then◌else◌, str_eq, ltb, ◌+◌, ◌-◌, ◌*◌, ◌/◌, ◌==◌, ◌^◌,
}
use project_world_wide.Prelude.Dict.{lookup, Dict}
use project_world_wide.Darl.Floats.{Floats}
use project_world_wide.Central.Members.{Manager, has, touch, live, sample}
use project_world_wide.Central.Round.{
  reported, fit, idle, silent, Payload, RoundState, new_state, open_round, has_key, has_answered,
  submit, poll, wait,
}
use project_world_wide.Central.Round.Laws.{is_awaited, submit_outcome}
use project_world_wide.Central.Driver.{arrive, Wake, Strategy, Around, collect}
use project_world_wide.Central.Driver.Complete.{WasSent, poll-arrive-submit, collect_complete}

-- Whole seconds for floats.
instance abbrev pub whole_seconds : Floats ℕ
whole_seconds = record {
  of_nat = λ n. n;
  decimal = λ digits places. digits / 10 ^ places;
  add = ◌+◌;
  sub = ◌-◌;
  mul = ◌*◌;
  div = ◌/◌;
  lt = ltb;
  le = λ a b. not (ltb b a);
  eq = ◌==◌;
  truncate = λ n. n;
  round = λ places n. n;
}

abbrev two : List String
two = "leonardo" ∷ "lumi" ∷ []

abbrev fine : Payload ℕ
fine = record { is_ok = true; error = ""; content = 7 }

abbrev opened : RoundState ℕ ℕ
unfolding open_round
opened = open_round 3 fit 10 two (new_state 0)

submit_outcome_example :
    let (accepted, s') = submit "lumi" 3 fine opened in
    (accepted ≡ is_awaited "lumi" 3 opened)
    × (accepted ≡ false → s' ≡ opened)
    × (s'.expected ≡ opened.expected)
    × (s'.server_round ≡ opened.server_round)
    × ((c : String) → has_answered c s' ≡ (has_answered c opened || (accepted && str_eq "lumi" c)))
    × ((c : String)
        → lookup c s'.results
          ≡ (if accepted && true && str_eq "lumi" c then some fine else lookup c opened.results))
    × ((c : String)
        → lookup c s'.failures ≡ (
            if accepted && not true && str_eq "lumi" c
            then some (reported "")
            else lookup c opened.failures))
    × (s'.kind ≡ opened.kind)
    × (s'.config ≡ opened.config)
    × (s'.finished ≡ opened.finished)
    × (s'.stopped ≡ opened.stopped)
submit_outcome_example = submit_outcome "lumi" 3 fine opened

late_result_runs : (submit "lumi" 2 fine opened).0 ≡ false
unfolding submit has opened
late_result_runs = refl

poll-arrive-submit_example :
    let later = arrive (("leonardo", 3, fine) ∷ []) (submit "lumi" 3 fine opened).1 in
    poll "lumi" true later ≡ (some wait, later)
unfolding has opened
poll-arrive-submit_example =
    poll-arrive-submit "lumi" 3 fine opened (("leonardo", 3, fine) ∷ []) true refl refl

-- lumi answers at once, leonardo is never heard of and no longer live.
abbrev one_wake : List (Wake ℕ ℕ)
one_wake = record { arrivals = ("lumi", 4, fine) ∷ []; now = 20; live = "lumi" ∷ [] } ∷ []

collect_complete_example :
    let (answers, after) = collect fit 4 10 two 100 one_wake ("lumi" ∷ []) opened in
    ((c : String) → (has_key c answers.0 || has_key c answers.1) ≡ has c two)
    × (after.kind ≡ idle)
    × (after.expected ≡ [])
    × ((c : String) (p : Payload ℕ)
        → lookup c answers.0 ≡ some p
        → (p.is_ok ≡ true) × WasSent (c, 4, p) one_wake)
collect_complete_example = collect_complete fit 4 10 two 100 one_wake ("lumi" ∷ []) opened

collect_runs :
    (collect fit 4 10 two 100 one_wake ("lumi" ∷ []) opened).0
    ≡ (("lumi", fine) ∷ [], ("leonardo", silent) ∷ [])
unfolding collect project_world_wide.Prelude.Dict.put has
collect_runs = refl

abbrev seen_two : Manager ℕ
seen_two = record { seen = ("lumi", 50) ∷ ("leonardo", 10) ∷ []; liveness_s = 30 }

sample_runs : sample 1 35 seen_two ≡ "leonardo" ∷ []
unfolding sample project_world_wide.Central.Members.text_le
sample_runs = refl

-- A strategy that asks every live cluster and counts the rounds.
abbrev counting : Strategy ℕ ℕ ℕ ℕ
counting = record {
  initialize_parameters = λ t. (0, t);
  configure_fit = λ server_round m clusters t. (some (server_round, clusters), t);
  aggregate_fit = λ server_round got bad t. (some t, t + 1);
  configure_evaluate = λ server_round m clusters t. (none, t);
  aggregate_evaluate = λ server_round got bad t. t;
}

abbrev one_round : List (Around ℕ ℕ)
one_round =
    record {
      live = two;
      fit_deadline = 100;
      fit_wakes = [];
      fit_live = two;
      eval_deadline = 100;
      eval_wakes = [];
      eval_live = two;
    }
    ∷ []
