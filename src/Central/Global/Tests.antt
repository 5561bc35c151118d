-- ===== src/Central/Global/Tests.antt =====
-- The theorems about src/pww/central/globalstate.py with two clusters and whole numbers for tensors.
use project_world_wide.Prelude.{
  ℕ, ◌+◌, ◌*◌, ◌≡◌, refl, Bool, true, false, String, Option, none, some, List, [], ◌∷◌, Result, ok,
  err, stale_contribution,
}
use project_world_wide.Prelude.Dict.{Dict}
use project_world_wide.Central.Tests.{whole_seconds}
use project_world_wide.Central.Global.{Formats, Tensors, TensorDict, Contribution, GlobalState}
use project_world_wide.Central.Global.Merging.{initialise, merge}
use project_world_wide.Central.Global.Books.{tokens_of, fresh_of}
use project_world_wide.Central.Global.Fedmom.{Fits}
use project_world_wide.Central.Global.Outcomes.{IsGlobal, IsOutcome, merge-IsOutcome}
use project_world_wide.Central.Global.History.{
  empty_directory, here, next, merged, adopted, books_balance,
}

-- Scalars, without a shape.
instance abbrev pub scalars : Formats ℕ
scalars = record { shape = λ t. []; to_float = λ t. t; to_storage = λ t. t }

instance abbrev pub scalar_sums : Tensors ℕ ℕ
scalar_sums = record {
  zeros_like = λ t. 0;
  add_scaled = λ a x b. a + x * b;
  scale = λ a x. a * x;
  plus = ◌+◌;
}

abbrev pub first_model : TensorDict ℕ
first_model = ("w", 40) ∷ []

-- The state after `initialise first_model empty_directory`.
abbrev pub warm : GlobalState ℕ
warm = record {
  round = 0;
  global_step = 0;
  keys = "w" ∷ [];
  total_tokens = 0;
  clusters = [];
  global_file = some first_model;
  momentum_file = none;
  saved =
      some
        (record { round = 0; global_step = 0; keys = "w" ∷ []; total_tokens = 0; clusters = [] });
}

-- Leonardo's delta is for this round, Lumi's is not.
abbrev pub from_leonardo : Contribution ℕ
from_leonardo = record {
  cluster = "leonardo";
  path = "a";
  weight = 5;
  tokens = 5;
  steps = 8;
  base_round = some 0;
}

abbrev pub from_lumi : Contribution ℕ
from_lumi = record {
  cluster = "lumi";
  path = "b";
  weight = 9;
  tokens = 9;
  steps = 7;
  base_round = none;
}

abbrev pub two : List (Contribution ℕ)
two = from_lumi ∷ from_leonardo ∷ []

abbrev pub deltas : Dict (TensorDict ℕ)
deltas = ("a", ("w", 2) ∷ []) ∷ ("b", ("w", 100) ∷ []) ∷ []

pub warm-IsGlobal : IsGlobal warm
unfolding project_world_wide.Prelude.Dict.sum_values
warm-IsGlobal = record { books = refl; saved = refl; momentum = tt }

merge-IsOutcome_example :
    IsOutcome 1 0 (fresh_of true warm.round two) deltas warm (merge 1 0 true two deltas warm)
merge-IsOutcome_example = merge-IsOutcome 1 0 true two deltas warm warm-IsGlobal

merge_runs :
    ((merge 1 0 true two deltas warm).0 ≡ ok 1)
    × ((merge 1 0 true two deltas warm).1.global_file ≡ some (("w", 42) ∷ []))
    × ((merge 1 0 true two deltas warm).1.total_tokens ≡ 5)
    × ((merge 1 0 true two deltas (merge 1 0 true two deltas warm).1).0 ≡ err stale_contribution)
unfolding merge project_world_wide.Prelude.Dict.lookup
merge_runs = (refl, refl, refl, refl)

abbrev after_two : GlobalState ℕ
after_two = (merge 1 0 true two deltas warm).1

books_balance_example :
    (tokens_of after_two.clusters ≡ after_two.total_tokens)
    × Fits after_two.momentum_file after_two.global_file
unfolding initialise
books_balance_example =
    books_balance after_two
      (next (next here (adopted first_model empty_directory)) (merged 1 0 true two deltas warm))
