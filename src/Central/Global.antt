-- ===== src/Central/Global.antt =====
-- class GlobalState of src/pww/central/globalstate.py: the global model, its momentum and the
-- books. torch is a parameter, `Formats` and `Tensors`. A file of tensors is a dict; the blobs that
-- clusters upload are a dict of such files. The files of the state directory are fields beside
-- those of the object, and `saved` is meta.json. Sizes, time stamps and log lines are left out.
pub mod Merging
pub mod Shapes
pub mod Fedmom
pub mod Merge
pub mod Books
pub mod Outcomes
pub mod History
pub mod Tests
use project_world_wide.Prelude.{
  ℕ, zero, suc, ◌+◌, ◌≡◌, Bool, true, false, not, ◌&&◌, ◌||◌, String, Option, none, some, List, [],
  ◌∷◌, ◌++◌, ◌==◌, if◌then◌else◌, str_eq, map, max, Result, ok, err, Error, value_error, key_error,
  file_not_found, stale_contribution, ◌>>=◌,
}
use project_world_wide.Prelude.Dict.{Dict, lookup, put}
use project_world_wide.Darl.Floats.{Floats}

-- The shape of a tensor, and its conversions to float32 and to the storage dtype.
pub record Formats (T : Type 0) : Type 0 where
  pub shape : T → List ℕ
  pub to_float : T → T
  pub to_storage : T → T

-- The tensor operations of `merge`.
pub record Tensors (F T : Type 0) : Type 0 where
  pub zeros_like : T → T
  -- a.add_(b, alpha=x), a.mul_(x) and a.add_(b)
  pub add_scaled : T → F → T → T
  pub scale : T → F → T
  pub plus : T → T → T

-- A file of tensors.
abbrev pub TensorDict : Type 0 → Type 0
TensorDict T = Dict T

-- `base_round` is `none` for a negative number; `path` is the name of the blob.
pub record Contribution (F : Type 0) : Type 0 where
  pub cluster : String
  pub path : String
  pub weight : F
  pub tokens : ℕ
  pub steps : ℕ
  pub base_round : Option ℕ

pub record ClusterRecord : Type 0 where
  pub first_seen_round : ℕ
  pub last_seen_round : ℕ
  pub rounds_contributed : ℕ
  pub tokens_total : ℕ
  pub stale_rejected : ℕ

-- meta.json
pub record Meta : Type 0 where
  pub round : ℕ
  pub global_step : ℕ
  pub keys : List String
  pub total_tokens : ℕ
  pub clusters : Dict ClusterRecord

pub record GlobalState (T : Type 0) : Type 0 where
  pub round : ℕ
  pub global_step : ℕ
  pub keys : List String
  pub total_tokens : ℕ
  pub clusters : Dict ClusterRecord
  pub global_file : Option (TensorDict T)
  pub momentum_file : Option (TensorDict T)
  pub saved : Option Meta

-- list(file.keys())
unfoldable pub keys_of : {V : Type 0} → Dict V → List String
keys_of [] = []
keys_of ((k, v) ∷ d) = k ∷ keys_of d

-- key in keys
unfoldable pub is_among : String → List String → Bool
is_among k [] = false
is_among k (j ∷ keys) = str_eq j k || is_among k keys

unfoldable pub are_among : List String → List String → Bool
unfolding is_among
are_among [] keys = true
are_among (k ∷ ks) keys = is_among k keys && are_among ks keys

unfoldable pub same_shape : List ℕ → List ℕ → Bool
same_shape [] [] = true
same_shape [] (_ ∷ _) = false
same_shape (_ ∷ _) [] = false
same_shape (a ∷ as') (b ∷ bs) = (a == b) && same_shape as' bs

module _ {T : Type 0} where
  -- initialised
  unfoldable pub is_initialised : GlobalState T → Bool
  is_initialised s = elim s.global_file [
    | none ↦ false
    | some _ ↦ elim s.keys [ [] ↦ false | _ ∷ _ ↦ true ]
  ]

  -- _save_meta
  unfoldable pub save_meta : GlobalState T → GlobalState T
  save_meta s = record s {
    saved = some (record {
      round = s.round;
      global_step = s.global_step;
      keys = s.keys;
      total_tokens = s.total_tokens;
      clusters = s.clusters;
    });
  }

  -- GlobalState(directory): what the files of `s` hold, with __init__ and _load_meta
  unfoldable pub reload : GlobalState T → GlobalState T
  reload s = elim s.saved [
    | none ↦ record s { round = 0; global_step = 0; keys = []; total_tokens = 0; clusters = [] }
    | some m ↦ record s {
      round = m.round;
      global_step = m.global_step;
      keys = m.keys;
      total_tokens = m.total_tokens;
      clusters = m.clusters;
    }
  ]

  -- note_seen, and what the caller does with the record
  unfoldable pub note_seen :
      String → (ClusterRecord → ClusterRecord) → GlobalState T → GlobalState T
  note_seen cluster change s =
      let r : ClusterRecord = elim (lookup cluster s.clusters) [
        | some r ↦ r
        | none ↦ record {
          first_seen_round = s.round;
          last_seen_round = s.round;
          rounds_contributed = 0;
          tokens_total = 0;
          stale_rejected = 0;
        }
      ] in
      record s {
        clusters = put cluster (change (record r { last_seen_round = s.round })) s.clusters;
      }

  -- note_stale
  unfoldable pub note_stale : String → GlobalState T → GlobalState T
  unfolding note_seen
  note_stale cluster s =
      note_seen cluster (λ r. record r { stale_rejected = r.stale_rejected + 1 }) s
