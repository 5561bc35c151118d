-- ===== src/Central/Strategy.antt =====
-- The blob transport of class PWWFedMom (src/pww/central/strategy.py): from a round's replies to the
-- merge, and which blobs there are before and after it.
-- The blob store is a dict of tensor files by name. Log lines and metrics are left out.
pub mod Unique
pub mod Counted
pub mod Blobs
pub mod Rounds
pub mod Tests
use Prim.Native.Char.{code}
use project_world_wide.Prelude.{
  ℕ, zero, suc, ◌+◌, ◌-◌, ◌≡◌, Bool, true, false, not, ◌&&◌, ◌||◌, String, Option, none, some, List,
  [], ◌∷◌, ◌==◌, ltb, leb, if◌then◌else◌, str_eq, Result, ok, err, Error, stale_contribution,
}
use project_world_wide.Prelude.Dict.{Dict, lookup, put}
use project_world_wide.Darl.Floats.{Floats}
use project_world_wide.Central.Global.{
  Formats, Tensors, TensorDict, Contribution, GlobalState, is_among, is_initialised,
}
use project_world_wide.Central.Global.Merging.{initialise, merge}
use project_world_wide.Central.Names.{global_blob, init_blob}

-- What a client reports of a round; a name that is missing is "", and a count below zero is 0.
pub record FitReply : Type 0 where
  pub cluster : String
  pub delta_blob : String
  pub num_examples : ℕ
  pub steps : ℕ
  pub base_round : Option ℕ
  pub uploaded_init : Bool

-- The arguments of the strategy.
pub record Settings (F : Type 0) : Type 0 where
  pub run_id : String
  pub server_learning_rate : F
  pub server_momentum : F
  pub keep_rounds : ℕ

-- The state and the blob store.
pub record Plane (T : Type 0) : Type 0 where
  pub state : GlobalState T
  pub blobs : Dict (TensorDict T)

-- path.is_file()
unfoldable pub is_file : {T : Type 0} → String → Dict (TensorDict T) → Bool
unfolding lookup
is_file name blobs = elim (lookup name blobs) [ none ↦ false | some _ ↦ true ]

-- entry.name.startswith(".")
unfoldable pub is_hidden : String → Bool
is_hidden String.[] = false
is_hidden (String.◌∷◌ c s) = code c == b'.'

module _ {F T : Type 0} ⦃fl : Floats F⦄ where
  -- The contributions of a round's replies: those with tokens and a delta that has arrived.
  unfoldable pub gather : Dict (TensorDict T) → List FitReply → List (Contribution F)
  unfolding is_file
  gather blobs [] = []
  gather blobs (r ∷ replies) =
      let rest = gather blobs replies in
      if str_eq r.delta_blob "" || (r.num_examples == 0) || not (is_file r.delta_blob blobs)
      then rest
      else record {
        cluster = r.cluster;
        path = r.delta_blob;
        weight = fl.of_nat r.num_examples;
        tokens = r.num_examples;
        steps = r.steps;
        base_round = r.base_round;
      }
        ∷ rest

module _ {F : Type 0} where
  -- seen[name]
  unfoldable pub count_cluster : String → List (Contribution F) → ℕ
  count_cluster name [] = 0
  count_cluster name (c ∷ items) =
      let rest = count_cluster name items in if str_eq c.cluster name then suc rest else rest

  -- The list at the end of _reject_duplicate_clusters, for the contributions `all_items`.
  unfoldable pub keep_unique : List (Contribution F) → List (Contribution F) → List (Contribution F)
  unfolding count_cluster
  keep_unique all_items [] = []
  keep_unique all_items (c ∷ items) =
      let rest = keep_unique all_items items in
      if ltb 1 (count_cluster c.cluster all_items) then rest else c ∷ rest

  -- _reject_duplicate_clusters
  unfoldable pub reject_duplicates : List (Contribution F) → List (Contribution F)
  unfolding keep_unique
  reject_duplicates items = keep_unique items items

-- The names that _prune keeps: those of the last rounds, and that of the first model.
unfoldable pub kept_names : String → ℕ → ℕ → List String
kept_names run_id current zero = global_blob run_id current ∷ init_blob run_id ∷ []
kept_names run_id current (suc offset) =
    let rest = kept_names run_id current offset in
    if leb (suc offset) current then global_blob run_id (current - suc offset) ∷ rest else rest

module _ {T : Type 0} where
  -- The loop of _prune over the directory.
  unfoldable pub prune_blobs : List String → Dict (TensorDict T) → Dict (TensorDict T)
  unfolding is_hidden is_among
  prune_blobs keep [] = []
  prune_blobs keep ((name, file) ∷ blobs) =
      let rest = prune_blobs keep blobs in
      if is_hidden name || is_among name keep then (name, file) ∷ rest else rest

  -- _prune
  unfoldable pub prune : String → ℕ → ℕ → Dict (TensorDict T) → Dict (TensorDict T)
  unfolding kept_names prune_blobs
  prune run_id keep_rounds current blobs = prune_blobs (kept_names run_id current keep_rounds) blobs

  -- _publish_global: a link to the model, unless the name is taken
  unfoldable pub publish : String → ℕ → Plane T → Plane T
  unfolding is_file
  publish run_id round_index p =
      let name = global_blob run_id round_index in
      if is_file name p.blobs then p else elim (p.state.global_file) [
        | none ↦ p
        | some file ↦ record p { blobs = put name file p.blobs }
      ]

module _ {F T : Type 0} ⦃fl : Floats F⦄ where
  -- The contributions of a round, one for each cluster at most.
  abbrev pub contributions_of : List FitReply → Plane T → List (Contribution F)
  contributions_of replies p = reject_duplicates (gather p.blobs replies)

module _ {F T : Type 0} ⦃fl : Floats F⦄ ⦃fm : Formats T⦄ ⦃ts : Tensors F T⦄
    (settings : Settings F) where
  -- _seed_from_results
  unfoldable pub seed : List FitReply → Plane T → Bool × Plane T
  unfolding publish
  seed [] p = (false, p)
  seed (r ∷ replies) p =
      let rest = seed replies p in
      if not r.uploaded_init then rest else elim (lookup (init_blob settings.run_id) p.blobs) [
        | none ↦ rest
        | some source ↦
            let p' = record p { state = initialise source p.state } in
            (true, publish settings.run_id p'.state.round p')
      ]

  -- What _aggregate_blob makes of the outcome of a merge: the new round, if there is one.
  abbrev pub after_merge :
      Dict (TensorDict T) → Result ℕ × GlobalState T → Result (Option ℕ) × Plane T
  after_merge blobs (err stale_contribution, s) = (ok none, record { state = s; blobs = blobs })
  after_merge blobs (err e, s) = (err e, record { state = s; blobs = blobs })
  after_merge blobs (ok n, s) =
      let published = publish settings.run_id n (record { state = s; blobs = blobs }) in
      (
        ok (some n),
        record published { blobs = prune settings.run_id settings.keep_rounds n published.blobs },
      )

  -- _aggregate_blob, once there is a model
  unfoldable pub merge_replies : List (Contribution F) → Plane T → Result (Option ℕ) × Plane T
  unfolding publish prune merge
  merge_replies [] p = (ok none, p)
  merge_replies (c ∷ items) p = after_merge p.blobs (
      merge settings.server_learning_rate settings.server_momentum true (c ∷ items) p.blobs p.state)

  -- _aggregate_blob
  unfoldable pub aggregate_blob : List FitReply → Plane T → Result (Option ℕ) × Plane T
  unfolding seed merge_replies is_initialised gather reject_duplicates
  aggregate_blob replies p =
      if is_initialised p.state
      then merge_replies (contributions_of replies p) p
      else (let (seeded, p') = seed replies p in
          if seeded then merge_replies (contributions_of replies p') p' else (ok none, p'))
