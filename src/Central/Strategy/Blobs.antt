-- ===== src/Central/Strategy/Blobs.antt =====
-- Which blobs a round leaves: `_publish_global` and `_prune` of src/pww/central/strategy.py.
use project_world_wide.Prelude.{
  ℕ, zero, suc, ◌-◌, ◌≤◌, ◌≡◌, refl, sym, ap, ◌∙◌, Bool, true, ◌||◌, String, Option, none, some,
  List, [], ◌∷◌, if◌then◌else◌, str_eq, eq_iff, Option-cases, inl, inr, arith,
}
use project_world_wide.Prelude.Dict.{Dict, lookup, lookup-put}
use project_world_wide.Central.Global.{TensorDict, is_among}
use project_world_wide.Central.Names.{global_blob}
use project_world_wide.Central.Strategy.{
  Plane, is_file, is_hidden, kept_names, prune_blobs, prune, publish,
}

-- Whether a name stays when a round is over.
abbrev pub stays : String → ℕ → ℕ → String → Bool
stays run_id keep_rounds current name =
    is_hidden name || is_among name (kept_names run_id current keep_rounds)

is_among-kept_names :
    (run_id : String) (current keep_rounds offset : ℕ)
    → offset ≤ keep_rounds
    → offset ≤ current
    → is_among (global_blob run_id (current - offset)) (kept_names run_id current keep_rounds)
      ≡ true
unfolding is_among kept_names
is_among-kept_names run_id current zero offset h k =
    let same : current - offset ≡ current = omega (arith, h) in
    let self =
      (eq_iff (global_blob run_id current) (global_blob run_id (current - offset))).1
        (ap (λ n. global_blob run_id n) (sym same)) in
    ground (arith, self)
is_among-kept_names run_id current (suc n) offset h k =
    let self =
      (eq_iff (global_blob run_id (current - offset)) (global_blob run_id (current - offset))).1
        refl in
    ground (arith, self, is_among-kept_names run_id current n offset)

module _ {T : Type 0} where
  lookup-prune_blobs :
      (keep : List String) (name : String) (blobs : Dict (TensorDict T))
      → lookup name (prune_blobs keep blobs)
        ≡ (if is_hidden name || is_among name keep then lookup name blobs else none)
  unfolding prune_blobs lookup
  lookup-prune_blobs keep name [] = ground arith
  lookup-prune_blobs keep name ((k, file) ∷ blobs) =
      ground (arith, eq_iff k name, lookup-prune_blobs keep name blobs)

  -- What is under a name once the model of a round has been published.
  abbrev pub published_at :
      String → String → Dict (TensorDict T) → Option (TensorDict T) → Option (TensorDict T)
  published_at target name blobs model = elim (lookup name blobs) [
    | some file ↦ some file
    | none ↦ if str_eq target name then model else none
  ]

  pub lookup-publish :
      (run_id name : String) (round_index : ℕ) (p : Plane T)
      → lookup name (publish run_id round_index p).blobs
        ≡ published_at (global_blob run_id round_index) name p.blobs p.state.global_file
  unfolding publish is_file
  lookup-publish run_id name round_index p =
      let target = global_blob run_id round_index in
      let other = eq_iff target name in
      elim (Option-cases (lookup target p.blobs)) [
        | inr (file, there) ↦ ground (arith, there, other)
        | inl free ↦ elim (Option-cases p.state.global_file) [
          | inl no_model ↦ ground (arith, free, no_model, other)
          | inr (model, there) ↦
              ground (arith, free, there, lookup-put target name model p.blobs, other)
        ]
      ]

  pub state-publish :
      (run_id : String) (round_index : ℕ) (p : Plane T)
      → (publish run_id round_index p).state ≡ p.state
  unfolding publish
  state-publish run_id round_index p = ground arith

  -- What a name stands for after the model of a round has been published and old blobs pruned.
  pub lookup-prune-publish :
      (run_id name : String) (keep_rounds n : ℕ) (p : Plane T)
      → lookup name (prune run_id keep_rounds n (publish run_id n p).blobs) ≡ (
          if stays run_id keep_rounds n name
          then published_at (global_blob run_id n) name p.blobs p.state.global_file
          else none)
  unfolding prune
  lookup-prune-publish run_id name keep_rounds n p =
      lookup-prune_blobs (kept_names run_id n keep_rounds) name (publish run_id n p).blobs
      ∙ ap (λ x. if stays run_id keep_rounds n name then x else none)
          (lookup-publish run_id name n p)

  -- The models of the last rounds that were there before stay, and the new one is there.
  pub lookup-prune-publish_kept :
      (run_id : String) (keep_rounds n offset : ℕ) (p : Plane T)
      → offset ≤ keep_rounds
      → offset ≤ n
      → let name = global_blob run_id (n - offset) in
        lookup name (prune run_id keep_rounds n (publish run_id n p).blobs)
        ≡ published_at (global_blob run_id n) name p.blobs p.state.global_file
  lookup-prune-publish_kept run_id keep_rounds n offset p h k =
      let name = global_blob run_id (n - offset) in
      let kept = is_among-kept_names run_id n keep_rounds offset h k in
      lookup-prune-publish run_id name keep_rounds n p ∙ ground (arith, kept)
