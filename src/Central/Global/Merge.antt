-- ===== src/Central/Global/Merge.antt =====
-- The merge of src/pww/central/globalstate.py.
use project_world_wide.Prelude.{
  ◌≡◌, refl, ap, ◌∙◌, subst, Option, none, some, List, if◌then◌else◌, map, Error, value_error,
  key_error, file_not_found, Outcome, Outcome-bind, Bool-cases, Option-cases, inl, inr, ◌⊎◌,
}
use project_world_wide.Prelude.Dict.{Dict}
use project_world_wide.Darl.Floats.{Floats}
use project_world_wide.Central.Global.{
  Formats, Tensors, TensorDict, Contribution, GlobalState, is_initialised,
}
use project_world_wide.Central.Global.Merging.{
  sum_weights, open_deltas, check_shapes, write_files, new_files,
}
use project_world_wide.Central.Global.Shapes.{AllMatch, IsMismatch, check_shapes_lem}
use project_world_wide.Central.Global.Fedmom.{
  Fits, total_weight, sum_weights_lem, next_weights, next_velocity, shares_of, open_deltas_lem,
  Fits-HaveVelocity, stream_lem,
}

-- The exceptions that a merge of fresh contributions may raise.
abbrev pub IsRefusal : Error → Type 0
IsRefusal e = (e ≡ value_error) ⊎ (e ≡ file_not_found) ⊎ (e ≡ key_error)

refusal : (e : Error) → (e ≡ value_error) ⊎ (e ≡ key_error) → IsRefusal e
refusal e (inl h) = inl h
refusal e (inr h) = inr (inr h)

module _ {F T : Type 0} ⦃fl : Floats F⦄ ⦃fm : Formats T⦄ ⦃ts : Tensors F T⦄ where
  -- What a merge of fresh contributions writes for the global model `g`, with the momentum file before.
  abbrev pub merged_files :
      F
      → F
      → List (Contribution F)
      → Dict (TensorDict T)
      → Option (TensorDict T)
      → TensorDict T
      → TensorDict T × TensorDict T
  merged_files lr beta fresh blobs momentum g =
      let deltas = shares_of (total_weight (fl.of_nat 0) fresh) fresh blobs in
      let read = if fl.eq beta (fl.of_nat 0) then none else momentum in
      (map (next_weights lr beta deltas read) g, map (next_velocity lr deltas) g)

  write_files_lem :
      (lr beta : F) (fresh : List (Contribution F)) (blobs : Dict (TensorDict T))
      (s : GlobalState T) (o : Option (TensorDict T))
      → Fits s.momentum_file o
      → let deltas = shares_of (total_weight (fl.of_nat 0) fresh) fresh blobs in
        Outcome
          (write_files lr beta deltas o s)
          (λ files.
            (g : TensorDict T) × (o ≡ some g)
            × (files ≡ merged_files lr beta fresh blobs s.momentum_file g))
          IsRefusal
  unfolding write_files
  write_files_lem lr beta fresh blobs s none fits = inr (inl refl)
  write_files_lem lr beta fresh blobs s (some g) fits =
      let deltas = shares_of (total_weight (fl.of_nat 0) fresh) fresh blobs in
      elim (Bool-cases (is_initialised s)) [
        | inr cold ↦ rw (cold, write_files) (inr (inl refl))
        | inl warm ↦
            let checked = check_shapes_lem s.keys g deltas in
            elim (Option-cases (check_shapes s.keys g deltas)) [
              | inr (e, raised) ↦
                  rw (warm, write_files, raised)
                    (refusal e (subst (λ x. IsMismatch (AllMatch g deltas) x) raised checked))
              | inl alike ↦
                  let match = subst (λ x. IsMismatch (AllMatch g deltas) x) alike checked in
                  let read = if fl.eq beta (fl.of_nat 0) then none else s.momentum_file in
                  let written =
                    stream_lem lr beta deltas read g match
                      (Fits-HaveVelocity beta s.momentum_file g fits) in
                  rw (warm, write_files, alike) (rw written (g, refl, refl))
            ]
      ]

  pub new_files_lem :
      (lr beta : F) (fresh : List (Contribution F)) (blobs : Dict (TensorDict T))
      (s : GlobalState T)
      → Fits s.momentum_file s.global_file
      → Outcome
          (new_files lr beta fresh blobs s)
          (λ files.
            (g : TensorDict T) × (s.global_file ≡ some g)
            × (files ≡ merged_files lr beta fresh blobs s.momentum_file g))
          IsRefusal
  unfolding new_files
  new_files_lem lr beta fresh blobs s fits =
      let total = sum_weights (fl.of_nat 0) fresh in
      elim (Bool-cases (fl.le total (fl.of_nat 0))) [
        | inl nothing ↦ rw (nothing, new_files) (inl refl)
        | inr something ↦
            rw (something, new_files)
              (Outcome-bind (open_deltas total fresh blobs) _
                (λ ds. ds ≡ shares_of total fresh blobs) _ (λ e. e ≡ file_not_found) _
                (open_deltas_lem total fresh blobs)
                (λ ds e.
                  rw (e ∙ ap (λ w. shares_of w fresh blobs) (sum_weights_lem (fl.of_nat 0) fresh))
                    (write_files_lem lr beta fresh blobs s s.global_file fits))
                (λ e missing. inr (inl missing)))
      ]
