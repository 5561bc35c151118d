-- ===== src/Central/Global/Merging.antt =====
-- `merge` of src/pww/central/globalstate.py.
use project_world_wide.Prelude.{
  ℕ, ◌+◌, Bool, true, not, ◌&&◌, String, Option, none, some, List, [], ◌∷◌, ◌==◌, if◌then◌else◌,
  map, max, Result, ok, err, Error, value_error, key_error, file_not_found, stale_contribution,
  ◌>>=◌,
}
use project_world_wide.Prelude.Dict.{Dict, lookup}
use project_world_wide.Darl.Floats.{Floats}
use project_world_wide.Central.Global.{
  Formats, Tensors, TensorDict, Contribution, GlobalState, keys_of, are_among, same_shape,
  is_initialised, save_meta, note_seen, note_stale,
}

module _ {F : Type 0} where
  -- item.base_round != self.round
  unfoldable pub is_stale : ℕ → Contribution F → Bool
  is_stale round c = elim c.base_round [ none ↦ true | some b ↦ not (b == round) ]

  -- max((item.steps for item in fresh), default=0)
  unfoldable pub most_steps : List (Contribution F) → ℕ
  most_steps [] = 0
  most_steps (c ∷ items) = max c.steps (most_steps items)

module _ {F T : Type 0} where
  -- The loop that rejects stale contributions.
  unfoldable pub sift :
      Bool → List (Contribution F) → GlobalState T → List (Contribution F) × GlobalState T
  unfolding is_stale note_stale
  sift strict [] s = ([], s)
  sift strict (c ∷ items) s =
      let rejected = sift strict items (note_stale c.cluster s) in
      let kept = sift strict items s in
      if strict && is_stale s.round c then rejected else (c ∷ kept.0, kept.1)

  -- The loop that books what was merged.
  unfoldable pub credit : List (Contribution F) → GlobalState T → GlobalState T
  unfolding note_seen
  credit [] s = s
  credit (c ∷ items) s =
      let seen =
        note_seen c.cluster
          (λ r. record r {
            rounds_contributed = r.rounds_contributed + 1;
            tokens_total = r.tokens_total + c.tokens;
          })
          s in
      credit items (record seen { total_tokens = s.total_tokens + c.tokens })

module _ {F : Type 0} ⦃fl : Floats F⦄ where
  -- sum(item.weight for item in fresh)
  unfoldable pub sum_weights : F → List (Contribution F) → F
  sum_weights total [] = total
  sum_weights total (c ∷ items) = sum_weights (fl.add total c.weight) items

module _ {T : Type 0} ⦃fm : Formats T⦄ where
  -- The exception that the shapes of a delta raise against those of the global model, if any.
  unfoldable pub shape_error : TensorDict T → TensorDict T → Option Error
  unfolding same_shape
  shape_error [] delta = none
  shape_error ((k, w) ∷ current) delta = elim (lookup k delta) [
    | none ↦ some key_error
    | some d ↦
        if same_shape (fm.shape w) (fm.shape d) then shape_error current delta else some value_error
  ]

  -- The exception that one delta raises in _check_shapes, if any.
  unfoldable pub delta_error : List String → TensorDict T → TensorDict T → Option Error
  unfolding are_among keys_of shape_error
  delta_error keys current delta =
      if are_among keys (keys_of delta) && are_among (keys_of delta) keys
      then shape_error current delta
      else some value_error

  -- v_prev
  unfoldable pub previous_velocity : Option (TensorDict T) → String → T → Result T
  previous_velocity none key w = ok w
  previous_velocity (some previous) key w = elim (lookup key previous) [
    | none ↦ err key_error
    | some v ↦ ok (fm.to_float v)
  ]

  -- initialise_from_file
  unfoldable pub initialise : TensorDict T → GlobalState T → GlobalState T
  unfolding save_meta keys_of
  initialise source s = save_meta (record s {
    global_file = some (map (λ e. (e.0, fm.to_storage e.1)) source);
    momentum_file = none;
    keys = keys_of source;
    round = 0;
  })

module _ {F T : Type 0} ⦃fm : Formats T⦄ where
  -- _check_shapes: the exception that it raises, if any
  unfoldable pub check_shapes : List String → TensorDict T → List (F × TensorDict T) → Option Error
  unfolding delta_error
  check_shapes keys current [] = none
  check_shapes keys current ((_, delta) ∷ deltas) = elim (delta_error keys current delta) [
    | some e ↦ some e
    | none ↦ check_shapes keys current deltas
  ]

module _ {F T : Type 0} ⦃fl : Floats F⦄ ⦃fm : Formats T⦄ ⦃ts : Tensors F T⦄ where
  -- `deltas = [TensorFile(item.path) for item in fresh]`, with the shares
  unfoldable pub open_deltas :
      F → List (Contribution F) → Dict (TensorDict T) → Result (List (F × TensorDict T))
  open_deltas total [] blobs = ok []
  open_deltas total (c ∷ items) blobs = elim (lookup c.path blobs) [
    | none ↦ err file_not_found
    | some delta ↦
        open_deltas total items blobs >>= λ rest. ok ((fl.div c.weight total, delta) ∷ rest)
  ]

  -- The loop over the deltas for one key: accumulator.add_(delta.get(key), alpha=share)
  unfoldable pub accumulate : String → List (F × TensorDict T) → T → Result T
  accumulate key [] acc = ok acc
  accumulate key ((share, delta) ∷ deltas) acc = elim (lookup key delta) [
    | none ↦ err key_error
    | some d ↦ accumulate key deltas (ts.add_scaled acc share (fm.to_float d))
  ]

  -- w_next
  unfoldable pub step_weights : F → T → T → T
  step_weights beta v_prev v_next =
      if fl.eq beta (fl.of_nat 0)
      then v_next
      else ts.add_scaled (ts.scale v_prev (fl.sub (fl.of_nat 0) beta)) (fl.add (fl.of_nat 1) beta)
          v_next

  -- The loop over `current.keys`: the new global file and the new momentum file.
  unfoldable pub stream :
      F
      → F
      → List (F × TensorDict T)
      → Option (TensorDict T)
      → TensorDict T
      → Result (TensorDict T × TensorDict T)
  unfolding accumulate previous_velocity step_weights
  stream lr beta deltas previous [] = ok ([], [])
  stream lr beta deltas previous ((key, w0) ∷ current) =
      let w = fm.to_float w0 in
      accumulate key deltas (ts.zeros_like w) >>= λ acc.
      let v_next = ts.plus (ts.scale acc lr) w in
      previous_velocity previous key w >>= λ v_prev.
      stream lr beta deltas previous current >>= λ rest. ok (
        (key, fm.to_storage (step_weights beta v_prev v_next)) ∷ rest.0,
        (key, fm.to_storage v_next) ∷ rest.1,
      )

  -- `_check_shapes` and the writing of the new files, for a global file that is there or is not.
  unfoldable pub write_files :
      F
      → F
      → List (F × TensorDict T)
      → Option (TensorDict T)
      → GlobalState T
      → Result (TensorDict T × TensorDict T)
  unfolding check_shapes stream is_initialised
  write_files lr beta deltas none s = err file_not_found
  write_files lr beta deltas (some current) s =
      if not (is_initialised s)
      then err file_not_found
      else elim (check_shapes s.keys current deltas) [
        | some e ↦ err e
        | none ↦
            stream lr beta deltas (if fl.eq beta (fl.of_nat 0) then none else s.momentum_file)
              current
      ]

  -- The new files of a merge of fresh contributions, none of which is in place yet.
  unfoldable pub new_files :
      F
      → F
      → List (Contribution F)
      → Dict (TensorDict T)
      → GlobalState T
      → Result (TensorDict T × TensorDict T)
  unfolding sum_weights open_deltas write_files
  new_files lr beta fresh blobs s =
      let total = sum_weights (fl.of_nat 0) fresh in
      if fl.le total (fl.of_nat 0)
      then err value_error
      else (open_deltas total fresh blobs >>= λ deltas. write_files lr beta deltas s.global_file s)

module _ {T : Type 0} where
  -- The two `os.replace`, of which the first, or both, have been done.
  unfoldable pub replace_files : Bool → TensorDict T × TensorDict T → GlobalState T → GlobalState T
  replace_files both files s = record s {
    global_file = some (files.0);
    momentum_file = if both then some (files.1) else s.momentum_file;
  }

module _ {F T : Type 0} ⦃fl : Floats F⦄ ⦃fm : Formats T⦄ ⦃ts : Tensors F T⦄ where
  -- The two `os.replace` and what follows them.
  unfoldable pub adopt_files :
      List (Contribution F) → TensorDict T × TensorDict T → GlobalState T → GlobalState T
  unfolding replace_files credit most_steps save_meta
  adopt_files fresh files s =
      let booked = credit fresh (replace_files true files s) in
      save_meta (record booked {
        global_step = booked.global_step + most_steps fresh;
        round = booked.round + 1;
      })

  -- What an exception before the files are in place leaves, and what the books say after them.
  abbrev pub settle :
      List (Contribution F)
      → Result (TensorDict T × TensorDict T)
      → GlobalState T
      → Result ℕ × GlobalState T
  settle fresh (err e) s = (err e, s)
  settle fresh (ok files) s = let merged = adopt_files fresh files s in (ok merged.round, merged)

  -- merge after its loop over the contributions
  unfoldable pub merge_fresh :
      F → F → List (Contribution F) → Dict (TensorDict T) → GlobalState T → Result ℕ × GlobalState T
  unfolding new_files adopt_files
  merge_fresh lr beta [] blobs s = (err stale_contribution, s)
  merge_fresh lr beta (c ∷ fresh) blobs s =
      settle (c ∷ fresh) (new_files lr beta (c ∷ fresh) blobs s) s

  -- merge, with `self` as it is left when an exception is raised
  unfoldable pub merge :
      F
      → F
      → Bool
      → List (Contribution F)
      → Dict (TensorDict T)
      → GlobalState T
      → Result ℕ × GlobalState T
  unfolding sift merge_fresh
  merge lr beta strict [] blobs s = (err value_error, s)
  merge lr beta strict (c ∷ items) blobs s =
      let (fresh, noted) = sift strict (c ∷ items) s in merge_fresh lr beta fresh blobs noted
