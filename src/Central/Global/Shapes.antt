-- ===== src/Central/Global/Shapes.antt =====
-- When `_check_shapes` of src/pww/central/globalstate.py raises.
use project_world_wide.Prelude.{
  ◌≡◌, refl, subst, ◌&&◌, String, Option, none, some, List, [], ◌∷◌, All, Error, value_error,
  key_error, Bool-cases, Option-cases, inl, inr, ◌⊎◌, arith,
}
use project_world_wide.Prelude.Dict.{lookup}
use project_world_wide.Central.Global.{Formats, TensorDict, keys_of, are_among, same_shape}
use project_world_wide.Central.Global.Merging.{shape_error, delta_error, check_shapes}

-- What _check_shapes raises, and what holds if it raises nothing.
abbrev pub IsMismatch : Type 0 → Option Error → Type 0
IsMismatch P none = P
IsMismatch P (some e) = (e ≡ value_error) ⊎ (e ≡ key_error)

IsMismatch-map : {P Q : Type 0} (o : Option Error) → (P → Q) → IsMismatch P o → IsMismatch Q o
IsMismatch-map none f h = f h
IsMismatch-map (some e) f h = h

module _ {T : Type 0} ⦃fm : Formats T⦄ where
  shape_error_lem :
      (current delta : TensorDict T) → IsMismatch (Unit {0}) (shape_error current delta)
  unfolding shape_error
  shape_error_lem [] delta = tt
  shape_error_lem ((k, w) ∷ current) delta = elim (Option-cases (lookup k delta)) [
    | inl missing ↦ rw (missing, shape_error) (inr refl)
    | inr (d, there) ↦ elim (Bool-cases (same_shape (fm.shape w) (fm.shape d))) [
      | inl same ↦ rw (there, shape_error, same) (shape_error_lem current delta)
      | inr other ↦ rw (there, shape_error, other) (inl refl)
    ]
  ]

  delta_error_lem :
      (keys : List String) (current delta : TensorDict T)
      → IsMismatch (Unit {0}) (delta_error keys current delta)
  unfolding delta_error
  delta_error_lem keys current delta =
      elim (Bool-cases (are_among keys (keys_of delta) && are_among (keys_of delta) keys)) [
        | inl same ↦ rw (same, delta_error) (shape_error_lem current delta)
        | inr other ↦ rw (other, delta_error) (inl refl)
      ]

module _ {F T : Type 0} ⦃fm : Formats T⦄ where
  abbrev pub AllMatch : TensorDict T → List (F × TensorDict T) → Type 0
  AllMatch current deltas = All (λ d. shape_error current d.1 ≡ none) deltas

  pub check_shapes_lem :
      (keys : List String) (current : TensorDict T) (deltas : List (F × TensorDict T))
      → IsMismatch (AllMatch current deltas) (check_shapes keys current deltas)
  unfolding check_shapes delta_error
  check_shapes_lem keys current [] = tt
  check_shapes_lem keys current ((share, delta) ∷ deltas) =
      elim (Option-cases (delta_error keys current delta)) [
        | inr (e, raised) ↦
            rw (raised, check_shapes)
              (subst (λ x. IsMismatch (Unit {0}) x) raised (delta_error_lem keys current delta))
        | inl fine ↦
            let one : shape_error current delta ≡ none = ground (arith, fine) in
            rw (fine, check_shapes)
              (IsMismatch-map (check_shapes keys current deltas) (λ h. (one, h))
                (check_shapes_lem keys current deltas))
      ]
