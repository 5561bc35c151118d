-- ===== src/Central/Global/Fedmom.antt =====
-- FedMom, one tensor at a time, and the loops of src/pww/central/globalstate.py that compute it.
use project_world_wide.Prelude.{
  ◌≡◌, refl, sym, ap, subst, true, String, Option, none, some, List, [], ◌∷◌, if◌then◌else◌, str_eq,
  eq_iff, map, ok, file_not_found, Outcome, Outcome-bind, Bool-cases, Option-cases, inl, inr, arith,
}
use project_world_wide.Prelude.Dict.{Dict, lookup}
use project_world_wide.Darl.Floats.{Floats}
use project_world_wide.Central.Global.{
  Formats, Tensors, TensorDict, Contribution, keys_of, is_among, are_among,
}
use project_world_wide.Central.Global.Merging.{
  sum_weights, shape_error, open_deltas, accumulate, previous_velocity, step_weights, stream,
}
use project_world_wide.Central.Global.Shapes.{AllMatch}

-- A key that is listed can be looked up.
lookup_among :
    {V : Type 0} (k : String) (d : Dict V)
    → is_among k (keys_of d) ≡ true
    → (v : V) × (lookup k d ≡ some v)
unfolding lookup is_among keys_of
lookup_among k [] h = absurd (cc)
lookup_among k ((j, v) ∷ d) h = elim (Bool-cases (str_eq j k)) [
  | inl here ↦ (v, ground (arith, here))
  | inr there ↦
      let (w, e) = lookup_among k d (ground (arith, there)) in (w, ground (arith, there, e))
]

are_among-cons :
    (j : String) (ks js : List String) → are_among ks js ≡ true → are_among ks (j ∷ js) ≡ true
unfolding are_among is_among
are_among-cons j [] js h = refl
are_among-cons j (k ∷ ks) js h = ground (arith, are_among-cons j ks js)

are_among_self : (ks : List String) → are_among ks ks ≡ true
unfolding are_among is_among
are_among_self [] = refl
are_among_self (k ∷ ks) =
    let self = (eq_iff k k).1 refl in
    let rest = are_among-cons k ks ks (are_among_self ks) in ground (arith, self, rest)

-- A momentum file that fits: one entry for each tensor of the global model.
abbrev pub Fits : {T : Type 0} → Option (TensorDict T) → Option (TensorDict T) → Type 0
Fits none g = Unit {0}
Fits (some v) none = Unit {0}
Fits (some v) (some g) = keys_of v ≡ keys_of g

module _ {T : Type 0} ⦃fm : Formats T⦄ where
  -- The velocity of a tensor before a merge: the weights themselves, if there is none.
  unfoldable pub velocity_before : Option (TensorDict T) → String → T → T
  velocity_before none key w = w
  velocity_before (some previous) key w = elim (lookup key previous) [
    | none ↦ w
    | some v ↦ fm.to_float v
  ]

  previous_velocity_lem :
      (previous : Option (TensorDict T)) (key : String) (w : T)
      → (elim previous as (λ p. Type 0) [
        | none ↦ Unit {0}
        | some p ↦ is_among key (keys_of p) ≡ true
      ])
      → previous_velocity previous key w ≡ ok (velocity_before previous key w)
  unfolding previous_velocity velocity_before
  previous_velocity_lem none key w h = refl
  previous_velocity_lem (some p) key w h = let (v, e) = lookup_among key p h in ground (arith, e)

  -- All keys of the current model have a velocity, if any has.
  abbrev pub HaveVelocity : TensorDict T → Option (TensorDict T) → Type 0
  HaveVelocity current none = Unit {0}
  HaveVelocity current (some p) = are_among (keys_of current) (keys_of p) ≡ true

  HaveVelocity-cons :
      (key : String) (w : T) (current : TensorDict T) (previous : Option (TensorDict T))
      → HaveVelocity ((key, w) ∷ current) previous
      → (previous_velocity previous key (fm.to_float w)
          ≡ ok (velocity_before previous key (fm.to_float w)))
        × HaveVelocity current previous
  unfolding are_among keys_of
  HaveVelocity-cons key w current none h = (previous_velocity_lem none key (fm.to_float w) tt, tt)
  HaveVelocity-cons key w current (some p) h =
      (previous_velocity_lem (some p) key (fm.to_float w) (ground arith), ground arith)

module _ {F : Type 0} ⦃fl : Floats F⦄ where
  -- The weights of contributions, added up from the left.
  unfoldable pub total_weight : F → List (Contribution F) → F
  total_weight total [] = total
  total_weight total (c ∷ items) = total_weight (fl.add total c.weight) items

  pub sum_weights_lem :
      (total : F) (items : List (Contribution F))
      → sum_weights total items ≡ total_weight total items
  unfolding sum_weights total_weight
  sum_weights_lem total [] = refl
  sum_weights_lem total (c ∷ items) = sum_weights_lem (fl.add total c.weight) items

module _ {F T : Type 0} ⦃fl : Floats F⦄ ⦃fm : Formats T⦄ ⦃ts : Tensors F T⦄ where
  -- What FedMom makes of a tensor `w`: the sum of the deltas by their shares, the velocity from it,
  -- and the weights extrapolated from the velocity before.
  unfoldable pub pull : String → List (F × TensorDict T) → T → T
  pull key [] acc = acc
  pull key ((share, delta) ∷ deltas) acc = elim (lookup key delta) [
    | none ↦ pull key deltas acc
    | some d ↦ pull key deltas (ts.add_scaled acc share (fm.to_float d))
  ]

  unfoldable pub velocity_after : F → List (F × TensorDict T) → String → T → T
  unfolding pull
  velocity_after lr deltas key w = ts.plus (ts.scale (pull key deltas (ts.zeros_like w)) lr) w

  -- The next weights are the new velocity, extrapolated by `beta` from the velocity before:
  -- (1 + beta) v_next - beta v_prev.
  unfoldable pub extrapolated : F → T → T → T
  extrapolated beta v_prev v_next =
      let one_and_beta = fl.add (fl.of_nat 1) beta in
      let minus_beta = fl.sub (fl.of_nat 0) beta in
      if fl.eq beta (fl.of_nat 0)
      then v_next
      else ts.add_scaled (ts.scale v_prev minus_beta) one_and_beta v_next

  abbrev pub next_velocity : F → List (F × TensorDict T) → String × T → String × T
  next_velocity lr deltas (key, w) =
      (key, fm.to_storage (velocity_after lr deltas key (fm.to_float w)))

  abbrev pub next_weights :
      F → F → List (F × TensorDict T) → Option (TensorDict T) → String × T → String × T
  next_weights lr beta deltas previous (key, w) = (
    key,
    fm.to_storage (
        extrapolated beta (velocity_before previous key (fm.to_float w))
          (velocity_after lr deltas key (fm.to_float w))),
  )

  -- The deltas of contributions, with their shares of the total weight.
  unfoldable pub shares_of :
      F → List (Contribution F) → Dict (TensorDict T) → List (F × TensorDict T)
  shares_of total [] blobs = []
  shares_of total (c ∷ items) blobs = elim (lookup c.path blobs) [
    | none ↦ shares_of total items blobs
    | some delta ↦ (fl.div c.weight total, delta) ∷ shares_of total items blobs
  ]

  pub open_deltas_lem :
      (total : F) (items : List (Contribution F)) (blobs : Dict (TensorDict T))
      → Outcome
          (open_deltas total items blobs)
          (λ ds. ds ≡ shares_of total items blobs)
          (λ e. e ≡ file_not_found)
  unfolding open_deltas shares_of
  open_deltas_lem total [] blobs = refl
  open_deltas_lem total (c ∷ items) blobs = elim (Option-cases (lookup c.path blobs)) [
    | inl missing ↦ rw (missing, open_deltas) refl
    | inr (delta, there) ↦
        rw (there, open_deltas, shares_of)
          (Outcome-bind (open_deltas total items blobs) _ (λ ds. ds ≡ shares_of total items blobs) _
            (λ e. e ≡ file_not_found) _ (open_deltas_lem total items blobs)
            (λ ds e. ap (λ x. (fl.div c.weight total, delta) ∷ x) e) (λ e same. same))
  ]

  accumulate_lem :
      (key : String) (w : T) (current : TensorDict T) (deltas : List (F × TensorDict T)) (acc : T)
      → AllMatch ((key, w) ∷ current) deltas
      → (accumulate key deltas acc ≡ ok (pull key deltas acc)) × AllMatch current deltas
  unfolding accumulate pull shape_error
  accumulate_lem key w current [] acc h = (refl, tt)
  accumulate_lem key w current ((share, delta) ∷ deltas) acc h =
      elim (Option-cases (lookup key delta)) [
        | inl missing ↦ let bad = h.0 in absurd (ground (arith, missing, bad))
        | inr (d, there) ↦
            let rest =
              accumulate_lem key w current deltas (ts.add_scaled acc share (fm.to_float d)) h.1 in
            let one = h.0 in
            (rw (there, accumulate, pull) rest.0, (ground (arith, there, one), rest.1))
      ]

  pub stream_lem :
      (lr beta : F) (deltas : List (F × TensorDict T)) (previous : Option (TensorDict T))
      (current : TensorDict T)
      → AllMatch current deltas
      → HaveVelocity current previous
      → stream lr beta deltas previous current
        ≡ ok (
          map (next_weights lr beta deltas previous) current,
          map (next_velocity lr deltas) current,
        )
  unfolding stream velocity_after step_weights extrapolated
  stream_lem lr beta deltas previous [] h k = refl
  stream_lem lr beta deltas previous ((key, w0) ∷ current) h k =
      let w = fm.to_float w0 in
      let acc = accumulate_lem key w0 current deltas (ts.zeros_like w) h in
      let before = HaveVelocity-cons key w0 current previous k in
      rw (acc.0, stream)
        (rw (before.0) (rw (stream_lem lr beta deltas previous current acc.1 before.1) refl))

  pub Fits-HaveVelocity :
      (beta : F) (v : Option (TensorDict T)) (g : TensorDict T)
      → Fits v (some g)
      → HaveVelocity g (if fl.eq beta (fl.of_nat 0) then none else v)
  Fits-HaveVelocity beta v g h = elim (Bool-cases (fl.eq beta (fl.of_nat 0))) [
    | inl e ↦ rw e tt
    | inr e ↦ rw e (fits v h)
  ]
    where
      fits : (v : Option (TensorDict T)) → Fits v (some g) → HaveVelocity g v
      fits none h = tt
      fits (some v) h =
          subst (λ ks. are_among (keys_of g) ks ≡ true) (sym h) (are_among_self (keys_of g))
