-- ===== src/Central/Strategy/Rounds.antt =====
-- A round of the blob transport, from replies to the next model: `_aggregate_blob` of
-- src/pww/central/strategy.py.
use project_world_wide.Prelude.{
  ℕ, ◌≡◌, refl, sym, ap, ◌∙◌, subst, Bool, true, false, String, Option, none, some, List, [], ◌∷◌,
  if◌then◌else◌, Bool-cases, Option-cases, inl, inr, ◌⊎◌, Result, ok, err, Error, Outcome,
}
use project_world_wide.Prelude.Dict.{Dict, lookup}
use project_world_wide.Darl.Floats.{Floats}
use project_world_wide.Central.Global.{
  Formats, Tensors, TensorDict, Contribution, GlobalState, is_initialised, save_meta,
}
use project_world_wide.Central.Global.Merging.{initialise}
use project_world_wide.Central.Global.Books.{IsNoted, same-IsNoted, fresh_of}
use project_world_wide.Central.Global.Merge.{IsRefusal}
use project_world_wide.Central.Global.Outcomes.{IsGlobal, IsMerged, IsOutcome, merge-IsOutcome}
use project_world_wide.Central.Names.{global_blob, init_blob}
use project_world_wide.Central.Strategy.{
  FitReply, Settings, Plane, gather, reject_duplicates, contributions_of, seed, publish,
  after_merge, merge_replies, aggregate_blob,
}
use project_world_wide.Central.Strategy.Counted.{
  Gathered, Sole, gather-Gathered, reject_duplicates-Sole,
}
use project_world_wide.Central.Strategy.Blobs.{
  stays, published_at, lookup-publish, state-publish, lookup-prune-publish,
}

module _ {F T : Type 0} ⦃fl : Floats F⦄ ⦃fm : Formats T⦄ ⦃ts : Tensors F T⦄
    (settings : Settings F) where
  -- The first model of the run, from a cluster's init blob, is the model, published for round 0.
  abbrev pub IsSeeded : Plane T → Plane T → Type 0
  IsSeeded p t =
      (source : TensorDict T) × (lookup (init_blob settings.run_id) p.blobs ≡ some source)
      × (t.state ≡ initialise source p.state)
      × ((name : String)
          → lookup name t.blobs
            ≡ published_at (global_blob settings.run_id 0) name p.blobs
                (initialise source p.state).global_file)

  abbrev IsSeedOutcome : Plane T → Bool × Plane T → Type 0
  IsSeedOutcome p a = ((a.0 ≡ false) × (a.1 ≡ p)) ⊎ ((a.0 ≡ true) × IsSeeded p a.1)

  seed_lem : (replies : List FitReply) (p : Plane T) → IsSeedOutcome p (seed settings replies p)
  unfolding seed initialise
  seed_lem [] p = inl (refl, refl)
  seed_lem (r ∷ replies) p = elim (Bool-cases r.uploaded_init) [
    | inr other ↦
        let same : seed settings (r ∷ replies) p ≡ seed settings replies p =
          rw (other, seed) refl in
        subst (λ a. IsSeedOutcome p a) (sym same) (seed_lem replies p)
    | inl claims ↦ elim (Option-cases (lookup (init_blob settings.run_id) p.blobs)) [
      | inl missing ↦
          let same : seed settings (r ∷ replies) p ≡ seed settings replies p =
            rw (claims, seed, missing) refl in
          subst (λ a. IsSeedOutcome p a) (sym same) (seed_lem replies p)
      | inr (source, there) ↦
          let p' : Plane T = record p { state = initialise source p.state } in
          let same : seed settings (r ∷ replies) p ≡ (true, publish settings.run_id 0 p') =
            rw (claims, seed, there) refl in
          subst (λ a. IsSeedOutcome p a) (sym same)
            (inr (
              refl,
              (
                source,
                there,
                state-publish settings.run_id 0 p',
                λ name. lookup-publish settings.run_id name 0 p',
              ),
            ))
    ]
  ]

  -- The fresh contributions `fresh` to the model of `p` are merged into the round `n`, the new model is
  -- published for it, and of the other blobs those stay that `_prune` keeps.
  pub record IsRound (fresh : List (Contribution F)) (p : Plane T) (n : ℕ) (t : Plane T)
      : Type 0 where
    pub is_merged :
        IsMerged settings.server_learning_rate settings.server_momentum fresh p.blobs p.state n
          t.state
    pub blobs :
        (name : String)
        → lookup name t.blobs ≡ (
            if stays settings.run_id settings.keep_rounds n name
            then published_at (global_blob settings.run_id n) name p.blobs t.state.global_file
            else none)

  -- A round without a merge: no contribution was fresh.
  abbrev pub IsRefusedRound : Plane T → Plane T → Type 0
  IsRefusedRound p t = IsNoted p.state t.state × (t.blobs ≡ p.blobs)

  abbrev pub IsNext : List (Contribution F) → Plane T → Plane T → Option ℕ → Type 0
  IsNext fresh p t none = (fresh ≡ []) × IsRefusedRound p t
  IsNext fresh p t (some n) = IsRound fresh p n t

  abbrev pub IsAggregated : List (Contribution F) → Plane T → Result (Option ℕ) × Plane T → Type 0
  IsAggregated fresh p a =
      Outcome a.0 (λ o. IsNext fresh p a.1 o) (λ e. IsRefusal e × IsRefusedRound p a.1)
      × IsGlobal a.1.state

  after_merge_refusal :
      (e : Error) (blobs : Dict (TensorDict T)) (s : GlobalState T)
      → IsRefusal e
      → after_merge settings blobs (err e, s) ≡ (err e, record { state = s; blobs = blobs })
  after_merge_refusal e blobs s (inl h) = rw h refl
  after_merge_refusal e blobs s (inr (inl h)) = rw h refl
  after_merge_refusal e blobs s (inr (inr h)) = rw h refl

  after_merge_lem :
      (fresh : List (Contribution F)) (p : Plane T) (a : Result ℕ × GlobalState T)
      → IsOutcome settings.server_learning_rate settings.server_momentum fresh p.blobs p.state a
      → IsAggregated fresh p (after_merge settings p.blobs a)
  after_merge_lem fresh p (ok n, s) (m, k) =
      let q : Plane T = record { state = s; blobs = p.blobs } in
      let same = state-publish settings.run_id n q in
      (
        record {
          is_merged =
              subst
                (λ x.
                  IsMerged settings.server_learning_rate settings.server_momentum fresh p.blobs
                    p.state n x)
                (sym same) m;
          blobs = λ name.
              lookup-prune-publish settings.run_id name settings.keep_rounds n q
              ∙ ap
                  (λ x.
                    if stays settings.run_id settings.keep_rounds n name
                    then published_at (global_blob settings.run_id n) name p.blobs x.global_file
                    else none)
                  (sym same);
        },
        subst IsGlobal (sym same) k,
      )
  after_merge_lem fresh p (err e, s) ((inl (h, nothing), noted), k) =
      let same : after_merge settings p.blobs (err e, s)
          ≡ (ok none, record { state = s; blobs = p.blobs }) =
        rw h refl in
      subst (λ a. IsAggregated fresh p a) (sym same) ((nothing, (noted, refl)), k)
  after_merge_lem fresh p (err e, s) ((inr h, noted), k) =
      subst (λ a. IsAggregated fresh p a) (sym (after_merge_refusal e p.blobs s h))
        ((h, (noted, refl)), k)

  merge_replies_lem :
      (items : List (Contribution F)) (p : Plane T)
      → IsGlobal p.state
      → IsAggregated (fresh_of true p.state.round items) p (merge_replies settings items p)
  unfolding merge_replies fresh_of
  merge_replies_lem [] p k = ((refl, (same-IsNoted p.state, refl)), k)
  merge_replies_lem (c ∷ items) p k =
      after_merge_lem (fresh_of true p.state.round (c ∷ items)) p _ (
        merge-IsOutcome settings.server_learning_rate settings.server_momentum true (c ∷ items)
          p.blobs p.state k)

  IsSeeded-IsGlobal : (p t : Plane T) → IsGlobal p.state → IsSeeded p t → IsGlobal t.state
  unfolding initialise save_meta
  IsSeeded-IsGlobal p t k (source, there, same, blobs) =
      subst IsGlobal (sym same) (record { books = k.books; saved = k.books; momentum = tt })

  -- What is merged into the model of `start`: of the replies that count as contributions, those whose
  -- cluster has no other, and of them the ones for the current round.
  abbrev pub IsRoundFrom : List FitReply → Plane T → Result (Option ℕ) × Plane T → Type 0
  IsRoundFrom replies start a =
      (items : List (Contribution F)) × (kept : List (Contribution F)) × Gathered start.blobs
        replies items
      × Sole items items kept
      × IsAggregated (fresh_of true start.state.round kept) start a

  merge_replies-IsRoundFrom :
      (replies : List FitReply) (p : Plane T)
      → IsGlobal p.state
      → IsRoundFrom replies p (merge_replies settings (contributions_of replies p) p)
  unfolding gather reject_duplicates
  merge_replies-IsRoundFrom replies p k = (
    gather p.blobs replies,
    contributions_of replies p,
    gather-Gathered p.blobs replies,
    reject_duplicates-Sole (gather p.blobs replies),
    merge_replies_lem (contributions_of replies p) p k,
  )

  -- From balanced books, a round is one of two things. There is no model, no cluster has brought a first
  -- one, and nothing changes. Or, from the plane as it is or with a first model adopted and
  -- published, exactly the replies that name a delta that is there and have tokens, whose cluster has no
  -- other such reply, and that are for the current round, are merged into the next model, which is
  -- published under the next round's name unless that name is taken, while old blobs are dropped; if there
  -- are none, or a weight, a key, a shape or a file is wrong, the model and the blobs stay as they are. No
  -- other exception is raised, and the books balance.
  pub aggregate_blob_outcome :
      (replies : List FitReply) (p : Plane T)
      → IsGlobal p.state
      → ((is_initialised p.state ≡ false) × (aggregate_blob settings replies p ≡ (ok none, p)))
        ⊎ ((start : Plane T) × (((is_initialised p.state ≡ true) × (start ≡ p))
              ⊎ ((is_initialised p.state ≡ false) × IsSeeded p start))
            × IsRoundFrom replies start (aggregate_blob settings replies p))
  unfolding aggregate_blob
  aggregate_blob_outcome replies p k = elim (Bool-cases (is_initialised p.state)) [
    | inl warm ↦
        let same : aggregate_blob settings replies p
            ≡ merge_replies settings (contributions_of replies p) p =
          rw (warm, aggregate_blob) refl in
        inr (
          p,
          inl (warm, refl),
          subst (λ a. IsRoundFrom replies p a) (sym same) (merge_replies-IsRoundFrom replies p k),
        )
    | inr cold ↦
        let a = seed settings replies p in
        elim (seed_lem replies p) [
          | inl (unseeded, same) ↦
              inl (cold, rw (cold, aggregate_blob) (rw unseeded (ap (λ q. (ok none, q)) same)))
          | inr (seeded, from) ↦
              let same : aggregate_blob settings replies p
                  ≡ merge_replies settings (contributions_of replies a.1) a.1 =
                rw (cold, aggregate_blob) (rw seeded refl) in
              inr (
                a.1,
                inr (cold, from),
                subst (λ b. IsRoundFrom replies a.1 b) (sym same)
                    (merge_replies-IsRoundFrom replies a.1 (IsSeeded-IsGlobal p a.1 k from)),
              )
        ]
  ]
