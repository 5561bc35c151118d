-- ===== src/Central/Strategy/Counted.antt =====
-- Which replies of a round count in `_aggregate_blob` of src/pww/central/strategy.py, said without
-- the loops that find them.
use project_world_wide.Prelude.{
  ◌≤◌, ◌≡◌, sym, subst, false, ◌==◌, ltb, none, some, List, [], ◌∷◌, str_eq, eq_iff, Bool-cases,
  Option-cases, inl, inr, ◌⊎◌, arith,
}
use project_world_wide.Prelude.Dict.{Dict, lookup}
use project_world_wide.Darl.Floats.{Floats}
use project_world_wide.Central.Global.{TensorDict, Contribution}
use project_world_wide.Central.Strategy.{
  FitReply, is_file, gather, count_cluster, keep_unique, reject_duplicates,
}

module _ {F T : Type 0} ⦃fl : Floats F⦄ where
  -- Each reply that names a delta, has tokens and whose delta is among the blobs is a contribution,
  -- weighed by its tokens; the others are not, in order.
  pub data Gathered (blobs : Dict (TensorDict T))
      : List FitReply → List (Contribution F) → Type 0 where
    no_reply : Gathered blobs [] []
    taken :
        {r : FitReply} {replies : List FitReply} {items : List (Contribution F)}
        (delta : TensorDict T)
        → str_eq r.delta_blob "" ≡ false
        → 1 ≤ r.num_examples
        → lookup r.delta_blob blobs ≡ some delta
        → Gathered blobs replies items
        → Gathered blobs (r ∷ replies) (
            record {
              cluster = r.cluster;
              path = r.delta_blob;
              weight = fl.of_nat r.num_examples;
              tokens = r.num_examples;
              steps = r.steps;
              base_round = r.base_round;
            }
            ∷ items)
    skipped :
        {r : FitReply} {replies : List FitReply} {items : List (Contribution F)}
        → (r.delta_blob ≡ "") ⊎ (r.num_examples ≡ 0) ⊎ (lookup r.delta_blob blobs ≡ none)
        → Gathered blobs replies items
        → Gathered blobs (r ∷ replies) items

  gather_skips :
      (blobs : Dict (TensorDict T)) (r : FitReply) (replies : List FitReply)
      → (r.delta_blob ≡ "") ⊎ (r.num_examples ≡ 0) ⊎ (lookup r.delta_blob blobs ≡ none)
      → gather {F = F} blobs (r ∷ replies) ≡ gather blobs replies
  unfolding gather is_file
  gather_skips blobs r replies (inl unnamed) =
      let e = (eq_iff r.delta_blob "").1 unnamed in ground (arith, e)
  gather_skips blobs r replies (inr (inl empty)) = ground (arith, empty)
  gather_skips blobs r replies (inr (inr missing)) = ground (arith, missing)

  pub gather-Gathered :
      (blobs : Dict (TensorDict T)) (replies : List FitReply)
      → Gathered blobs replies (gather blobs replies)
  unfolding gather is_file
  gather-Gathered blobs [] = no_reply
  gather-Gathered blobs (r ∷ replies) =
      let rest = gather-Gathered blobs replies in
      let skip =
        λ (why : (r.delta_blob ≡ "") ⊎ (r.num_examples ≡ 0) ⊎ (lookup r.delta_blob blobs ≡ none)).
          subst (λ items. Gathered blobs (r ∷ replies) items)
            (sym (gather_skips blobs r replies why)) (skipped why rest) in
      elim (Bool-cases (str_eq r.delta_blob "")) [
        | inl unnamed ↦ skip (inl ((eq_iff r.delta_blob "").0 unnamed))
        | inr named ↦ elim (Bool-cases (r.num_examples == 0)) [
          | inl empty ↦ skip (inr (inl (ground (arith, empty))))
          | inr full ↦ elim (Option-cases (lookup r.delta_blob blobs)) [
            | inl missing ↦ skip (inr (inr missing))
            | inr (delta, there) ↦
                rw (named, gather)
                  (rw (full)
                    (rw (there, is_file) (taken delta named (ground (arith, full)) there rest)))
          ]
        ]
      ]

module _ {F : Type 0} where
  -- Of the contributions `all_items` those are kept, in order, whose cluster has no other.
  pub data Sole (all_items : List (Contribution F))
      : List (Contribution F) → List (Contribution F) → Type 0 where
    no_item : Sole all_items [] []
    kept :
        {c : Contribution F} {items rest : List (Contribution F)}
        → count_cluster c.cluster all_items ≤ 1
        → Sole all_items items rest
        → Sole all_items (c ∷ items) (c ∷ rest)
    dropped :
        {c : Contribution F} {items rest : List (Contribution F)}
        → 2 ≤ count_cluster c.cluster all_items
        → Sole all_items items rest
        → Sole all_items (c ∷ items) rest

  keep_unique-Sole :
      (all_items items : List (Contribution F)) → Sole all_items items (keep_unique all_items items)
  unfolding keep_unique
  keep_unique-Sole all_items [] = no_item
  keep_unique-Sole all_items (c ∷ items) =
      let rest = keep_unique-Sole all_items items in
      elim (Bool-cases (ltb 1 (count_cluster c.cluster all_items))) [
        | inl several ↦ rw (several, keep_unique) (dropped (ground (arith, several)) rest)
        | inr alone ↦ rw (alone, keep_unique) (kept (ground (arith, alone)) rest)
      ]

  pub reject_duplicates-Sole :
      (items : List (Contribution F)) → Sole items items (reject_duplicates items)
  unfolding reject_duplicates
  reject_duplicates-Sole items = keep_unique-Sole items items
