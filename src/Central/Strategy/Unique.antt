-- ===== src/Central/Strategy/Unique.antt =====
-- Which contributions of a round are merged: src/pww/central/strategy.py.
use project_world_wide.Prelude.{
  ◌≤◌, ◌≡◌, String, List, [], ◌∷◌, ◌==◌, ltb, if◌then◌else◌, eq_iff, arith,
}
use project_world_wide.Central.Global.{Contribution}
use project_world_wide.Central.Strategy.{count_cluster, keep_unique, reject_duplicates}

module _ {F : Type 0} where
  count_cluster-keep_unique :
      (name : String) (all_items items : List (Contribution F))
      → count_cluster name (keep_unique all_items items)
        ≡ (if ltb 1 (count_cluster name all_items) then 0 else count_cluster name items)
  unfolding keep_unique count_cluster
  count_cluster-keep_unique name all_items [] = ground arith
  count_cluster-keep_unique name all_items (c ∷ items) =
      ground (arith, eq_iff c.cluster name, count_cluster-keep_unique name all_items items)

  -- Of each cluster at most one contribution is left, and it is left exactly if there was one only.
  pub count_cluster-reject_duplicates :
      (name : String) (items : List (Contribution F))
      → (count_cluster name (reject_duplicates items)
          ≡ (if count_cluster name items == 1 then 1 else 0))
        × (count_cluster name (reject_duplicates items) ≤ 1)
  unfolding reject_duplicates
  count_cluster-reject_duplicates name items =
      let counted = count_cluster-keep_unique name items items in
      (ground (arith, counted), ground (arith, counted))
