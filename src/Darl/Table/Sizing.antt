-- ===== src/Darl/Table/Sizing.antt =====
-- `_grant_size` and `_active_clusters` of class LeaseTable (src/pww/darl/table.py).
use project_world_wide.Prelude.{
  ℕ, ◌/◌, not, ◌&&◌, String, List, [], ◌∷◌, ◌==◌, ltb, if◌then◌else◌, length, str_eq, min, max,
}
use project_world_wide.Prelude.Dict.{values}
use project_world_wide.Darl.Floats.{Floats, fmax, is_set}
use project_world_wide.Darl.Lease.{ClusterRecord, is_new}
use project_world_wide.Darl.Table.{LeaseTable, is_live}

module _ {F : Type 0} ⦃fl : Floats F⦄ where
  -- [c for c in self.clusters.values() if self.is_live(c, now)]
  unfoldable pub live_records : LeaseTable F → F → List (ClusterRecord F) → List (ClusterRecord F)
  unfolding is_live
  live_records t clk [] = []
  live_records t clk (r ∷ rs) =
      if is_live t r clk then r ∷ live_records t clk rs else live_records t clk rs

  -- _active_clusters
  unfoldable pub active_clusters : LeaseTable F → F → List (ClusterRecord F)
  unfolding live_records values
  active_clusters t clk =
      let live = live_records t clk (values t.clusters) in
      if length live == 0 then values t.clusters else live

  -- max(c.rate, 1e-6)
  abbrev pub floor_rate : ClusterRecord F → F
  floor_rate r = fmax r.rate (fl.decimal 1 6)

  -- sum(rates.values())
  unfoldable pub sum_rates : F → List (ClusterRecord F) → F
  sum_rates acc [] = acc
  sum_rates acc (r ∷ rs) = sum_rates (fl.add acc (floor_rate r)) rs

  -- rates.get(cluster_id, 1e-6)
  unfoldable pub rate_of : String → List (ClusterRecord F) → F
  rate_of cid [] = fl.decimal 1 6
  rate_of cid (r ∷ rs) = if str_eq r.cluster_id cid then floor_rate r else rate_of cid rs

  -- The share of the free blocks in proportion to the measured rates.
  unfoldable pub fair_share : ℕ → String → List (ClusterRecord F) → ℕ
  unfolding sum_rates rate_of
  fair_share free cid active =
      let total = sum_rates (fl.of_nat 0) active in
      let total_rate = if is_set total then total else fl.of_nat 1 in
      fl.truncate (fl.div (fl.mul (fl.of_nat free) (rate_of cid active)) total_rate)

  -- _grant_size
  unfoldable pub grant_size : ClusterRecord F → ℕ → F → LeaseTable F → ℕ
  unfolding active_clusters fair_share
  grant_size r blocks clk t =
      let least = t.config.min_blocks in
      let asked = max least blocks in
      let first =
        if is_new r
        then max least (fl.truncate (fl.mul (fl.of_nat asked) t.config.first_grant_fraction))
        else asked in
      let capped = min first t.config.max_blocks in
      let free = t.free.total in
      let active = active_clusters t clk in
      if not (free == 0) && ltb (free / max 1 (length active)) capped
      then max least (min capped (max (fair_share free r.cluster_id active) least))
      else capped
