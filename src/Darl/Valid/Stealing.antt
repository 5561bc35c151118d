-- ===== src/Darl/Valid/Stealing.antt =====
-- The table while `_steal` (src/pww/darl/table.py) takes the tails of leases.
use project_world_wide.Prelude.{
  ℕ, ◌+◌, ◌-◌, ◌<◌, ◌≡◌, refl, true, String, some, List, [], ◌∷◌, All-map, All-append, arith, max,
  sum_by-append,
}
use project_world_wide.Prelude.Dict.{put, sum_values-put, lookup-put_self}
use project_world_wide.Darl.Interval.{Span, span}
use project_world_wide.Darl.Interval.Cover.{holds}
use project_world_wide.Darl.Floats.{Floats}
use project_world_wide.Darl.Lease.{Lease, ClusterRecord, find_lease, set_lease}
use project_world_wide.Darl.Table.{LeaseTable, modify_cluster}
use project_world_wide.Darl.Table.Steal.{Stealing, take_tail}
use project_world_wide.Darl.Blocks.{
  lease_holds, sum_by-set_lease, All-find_lease, All-set_lease, set_lease-IsUnique,
}
use project_world_wide.Darl.Valid.{IsMarked, IsOwned}
use project_world_wide.Darl.Valid.Frames.{IsOwned-put}
use project_world_wide.Darl.Valid.Granting.{IsGranting}

-- The table and the spans of a theft, and what the theft has not touched.
abbrev pub IsStealing : {F : Type 0} → String → LeaseTable F → Stealing F → Type 0
IsStealing cid t s =
    IsGranting cid true s.spans s.table
    × (s.table.config ≡ t.config)
    × (s.table.epoch ≡ t.epoch)
    × (s.table.state ≡ t.state)

module _ {F : Type 0} ⦃fl : Floats F⦄ (cid : String) (t : LeaseTable F) (l : Lease F) (cut : ℕ)
    (s : Stealing F) (h : IsStealing cid t s) (held : find_lease l.lease_id s.table.leases ≡ some l)
    (begun : max l.progress_end l.committed_end < cut) (some_taken : cut < l.end) where
  abbrev pub shortened : Lease F
  shortened = record l { stolen = l.stolen + (l.end - cut); end = cut }

  pub take_tail-IsStealing :
      IsStealing cid t (take_tail cid l cut s)
      × ((take_tail cid l cut s).table.leases ≡ set_lease shortened s.table.leases)
  unfolding take_tail modify_cluster
  take_tail-IsStealing =
      let g = h.0 in
      let m =
        All-find_lease (IsMarked s.table.config.num_blocks s.table.epoch s.table.seq) l.lease_id l
          s.table.leases held g.marks in
      let (v, owner) =
        All-find_lease (IsOwned s.table.clusters) l.lease_id l s.table.leases held g.owned in
      let v' : ClusterRecord F = record v {
        blocks_stolen_from = v.blocks_stolen_from + (l.end - cut);
      } in
      let tail : List Span = span cut l.end ∷ [] in
      let keep = IsOwned-put l.cluster v' s.table.clusters in
      rw (owner, take_tail, modify_cluster)
        (
          (
            record {
              pool = g.pool;
              free_at = g.free_at;
              leased_at = λ p.
                  let old = g.leased_at p in
                  ground (
                    arith,
                    old,
                    sum_by-append (holds p) s.spans tail,
                    sum_by-set_lease (lease_holds p) shortened l s.table.leases held,
                  );
              committed_count = g.committed_count;
              quarantined_count = g.quarantined_count;
              marks =
                  All-set_lease (IsMarked s.table.config.num_blocks s.table.epoch s.table.seq)
                    shortened s.table.leases
                    (record {
                      started = m.started;
                      consumed = m.consumed;
                      within_end = omega arith;
                      unfinished = omega arith;
                      in_space = let inside = m.in_space in omega (arith, inside);
                      current = m.current;
                      numbered = m.numbered;
                    })
                    g.marks;
              unique = set_lease-IsUnique shortened s.table.leases g.unique;
              owned =
                  All-set_lease (IsOwned (put l.cluster v' s.table.clusters)) shortened
                    s.table.leases (v', lookup-put_self l.cluster v' s.table.clusters)
                    (All-map (IsOwned s.table.clusters)
                      (IsOwned (put l.cluster v' s.table.clusters)) keep s.table.leases g.owned);
              credit =
                  let old = g.credit in
                  omega (
                    arith,
                    old,
                    sum_values-put (λ (c : ClusterRecord F). c.blocks_committed) l.cluster v' v
                        s.table.clusters owner,
                  );
              proper =
                  All-append (λ (x : Span). x.lo < x.hi) s.spans tail g.proper (some_taken, tt);
              known = keep (record l { cluster = cid }) g.known;
            },
            h.1,
            h.2,
            h.3,
          ),
          refl,
        )
