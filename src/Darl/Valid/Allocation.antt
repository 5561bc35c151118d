-- ===== src/Darl/Valid/Allocation.antt =====
-- What `acquire` (src/pww/darl/table.py) allocates: spans from the pool or from other leases.
use project_world_wide.Prelude.{
  All, ℕ, ◌<◌, ◌≡◌, refl, Bool, true, false, ◌&&◌, inl, inr, String, some, List, [], ◌∷◌, ◌==◌,
  arith, Bool-cases, ap, subst, length, ◌∙◌, Returns, Returns-bind,
}
use project_world_wide.Prelude.Dict.{lookup}
use project_world_wide.Darl.Interval.{Span, IntervalSet, take_near}
use project_world_wide.Darl.Interval.Cover.{cover}
use project_world_wide.Darl.Interval.Take.{IsTaken, take_near-IsTaken}
use project_world_wide.Darl.Floats.{Floats}
use project_world_wide.Darl.Lease.{Grant, BlockState, committed, leased, in_state, ClusterRecord}
use project_world_wide.Darl.Table.{LeaseTable}
use project_world_wide.Darl.Table.Hold.{granted_ttl}
use project_world_wide.Darl.Table.Steal.{Stealing, candidates, sort, steal}
use project_world_wide.Darl.Table.Sizing.{grant_size}
use project_world_wide.Darl.Table.Acquire.{grant_all, grant_spans, find_spans, allocate}
use project_world_wide.Darl.Valid.{IsValid}
use project_world_wide.Darl.Valid.GivenBack.{
  IsGivenBack-trans, modify_cluster-IsNoted, record_event-IsNoted,
}
use project_world_wide.Darl.Valid.Granting.{
  IsGranting, IsGrantTo, grant_all-IsGranting, IsGranting-IsValid,
}
use project_world_wide.Darl.Valid.Thieves.{
  steal_loop-IsStealing, candidates-AreDistinct, candidates-IsCandidate, All-sort, sort-AreDistinct,
  IsCandidate,
}

length_zero : (xs : List Span) → (length xs == 0) ≡ true → xs ≡ []
length_zero [] h = refl
length_zero (x ∷ xs) h = absurd (ground arith)

committed_not_leased : (s : BlockState) → in_state s committed ≡ true → in_state s leased ≡ false
committed_not_leased s h = ground arith

-- The spans found for a cluster, on their way from the pool or from other leases.
abbrev IsFound : {F : Type 0} → String → LeaseTable F → Stealing F → Type 0
IsFound cid t s =
    (stolen : Bool) × IsGranting cid stolen s.spans s.table
    × (s.table.epoch ≡ t.epoch)
    × (s.table.state ≡ t.state)
    × (s.table.config ≡ t.config)

-- What an allocation keeps: the table is valid and no committed block has lost its state.
abbrev pub IsAllocated : {F : Type 0} → LeaseTable F → LeaseTable F → Type 0
IsAllocated t u =
    IsValid u
    × (u.epoch ≡ t.epoch)
    × ((p : ℕ) → in_state (t.state p) committed ≡ true → in_state (u.state p) committed ≡ true)
    × (u.config ≡ t.config)

-- The answer too: its leases are the cluster's and lie within the space.
abbrev pub IsAllocatedTo : {F : Type 0} → String → LeaseTable F → Grant F × LeaseTable F → Type 0
IsAllocatedTo cid t a = IsAllocated t a.1 × All (IsGrantTo cid t.config.num_blocks) a.0.leases

module _ {F : Type 0} ⦃fl : Floats F⦄ (cid : String) (t : LeaseTable F) (h : IsValid t)
    (r : ClusterRecord F) (known : lookup cid t.clusters ≡ some r)
    (some_steal : 0 < t.config.steal_min_blocks) where
  granting :
      (stolen : Bool) (spans : List Span) (pool : IntervalSet) (want max_spans : ℕ)
      → IsTaken t.free want max_spans (spans, pool)
      → (stolen ≡ true → spans ≡ [])
      → IsGranting cid stolen spans (record t { free = pool })
  granting stolen spans pool want max_spans k none_free = record {
    pool = k.0;
    free_at = λ p.
        let old = h.blocks.free_at p in
        let moved = k.1 p in
        elim (Bool-cases stolen) [
          | inl e ↦
              rw e (let empty = ap (cover p) (none_free e) in omega (arith, old, moved, empty))
          | inr e ↦ rw e (omega (arith, old, moved))
        ];
    leased_at = λ p.
        let old = h.blocks.leased_at p in
        elim (Bool-cases stolen) [
          | inl e ↦ rw e (let empty = ap (cover p) (none_free e) in omega (arith, old, empty))
          | inr e ↦ rw e (omega (arith, old))
        ];
    committed_count = h.blocks.committed_count;
    quarantined_count = h.blocks.quarantined_count;
    marks = h.marks;
    unique = h.unique;
    owned = h.owned;
    credit = h.credit;
    proper = k.3;
    known = (r, known);
  }

  steal-IsFound :
      (want : ℕ) (u : LeaseTable F)
      → IsGranting cid true [] u
      → u.config ≡ t.config
      → u.epoch ≡ t.epoch
      → u.state ≡ t.state
      → IsFound cid t (steal cid want u)
  unfolding steal
  steal-IsFound want u g ec ee es =
      let cs = candidates cid u u.leases in
      let found = candidates-AreDistinct cid u u.leases g.unique in
      let done =
        steal_loop-IsStealing cid u want (sort cs) (record { table = u; spans = []; taken = 0 })
          (rw ec some_steal) (g, refl, refl, refl) (All-sort (λ c. _) cs found.0)
          (sort-AreDistinct cs found.1)
          (All-sort (IsCandidate u.config.steal_min_blocks) cs
            (candidates-IsCandidate cid u u.leases)) in
      (true, done.0, done.2 ∙ ee, done.3 ∙ es, done.1 ∙ ec)

  -- From a valid table the spans of a request are found without an error.
  find_spans-IsFound :
      (want max_spans : ℕ) → Returns (find_spans cid r want max_spans t) (IsFound cid t)
  unfolding find_spans
  find_spans-IsFound want max_spans =
      Returns-bind (take_near t.free r.cursor want max_spans) _ (IsTaken t.free want max_spans)
        (IsFound cid t) (take_near-IsTaken t.free r.cursor want max_spans h.blocks.pool)
        λ a k. elim (Bool-cases (length a.0 == 0 && t.config.allow_stealing)) [
          | inl theft ↦
              let empty = length_zero a.0 (ground arith) in
              rw theft (
                steal-IsFound want (record t { free = a.1 })
                  (subst (λ xs. IsGranting cid true xs (record t { free = a.1 })) empty
                    (granting true a.0 a.1 want max_spans k (λ e. empty)))
                  refl refl refl)
          | inr taken ↦
              rw taken (false, granting false a.0 a.1 want max_spans k cc, refl, refl, refl)
        ]

  grant_spans-IsAllocated :
      (ttl now : F) (s : Stealing F)
      → IsFound cid t s
      → IsAllocatedTo cid t (grant_spans cid r s.spans s.taken ttl now s.table)
  unfolding grant_spans
  grant_spans-IsAllocated ttl now s (stolen, g, ee, es, ec) =
      let lasting = granted_ttl ttl r s.table in
      let (gone, epoch, kept, config, leases) =
        grant_all-IsGranting cid stolen lasting now s.spans s.table g in
      let u = (grant_all cid s.spans lasting now s.table).1 in
      let noted =
        modify_cluster-IsNoted cid _ u (λ v. omega arith)
          (IsGranting-IsValid cid stolen lasting now u gone) in
      let logged = record_event-IsNoted _ _ noted.0.valid in
      let same = IsGivenBack-trans u _ _ noted.0 logged.0 in
      let blocks : s.table.config.num_blocks ≡ t.config.num_blocks = ap (λ c. c.num_blocks) ec in
      (
        (
          same.valid,
          same.epoch ∙ epoch ∙ ee,
          (λ p a.
              let before : in_state (s.table.state p) committed ≡ true = rw es a in
              let granted = kept p before in
              let mine : in_state (u.state p) committed ≡ true = rw granted before in
              let settled : in_state (u.state p) leased ≡ false =
                committed_not_leased (u.state p) mine in
              rw (same.settled p settled) mine),
          same.config ∙ config ∙ ec,
        ),
        subst (λ m. All (IsGrantTo cid m) (grant_all cid s.spans lasting now s.table).0) blocks
            leases,
      )

  pub allocate-IsAllocated :
      (blocks max_spans : ℕ) (ttl now clk : F)
      → Returns (allocate cid blocks ttl max_spans now clk t) (IsAllocatedTo cid t)
  unfolding allocate
  allocate-IsAllocated blocks max_spans ttl now clk =
      rw (known, allocate)
        (Returns-bind (find_spans cid r (grant_size r blocks clk t) max_spans t) _ (IsFound cid t)
          (IsAllocatedTo cid t) (find_spans-IsFound (grant_size r blocks clk t) max_spans)
          λ s found. elim (Bool-cases (length s.spans == 0)) [
            | inl e ↦
                let (stolen, g, ee, es, ec) = found in
                let gone =
                  subst (λ xs. IsGranting cid stolen xs s.table) (length_zero s.spans e) g in
                rw e (
                  (IsGranting-IsValid cid stolen ttl now s.table gone, ee, (λ p a. rw es a), ec),
                  tt,
                )
            | inr e ↦ rw e (grant_spans-IsAllocated ttl now s found)
          ])
