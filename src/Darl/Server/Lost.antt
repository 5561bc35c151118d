-- ===== src/Darl/Server/Lost.antt =====
-- What a restart of the coordinator (src/pww/darl/server.py) does not bring back.
use project_world_wide.Prelude.{
  ℕ, ◌+◌, ◌≡◌, refl, sym, Bool, true, false, not, ◌||◌, String, inl, inr, none, some, List, [], ◌∷◌,
  ◌++◌, ◌==◌, Bool-cases, Option-cases, Returns, Returns-bind, Result, ok, err, ◌>>=◌, ap, ◌∙◌,
  subst, str_eq, eq_iff,
}
use project_world_wide.Prelude.Dict.{lookup}
use project_world_wide.Darl.Floats.{Floats}
use project_world_wide.Darl.Lease.{
  LeaseId, Lease, ClusterRecord, find_lease, del_lease, same_id, same_id→eq,
}
use project_world_wide.Darl.Table.{LeaseTable, is_other}
use project_world_wide.Darl.Table.Reclaim.{
  reclaim, leases_of, release_all, release_targets, release,
}
use project_world_wide.Darl.Blocks.{
  IsUnique, find_lease_id, find_lease-del_lease-none, find_lease-del_lease_ne,
}
use project_world_wide.Darl.Valid.{IsValid}
use project_world_wide.Darl.Valid.GivenBack.{IsGivenBack, reclaim-IsGivenBack}
use project_world_wide.Darl.Server.{
  Op, Coordinator, given_back, releases, or_skip, replay, on_release,
}

-- Whether an id is among the targets of a release.
any_id : LeaseId → List LeaseId → Bool
any_id j [] = false
any_id j (i ∷ targets) = same_id i j || any_id j targets

module _ {F : Type 0} where
  find_lease-del_lease_self :
      (j : LeaseId) (ls : List (Lease F)) → IsUnique ls → find_lease j (del_lease j ls) ≡ none
  unfolding find_lease del_lease
  find_lease-del_lease_self j [] h = refl
  find_lease-del_lease_self j (m ∷ ls) h = elim (Bool-cases (same_id m.lease_id j)) [
    | inl e ↦
        let same = same_id→eq m.lease_id j e in rw e (subst (λ i. find_lease i ls ≡ none) same h.0)
    | inr e ↦ rw (e, e) (find_lease-del_lease_self j ls h.1)
  ]

  any_id-leases_of :
      (cid : String) (j : LeaseId) (l : Lease F) (ls : List (Lease F))
      → find_lease j ls ≡ some l
      → str_eq l.cluster cid ≡ true
      → any_id j (leases_of cid ls) ≡ true
  unfolding find_lease leases_of any_id
  any_id-leases_of cid j l [] h own = cc
  any_id-leases_of cid j l (m ∷ ls) h own = elim (Bool-cases (same_id m.lease_id j)) [
    | inl e ↦
        let h' = (rw e at h) in
        let same : m ≡ l = cc in
        let own' : str_eq m.cluster cid ≡ true =
          ap (λ (x : Lease F). str_eq x.cluster cid) same ∙ own in
        rw own' (rw e refl)
    | inr e ↦
        let h' = (rw e at h) in
        let rest = any_id-leases_of cid j l ls h' own in
        elim (Bool-cases (str_eq m.cluster cid)) [
          | inl mine ↦ rw mine (rw (e, rest) refl)
          | inr other ↦ rw other rest
        ]
  ]

  abbrev IsGone : LeaseId → LeaseTable F × ℕ → Type 0
  IsGone j r = find_lease j r.0.leases ≡ none

  -- A lease that is not held does not come back while others are released.
  release_all-absent :
      (count_attempt : Bool) (cid : String) (j : LeaseId) (targets : List LeaseId)
      (t : LeaseTable F)
      → IsValid t
      → find_lease j t.leases ≡ none
      → Returns (release_all count_attempt cid targets t) (IsGone j)
  unfolding release_all
  release_all-absent count_attempt cid j [] t h gone = gone
  release_all-absent count_attempt cid j (i ∷ targets) t h gone =
      let skip = release_all-absent count_attempt cid j targets t h gone in
      elim (Option-cases (find_lease i t.leases)) [
        | inl e ↦ rw (e, release_all) skip
        | inr (l, e) ↦ elim (Bool-cases (not (str_eq l.cluster cid))) [
          | inl other ↦ rw (e, release_all, other) skip
          | inr own ↦
              rw (e, release_all, own)
                (Returns-bind (reclaim count_attempt l t) _
                  (λ r. IsGivenBack t r.0 × (r.0.leases ≡ del_lease l.lease_id t.leases)) (IsGone j)
                  (reclaim-IsGivenBack t l h
                    (subst (λ k. find_lease k t.leases ≡ some l)
                      (sym (find_lease_id i l t.leases e)) e)
                    count_attempt)
                  λ r k.
                    Returns-bind (release_all count_attempt cid targets r.0)
                      (λ rest. ok (rest.0, r.1 + rest.1)) (IsGone j) (IsGone j)
                      (release_all-absent count_attempt cid j targets r.0 k.0.valid (
                        ap (find_lease j) k.1
                        ∙ find_lease-del_lease-none l.lease_id j t.leases gone))
                      (λ s q. q))
        ]
      ]

  -- A target that the cluster holds is gone afterwards.
  release_all-IsGone :
      (count_attempt : Bool) (cid : String) (j : LeaseId) (m : Lease F) (targets : List LeaseId)
      (t : LeaseTable F)
      → IsValid t
      → any_id j targets ≡ true
      → find_lease j t.leases ≡ some m
      → str_eq m.cluster cid ≡ true
      → Returns (release_all count_attempt cid targets t) (IsGone j)
  unfolding release_all any_id
  release_all-IsGone count_attempt cid j m [] t h among held mine = cc
  release_all-IsGone count_attempt cid j m (i ∷ targets) t h among held mine =
      elim (Bool-cases (same_id i j)) [
        | inl e ↦
            let same = same_id→eq i j e in
            let found : find_lease i t.leases ≡ some m =
              subst (λ k. find_lease k t.leases ≡ some m) (sym same) held in
            let own : not (str_eq m.cluster cid) ≡ false = rw mine refl in
            rw (found, release_all, own)
              (Returns-bind (reclaim count_attempt m t) _
                (λ r. IsGivenBack t r.0 × (r.0.leases ≡ del_lease m.lease_id t.leases)) (IsGone j)
                (reclaim-IsGivenBack t m h
                  (subst (λ k. find_lease k t.leases ≡ some m)
                    (sym (find_lease_id i m t.leases found)) found)
                  count_attempt)
                λ r k.
                  let id : m.lease_id ≡ j = find_lease_id j m t.leases held in
                  Returns-bind (release_all count_attempt cid targets r.0)
                    (λ rest. ok (rest.0, r.1 + rest.1)) (IsGone j) (IsGone j)
                    (release_all-absent count_attempt cid j targets r.0 k.0.valid (
                      ap (find_lease j) k.1
                      ∙ ap (λ x. find_lease j (del_lease x t.leases)) id
                      ∙ find_lease-del_lease_self j t.leases h.unique))
                    (λ s q. q))
        | inr e ↦
            let among' = (rw e at among) in
            let skip = release_all-IsGone count_attempt cid j m targets t h among' held mine in
            elim (Option-cases (find_lease i t.leases)) [
              | inl absent ↦ rw (absent, release_all) skip
              | inr (l, found) ↦ elim (Bool-cases (not (str_eq l.cluster cid))) [
                | inl other ↦ rw (found, release_all, other) skip
                | inr own ↦
                    rw (found, release_all, own)
                      (Returns-bind (reclaim count_attempt l t) _
                        (λ r. IsGivenBack t r.0 × (r.0.leases ≡ del_lease l.lease_id t.leases))
                        (IsGone j)
                        (reclaim-IsGivenBack t l h
                          (subst (λ k. find_lease k t.leases ≡ some l)
                            (sym (find_lease_id i l t.leases found)) found)
                          count_attempt)
                        λ r k.
                          let apart : same_id l.lease_id j ≡ false =
                            ap (λ x. same_id x j) (find_lease_id i l t.leases found) ∙ e in
                          Returns-bind (release_all count_attempt cid targets r.0)
                            (λ rest. ok (rest.0, r.1 + rest.1)) (IsGone j) (IsGone j)
                            (release_all-IsGone count_attempt cid j m targets r.0 k.0.valid among'
                              (ap (find_lease j) k.1
                                ∙ find_lease-del_lease_ne l.lease_id j t.leases apart
                                ∙ held)
                              mine)
                            (λ s q. q))
              ]
            ]
      ]

module _ {F : Type 0} ⦃fl : Floats F⦄ where
  refused :
      (cid incarnation : String) (count_attempt : Bool) (r : ClusterRecord F) (t : LeaseTable F)
      → lookup cid t.clusters ≡ some r
      → is_other incarnation r ≡ true
      → Returns
          (release cid none incarnation count_attempt t)
          (λ a. (a.1 ≡ 0) × (a.0.leases ≡ t.leases))
  unfolding release release_targets
  refused cid incarnation count_attempt r t known other =
      rw (known, release, release_targets, other) (refl, refl)

  -- Without an incarnation every lease of the cluster is released.
  release_everything :
      (cid : String) (j : LeaseId) (r : ClusterRecord F) (l : Lease F) (t : LeaseTable F)
      → IsValid t
      → lookup cid t.clusters ≡ some r
      → find_lease j t.leases ≡ some l
      → str_eq l.cluster cid ≡ true
      → Returns (release cid none "" true t) (IsGone j)
  unfolding release release_targets
  release_everything cid j r l t h known held mine =
      rw (known, release, release_targets)
        (Returns-bind (release_all true cid (leases_of cid t.leases) t) _ (IsGone j) (IsGone j)
          (release_all-IsGone true cid j l (leases_of cid t.leases) t h
            (any_id-leases_of cid j l t.leases held mine) held mine)
          λ a k. elim (Bool-cases (a.1 == 0)) [ inl e ↦ rw e k | inr e ↦ rw e k ])

  or_skip_returned :
      (t : LeaseTable F) (m : Result (LeaseTable F × ℕ)) (P : LeaseTable F → Type 0)
      → Returns m (λ a. P a.0)
      → Returns (or_skip t (m >>= λ a. ok a.0)) P
  or_skip_returned t (ok a) P h = h
  or_skip_returned t (err e) P h = absurd h

  -- A process that asks a durable coordinator under another incarnation to release all leases of a
  -- cluster id is refused: it gets none, and every lease stays. But the request is journalled, and
  -- when this entry is replayed every lease that the cluster holds is given back.
  pub refused_release_replayed :
      (floor clk now : F) (cid incarnation : String) (count_attempt : Bool) (j : LeaseId)
      (r : ClusterRecord F) (l : Lease F) (c : Coordinator F)
      → c.is_durable ≡ true
      → IsValid c.table
      → lookup cid c.table.clusters ≡ some r
      → is_other incarnation r ≡ true
      → find_lease j c.table.leases ≡ some l
      → l.cluster ≡ cid
      → Returns (on_release cid none incarnation count_attempt now c) (λ a.
        (a.0 ≡ given_back 0 a.1.table.epoch)
        × (a.1.table.leases ≡ c.table.leases)
        × ((entry : Op F × F) × (a.1.journal ≡ c.journal ++ (entry ∷ []))
            × Returns (replay floor clk entry c.table) (λ u. find_lease j u.leases ≡ none)))
  unfolding replay on_release
  refused_release_replayed floor clk now cid incarnation count_attempt j r l c durable h known other
        held mine =
      Returns-bind (release cid none incarnation count_attempt c.table) _
        (λ a. (a.1 ≡ 0) × (a.0.leases ≡ c.table.leases)) _
        (refused cid incarnation count_attempt r c.table known other)
        λ a k.
          let replayed =
            or_skip_returned c.table (release cid none "" true c.table)
              (λ u. find_lease j u.leases ≡ none)
              (release_everything cid j r l c.table h known held ((eq_iff l.cluster cid).1 mine)) in
          rw durable (
            ap (λ n. given_back n a.0.epoch) k.0,
            k.1,
            ((releases cid none incarnation, now), refl, replayed),
          )
