-- ===== src/Darl/Valid/Thieves.antt =====
-- The candidates of `_steal` (src/pww/darl/table.py), and its loop over them.
use project_world_wide.Prelude.{
  ℕ, ◌-◌, ◌*◌, ◌≤◌, ◌<◌, ◌≡◌, refl, sym, false, ◌||◌, inl, inr, String, some, List, [], ◌∷◌, All,
  arith, Bool-cases, ap, ltb, leb, str_eq, ◌∙◌, max,
}
use project_world_wide.Darl.Floats.{Floats}
use project_world_wide.Darl.Lease.{
  Lease, LeaseId, find_lease, set_lease, same_id, same_id→eq, same_id_refl,
}
use project_world_wide.Darl.Table.{LeaseTable}
use project_world_wide.Darl.Table.Steal.{
  Candidate, Stealing, candidates, sort_in, sort, cut_at, take_tail, steal_loop, goes_before,
}
use project_world_wide.Darl.Blocks.{same_id_sym, IsUnique}
use project_world_wide.Darl.Valid.GivenBack.{absent_ne}
use project_world_wide.Darl.Valid.Stealing.{IsStealing, take_tail-IsStealing}

-- What the loop that collects candidates has tested.
abbrev pub IsCandidate : {F : Type 0} → ℕ → Candidate F → Type 0
IsCandidate least c =
    (c.available ≡ c.lease.end - max c.lease.progress_end c.lease.committed_end)
    × (least * 2 ≤ c.available)

abbrev pub AreCandidatesOf : {F : Type 0} → List (Lease F) → List (Candidate F) → Type 0
AreCandidatesOf held = All (λ c. find_lease c.lease.lease_id held ≡ some c.lease)

abbrev pub IsOther : {F : Type 0} → Lease F → Candidate F → Type 0
IsOther l c = same_id l.lease_id c.lease.lease_id ≡ false

abbrev pub AreDistinct : {F : Type 0} → List (Candidate F) → Type 0
AreDistinct [] = Unit {0}
AreDistinct (c ∷ cs) = All (IsOther c.lease) cs × AreDistinct cs

module _ {F : Type 0} ⦃fl : Floats F⦄ where
  pub candidates-IsCandidate :
      (cid : String) (t : LeaseTable F) (ls : List (Lease F))
      → All (IsCandidate t.config.steal_min_blocks) (candidates cid t ls)
  unfolding candidates
  candidates-IsCandidate cid t [] = tt
  candidates-IsCandidate cid t (l ∷ ls) =
      let rest = candidates-IsCandidate cid t ls in
      let available = l.end - max l.progress_end l.committed_end in
      elim (Bool-cases (str_eq l.cluster cid || ltb available (t.config.steal_min_blocks * 2))) [
        | inl e ↦ rw e rest
        | inr e ↦ rw e ((refl, ground arith), rest)
      ]

  All-candidates :
      (P : Lease F → Type 0) (cid : String) (t : LeaseTable F) (ls : List (Lease F))
      → All P ls
      → All (λ c. P c.lease) (candidates cid t ls)
  unfolding candidates
  All-candidates P cid t [] a = tt
  All-candidates P cid t (l ∷ ls) a =
      let rest = All-candidates P cid t ls a.1 in
      let available = l.end - max l.progress_end l.committed_end in
      elim (Bool-cases (str_eq l.cluster cid || ltb available (t.config.steal_min_blocks * 2))) [
        | inl e ↦ rw e rest
        | inr e ↦ rw e (a.0, rest)
      ]

  AreCandidatesOf-cons :
      (l : Lease F) (held : List (Lease F)) (cs : List (Candidate F))
      → All (IsOther l) cs
      → AreCandidatesOf held cs
      → AreCandidatesOf (l ∷ held) cs
  unfolding find_lease
  AreCandidatesOf-cons l held [] a h = tt
  AreCandidatesOf-cons l held (c ∷ cs) a h = (rw a.0 h.0, AreCandidatesOf-cons l held cs a.1 h.1)

  pub candidates-AreDistinct :
      (cid : String) (t : LeaseTable F) (ls : List (Lease F))
      → IsUnique ls
      → AreCandidatesOf ls (candidates cid t ls) × AreDistinct (candidates cid t ls)
  unfolding candidates find_lease
  candidates-AreDistinct cid t [] u = (tt, tt)
  candidates-AreDistinct cid t (l ∷ ls) u =
      let rest = candidates-AreDistinct cid t ls u.1 in
      let others =
        All-candidates (λ m. same_id l.lease_id m.lease_id ≡ false) cid t ls (absent_ne l ls u.0) in
      let later = AreCandidatesOf-cons l ls (candidates cid t ls) others rest.0 in
      let available = l.end - max l.progress_end l.committed_end in
      elim (Bool-cases (str_eq l.cluster cid || ltb available (t.config.steal_min_blocks * 2))) [
        | inl e ↦ rw e (later, rest.1)
        | inr e ↦ rw e ((rw (same_id_refl l.lease_id) refl, later), (others, rest.1))
      ]

  All-sort_in :
      (P : Candidate F → Type 0) (c : Candidate F) (ds : List (Candidate F))
      → P c
      → All P ds
      → All P (sort_in c ds)
  unfolding sort_in
  All-sort_in P c [] h a = (h, tt)
  All-sort_in P c (d ∷ ds) h a = elim (Bool-cases (goes_before d c)) [
    | inl e ↦ rw e (a.0, All-sort_in P c ds h a.1)
    | inr e ↦ rw e (h, a)
  ]

  sort_in-AreDistinct :
      (c : Candidate F) (ds : List (Candidate F))
      → All (IsOther c.lease) ds
      → AreDistinct ds
      → AreDistinct (sort_in c ds)
  unfolding sort_in
  sort_in-AreDistinct c [] a h = (tt, tt)
  sort_in-AreDistinct c (d ∷ ds) a h = elim (Bool-cases (goes_before d c)) [
    | inl e ↦ rw e (
      All-sort_in (IsOther d.lease) c ds (same_id_sym d.lease.lease_id c.lease.lease_id ∙ a.0) h.0,
      sort_in-AreDistinct c ds a.1 h.1,
    )
    | inr e ↦ rw e (a, h)
  ]

  pub All-sort : (P : Candidate F → Type 0) (cs : List (Candidate F)) → All P cs → All P (sort cs)
  unfolding sort
  All-sort P [] a = tt
  All-sort P (c ∷ cs) a = All-sort_in P c (sort cs) a.0 (All-sort P cs a.1)

  pub sort-AreDistinct : (cs : List (Candidate F)) → AreDistinct cs → AreDistinct (sort cs)
  unfolding sort
  sort-AreDistinct [] h = tt
  sort-AreDistinct (c ∷ cs) h =
      sort_in-AreDistinct c (sort cs) (All-sort (IsOther c.lease) cs h.0) (sort-AreDistinct cs h.1)

  find_lease-set_lease_ne :
      (n : Lease F) (j : LeaseId) (ls : List (Lease F))
      → same_id n.lease_id j ≡ false
      → find_lease j (set_lease n ls) ≡ find_lease j ls
  unfolding find_lease set_lease
  find_lease-set_lease_ne n j [] h = rw h refl
  find_lease-set_lease_ne n j (m ∷ ls) h = elim (Bool-cases (same_id m.lease_id n.lease_id)) [
    | inl e ↦
        let other : same_id m.lease_id j ≡ false =
          ap (λ i. same_id i j) (same_id→eq m.lease_id n.lease_id e) ∙ h in
        rw (e, h, other) refl
    | inr e ↦ ground (arith, find_lease-set_lease_ne n j ls h)
  ]

  AreCandidatesOf-set_lease :
      (n : Lease F) (held : List (Lease F)) (cs : List (Candidate F))
      → All (λ c. same_id n.lease_id c.lease.lease_id ≡ false) cs
      → AreCandidatesOf held cs
      → AreCandidatesOf (set_lease n held) cs
  AreCandidatesOf-set_lease n held [] a h = tt
  AreCandidatesOf-set_lease n held (c ∷ cs) a h = (
    find_lease-set_lease_ne n c.lease.lease_id held a.0 ∙ h.0,
    AreCandidatesOf-set_lease n held cs a.1 h.1,
  )

  cut_at_bounds :
      (least blocks : ℕ) (c : Candidate F)
      → 0 < least
      → IsCandidate least c
      → max c.lease.progress_end c.lease.committed_end < cut_at least blocks c
  unfolding cut_at
  cut_at_bounds least blocks c h k = omega arith

  pub steal_loop-IsStealing :
      (cid : String) (t : LeaseTable F) (blocks : ℕ) (cs : List (Candidate F)) (s : Stealing F)
      → 0 < t.config.steal_min_blocks
      → IsStealing cid t s
      → AreCandidatesOf s.table.leases cs
      → AreDistinct cs
      → All (IsCandidate s.table.config.steal_min_blocks) cs
      → IsStealing cid t (steal_loop cid blocks cs s)
  unfolding steal_loop
  steal_loop-IsStealing cid t blocks [] s proper h held distinct tested = h
  steal_loop-IsStealing cid t blocks (c ∷ cs) s proper h held distinct tested =
      let least = s.table.config.steal_min_blocks in
      let same : least ≡ t.config.steal_min_blocks = ap (λ k. k.steal_min_blocks) h.1 in
      let cut = cut_at least (blocks - s.taken) c in
      elim (Bool-cases (leb blocks s.taken)) [
        | inl enough ↦ rw enough h
        | inr more ↦ elim (Bool-cases (ltb (c.lease.end - cut) least)) [
          | inl small ↦
              rw (more, small)
                (steal_loop-IsStealing cid t blocks cs s proper h held.1 distinct.1 tested.1)
          | inr large ↦
              rw (more, large)
                (let u = take_tail cid c.lease cut s in
                  let taken =
                    take_tail-IsStealing cid t c.lease cut s h held.0
                      (cut_at_bounds least (blocks - s.taken) c (omega arith) tested.0)
                      (ground arith) in
                  let config : u.table.config ≡ s.table.config = taken.0.1 ∙ sym h.1 in
                  steal_loop-IsStealing cid t blocks cs u proper taken.0
                    (rw taken.1 (AreCandidatesOf-set_lease _ s.table.leases cs distinct.0 held.1))
                    distinct.1 (rw config tested.1))
        ]
      ]
