-- ===== src/Darl/Blocks.antt =====
-- The block map of the lease table (src/pww/darl/table.py): which blocks are in which state, and
-- how the free pool, the leases and the two counters must agree with it.
use project_world_wide.Prelude.{
  ℕ, zero, suc, ◌+◌, ◌-◌, ◌≤◌, ◌<◌, ◌≡◌, refl, true, false, ◌&&◌, none, some, List, [], ◌∷◌, ltb,
  within, count_of, sum_by, All, min, arith, ap, Bool-cases, inl, inr, ◌⊎◌, subst, sym, ◌∙◌,
}
use project_world_wide.Darl.Interval.{IntervalSet}
use project_world_wide.Darl.Interval.Cover.{cover, IsPool}
use project_world_wide.Darl.Lease.{
  BlockState, unassigned, leased, committed, quarantined, in_state, Lease, LeaseId, same_id,
  find_lease, del_lease, set_lease, same_id→eq,
}
use project_world_wide.Darl.Table.{fill}

-- The number of blocks below `n` in a state.
unfoldable pub count_state : BlockState → (ℕ → BlockState) → ℕ → ℕ
count_state s f zero = 0
count_state s f (suc n) = count_of (in_state (f n) s) + count_state s f n

pub count_state_same :
    (s : BlockState) (f g : ℕ → BlockState) (n : ℕ)
    → ((p : ℕ) → p < n → in_state (g p) s ≡ in_state (f p) s)
    → count_state s g n ≡ count_state s f n
unfolding count_state
count_state_same s f g zero h = refl
count_state_same s f g (suc n) h =
    let rest = count_state_same s f g n (λ p k. h p (omega arith)) in
    let here = ap count_of (h n (omega arith)) in omega (arith, rest, here)

pub in_state_refl : (s : BlockState) → in_state s s ≡ true
in_state_refl unassigned = refl
in_state_refl leased = refl
in_state_refl committed = refl
in_state_refl quarantined = refl

-- A fill adds the blocks that were not in its state before.
pub count_state-fill :
    (s : BlockState) (a b : ℕ) (f : ℕ → BlockState) (n : ℕ)
    → a ≤ b
    → ((p : ℕ) → a ≤ p → p < b → in_state (f p) s ≡ false)
    → count_state s (fill a b s f) n ≡ count_state s f n + (min b n - min a n)
unfolding count_state
count_state-fill s a b f zero h k = omega arith
count_state-fill s a b f (suc n) h k =
    let rest = count_state-fill s a b f n h k in
    elim (Bool-cases (within a b n)) [
      | inl inside ↦
          let low : a ≤ n = ground arith in
          let high : n < b = ground arith in
          rw (inside, in_state_refl s, k n low high) (omega (arith, rest))
      | inr outside ↦
          let apart : (n < a) ⊎ (b ≤ n) = ground arith in rw outside (omega (arith, rest, apart))
    ]

pub same_id_sym : (a b : LeaseId) → same_id a b ≡ same_id b a
same_id_sym a b = elim (Bool-cases (same_id a b)) [
  | inl e ↦ rw (same_id→eq a b e)
  | inr e ↦ elim (Bool-cases (same_id b a)) [
    | inl e' ↦ rw (same_id→eq b a e')
    | inr e' ↦ e ∙ sym e'
  ]
]

module _ {F : Type 0} where
  abbrev pub lease_holds : ℕ → Lease F → ℕ
  lease_holds p l = count_of (within l.committed_end l.end p)

  -- The number of leases that have position `p` outstanding.
  abbrev pub lease_cover : ℕ → List (Lease F) → ℕ
  lease_cover p = sum_by (lease_holds p)

  pub sum_by-del_lease :
      (f : Lease F → ℕ) (i : LeaseId) (l : Lease F) (ls : List (Lease F))
      → find_lease i ls ≡ some l
      → sum_by f (del_lease i ls) + f l ≡ sum_by f ls
  unfolding find_lease del_lease
  sum_by-del_lease f i l [] h = ground arith
  sum_by-del_lease f i l (m ∷ ls) h = ground (arith, sum_by-del_lease f i l ls)

  pub sum_by-set_lease :
      (f : Lease F → ℕ) (n l : Lease F) (ls : List (Lease F))
      → find_lease n.lease_id ls ≡ some l
      → sum_by f (set_lease n ls) + f l ≡ sum_by f ls + f n
  unfolding find_lease set_lease
  sum_by-set_lease f n l [] h = ground arith
  sum_by-set_lease f n l (m ∷ ls) h = ground (arith, sum_by-set_lease f n l ls)

  pub sum_by-set_lease_new :
      (f : Lease F → ℕ) (n : Lease F) (ls : List (Lease F))
      → find_lease n.lease_id ls ≡ none
      → sum_by f (set_lease n ls) ≡ sum_by f ls + f n
  unfolding find_lease set_lease
  sum_by-set_lease_new f n [] h = omega arith
  sum_by-set_lease_new f n (m ∷ ls) h = ground (arith, sum_by-set_lease_new f n ls)

  pub All-find_lease :
      (P : Lease F → Type 0) (i : LeaseId) (l : Lease F) (ls : List (Lease F))
      → find_lease i ls ≡ some l
      → All P ls
      → P l
  unfolding find_lease
  All-find_lease P i l [] h a = cc
  All-find_lease P i l (m ∷ ls) h a = elim (Bool-cases (same_id m.lease_id i)) [
    | inl e ↦ let h' = (rw e at h) in let q : m ≡ l = cc h' in subst P q a.0
    | inr e ↦ All-find_lease P i l ls (rw e at h) a.1
  ]

  pub All-del_lease :
      (P : Lease F → Type 0) (i : LeaseId) (ls : List (Lease F)) → All P ls → All P (del_lease i ls)
  unfolding del_lease
  All-del_lease P i [] a = tt
  All-del_lease P i (m ∷ ls) a = elim (Bool-cases (same_id m.lease_id i)) [
    | inl e ↦ rw e a.1
    | inr e ↦ rw e (a.0, All-del_lease P i ls a.1)
  ]

  pub All-set_lease :
      (P : Lease F → Type 0) (n : Lease F) (ls : List (Lease F))
      → P n
      → All P ls
      → All P (set_lease n ls)
  unfolding set_lease
  All-set_lease P n [] h a = (h, tt)
  All-set_lease P n (m ∷ ls) h a = elim (Bool-cases (same_id m.lease_id n.lease_id)) [
    | inl e ↦ rw e (h, a.1)
    | inr e ↦ rw e (a.0, All-set_lease P n ls h a.1)
  ]

  -- No two leases have the same id.
  abbrev pub IsUnique : List (Lease F) → Type 0
  IsUnique [] = Unit {0}
  IsUnique (l ∷ ls) = (find_lease l.lease_id ls ≡ none) × IsUnique ls

  pub find_lease_id :
      (i : LeaseId) (l : Lease F) (ls : List (Lease F)) → find_lease i ls ≡ some l → l.lease_id ≡ i
  unfolding find_lease
  find_lease_id i l [] h = cc
  find_lease_id i l (m ∷ ls) h = elim (Bool-cases (same_id m.lease_id i)) [
    | inl e ↦
        let h' = (rw e at h) in
        let q : m ≡ l = cc h' in
        sym (ap (λ (x : Lease F). x.lease_id) q) ∙ same_id→eq m.lease_id i e
    | inr e ↦ find_lease_id i l ls (rw e at h)
  ]

  pub find_lease-del_lease-none :
      (i j : LeaseId) (ls : List (Lease F))
      → find_lease j ls ≡ none
      → find_lease j (del_lease i ls) ≡ none
  unfolding find_lease del_lease
  find_lease-del_lease-none i j [] h = refl
  find_lease-del_lease-none i j (m ∷ ls) h = ground (arith, find_lease-del_lease-none i j ls)

  pub find_lease-del_lease_ne :
      (i j : LeaseId) (ls : List (Lease F))
      → same_id i j ≡ false
      → find_lease j (del_lease i ls) ≡ find_lease j ls
  unfolding find_lease del_lease
  find_lease-del_lease_ne i j [] h = refl
  find_lease-del_lease_ne i j (m ∷ ls) h = elim (Bool-cases (same_id m.lease_id i)) [
    | inl e ↦
        let q = same_id→eq m.lease_id i e in
        let other : same_id m.lease_id j ≡ false = rw q h in rw (e, other)
    | inr e ↦ ground (arith, find_lease-del_lease_ne i j ls h)
  ]

  pub find_lease-set_lease-none :
      (n : Lease F) (j : LeaseId) (ls : List (Lease F))
      → same_id n.lease_id j ≡ false
      → find_lease j ls ≡ none
      → find_lease j (set_lease n ls) ≡ none
  unfolding find_lease set_lease
  find_lease-set_lease-none n j [] h k = ground arith
  find_lease-set_lease-none n j (m ∷ ls) h k = ground (arith, find_lease-set_lease-none n j ls h)

  pub del_lease-IsUnique :
      (i : LeaseId) (ls : List (Lease F)) → IsUnique ls → IsUnique (del_lease i ls)
  unfolding del_lease
  del_lease-IsUnique i [] h = tt
  del_lease-IsUnique i (m ∷ ls) h = elim (Bool-cases (same_id m.lease_id i)) [
    | inl e ↦ rw e h.1
    | inr e ↦ rw e (find_lease-del_lease-none i m.lease_id ls h.0, del_lease-IsUnique i ls h.1)
  ]

  pub set_lease-IsUnique :
      (n : Lease F) (ls : List (Lease F)) → IsUnique ls → IsUnique (set_lease n ls)
  unfolding set_lease find_lease
  set_lease-IsUnique n [] h = (refl, tt)
  set_lease-IsUnique n (m ∷ ls) h = elim (Bool-cases (same_id m.lease_id n.lease_id)) [
    | inl e ↦ rw e (rw (same_id→eq m.lease_id n.lease_id e) at h.0, h.1)
    | inr e ↦ rw e (
      find_lease-set_lease-none n m.lease_id ls (same_id_sym n.lease_id m.lease_id ∙ e) h.0,
      set_lease-IsUnique n ls h.1,
    )
  ]

-- The pool holds the unassigned blocks, the leases between them the leased ones, each once, and the
-- counters count the others.
pub record IsConsistent {F : Type 0} (n : ℕ) (state : ℕ → BlockState) (free : IntervalSet)
    (leases : List (Lease F)) (done lost : ℕ) : Type 0 where
  pub pool : IsPool free
  pub free_at :
      (p : ℕ) → cover p free.intervals ≡ count_of (ltb p n && in_state (state p) unassigned)
  pub leased_at : (p : ℕ) → lease_cover p leases ≡ count_of (ltb p n && in_state (state p) leased)
  pub committed_count : done ≡ count_state committed state n
  pub quarantined_count : lost ≡ count_state quarantined state n
