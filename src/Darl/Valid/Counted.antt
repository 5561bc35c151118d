-- ===== src/Darl/Valid/Counted.antt =====
-- The loops of `verify` (src/pww/darl/table.py): what its counts and its covered positions are.
use project_world_wide.Prelude.{
  ℕ, zero, suc, ◌+◌, ◌-◌, ◌≤◌, ◌<◌, ◌≡◌, refl, Bool, true, false, ◌&&◌, ◌==◌, inl, inr, ◌⊎◌, List,
  [], ◌∷◌, arith, ltb, within, count_of, All, Bool-cases, assertion_error, Outcome, Outcome-map,
  Outcome-bind, ap,
}
use project_world_wide.Prelude.Sums.{sum_to}
use project_world_wide.Darl.Lease.{
  BlockState, unassigned, leased, committed, quarantined, in_state, Lease,
}
use project_world_wide.Darl.Table.{LeaseTable}
use project_world_wide.Darl.Table.Verify.{
  Counts, count_block, count_blocks, cover_at, cover_positions, cover_leases, is_ordered,
  sum_covered, check_totals,
}
use project_world_wide.Darl.Blocks.{count_state, count_state_same, lease_cover}
use project_world_wide.Darl.Valid.{credited}

-- A lease of the epoch with its watermarks in order.
abbrev pub IsInOrder : {F : Type 0} → ℕ → ℕ → Lease F → Type 0
IsInOrder n epoch l =
    (l.epoch ≡ epoch) × (l.start ≤ l.committed_end) × (l.committed_end ≤ l.end) × (l.end ≤ n)

-- The three invariants of the source: every block is in one state, the leases hold every leased
-- block exactly once and no other, and the counters agree.
pub record IsVerified {F : Type 0} (t : LeaseTable F) : Type 0 where
  pub ordered : All (IsInOrder t.config.num_blocks t.epoch) t.leases
  pub leased_at :
      (p : ℕ)
      → lease_cover p t.leases ≡ count_of (ltb p t.config.num_blocks && in_state (t.state p) leased)
  pub free_count : t.free.total ≡ count_state unassigned t.state t.config.num_blocks
  pub committed_count : t.committed ≡ count_state committed t.state t.config.num_blocks
  pub quarantined_count : t.quarantined ≡ count_state quarantined t.state t.config.num_blocks
  pub credit : t.committed ≤ credited t.clusters

count_state-first :
    (s : BlockState) (f : ℕ → BlockState) (n : ℕ)
    → count_state s f (suc n) ≡ count_of (in_state (f 0) s) + count_state s (λ q. f (suc q)) n
unfolding count_state
count_state-first s f zero = omega arith
count_state-first s f (suc n) = let rest = count_state-first s f n in omega (arith, rest)

-- The counts `c` after the states of `n` positions, counted by `f`.
abbrev pub AreCounted : Counts → Counts → (BlockState → ℕ) → Type 0
AreCounted c c' f =
    (c'.of_unassigned ≡ c.of_unassigned + f unassigned)
    × (c'.of_leased ≡ c.of_leased + f leased)
    × (c'.of_committed ≡ c.of_committed + f committed)
    × (c'.of_quarantined ≡ c.of_quarantined + f quarantined)

count_block-AreCounted :
    (s : BlockState) (c : Counts) → AreCounted c (count_block s c) (λ k. count_of (in_state s k))
count_block-AreCounted unassigned c = omega arith
count_block-AreCounted leased c = omega arith
count_block-AreCounted committed c = omega arith
count_block-AreCounted quarantined c = omega arith

pub count_blocks-AreCounted :
    (n position : ℕ) (state : ℕ → BlockState) (c : Counts)
    → AreCounted c
        (count_blocks n position state c)
        (λ s. count_state s (λ q. state (position + q)) n)
unfolding count_blocks
count_blocks-AreCounted zero position state c = unfold count_state in omega arith
count_blocks-AreCounted (suc n) position state c =
    let one = count_block-AreCounted (state position) c in
    let rest = count_blocks-AreCounted n (position + 1) state (count_block (state position) c) in
    (
      omega (arith, one, rest, later unassigned),
      omega (arith, one, rest, later leased),
      omega (arith, one, rest, later committed),
      omega (arith, one, rest, later quarantined),
    )
  where
    later :
        (s : BlockState)
        → count_state s (λ q. state (position + q)) (suc n)
          ≡ count_of (in_state (state position) s) + count_state s (λ q. state (position + 1 + q)) n
    later s =
        let here : position + 0 ≡ position = omega arith in
        let first = count_state-first s (λ q. state (position + q)) n in
        let shift =
          count_state_same s (λ q. state (position + suc q)) (λ q. state (position + 1 + q)) n
            (λ q k.
              let e : position + 1 + q ≡ position + suc q = omega arith in
              ap (λ r. in_state (state r) s) e) in
        let first' = (rw here at first) in omega (arith, first', shift)

-- The positions of one lease: each is marked once, and all of them are leased.
cover_positions_outcome :
    (n position : ℕ) (state : ℕ → BlockState) (covered : ℕ → Bool)
    → Outcome
        (cover_positions n position state covered)
        (λ c.
          (q : ℕ)
          → (count_of (c q) ≡ count_of (covered q) + count_of (within position (position + n) q))
            × (within position (position + n) q ≡ true → in_state (state q) leased ≡ true))
        (λ e.
          (e ≡ assertion_error)
          × ((q : ℕ) × (within position (position + n) q ≡ true)
              × ((covered q ≡ true) ⊎ (in_state (state q) leased ≡ false))))
unfolding cover_positions
cover_positions_outcome zero position state covered =
    λ q. (ground arith, λ w. absurd (ground arith))
cover_positions_outcome (suc n) position state covered = elim (Bool-cases (covered position)) [
  | inl twice ↦ rw twice (refl, (position, ground arith, inl twice))
  | inr once ↦ elim (Bool-cases (in_state (state position) leased)) [
    | inr other ↦ rw (once, other) (refl, (position, ground arith, inr other))
    | inl same ↦
        rw (once, same)
          (Outcome-map (cover_positions n (position + 1) state (cover_at position covered)) _ _ _ _
            (λ c h q. (
              (let k = h q in ground (arith, k)),
              λ w. elim (Bool-cases (q == position)) [
                | inl here ↦ let e : q ≡ position = ground arith in rw e same
                | inr later ↦ (h q).1 (ground arith)
              ],
            ))
            (λ e h.
              let (q, w, why) = h.1 in
              (h.0, (q, ground arith, elim why [ inl c ↦ inl (ground arith) | inr o ↦ inr o ])))
            (cover_positions_outcome n (position + 1) state (cover_at position covered)))
  ]
]

module _ {F : Type 0} where
  pub cover_leases_outcome :
      (n epoch : ℕ) (state : ℕ → BlockState) (ls : List (Lease F)) (covered : ℕ → Bool)
      → Outcome
          (cover_leases n epoch state ls covered)
          (λ c.
            All (IsInOrder n epoch) ls
            × ((q : ℕ)
                → (count_of (c q) ≡ count_of (covered q) + lease_cover q ls)
                  × (0 < lease_cover q ls → in_state (state q) leased ≡ true)))
          (λ e.
            (e ≡ assertion_error)
            × (All (IsInOrder n epoch) ls
                → ((q : ℕ)
                    → count_of (covered q) + lease_cover q ls
                      ≤ count_of (in_state (state q) leased))
                → ⊥))
  unfolding cover_leases
  cover_leases_outcome n epoch state [] covered =
      (tt, λ q. (omega arith, λ k. absurd (omega arith)))
  cover_leases_outcome n epoch state (l ∷ ls) covered = elim (Bool-cases (l.epoch == epoch)) [
    | inr old ↦ rw old (refl, λ a _. ground (arith, a))
    | inl current ↦ elim (Bool-cases (is_ordered n l)) [
      | inr inverted ↦ rw (current, inverted) (refl, λ a _. ground (arith, a))
      | inl ordered ↦
          rw (current, ordered)
            (let k = l.end - l.committed_end in
              let span_end : l.committed_end + k ≡ l.end = ground arith in
              Outcome-bind (cover_positions k l.committed_end state covered) _ _ _ _ _
                (rw span_end at (cover_positions_outcome k l.committed_end state covered))
                (λ c h.
                  Outcome-map (cover_leases n epoch state ls c) _ _ _ _
                    (λ c' h'. (
                      (ground arith, h'.0),
                      λ q. (
                        (let one = h q in let rest = h'.1 q in omega (arith, one, rest)),
                        λ some_lease. elim (Bool-cases (within l.committed_end l.end q)) [
                          | inl here ↦ (h q).1 here
                          | inr elsewhere ↦ (h'.1 q).1 (ground arith)
                        ],
                      ),
                    ))
                    (λ e h'. (
                      h'.0,
                      λ a once.
                          h'.1 a.1
                            (λ q. let one = h q in let all = once q in omega (arith, one, all)),
                    ))
                    (cover_leases_outcome n epoch state ls c))
                (λ e h. (
                  h.0,
                  λ a once.
                      let (q, w, why) = h.1 in
                      let all = once q in
                      elim why [
                        | inl c ↦ ground (arith, w, c, all)
                        | inr o ↦ ground (arith, w, o, all)
                      ],
                )))
    ]
  ]

  -- The totals that `verify` compares.
  abbrev pub AreTotals : Counts → ℕ → LeaseTable F → Type 0
  AreTotals c covered t =
      (covered ≡ c.of_leased)
      × (t.free.total ≡ c.of_unassigned)
      × (c.of_committed ≡ t.committed)
      × (c.of_quarantined ≡ t.quarantined)
      × (t.committed ≤ credited t.clusters)
      × (c.of_unassigned + c.of_leased + c.of_committed + c.of_quarantined ≡ t.config.num_blocks)

  pub check_totals_outcome :
      (c : Counts) (covered : ℕ) (t : LeaseTable F)
      → Outcome
          (check_totals c covered t)
          (λ c'. (c' ≡ c) × AreTotals c covered t)
          (λ e. (e ≡ assertion_error) × (AreTotals c covered t → ⊥))
  unfolding check_totals
  check_totals_outcome c covered t = elim (Bool-cases (covered == c.of_leased)) [
    | inr e ↦ rw e (refl, λ a. ground (arith, a))
    | inl e1 ↦ elim (Bool-cases (t.free.total == c.of_unassigned)) [
      | inr e ↦ rw (e1, e) (refl, λ a. ground (arith, a))
      | inl e2 ↦ elim (Bool-cases (c.of_committed == t.committed)) [
        | inr e ↦ rw (e1, e2, e) (refl, λ a. ground (arith, a))
        | inl e3 ↦ elim (Bool-cases (c.of_quarantined == t.quarantined)) [
          | inr e ↦ rw (e1, e2, e3, e) (refl, λ a. ground (arith, a))
          | inl e4 ↦ elim (Bool-cases (ltb (credited t.clusters) t.committed)) [
            | inl e ↦ rw (e1, e2, e3, e4, e) (refl, λ a. ground (arith, a))
            | inr e5 ↦
                elim (Bool-cases (
                  c.of_unassigned + c.of_leased + c.of_committed + c.of_quarantined
                  == t.config.num_blocks)) [
                    | inr e ↦ rw (e1, e2, e3, e4, e5, e) (refl, λ a. ground (arith, a))
                    | inl e6 ↦
                        rw (e1, e2, e3, e4, e5, e6)
                          (
                            refl,
                            (
                              ground arith,
                              ground arith,
                              ground arith,
                              ground arith,
                              ground arith,
                              ground arith,
                            ),
                          )
                  ]
          ]
        ]
      ]
    ]
  ]

  pub lease_cover_beyond :
      (n epoch p : ℕ) (ls : List (Lease F))
      → All (IsInOrder n epoch) ls
      → n ≤ p
      → lease_cover p ls ≡ 0
  lease_cover_beyond n epoch p [] h k = refl
  lease_cover_beyond n epoch p (l ∷ ls) h k =
      ground (arith, h.0, lease_cover_beyond n epoch p ls h.1 k)

pub sum_covered_lem : (n : ℕ) (c : ℕ → Bool) → sum_covered n c ≡ sum_to (λ p. count_of (c p)) n
unfolding sum_covered sum_to
sum_covered_lem zero c = refl
sum_covered_lem (suc n) c = let rest = sum_covered_lem n c in omega (arith, rest)
