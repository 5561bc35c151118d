-- ===== src/Darl/Interval/Add.antt =====
-- `IntervalSet.add` (src/pww/darl/table.py), seen at each position.
use project_world_wide.Prelude.{
  ℕ, suc, ◌+◌, ◌-◌, ◌≤◌, ◌<◌, ◌≡◌, List, [], ◌∷◌, arith, ltb, leb, Returns, min, max, inl, inr,
  lt_cases, Bool-cases, false,
}
use project_world_wide.Darl.Interval.{
  Span, span, IntervalSet, size, split_at, rejoin, bisect_left, Merge, absorb, merge, add,
}
use project_world_wide.Darl.Interval.Cover.{
  holds, cover, sizes, IsAscending, IsPool, IsAscending-weaken, sum_by-rejoin, floor_of,
  IsAscending-after, IsAscending-rejoin, rejoin-split_at, IsSplit, bisect_left-IsSplit,
}

-- What merging to the right has done, seen at position `p`.
abbrev IsAbsorbed : ℕ → Span → ℕ → List Span → List Span → Merge → Type 0
IsAbsorbed p r removed before after m =
    (m.before ≡ before)
    × (m.range.lo ≡ r.lo)
    × IsAscending r.lo (m.range ∷ m.after)
    × (holds p m.range + cover p m.after ≡ holds p r + cover p after)
    × (size m.range + removed ≡ m.removed + size r)
    × (sizes m.after + m.removed ≡ sizes after + removed)

absorb-IsAbsorbed :
    (p : ℕ) (r : Span) (removed : ℕ) (before after : List Span)
    → r.lo < r.hi
    → IsAscending r.hi after
    → IsAbsorbed p r removed before after (absorb r removed before after)
unfolding absorb
absorb-IsAbsorbed p r removed before [] h k = ground arith
absorb-IsAbsorbed p r removed before (x ∷ after) h k =
    let next =
      absorb-IsAbsorbed p (span r.lo (max r.hi x.hi)) (removed + size x) before after (omega arith)
        (IsAscending-weaken (max r.hi x.hi) (suc x.hi) after (omega arith) k.2) in
    ground (arith, next)

abbrev IsMerged : ℕ → Span → List Span → Merge → Type 0
IsMerged p r old m =
    IsAscending 0 (rejoin m.before (m.range ∷ m.after))
    × (cover p (rejoin m.before (m.range ∷ m.after)) ≡ cover p old + holds p r)
    × (sizes (rejoin m.before (m.range ∷ m.after)) ≡ sizes old + size r)
    × (size m.range ≡ m.removed + size r)

-- No position of the range is free.
abbrev pub IsClear : Span → List Span → Type 0
IsClear r xs = (p : ℕ) → r.lo ≤ p → p < r.hi → cover p xs ≡ 0

module _ (p : ℕ) (r : Span) (nonempty : r.lo < r.hi) where
  after_range :
      (b : ℕ) (after : List Span)
      → IsAscending b after
      → IsSplit r.lo ([], after)
      → IsClear r after
      → IsAscending r.hi after
  after_range b [] h k clear = tt
  after_range b (y ∷ after) h k clear = elim (lt_cases y.lo r.hi) [
    | inl overlap ↦ absurd (ground (arith, clear y.lo k overlap))
    | inr apart ↦ (apart, h.1, h.2)
  ]

  merge_after :
      (before after : List Span)
      → IsAscending 0 (rejoin before after)
      → floor_of 0 before ≤ r.lo
      → IsAscending r.hi after
      → IsMerged p r (rejoin before after) (absorb r 0 before after)
  merge_after before after h low k =
      let m = absorb r 0 before after in
      let q = absorb-IsAbsorbed p r 0 before after nonempty k in
      rw q.0 (
        IsAscending-rejoin 0 before after (m.range ∷ m.after) h
            (IsAscending-weaken (floor_of 0 before) r.lo (m.range ∷ m.after) low q.2),
        omega (
          arith,
          q,
          sum_by-rejoin (holds p) before (m.range ∷ m.after),
          sum_by-rejoin (holds p) before after,
        ),
        omega (
          arith,
          q,
          sum_by-rejoin size before (m.range ∷ m.after),
          sum_by-rejoin size before after,
        ),
        omega (arith, q),
      )

  -- The interval before the range ends where the range begins: the two are joined first.
  merge_before :
      (x : Span) (before after : List Span)
      → IsAscending 0 (rejoin (x ∷ before) after)
      → x.hi ≡ r.lo
      → IsAscending r.hi after
      → IsMerged p r
          (rejoin (x ∷ before) after)
          (absorb (span (min r.lo x.lo) (max r.hi x.hi)) (size x) before after)
  merge_before x before after h touch k =
      let joined = span (min r.lo x.lo) (max r.hi x.hi) in
      let m = absorb joined (size x) before after in
      let old = IsAscending-after 0 before (x ∷ after) (unfold rejoin in h) in
      let k' = IsAscending-weaken joined.hi r.hi after (omega arith) k in
      let q = absorb-IsAbsorbed p joined (size x) before after (omega arith) k' in
      rw q.0 (
        IsAscending-rejoin 0 before (x ∷ after) (m.range ∷ m.after) (unfold rejoin in h) (
            IsAscending-weaken (floor_of 0 before) joined.lo (m.range ∷ m.after) (omega arith) q.2),
        ground (
          arith,
          q,
          sum_by-rejoin (holds p) before (m.range ∷ m.after),
          sum_by-rejoin (holds p) (x ∷ before) after,
        ),
        ground (
          arith,
          q,
          sum_by-rejoin size before (m.range ∷ m.after),
          sum_by-rejoin size (x ∷ before) after,
        ),
        omega (arith, q),
      )

  IsSplit-after :
      (before after : List Span) → IsSplit r.lo (before, after) → IsSplit r.lo ([], after)
  IsSplit-after [] after h = h
  IsSplit-after (x ∷ before) [] h = tt
  IsSplit-after (x ∷ before) (y ∷ after) h = h.1

  split_before :
      (x : Span) (before after : List Span) → IsSplit r.lo (x ∷ before, after) → x.lo < r.lo
  split_before x before [] h = h
  split_before x before (y ∷ after) h = h.0

  merge-IsMerged :
      (before after : List Span)
      → IsAscending 0 (rejoin before after)
      → IsSplit r.lo (before, after)
      → IsClear r (rejoin before after)
      → IsMerged p r (rejoin before after) (merge r (before, after))
  unfolding merge rejoin
  merge-IsMerged [] after h k clear = merge_after [] after h (omega arith) (
      after_range 0 after h k
        (λ q a b. ground (arith, clear q a b, sum_by-rejoin (holds q) [] after)))
  merge-IsMerged (x ∷ before) after h k clear =
      let low = split_before x before after k in
      let k' =
        after_range (suc x.hi) after (IsAscending-after 0 (x ∷ before) after h)
          (IsSplit-after (x ∷ before) after k)
          (λ q a b. omega (arith, clear q a b, sum_by-rejoin (holds q) (x ∷ before) after)) in
      elim (Bool-cases (leb r.lo x.hi)) [
        | inl near ↦ rw near (
            merge_before x before after h
              (ground (arith, clear r.lo, sum_by-rejoin (holds r.lo) (x ∷ before) after)) k')
        | inr far ↦ rw far (merge_after (x ∷ before) after h (ground arith) k')
      ]

  joined-IsMerged :
      (xs : List Span)
      → IsAscending 0 xs
      → IsClear r xs
      → IsMerged p r xs (merge r (split_at [] (bisect_left xs r.lo) xs))
  joined-IsMerged xs h clear =
      let parts = split_at [] (bisect_left xs r.lo) xs in
      let e : rejoin parts.0 parts.1 ≡ xs =
        unfold rejoin in rejoin-split_at [] xs (bisect_left xs r.lo) in
      rw e at (merge-IsMerged parts.0 parts.1 (rw e h) (bisect_left-IsSplit xs r.lo) (rw e clear))

-- The pool `s'` is in order, and has the positions of `s` and of the range, each as often.
abbrev pub IsAdded : IntervalSet → Span → IntervalSet → Type 0
IsAdded s r s' =
    IsPool s'
    × ((p : ℕ) → cover p s'.intervals ≡ cover p s.intervals + holds p r)
    × (s'.total ≡ s.total + size r)

-- Adding a range that is not free succeeds: no double free is reported, the pool stays in order,
-- and exactly the positions of the range have become free.
pub add-IsAdded :
    (s : IntervalSet) (start end : ℕ)
    → IsPool s
    → IsClear (span start end) s.intervals
    → Returns (add s start end) (IsAdded s (span start end))
unfolding add
add-IsAdded s start end h clear = elim (Bool-cases (leb end start)) [
  | inl none_added ↦ rw none_added (h, (λ p. ground arith), ground arith)
  | inr some_added ↦
      let r = span start end in
      let m = merge r (split_at [] (bisect_left s.intervals start) s.intervals) in
      let merged = λ (p : ℕ). joined-IsMerged p r (ground arith) s.intervals h.ascending clear in
      let fits : ltb (size m.range) (m.removed + (end - start)) ≡ false =
        ground (arith, (merged 0).3) in
      rw (some_added, fits)
        (
          record { ascending = (merged 0).0; counted = omega (arith, merged 0, h.counted) },
          (λ p. (merged p).1),
          omega (arith, merged 0),
        )
]
