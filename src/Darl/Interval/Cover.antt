-- ===== src/Darl/Interval/Cover.antt =====
-- What an interval set means: how many of its intervals hold a position, and when it is in order.
use project_world_wide.Prelude.{
  ℕ, zero, suc, ◌+◌, ◌≤◌, ◌<◌, ◌≡◌, refl, List, [], ◌∷◌, arith, sum_by, within, count_of,
}
use project_world_wide.Darl.Interval.{Span, IntervalSet, size, split_at, rejoin, bisect_left}

abbrev pub holds : ℕ → Span → ℕ
holds p x = count_of (within x.lo x.hi p)

-- The number of intervals that hold position `p`.
abbrev pub cover : ℕ → List Span → ℕ
cover p = sum_by (holds p)

abbrev pub sizes : List Span → ℕ
sizes = sum_by size

-- Not empty, ascending, and with a gap between neighbours, all of it from `b` on.
abbrev pub IsAscending : ℕ → List Span → Type 0
IsAscending b [] = Unit {0}
IsAscending b (x ∷ xs) = (b ≤ x.lo) × (x.lo < x.hi) × IsAscending (suc x.hi) xs

pub record IsPool (s : IntervalSet) : Type 0 where
  pub ascending : IsAscending 0 s.intervals
  pub counted : s.total ≡ sizes s.intervals

pub cover-below : (b p : ℕ) (xs : List Span) → IsAscending b xs → p < b → cover p xs ≡ 0
cover-below b p [] h k = refl
cover-below b p (x ∷ xs) h k = ground (arith, cover-below (suc x.hi) p xs h.2)

pub IsAscending-weaken : (a b : ℕ) (xs : List Span) → a ≤ b → IsAscending b xs → IsAscending a xs
IsAscending-weaken a b [] k h = tt
IsAscending-weaken a b (x ∷ xs) k h = (omega arith, h.1, h.2)

pub cover-le-one : (b p : ℕ) (xs : List Span) → IsAscending b xs → cover p xs ≤ 1
cover-le-one b p [] h = omega arith
cover-le-one b p (x ∷ xs) h =
    ground (arith, cover-le-one (suc x.hi) p xs h.2, cover-below (suc x.hi) p xs h.2)

-- Lists that were split, with the part before the split in reverse.
pub sum_by-rejoin :
    (f : Span → ℕ) (before after : List Span)
    → sum_by f (rejoin before after) ≡ sum_by f before + sum_by f after
unfolding rejoin
sum_by-rejoin f [] after = omega arith
sum_by-rejoin f (x ∷ before) after = omega (arith, sum_by-rejoin f before (x ∷ after))

-- The least position after the intervals before the split.
abbrev pub floor_of : ℕ → List Span → ℕ
floor_of b [] = b
floor_of b (x ∷ _) = suc x.hi

pub IsAscending-after :
    (b : ℕ) (before after : List Span)
    → IsAscending b (rejoin before after)
    → IsAscending (floor_of b before) after
unfolding rejoin
IsAscending-after b [] after h = h
IsAscending-after b (x ∷ before) after h = (IsAscending-after b before (x ∷ after) h).2

-- The part after the split may be exchanged.
pub IsAscending-rejoin :
    (b : ℕ) (before after after' : List Span)
    → IsAscending b (rejoin before after)
    → IsAscending (floor_of b before) after'
    → IsAscending b (rejoin before after')
unfolding rejoin
IsAscending-rejoin b [] after after' h k = k
IsAscending-rejoin b (x ∷ before) after after' h k =
    let old = IsAscending-after b before (x ∷ after) h in
    IsAscending-rejoin b before (x ∷ after) (x ∷ after') h (old.0, old.1, k)

pub rejoin-split_at :
    (before xs : List Span) (i : ℕ)
    → let (b, a) = split_at before i xs in rejoin b a ≡ rejoin before xs
unfolding split_at rejoin
rejoin-split_at before xs zero = refl
rejoin-split_at before [] (suc i) = refl
rejoin-split_at before (x ∷ xs) (suc i) = rejoin-split_at (x ∷ before) xs i

-- The nearest interval before the split begins below `v`, and the next one does not.
abbrev pub IsSplit : ℕ → List Span × List Span → Type 0
IsSplit v ([], []) = Unit {0}
IsSplit v ([], y ∷ _) = v ≤ y.lo
IsSplit v (x ∷ _, []) = x.lo < v
IsSplit v (x ∷ _, y ∷ _) = (x.lo < v) × (v ≤ y.lo)

abbrev pub BeginsBelow : ℕ → List Span → Type 0
BeginsBelow v [] = Unit {0}
BeginsBelow v (x ∷ _) = x.lo < v

split_at-bisect_left :
    (before xs : List Span) (v : ℕ)
    → BeginsBelow v before
    → IsSplit v (split_at before (bisect_left xs v) xs)
unfolding split_at bisect_left
split_at-bisect_left [] [] v h = tt
split_at-bisect_left (y ∷ before) [] v h = h
split_at-bisect_left [] (x ∷ xs) v h = ground (arith, split_at-bisect_left (x ∷ []) xs v)
split_at-bisect_left (y ∷ before) (x ∷ xs) v h =
    ground (arith, split_at-bisect_left (x ∷ y ∷ before) xs v)

pub bisect_left-IsSplit : (xs : List Span) (v : ℕ) → IsSplit v (split_at [] (bisect_left xs v) xs)
bisect_left-IsSplit xs v = split_at-bisect_left [] xs v tt
