-- ===== src/Darl/Interval/Unique.antt =====
-- A pool in order (class IntervalSet of src/pww/darl/table.py) is given by its positions.
use project_world_wide.Prelude.{
  ℕ, suc, ◌≤◌, ◌≡◌, refl, sym, inl, inr, List, [], ◌∷◌, arith, lt_cases,
}
use project_world_wide.Darl.Interval.{Span, IntervalSet}
use project_world_wide.Darl.Interval.Cover.{cover, IsAscending, IsPool, cover-below}

first_lo :
    (b : ℕ) (x y : Span) (xs ys : List Span)
    → IsAscending b (x ∷ xs)
    → IsAscending b (y ∷ ys)
    → ((p : ℕ) → cover p (x ∷ xs) ≡ cover p (y ∷ ys))
    → y.lo ≤ x.lo
first_lo b x y xs ys h k e = elim (lt_cases x.lo y.lo) [
  | inr fits ↦ fits
  | inl before ↦
      let later = cover-below (suc y.hi) x.lo ys k.2 in
      absurd (ground (arith, e x.lo, later, before, h, k))
]

first_hi :
    (b : ℕ) (x y : Span) (xs ys : List Span)
    → IsAscending b (x ∷ xs)
    → IsAscending b (y ∷ ys)
    → ((p : ℕ) → cover p (x ∷ xs) ≡ cover p (y ∷ ys))
    → x.lo ≡ y.lo
    → y.hi ≤ x.hi
first_hi b x y xs ys h k e same = elim (lt_cases x.hi y.hi) [
  | inr fits ↦ fits
  | inl before ↦
      let later = cover-below (suc x.hi) x.hi xs h.2 in
      absurd (ground (arith, e x.hi, later, before, h, k, same))
]

IsAscending-unique :
    (b : ℕ) (xs ys : List Span)
    → IsAscending b xs
    → IsAscending b ys
    → ((p : ℕ) → cover p xs ≡ cover p ys)
    → xs ≡ ys
IsAscending-unique b [] [] h k e = refl
IsAscending-unique b [] (y ∷ ys) h k e = absurd (ground (arith, e y.lo, k))
IsAscending-unique b (x ∷ xs) [] h k e = absurd (ground (arith, e x.lo, h))
IsAscending-unique b (x ∷ xs) (y ∷ ys) h k e =
    let back = λ (p : ℕ). sym (e p) in
    let lo : x.lo ≡ y.lo =
      omega (arith, first_lo b x y xs ys h k e, first_lo b y x ys xs k h back) in
    let hi : x.hi ≡ y.hi =
      omega (arith, first_hi b x y xs ys h k e lo, first_hi b y x ys xs k h back (sym lo)) in
    let first : x ≡ y = cc in
    let rest =
      IsAscending-unique (suc y.hi) xs ys (rw (← hi) h.2) k.2
        (λ p. let all = e p in ground (arith, all, lo, hi)) in
    rw (first, rest) refl

-- Two pools in order that hold the same positions are the same.
pub IsPool-unique :
    (s s' : IntervalSet)
    → IsPool s
    → IsPool s'
    → ((p : ℕ) → cover p s.intervals ≡ cover p s'.intervals)
    → s ≡ s'
IsPool-unique s s' h k e =
    let same = IsAscending-unique 0 s.intervals s'.intervals h.ascending k.ascending e in
    let counted = h.counted in
    let counted' = k.counted in
    let total : s.total ≡ s'.total = rw (counted, counted', same) refl in cc
