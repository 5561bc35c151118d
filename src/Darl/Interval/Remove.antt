-- ===== src/Darl/Interval/Remove.antt =====
-- `_remove_at` and `remove` (src/pww/darl/table.py), seen at each position.
use project_world_wide.Prelude.{
  ℕ, zero, suc, ◌+◌, ◌-◌, ◌≤◌, ◌<◌, ◌≡◌, refl, List, [], ◌∷◌, ◌++◌, some, arith, get_elem?, splice,
  ltb, leb, ◌==◌, Returns, inl, inr, true, false, ◌&&◌, sum_by-splice, lt_cases, ◌∙◌,
}
use project_world_wide.Darl.Interval.{
  Span, span, IntervalSet, size, pieces, remove_at, remove, bisect_right,
}
use project_world_wide.Darl.Interval.Cover.{
  holds, cover, sizes, IsAscending, IsPool, IsAscending-weaken, cover-below,
}

pieces-IsAscending :
    (b : ℕ) (x : Span) (start end : ℕ) (rest : List Span)
    → b ≤ x.lo
    → x.lo ≤ start
    → start < end
    → end ≤ x.hi
    → IsAscending (suc x.hi) rest
    → IsAscending b (pieces x start end ++ rest)
unfolding pieces
pieces-IsAscending b x start end rest h1 h2 h3 h4 k =
    ground
      (arith, IsAscending-weaken b (suc x.hi) rest, IsAscending-weaken (suc start) (suc x.hi) rest)

splice-IsAscending :
    (b : ℕ) (xs : List Span) (i : ℕ) (x : Span) (start end : ℕ)
    → IsAscending b xs
    → get_elem? xs i ≡ some x
    → x.lo ≤ start
    → start < end
    → end ≤ x.hi
    → IsAscending b (splice xs i (pieces x start end))
splice-IsAscending b [] i x start end h e h2 h3 h4 = tt
splice-IsAscending b (y ∷ xs) zero x start end h e h2 h3 h4 =
    ground (arith, pieces-IsAscending b x start end xs)
splice-IsAscending b (y ∷ xs) (suc i) x start end h e h2 h3 h4 =
    (h.0, h.1, splice-IsAscending (suc y.hi) xs i x start end h.2 e h2 h3 h4)

cover-pieces :
    (p : ℕ) (x : Span) (start end : ℕ)
    → x.lo ≤ start
    → start < end
    → end ≤ x.hi
    → cover p (pieces x start end) + holds p (span start end) ≡ holds p x
unfolding pieces
cover-pieces p x start end h2 h3 h4 = ground arith

sizes-pieces :
    (x : Span) (start end : ℕ)
    → x.lo ≤ start
    → start < end
    → end ≤ x.hi
    → sizes (pieces x start end) + (end - start) ≡ size x
unfolding pieces
sizes-pieces x start end h2 h3 h4 = ground arith

-- The pool `s'` is in order, and with the range it has the positions of `s`, each as often.
abbrev pub IsRemoved : IntervalSet → Span → IntervalSet → Type 0
IsRemoved s r s' =
    IsPool s'
    × ((p : ℕ) → cover p s'.intervals + holds p r ≡ cover p s.intervals)
    × (s'.total + size r ≡ s.total)

pub remove_at-IsRemoved :
    (s : IntervalSet) (i : ℕ) (x : Span) (start end : ℕ)
    → IsPool s
    → get_elem? s.intervals i ≡ some x
    → x.lo ≤ start
    → start < end
    → end ≤ x.hi
    → Returns (remove_at s i start end) (IsRemoved s (span start end))
unfolding remove_at
remove_at-IsRemoved s i x start end h e h2 h3 h4 =
    let inside : (leb x.lo start && ltb start end && leb end x.hi) ≡ true = ground arith in
    let sizes_eq = sum_by-splice size s.intervals i x (pieces x start end) e in
    rw (e, remove_at, inside)
      (
        record {
          ascending = splice-IsAscending 0 s.intervals i x start end h.ascending e h2 h3 h4;
          counted = omega (arith, h.counted, sizes_eq, sizes-pieces x start end);
        },
        (λ p. omega (
          arith,
          sum_by-splice (holds p) s.intervals i x (pieces x start end) e,
          cover-pieces p x start end,
        )),
        omega (arith, h.counted, sizes_eq, sizes-pieces x start end),
      )

bisect_right_below :
    (b : ℕ) (xs : List Span) (v : ℕ) → IsAscending b xs → v < b → bisect_right xs v ≡ 0
unfolding bisect_right
bisect_right_below b [] v h k = refl
bisect_right_below b (x ∷ xs) v h k = ground arith

get_elem?-cons :
    (y : Span) (xs : List Span) (n : ℕ)
    → 0 < n
    → get_elem? (y ∷ xs) (suc n - 1) ≡ get_elem? xs (n - 1)
get_elem?-cons y xs zero h = absurd (omega arith)
get_elem?-cons y xs (suc n) h = let e : suc (suc n) - 1 ≡ suc (suc n - 1) = omega arith in rw e

-- The interval that `remove` looks at holds the whole range, if all of the range is free.
bisect_right-bounds :
    (b : ℕ) (xs : List Span) (v e : ℕ)
    → IsAscending b xs
    → v < e
    → ((p : ℕ) → v ≤ p → p < e → cover p xs ≡ 1)
    → (x : Span) × (get_elem? xs (bisect_right xs v - 1) ≡ some x)
      × (x.lo ≤ v)
      × (e ≤ x.hi)
      × (0 < bisect_right xs v)
unfolding bisect_right
bisect_right-bounds b [] v e h k c = absurd (omega (arith, c v))
bisect_right-bounds b (y ∷ xs) v e h k c = elim (lt_cases v y.hi) [
  | inl inside ↦
      let from : y.lo ≤ v = ground (arith, c v, cover-below (suc y.hi) v xs h.2) in
      let first = bisect_right_below (suc y.hi) xs v h.2 (omega arith) in
      let through : e ≤ y.hi = ground (arith, c y.hi, cover-below (suc y.hi) y.hi xs h.2) in
      rw first (y, ground arith, from, through, ground arith)
  | inr past ↦
      let (x, found, low, high, some_left) =
        bisect_right-bounds (suc y.hi) xs v e h.2 k (λ p a d. ground (arith, c p a d)) in
      let n = bisect_right xs v in
      let passed : leb y.lo v ≡ true = ground arith in
      rw passed (x, get_elem?-cons y xs n some_left ∙ found, low, high, omega arith)
]

-- Removing a range that is wholly free succeeds, and takes exactly the range from the pool.
pub remove-IsRemoved :
    (s : IntervalSet) (start end : ℕ)
    → IsPool s
    → start < end
    → ((p : ℕ) → start ≤ p → p < end → cover p s.intervals ≡ 1)
    → Returns (remove s start end) (IsRemoved s (span start end))
unfolding remove
remove-IsRemoved s start end h k c =
    let (x, found, low, high, some_found) =
      bisect_right-bounds 0 s.intervals start end h.ascending k c in
    let index = bisect_right s.intervals start - 1 in
    let proper : leb end start ≡ false = ground arith in
    let present : (bisect_right s.intervals start == 0) ≡ false = ground arith in
    let whole : ltb x.hi end ≡ false = ground arith in
    rw (proper, present, found, remove, whole)
      (remove_at-IsRemoved s index x start end h found low k high)
