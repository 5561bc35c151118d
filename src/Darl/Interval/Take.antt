-- ===== src/Darl/Interval/Take.antt =====
-- `_remove_at`, `remove` and `take_near` (src/pww/darl/table.py), seen at each position.
use project_world_wide.Prelude.{
  ℕ, zero, suc, ◌+◌, ◌≤◌, ◌<◌, ◌≡◌, refl, List, [], ◌∷◌, some, arith, length, get_elem?, ltb, ◌==◌,
  Returns, min, inl, inr, Bool-cases, true, false, ◌&&◌, ◌||◌, sum_by-append, get_elem?_of_lt,
  length-append, All, All-append, Returns-bind, Returns-map, ok,
}
use project_world_wide.Darl.Interval.{
  Span, span, IntervalSet, size, remove_at, Taking, take_from, wrapped, take_step, take_loop,
  start_index, take_near,
}
use project_world_wide.Darl.Interval.Cover.{holds, cover, sizes, IsAscending, IsPool}
use project_world_wide.Darl.Interval.Remove.{IsRemoved, remove_at-IsRemoved}

abbrev IsNonempty : Span → Type 0
IsNonempty x = x.lo < x.hi

-- What rounds of the loop keep between the state `t` before and the state `u` after them.
record IsTaking (t u : Taking) : Type 0 where
  pool : IsPool u.pool
  moved :
      (p : ℕ)
      → cover p u.pool.intervals + cover p u.spans ≡ cover p t.pool.intervals + cover p t.spans
  counted : u.pool.total + sizes u.spans ≡ t.pool.total + sizes t.spans
  asked : sizes u.spans + u.remaining ≡ sizes t.spans + t.remaining
  grows : length t.spans ≤ length u.spans
  proper : All IsNonempty t.spans → All IsNonempty u.spans

IsTaking-refl : (t : Taking) → IsPool t.pool → IsTaking t t
IsTaking-refl t h = record {
  pool = h;
  moved = λ p. refl;
  counted = refl;
  asked = refl;
  grows = omega arith;
  proper = λ k. k;
}

IsTaking-trans : (t u v : Taking) → IsTaking t u → IsTaking u v → IsTaking t v
IsTaking-trans t u v h k = record {
  pool = k.pool;
  moved = λ p. omega (arith, h.moved p, k.moved p);
  counted = omega (arith, h.counted, k.counted);
  asked = omega (arith, h.asked, k.asked);
  grows = omega (arith, h.grows, k.grows);
  proper = λ a. k.proper (h.proper a);
}

IsAscending-get_elem? :
    (b : ℕ) (xs : List Span) (i : ℕ) (x : Span)
    → IsAscending b xs
    → get_elem? xs i ≡ some x
    → x.lo < x.hi
IsAscending-get_elem? b [] i x h e = ground arith
IsAscending-get_elem? b (y ∷ xs) zero x h e = ground arith
IsAscending-get_elem? b (y ∷ xs) (suc i) x h e = IsAscending-get_elem? (suc y.hi) xs i x h.2 e

wrapped-lt-length : (xs : List Span) (i : ℕ) → 0 < length xs → wrapped xs i < length xs
unfolding wrapped
wrapped-lt-length xs i h = ground arith

take_from_bounds :
    (cursor : ℕ) (spans : List Span) (x : Span)
    → x.lo < x.hi
    → (x.lo ≤ take_from cursor spans x) × (take_from cursor spans x < x.hi)
unfolding take_from
take_from_bounds cursor [] x h = ground arith
take_from_bounds cursor (_ ∷ _) x h = ground arith

-- A round adds one span.
abbrev IsStep : Taking → Taking → Type 0
IsStep t u = IsTaking t u × (length u.spans ≡ suc (length t.spans))

take_step-IsStep :
    (cursor : ℕ) (t : Taking)
    → IsPool t.pool
    → 0 < t.remaining
    → 0 < length t.pool.intervals
    → Returns (take_step cursor t) (IsStep t)
unfolding take_step
take_step-IsStep cursor t h more some_left =
    let xs = t.pool.intervals in
    let i = wrapped xs t.index in
    let (x, e) = get_elem?_of_lt xs i (wrapped-lt-length xs t.index some_left) in
    let bounds = take_from_bounds cursor t.spans x (IsAscending-get_elem? 0 xs i x h.ascending e) in
    let start = take_from cursor t.spans x in
    let end = min x.hi (start + t.remaining) in
    let taken = span start end ∷ [] in
    rw (e, take_step)
      (Returns-bind (remove_at t.pool i start end) _ (IsRemoved t.pool (span start end)) (IsStep t)
        (remove_at-IsRemoved t.pool i x start end h e bounds.0 (omega arith) (omega arith))
        λ pool r. (
          record {
            pool = r.0;
            moved = λ p. omega (arith, r.1 p, sum_by-append (holds p) t.spans taken);
            counted = omega (arith, r.2, sum_by-append size t.spans taken);
            asked = omega (arith, bounds, sum_by-append size t.spans taken);
            grows = omega (arith, length-append t.spans taken);
            proper = λ k. All-append IsNonempty t.spans taken k (omega arith, tt);
          },
          omega (arith, length-append t.spans taken),
        ))

-- Some rounds, at most `rounds` of them.
abbrev IsRun : ℕ → Taking → Taking → Type 0
IsRun rounds t u = IsTaking t u × (length u.spans ≤ length t.spans + rounds)

take_loop-IsRun :
    (rounds cursor : ℕ) (t : Taking)
    → IsPool t.pool
    → Returns (take_loop rounds cursor t) (IsRun rounds t)
unfolding take_loop
take_loop-IsRun zero cursor t h = (IsTaking-refl t h, omega arith)
take_loop-IsRun (suc rounds) cursor t h =
    elim (Bool-cases (ltb 0 t.remaining && ltb t.visited (length t.pool.intervals))) [
      | inl going ↦ rw going (
          Returns-bind (take_step cursor t) (take_loop rounds cursor) (IsStep t)
            (IsRun (suc rounds) t) (take_step-IsStep cursor t h (ground arith) (ground arith))
            λ u s.
              Returns-map (take_loop rounds cursor u) (IsRun rounds u) (IsRun (suc rounds) t)
                (λ v k. (IsTaking-trans t u v s.0 k.0, omega (arith, s.1, k.1)))
                (take_loop-IsRun rounds cursor u s.0.pool))
      | inr done ↦ rw done (IsTaking-refl t h, omega arith)
    ]

-- With blocks to take, a span allowed and an interval left, the loop takes something.
take_loop_takes :
    (rounds cursor : ℕ) (t : Taking)
    → IsPool t.pool
    → 0 < t.remaining
    → t.visited < length t.pool.intervals
    → Returns (take_loop (suc rounds) cursor t) (λ u. 0 < length u.spans)
unfolding take_loop
take_loop_takes rounds cursor t h more left =
    let going : (ltb 0 t.remaining && ltb t.visited (length t.pool.intervals)) ≡ true =
      ground arith in
    rw going (
      Returns-bind (take_step cursor t) (take_loop rounds cursor) (IsStep t)
        (λ u. 0 < length u.spans) (take_step-IsStep cursor t h more (omega arith))
        λ u s.
          Returns-map (take_loop rounds cursor u) (IsRun rounds u) (λ v. 0 < length v.spans)
            (λ v k. let grows = k.0.grows in omega (arith, s.1, grows))
            (take_loop-IsRun rounds cursor u s.0.pool))

-- What `take_near` returns: the spans taken and the pool left, which together are the old pool.
abbrev pub IsTaken : IntervalSet → ℕ → ℕ → List Span × IntervalSet → Type 0
IsTaken s blocks max_spans r =
    IsPool r.1
    × ((p : ℕ) → cover p r.1.intervals + cover p r.0 ≡ cover p s.intervals)
    × (r.1.total + sizes r.0 ≡ s.total)
    × All IsNonempty r.0
    × (sizes r.0 ≤ blocks)
    × (length r.0 ≤ max_spans)

-- From a pool in order `take_near` takes at most `blocks` blocks in at most `max_spans` spans, none
-- of them empty, without an error; every position is afterwards in the pool or in the spans, as
-- often as it was in the pool before, and the pool stays in order.
pub take_near-IsTaken :
    (s : IntervalSet) (cursor blocks max_spans : ℕ)
    → IsPool s
    → Returns (take_near s cursor blocks max_spans) (IsTaken s blocks max_spans)
unfolding take_near
take_near-IsTaken s cursor blocks max_spans h =
    elim (Bool-cases ((blocks == 0) || (length s.intervals == 0))) [
      | inl nothing ↦ rw nothing (h, (λ p. omega arith), omega arith, tt, omega arith, omega arith)
      | inr something ↦ rw something (
          Returns-bind (take_loop max_spans cursor (begin s cursor blocks))
            (λ t. ok (t.spans, t.pool)) (IsRun max_spans (begin s cursor blocks))
            (IsTaken s blocks max_spans)
            (take_loop-IsRun max_spans cursor (begin s cursor blocks) h)
            λ u k. (
              k.0.pool,
              (λ p. let moved = k.0.moved p in omega (arith, moved)),
              (let counted = k.0.counted in omega (arith, counted)),
              k.0.proper tt,
              (let asked = k.0.asked in omega (arith, asked)),
              omega (arith, k.1),
            ))
    ]
  where
    begin : IntervalSet → ℕ → ℕ → Taking
    begin s cursor blocks = record {
      pool = s;
      spans = [];
      remaining = blocks;
      visited = 0;
      index = start_index s.intervals cursor;
    }

-- A request for at least one block, with a span allowed, is not left empty-handed while the pool
-- has an interval.
pub take_near_takes :
    (s : IntervalSet) (cursor blocks max_spans : ℕ)
    → IsPool s
    → 0 < blocks
    → 0 < max_spans
    → 0 < length s.intervals
    → Returns (take_near s cursor blocks max_spans) (λ r. 0 < length r.0)
unfolding take_near
take_near_takes s cursor blocks zero h b m l = absurd (omega arith)
take_near_takes s cursor blocks (suc rounds) h b m l =
    let something : ((blocks == 0) || (length s.intervals == 0)) ≡ false = ground arith in
    rw something (
      Returns-bind (take_loop (suc rounds) cursor begin) (λ t. ok (t.spans, t.pool))
        (λ u. 0 < length u.spans) (λ r. 0 < length r.0) (take_loop_takes rounds cursor begin h b l)
        λ u k. k)
  where
    begin : Taking
    begin = record {
      pool = s;
      spans = [];
      remaining = blocks;
      visited = 0;
      index = start_index s.intervals cursor;
    }
