-- ===== src/Darl/Interval.antt =====
-- class IntervalSet (src/pww/darl/table.py): sorted, merged, half-open integer intervals.
-- The two lists `_starts` and `_ends`, which always change together, are one list of intervals.
pub mod Remove
pub mod Cover
pub mod Add
pub mod Take
pub mod Unique
use project_world_wide.Prelude.{
  ℕ, zero, suc, ◌+◌, ◌-◌, min, max, Bool, true, false, ◌&&◌, ◌||◌, not, Option, none, some, List,
  [], ◌∷◌, ◌++◌, ltb, leb, ◌==◌, if◌then◌else◌, length, get_elem?, splice, Result, ok, err, Error,
  value_error, double_free, ◌>>=◌, ◌≡◌, refl,
}

pub record Span : Type 0 where
  pub lo : ℕ
  pub hi : ℕ

abbrev pub span : ℕ → ℕ → Span
span a b = record { lo = a; hi = b }

pub record IntervalSet : Type 0 where
  pub intervals : List Span
  pub total : ℕ

abbrev pub size : Span → ℕ
size x = x.hi - x.lo

-- IntervalSet()
abbrev pub empty : IntervalSet
empty = record { intervals = []; total = 0 }

-- bisect.bisect_left(starts, v), for sorted starts.
unfoldable pub bisect_left : List Span → ℕ → ℕ
bisect_left [] v = 0
bisect_left (x ∷ xs) v = let later = bisect_left xs v in if ltb x.lo v then suc later else 0

-- bisect.bisect_right(starts, v), for sorted starts.
unfoldable pub bisect_right : List Span → ℕ → ℕ
bisect_right [] v = 0
bisect_right (x ∷ xs) v = let later = bisect_right xs v in if leb x.lo v then suc later else 0

-- The intervals before position `i`, the nearest first, and those from position `i` on.
unfoldable pub split_at : List Span → ℕ → List Span → List Span × List Span
split_at before zero after = (before, after)
split_at before (suc i) [] = (before, [])
split_at before (suc i) (x ∷ after) = split_at (x ∷ before) i after

unfoldable pub rejoin : List Span → List Span → List Span
rejoin [] after = after
rejoin (x ∷ before) after = rejoin before (x ∷ after)

-- The variables of `add` while it merges: the range, the length removed, and what follows.
pub record Merge : Type 0 where
  pub range : Span
  pub removed : ℕ
  pub before : List Span
  pub after : List Span

-- `while i < len(self._starts) and self._starts[i] <= end`
unfoldable pub absorb : Span → ℕ → List Span → List Span → Merge
absorb r removed before [] = record { range = r; removed = removed; before = before; after = [] }
absorb r removed before (x ∷ after) =
    let rest = absorb (span r.lo (max r.hi x.hi)) (removed + size x) before after in
    if leb x.lo r.hi
    then rest
    else record { range = r; removed = removed; before = before; after = x ∷ after }

-- `if i > 0 and self._ends[i - 1] >= start`, then the loop
unfoldable pub merge : Span → List Span × List Span → Merge
unfolding absorb
merge r ([], after) = absorb r 0 [] after
merge r (x ∷ before, after) =
    if leb r.lo x.hi
    then absorb (span (min r.lo x.lo) (max r.hi x.hi)) (size x) before after
    else absorb r 0 (x ∷ before) after

unfoldable pub add : IntervalSet → ℕ → ℕ → Result IntervalSet
unfolding merge split_at bisect_left rejoin
add s start end =
    if leb end start
    then ok s
    else let added = end - start in
      let m = merge (span start end) (split_at [] (bisect_left s.intervals start) s.intervals) in
      let merged = size m.range in
      if ltb merged (m.removed + added)
      then err double_free
      else ok (record {
        intervals = rejoin m.before (m.range ∷ m.after);
        total = s.total + (merged - m.removed);
      })

-- `[p for p in (left, right) if p]`
unfoldable pub pieces : Span → ℕ → ℕ → List Span
pieces x start end =
    (if ltb x.lo start then span x.lo start ∷ [] else [])
    ++ (if ltb end x.hi then span end x.hi ∷ [] else [])

unfoldable pub remove_at : IntervalSet → ℕ → ℕ → ℕ → Result IntervalSet
unfolding pieces
remove_at s index start end = elim (get_elem? s.intervals index) [
  | none ↦ err Error.index_error
  | some x ↦
      if leb x.lo start && ltb start end && leb end x.hi
      then ok (record {
        intervals = splice s.intervals index (pieces x start end);
        total = s.total - (end - start);
      })
      else err value_error
]

-- The interval at `index`, if `index` is not negative and in range.
unfoldable pub remove : IntervalSet → ℕ → ℕ → Result IntervalSet
unfolding remove_at bisect_right
remove s start end =
    if leb end start
    then ok s
    else let found = bisect_right s.intervals start in
      let index = found - 1 in
      if found == 0 then err value_error else elim (get_elem? s.intervals index) [
        | none ↦ err Error.index_error
        | some x ↦ if ltb x.hi end then err value_error else remove_at s index start end
      ]

-- The variables of the loop of `take_near`.
pub record Taking : Type 0 where
  pub pool : IntervalSet
  pub spans : List Span
  pub remaining : ℕ
  pub visited : ℕ
  pub index : ℕ

-- Where the next span begins: at the cursor, for the first span and a cursor inside the interval.
unfoldable pub take_from : ℕ → List Span → Span → ℕ
take_from cursor [] x = if leb x.lo cursor && ltb cursor x.hi then max x.lo cursor else x.lo
take_from cursor (_ ∷ _) x = x.lo

-- How far the index moves past the 0, 1 or 2 intervals that are left of `x`.
unfoldable pub next_index : Span → ℕ → ℕ → ℕ → ℕ
next_index x start end index =
    if ltb x.lo start && ltb end x.hi
    then index + 2
    else if (start == x.lo) && (end == x.hi)
    then index
    else index + 1

-- `if index >= len(self._starts): index = 0`
unfoldable pub wrapped : List Span → ℕ → ℕ
wrapped xs index = if leb (length xs) index then 0 else index

-- One round of the loop, once the tests of the `while` have passed.
unfoldable pub take_step : ℕ → Taking → Result Taking
unfolding wrapped take_from next_index remove_at
take_step cursor t =
    let index = wrapped t.pool.intervals t.index in
    elim (get_elem? t.pool.intervals index) [
      | none ↦ err Error.index_error
      | some x ↦
          let start = take_from cursor t.spans x in
          let end = min x.hi (start + t.remaining) in
          remove_at t.pool index start end >>= λ pool. ok (record {
            pool = pool;
            spans = t.spans ++ (span start end ∷ []);
            remaining = t.remaining - (end - start);
            visited = t.visited + 1;
            index = next_index x start end index;
          })
    ]

-- The loop. Each round adds a span, so the rounds left are the spans left, `max_spans - len(spans)`.
unfoldable pub take_loop : ℕ → ℕ → Taking → Result Taking
unfolding take_step
take_loop zero cursor t = ok t
take_loop (suc rounds) cursor t =
    let next = take_step cursor t >>= take_loop rounds cursor in
    if ltb 0 t.remaining && ltb t.visited (length t.pool.intervals) then next else ok t

-- The first interval to take from: the nearest that ends after the cursor.
unfoldable pub start_index : List Span → ℕ → ℕ
unfolding bisect_left
start_index xs cursor =
    let i = bisect_left xs cursor in
    elim (get_elem? xs (i - 1)) [
      | none ↦ i
      | some x ↦ if ltb 0 i && ltb cursor x.hi then i - 1 else i
    ]

-- Returns the spans that were taken and the pool that is left.
unfoldable pub take_near : IntervalSet → ℕ → ℕ → ℕ → Result (List Span × IntervalSet)
unfolding take_loop start_index
take_near s cursor blocks max_spans =
    if (blocks == 0) || (length s.intervals == 0)
    then ok ([], s)
    else take_loop max_spans cursor (record {
      pool = s;
      spans = [];
      remaining = blocks;
      visited = 0;
      index = start_index s.intervals cursor;
    })
      >>= λ t. ok (t.spans, t.pool)
