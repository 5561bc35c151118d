-- ===== src/Darl/Valid/Runs.antt =====
-- The run-length code of a snapshot and the pool that `restore` rebuilds (src/pww/darl/table.py).
use project_world_wide.Prelude.{
  ℕ, zero, suc, ◌+◌, ◌≤◌, ◌<◌, ◌≡◌, refl, sym, true, ◌&&◌, inl, inr, Option, none, some, List, [],
  ◌∷◌, ◌++◌, if◌then◌else◌, length, arith, ltb, within, count_of, ap, ◌∙◌, Bool-cases, Returns,
  Returns-bind, Returns-map, ok, ◌>>=◌,
}
use mathlib.Core.List.{append_assoc, append-nil}
use project_world_wide.Darl.Interval.{span, IntervalSet, add}
use project_world_wide.Darl.Interval.Cover.{cover, IsPool}
use project_world_wide.Darl.Interval.Add.{IsAdded, add-IsAdded}
use project_world_wide.Darl.Lease.{BlockState, unassigned, leased, committed, quarantined, in_state}
use project_world_wide.Darl.Table.Durable.{
  push_value, runs_of, values_from, repeat, expand, state_at, free_runs,
}

in_state→eq : (s s' : BlockState) → in_state s s' ≡ true → s ≡ s'
in_state→eq unassigned unassigned h = refl
in_state→eq leased leased h = refl
in_state→eq committed committed h = refl
in_state→eq quarantined quarantined h = refl
in_state→eq _ _ h = cc

repeat-add-one : (v : BlockState) (n : ℕ) → repeat v (suc n) ≡ repeat v n ++ (v ∷ [])
unfolding repeat
repeat-add-one v zero = refl
repeat-add-one v (suc n) = ap (λ vs. v ∷ vs) (repeat-add-one v n)

expand-push_value :
    (v : BlockState) (runs : List (BlockState × ℕ))
    → expand (push_value v runs) ≡ expand runs ++ (v ∷ [])
unfolding expand push_value repeat
expand-push_value v [] = refl
expand-push_value v ((w, c) ∷ []) = elim (Bool-cases (in_state w v)) [
  | inr other ↦ rw other (sym (append_assoc (repeat w c) [] (v ∷ [])))
  | inl same ↦
      let e : w ≡ v = in_state→eq w v same in
      let one : c + 1 ≡ suc c = omega arith in
      rw (same, one) (append-nil (repeat w (suc c)) ∙ repeat-add-one w c ∙ rw (append-nil, e) refl)
]
expand-push_value v ((w, c) ∷ s ∷ runs) =
    ap (λ vs. repeat w c ++ vs) (expand-push_value v (s ∷ runs))
    ∙ sym (append_assoc (repeat w c) (expand (s ∷ runs)) (v ∷ []))

expand-runs_of :
    (vs : List BlockState) (runs : List (BlockState × ℕ))
    → expand (runs_of vs runs) ≡ expand runs ++ vs
unfolding runs_of
expand-runs_of [] runs = sym (append-nil (expand runs))
expand-runs_of (v ∷ vs) runs =
    expand-runs_of vs (push_value v runs)
    ∙ ap (λ front. front ++ vs) (expand-push_value v runs)
    ∙ append_assoc (expand runs) (v ∷ []) vs

-- Expanding the run-length code of a sequence of states gives the sequence back.
pub expand-runs_of_nil : (vs : List BlockState) → expand (runs_of vs []) ≡ vs
expand-runs_of_nil vs = expand-runs_of vs [] ∙ (unfold expand in refl)

pub length-values_from :
    (n position : ℕ) (state : ℕ → BlockState) → length (values_from n position state) ≡ n
unfolding values_from
length-values_from zero position state = refl
length-values_from (suc n) position state = ap suc (length-values_from n (position + 1) state)

pub state_at-values_from :
    (n position : ℕ) (state : ℕ → BlockState) (p : ℕ)
    → p < n
    → state_at (values_from n position state) p ≡ state (position + p)
unfolding values_from
state_at-values_from zero position state p h = absurd (omega arith)
state_at-values_from (suc n) position state zero h =
    let e : position + 0 ≡ position = omega arith in rw e refl
state_at-values_from (suc n) position state (suc p) h =
    let e : position + suc p ≡ position + 1 + p = omega arith in
    rw e (state_at-values_from n (position + 1) state p (omega arith))

-- Where the current run of unassigned blocks begins, or else the next position.
abbrev begin_of : Option ℕ → ℕ → ℕ
begin_of none position = position
begin_of (some from) position = from

-- What the loop leaves: the pool, the current run, and the unassigned blocks to come.
abbrev IsFreed : ℕ → ℕ → (ℕ → BlockState) → Option ℕ → IntervalSet → IntervalSet → Type 0
IsFreed n position state run pool r =
    IsPool r
    × ((p : ℕ)
        → cover p r.intervals
          ≡ cover p pool.intervals
            + count_of (within (begin_of run position) position p)
            + count_of (within position (position + n) p && in_state (state p) unassigned))

IsFreed-shift :
    (n position : ℕ) (state : ℕ → BlockState) (p : ℕ)
    → (count_of (within position (position + suc n) p && in_state (state p) unassigned))
      ≡ (if within position (position + 1) p
          then count_of (in_state (state position) unassigned)
          else 0)
        + count_of (within (position + 1) (position + 1 + n) p && in_state (state p) unassigned)
IsFreed-shift n position state p = elim (Bool-cases (within position (position + 1) p)) [
  | inl here ↦ let e : p ≡ position = ground arith in rw e (ground arith)
  | inr other ↦ ground arith
]

free_runs-IsFreed :
    (n position : ℕ) (state : ℕ → BlockState) (run : Option ℕ) (pool : IntervalSet)
    → IsPool pool
    → begin_of run position ≤ position
    → ((p : ℕ) → begin_of run position ≤ p → cover p pool.intervals ≡ 0)
    → Returns
        (free_runs position (values_from n position state) run pool)
        (IsFreed n position state run pool)
unfolding free_runs values_from
free_runs-IsFreed zero position state none pool h le clear = (h, λ p. ground arith)
free_runs-IsFreed zero position state (some from) pool h le clear =
    Returns-map (add pool from position) (IsAdded pool (span from position)) _
      (λ r k. (k.0, λ p. let moved = k.1 p in ground (arith, moved)))
      (add-IsAdded pool from position h (λ p a b. clear p a))
free_runs-IsFreed (suc n) position state none pool h le clear =
    elim (Bool-cases (in_state (state position) unassigned)) [
      | inl free ↦ rw free (
          Returns-map
            (free_runs (position + 1) (values_from n (position + 1) state) (some position) pool)
            (IsFreed n (position + 1) state (some position) pool) _
            (λ r k. (
              k.0,
              λ p. let rest = k.1 p in ground (arith, rest, free, IsFreed-shift n position state p),
            ))
            (free_runs-IsFreed n (position + 1) state (some position) pool h (omega arith) clear))
      | inr taken ↦ rw taken (
          Returns-map (free_runs (position + 1) (values_from n (position + 1) state) none pool)
            (IsFreed n (position + 1) state none pool) _
            (λ r k. (
              k.0,
              λ p.
                  let rest = k.1 p in ground (arith, rest, taken, IsFreed-shift n position state p),
            ))
            (free_runs-IsFreed n (position + 1) state none pool h (omega arith)
              (λ p a. clear p (omega arith))))
    ]
free_runs-IsFreed (suc n) position state (some from) pool h le clear =
    elim (Bool-cases (in_state (state position) unassigned)) [
      | inl free ↦ rw free (
          Returns-map
            (free_runs (position + 1) (values_from n (position + 1) state) (some from) pool)
            (IsFreed n (position + 1) state (some from) pool) _
            (λ r k. (
              k.0,
              λ p. let rest = k.1 p in ground (arith, rest, free, IsFreed-shift n position state p),
            ))
            (free_runs-IsFreed n (position + 1) state (some from) pool h (omega arith) clear))
      | inr taken ↦ rw taken (
          Returns-bind (add pool from position >>= λ grown. ok (none, grown)) _
            (λ a. (a.0 ≡ none) × IsAdded pool (span from position) a.1) _
            (Returns-bind (add pool from position) _ (IsAdded pool (span from position)) _
              (add-IsAdded pool from position h (λ p a b. clear p a)) (λ r k. (refl, k)))
            λ a k. rw k.0 (
              Returns-map (free_runs (position + 1) (values_from n (position + 1) state) none a.1)
                (IsFreed n (position + 1) state none a.1) _
                (λ r m. (
                  m.0,
                  λ p.
                      let rest = m.1 p in
                      let moved = k.1.1 p in
                      ground (arith, rest, moved, taken, IsFreed-shift n position state p),
                ))
                (free_runs-IsFreed n (position + 1) state none a.1 k.1.0 (omega arith)
                  (λ p b. let moved = k.1.1 p in ground (arith, moved, clear p (omega arith))))))
    ]

-- The pool that is rebuilt from an array of states is in order, and holds the unassigned positions.
pub free_runs_lem :
    (n : ℕ) (state : ℕ → BlockState)
    → Returns
        (free_runs 0 (values_from n 0 state) none (record { intervals = []; total = 0 }))
        (λ r.
          IsPool r
          × ((p : ℕ) → cover p r.intervals ≡ count_of (ltb p n && in_state (state p) unassigned)))
free_runs_lem n state =
    Returns-map (free_runs 0 (values_from n 0 state) none (record { intervals = []; total = 0 })) _
      _ (λ r k. (k.0, λ p. let all = k.1 p in ground (arith, all)))
      (free_runs-IsFreed n 0 state none (record { intervals = []; total = 0 })
        (record { ascending = tt; counted = refl }) (omega arith) (λ p a. refl))
