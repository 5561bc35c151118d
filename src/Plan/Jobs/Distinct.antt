-- ===== src/Plan/Jobs/Distinct.antt =====
-- Triples of src/pww/plan/state.py in lists without repetition.
use project_world_wide.Prelude.{
  ◌≡◌, refl, sym, Bool, true, false, not, ◌&&◌, ◌||◌, List, [], ◌∷◌, ◌++◌, str_eq, eq_iff,
  Bool-cases, inl, inr, ap, ◌∙◌, arith,
}
use project_world_wide.Plan.Jobs.{Triple, same_triple, JobView}

-- Whether a triple is in a list.
unfoldable pub has_row : Triple → List Triple → Bool
has_row k [] = false
has_row k (t ∷ ts) = same_triple t k || has_row k ts

-- Whether no triple is in a list twice.
unfoldable pub are_distinct : List Triple → Bool
unfolding has_row
are_distinct [] = true
are_distinct (t ∷ ts) = not (has_row t ts) && are_distinct ts

pub same_triple_refl : (t : Triple) → same_triple t t ≡ true
unfolding same_triple
same_triple_refl t =
    let a : str_eq t.site t.site ≡ true = (eq_iff t.site t.site).1 refl in
    let b : str_eq t.lane_id t.lane_id ≡ true = (eq_iff t.lane_id t.lane_id).1 refl in
    ground (arith, a, b)

pub same_triple-eq : (t u : Triple) → same_triple t u ≡ true → t ≡ u
unfolding same_triple
same_triple-eq t u h =
    let a : str_eq t.site u.site ≡ true = ground arith in
    let b : str_eq t.lane_id u.lane_id ≡ true = ground arith in
    let c : t.link ≡ u.link = ground arith in
    let a' : t.site ≡ u.site = (eq_iff t.site u.site).0 a in
    let b' : t.lane_id ≡ u.lane_id = (eq_iff t.lane_id u.lane_id).0 b in
    λ i. record { site = a' i; lane_id = b' i; link = c i }

-- The triple of a view.
abbrev pub place_of : {F : Type 0} → JobView F → Triple
place_of v = record { site = v.site; lane_id = v.lane_id; link = v.link }

-- The rows that have a view, and whether each view is that of its row.
unfoldable pub rows_of : {F : Type 0} → List (Triple × JobView F) → List Triple
rows_of [] = []
rows_of ((t, v) ∷ views) = t ∷ rows_of views

unfoldable pub are_placed : {F : Type 0} → List (Triple × JobView F) → Bool
are_placed [] = true
are_placed ((t, v) ∷ views) = same_triple t (place_of v) && are_placed views

has_row-++ :
    (k : Triple) (ts us : List Triple) → has_row k (ts ++ us) ≡ (has_row k ts || has_row k us)
unfolding has_row
has_row-++ k [] us = refl
has_row-++ k (t ∷ ts) us = ground (arith, has_row-++ k ts us)

has_row-eq :
    (k t : Triple) (ts : List Triple) → same_triple t k ≡ true → has_row k ts ≡ has_row t ts
has_row-eq k t ts same = ap (λ x. has_row x ts) (sym (same_triple-eq t k same))

pub are_distinct-snoc :
    (t : Triple) (ts : List Triple)
    → has_row t ts ≡ false
    → are_distinct ts ≡ true
    → are_distinct (ts ++ (t ∷ [])) ≡ true
unfolding are_distinct has_row
are_distinct-snoc t [] new d = refl
are_distinct-snoc t (u ∷ ts) new d =
    let new' : has_row t ts ≡ false = ground arith in
    let rest = are_distinct-snoc t ts new' (ground arith) in
    let there = has_row-++ u ts (t ∷ []) in
    elim (Bool-cases (same_triple t u)) [
      | inr other ↦ ground (arith, rest, there, other)
      | inl same ↦
          let e = same_triple-eq t u same in
          let self : same_triple u t ≡ true =
            ap (λ x. same_triple x t) (sym e) ∙ same_triple_refl t in
          ground (arith, self)
    ]
