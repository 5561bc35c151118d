-- ===== src/Plan/Jobs/Rows.antt =====
-- The rows that `fold` of src/pww/plan/state.py makes.
use project_world_wide.Prelude.{
  ◌≡◌, refl, sym, true, false, ◌&&◌, String, none, some, List, [], ◌∷◌, ◌++◌, map, Bool-cases,
  Option-cases, inl, inr, ap, ◌∙◌, arith,
}
use mathlib.Core.List.{append_assoc, append-nil}
use project_world_wide.Plan.Jobs.{
  Triple, same_triple, JobEvent, JobView, find_view, put_view, first_view, next_view, row_of,
  Folding, fold_event, fold_events, in_order, fold,
}
use project_world_wide.Plan.Jobs.Distinct.{
  has_row, are_distinct, same_triple_refl, same_triple-eq, place_of, rows_of, are_placed,
  are_distinct-snoc,
}

module _ {F : Type 0} where
  find_view-none :
      (t : Triple) (views : List (Triple × JobView F))
      → find_view t views ≡ none
      → has_row t (rows_of views) ≡ false
  unfolding find_view rows_of has_row
  find_view-none t [] h = refl
  find_view-none t ((u, v) ∷ views) h = ground (arith, find_view-none t views)

  put_view-none :
      (t : Triple) (v : JobView F) (views : List (Triple × JobView F))
      → has_row t (rows_of views) ≡ false
      → rows_of (put_view t v views) ≡ rows_of views ++ (t ∷ [])
  unfolding put_view rows_of has_row
  put_view-none t v [] h = refl
  put_view-none t v ((u, w) ∷ views) h = ground (arith, put_view-none t v views)

  put_view-some :
      (t : Triple) (v w : JobView F) (views : List (Triple × JobView F))
      → find_view t views ≡ some w
      → rows_of (put_view t v views) ≡ rows_of views
  unfolding put_view rows_of find_view
  put_view-some t v w [] h = cc
  put_view-some t v w ((u, x) ∷ views) h = ground (arith, put_view-some t v w views)

  put_view-are_placed :
      (t : Triple) (v : JobView F) (views : List (Triple × JobView F))
      → place_of v ≡ t
      → are_placed views ≡ true
      → are_placed (put_view t v views) ≡ true
  unfolding put_view are_placed
  put_view-are_placed t v [] e h =
      ap (λ x. same_triple t x && true) e ∙ ground (arith, same_triple_refl t)
  put_view-are_placed t v ((u, x) ∷ views) e h = elim (Bool-cases (same_triple u t)) [
    | inl same ↦
        let mine : same_triple u (place_of v) ≡ true = ap (same_triple u) e ∙ same in
        ground (arith, mine)
    | inr other ↦ ground (arith, put_view-are_placed t v views e)
  ]

  find_view-place_of :
      (t : Triple) (v : JobView F) (views : List (Triple × JobView F))
      → are_placed views ≡ true
      → find_view t views ≡ some v
      → place_of v ≡ t
  unfolding find_view are_placed
  find_view-place_of t v [] placed h = cc
  find_view-place_of t v ((u, x) ∷ views) placed h = elim (Bool-cases (same_triple u t)) [
    | inl same ↦
        let e : u ≡ place_of x = same_triple-eq u (place_of x) (ground arith) in
        let e' : x ≡ v = ground (arith, same) in
        sym (ap place_of e') ∙ sym e ∙ same_triple-eq u t same
    | inr other ↦ find_view-place_of t v views (ground arith) (ground (arith, other))
  ]

  -- The invariant of the loop.
  record IsFolded (s : Folding F) : Type 0 where
    pub rows : rows_of s.views ≡ s.order
    pub distinct : are_distinct s.order ≡ true
    pub placed : are_placed s.views ≡ true

start : {F : Type 0} → Folding F
start = record { views = []; by_job_id = []; order = [] }

module _ {F : Type 0} (lower : String → String) where
  fold_event-IsFolded :
      (ev : JobEvent F) (s : Folding F) → IsFolded s → IsFolded (fold_event lower ev s)
  unfolding fold_event next_view first_view
  fold_event-IsFolded ev s h =
      let t = row_of ev s in
      elim (Option-cases (find_view t s.views)) [
        | inl absent ↦
            let v = next_view lower ev (first_view ev t) in
            let new' = find_view-none t s.views absent in
            let new : has_row t s.order ≡ false = let r = h.rows in ap (has_row t) (sym r) ∙ new' in
            let p = put_view-none t v s.views new' in
            rw (absent, fold_event)
              (record {
                rows = let r = h.rows in p ∙ ap (λ x. x ++ (t ∷ [])) r;
                distinct = let d = h.distinct in are_distinct-snoc t s.order new d;
                placed = let pl = h.placed in put_view-are_placed t v s.views refl pl;
              })
        | inr (v, present) ↦
            let w = next_view lower ev v in
            let e = let pl = h.placed in find_view-place_of t v s.views pl present in
            let p = put_view-some t w v s.views present in
            rw (present, fold_event)
              (record {
                rows = let r = h.rows in p ∙ r;
                distinct = h.distinct;
                placed = let pl = h.placed in put_view-are_placed t w s.views e pl;
              })
      ]

  fold_events-IsFolded :
      (events : List (JobEvent F)) (s : Folding F)
      → IsFolded s
      → IsFolded (fold_events lower events s)
  unfolding fold_events
  fold_events-IsFolded [] s h = h
  fold_events-IsFolded (ev ∷ events) s h =
      fold_events-IsFolded events (fold_event lower ev s) (fold_event-IsFolded ev s h)

module _ {F : Type 0} where
  map-in_order :
      (views : List (Triple × JobView F)) (order : List Triple)
      → are_placed views ≡ true
      → ((u : Triple) → has_row u order ≡ true → has_row u (rows_of views) ≡ true)
      → map place_of (in_order views order) ≡ order
  unfolding in_order has_row
  map-in_order views [] placed known = refl
  map-in_order views (t ∷ order) placed known =
      let rest = map-in_order views order placed (λ u h. known u (ground (arith, h))) in
      elim (Option-cases (find_view t views)) [
        | inr (v, present) ↦
            let e = find_view-place_of t v views placed present in
            let head : in_order views (t ∷ order) ≡ v ∷ in_order views order =
              ground (arith, present) in
            ap (map place_of) head
            ∙ ap (λ x. x ∷ map place_of (in_order views order)) e
            ∙ ap (λ x. t ∷ x) rest
        | inl absent ↦
            let listed = known t (ground (arith, same_triple_refl t)) in
            let missing = find_view-none t views absent in ground (arith, listed, missing)
      ]

module _ {F : Type 0} (lower : String → String) where
  -- The rows of the folded log are those that the loop has met, in the order of the first event of each.
  rows-fold :
      (events : List (JobEvent F))
      → map place_of (fold lower events) ≡ (fold_events lower events start).order
  unfolding fold start rows_of are_distinct are_placed
  rows-fold events =
      let s = fold_events lower events start in
      let h =
        fold_events-IsFolded lower events start
          (record { rows = refl; distinct = refl; placed = refl }) in
      map-in_order s.views s.order (let p = h.placed in p)
        (λ u listed. let r = h.rows in ap (has_row u) r ∙ listed)

  order-fold_event :
      (ev : JobEvent F) (s : Folding F)
      → (new : List Triple) × ((fold_event lower ev s).order ≡ s.order ++ new)
  unfolding fold_event
  order-fold_event ev s = elim (Option-cases (find_view (row_of ev s) s.views)) [
    | inl absent ↦ (row_of ev s ∷ [], rw (absent, fold_event) refl)
    | inr (v, present) ↦ ([], rw (present, fold_event) (sym (append-nil s.order)))
  ]

  order-fold_events :
      (events : List (JobEvent F)) (s : Folding F)
      → (new : List Triple) × ((fold_events lower events s).order ≡ s.order ++ new)
  unfolding fold_events
  order-fold_events [] s = ([], sym (append-nil s.order))
  order-fold_events (ev ∷ events) s =
      let (one, e) = order-fold_event ev s in
      let (more, e') = order-fold_events events (fold_event lower ev s) in
      (one ++ more, e' ∙ ap (λ x. x ++ more) e ∙ append_assoc s.order one more)

  fold_events-++ :
      (events more : List (JobEvent F)) (s : Folding F)
      → fold_events lower (events ++ more) s ≡ fold_events lower more (fold_events lower events s)
  unfolding fold_events
  fold_events-++ [] more s = refl
  fold_events-++ (ev ∷ events) more s = fold_events-++ events more (fold_event lower ev s)

  -- No two views of the folded log have the same site, lane and link, and when the log grows, the rows
  -- that were there keep their places: new rows come after them.
  pub fold_rows :
      (events more : List (JobEvent F))
      → (are_distinct (map place_of (fold lower events)) ≡ true)
        × ((new : List Triple) × (map place_of (fold lower (events ++ more))
              ≡ map place_of (fold lower events) ++ new))
  unfolding start rows_of are_distinct are_placed
  fold_rows events more =
      let s = fold_events lower events start in
      let h =
        fold_events-IsFolded lower events start
          (record { rows = refl; distinct = refl; placed = refl }) in
      let rows = rows-fold events in
      let (new, e) = order-fold_events more s in
      (
        (let d = h.distinct in ap are_distinct rows ∙ d),
        (
          new,
          rows-fold (events ++ more)
              ∙ ap Folding.order (fold_events-++ events more start)
              ∙ e
              ∙ ap (λ x. x ++ new) (sym rows),
        ),
      )
