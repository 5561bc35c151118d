-- ===== src/Central/Members/Live.antt =====
-- Who takes part in a round (src/pww/central/httpround.py).
use project_world_wide.Prelude.{
  ℕ, zero, suc, ◌≤◌, ◌≡◌, refl, sym, true, ◌||◌, String, List, [], ◌∷◌, arith, length, str_eq,
  eq_iff, Bool-cases, inl, inr, ◌∙◌, ap,
}
use project_world_wide.Prelude.Dict.{Dict, put}
use project_world_wide.Darl.Floats.{Floats}
use project_world_wide.Central.Members.{
  Manager, has, insert_name, sorted, first, touch, recent, live, sample,
}

has-insert_name :
    (c name : String) (names : List String)
    → has c (insert_name name names) ≡ (str_eq name c || has c names)
unfolding has insert_name
has-insert_name c name [] = refl
has-insert_name c name (other ∷ names) = ground (arith, has-insert_name c name names)

-- Sorting neither drops nor adds a name.
has-sorted : (c : String) (names : List String) → has c (sorted names) ≡ has c names
unfolding has sorted
has-sorted c [] = refl
has-sorted c (name ∷ names) =
    ground (arith, has-insert_name c name (sorted names), has-sorted c names)

length-insert_name :
    (name : String) (names : List String) → length (insert_name name names) ≡ suc (length names)
unfolding insert_name
length-insert_name name [] = refl
length-insert_name name (other ∷ names) = ground (arith, length-insert_name name names)

length-first : (n : ℕ) (names : List String) → length (first n names) ≤ n
unfolding first
length-first zero names = omega arith
length-first (suc n) [] = omega arith
length-first (suc n) (name ∷ names) = omega (arith, length-first n names)

has-first :
    (n : ℕ) (c : String) (names : List String) → has c (first n names) ≡ true → has c names ≡ true
unfolding first has
has-first zero c names h = cc
has-first (suc n) c [] h = cc
has-first (suc n) c (name ∷ names) h = ground (arith, has-first n c names)

module _ {F : Type 0} ⦃fl : Floats F⦄ where
  has-recent-put :
      (now liveness_s : F) (c d : String) (seen : Dict F)
      → fl.lt (fl.sub now now) liveness_s ≡ true
      → has d (recent now liveness_s (put c now seen))
        ≡ (str_eq c d || has d (recent now liveness_s seen))
  unfolding has recent put
  has-recent-put now liveness_s c d [] fresh = rw fresh refl
  has-recent-put now liveness_s c d ((e, t) ∷ seen) fresh =
      let rest = has-recent-put now liveness_s c d seen fresh in
      elim (Bool-cases (str_eq e c)) [
        | inl same ↦
            let k : e ≡ c = (eq_iff e c).0 same in
            let k' : str_eq e d ≡ str_eq c d = ap (λ x. str_eq x d) k in
            rw same (rw fresh (ground (arith, k')))
        | inr other ↦ rw other (ground (arith, rest))
      ]

  -- A cluster that has just polled is live, and for every other cluster the poll changes nothing, as
  -- long as no time at all is less than the liveness window.
  pub live-touch :
      (cluster d : String) (now : F) (m : Manager F)
      → fl.lt (fl.sub now now) m.liveness_s ≡ true
      → has d (live now (touch cluster now m)) ≡ (str_eq cluster d || has d (live now m))
  unfolding live touch
  live-touch cluster d now m fresh =
      has-sorted d (recent now m.liveness_s (put cluster now m.seen))
      ∙ has-recent-put now m.liveness_s cluster d m.seen fresh
      ∙ ap (λ b. str_eq cluster d || b) (sym (has-sorted d (recent now m.liveness_s m.seen)))

  -- A sample has at most as many clusters as were asked for, and only live ones.
  pub sample_bounds :
      (num_clients : ℕ) (now : F) (m : Manager F)
      → (length (sample num_clients now m) ≤ num_clients)
        × ((c : String) → has c (sample num_clients now m) ≡ true → has c (live now m) ≡ true)
  unfolding sample
  sample_bounds num_clients now m =
      (length-first num_clients (live now m), λ c. has-first num_clients c (live now m))
