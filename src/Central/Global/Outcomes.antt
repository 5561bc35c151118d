-- ===== src/Central/Global/Outcomes.antt =====
-- What `merge` of src/pww/central/globalstate.py does on every branch, and along any history.
use project_world_wide.Prelude.{
  ℕ, ◌+◌, ◌≤◌, max, leb, Bool-cases, ◌≡◌, refl, sym, ap, ◌∙◌, subst, Bool, String, Option, none,
  some, List, [], ◌∷◌, map, sum_by, Result, ok, err, Error, stale_contribution, Outcome, inl, inr,
  ◌⊎◌, arith,
}
use project_world_wide.Prelude.Dict.{Dict}
use project_world_wide.Darl.Floats.{Floats}
use project_world_wide.Central.Global.{
  Formats, Tensors, TensorDict, Contribution, Meta, GlobalState, keys_of, save_meta,
}
use project_world_wide.Central.Global.Merging.{
  sift, credit, most_steps, new_files, adopt_files, settle, merge_fresh, merge,
}
use project_world_wide.Central.Global.Books.{
  tokens_of, IsNoted, same-IsNoted, fresh_of, sift_lem, credit_lem,
}
use project_world_wide.Central.Global.Fedmom.{Fits}
use project_world_wide.Central.Global.Merge.{IsRefusal, merged_files, new_files_lem}

abbrev pub AreBooked : Option Meta → Type 0
AreBooked none = Unit {0}
AreBooked (some m) = tokens_of m.clusters ≡ m.total_tokens

-- The books balance, in memory and on disk, and the momentum fits the global model.
pub record IsGlobal {T : Type 0} (s : GlobalState T) : Type 0 where
  pub books : tokens_of s.clusters ≡ s.total_tokens
  pub saved : AreBooked s.saved
  pub momentum : Fits s.momentum_file s.global_file

IsNoted-IsGlobal : {T : Type 0} (s t : GlobalState T) → IsNoted s t → IsGlobal s → IsGlobal t
IsNoted-IsGlobal s t h k = record {
  books = let a = h.tokens in let b = h.total_tokens in let c = k.books in omega (arith, a, b, c);
  saved = let e = h.saved in let c = k.saved in subst AreBooked (sym e) c;
  momentum =
      let a = h.momentum_file in
      let b = h.global_file in
      let c = k.momentum in
      subst (λ x. Fits x t.global_file) (sym a) (subst (λ x. Fits s.momentum_file x) (sym b) c);
}

pub keys_of-map :
    {V : Type 0} (f : String × V → String × V) (d : Dict V)
    → ((k : String) (v : V) → (f (k, v)).0 ≡ k)
    → keys_of (map f d) ≡ keys_of d
unfolding keys_of
keys_of-map f [] h = refl
keys_of-map f ((k, v) ∷ d) h = cc (h k v, keys_of-map f d h)

module _ {F : Type 0} where
  abbrev pub AreAtMost : ℕ → List (Contribution F) → Type 0
  AreAtMost n [] = Unit {0}
  AreAtMost n (c ∷ items) = (c.steps ≤ n) × AreAtMost n items

  abbrev pub IsAttained : ℕ → List (Contribution F) → Type 0
  IsAttained n [] = n ≡ 0
  IsAttained n (c ∷ items) = (c.steps ≡ n) ⊎ IsAttained n items

  AreAtMost-le :
      (n m : ℕ) (items : List (Contribution F)) → n ≤ m → AreAtMost n items → AreAtMost m items
  AreAtMost-le n m [] le h = tt
  AreAtMost-le n m (c ∷ items) le (one, rest) = (omega arith, AreAtMost-le n m items le rest)

  most_steps_lem :
      (items : List (Contribution F))
      → AreAtMost (most_steps items) items × IsAttained (most_steps items) items
  unfolding most_steps
  most_steps_lem [] = (tt, refl)
  most_steps_lem (c ∷ items) =
      let (below, at) = most_steps_lem items in
      let n = most_steps items in
      let Longest = λ (m : ℕ). AreAtMost m (c ∷ items) × IsAttained m (c ∷ items) in
      elim (Bool-cases (leb c.steps n)) [
        | inl le ↦
            let same : max c.steps n ≡ n = ground (arith, le) in
            let small : c.steps ≤ n = ground (arith, le) in
            subst Longest (sym same) ((small, below), inr at)
        | inr gt ↦
            let same : max c.steps n ≡ c.steps = ground (arith, gt) in
            let small : n ≤ c.steps = ground (arith, gt) in
            subst Longest (sym same)
              ((omega arith, AreAtMost-le n c.steps items small below), inl refl)
      ]

module _ {F T : Type 0} ⦃fl : Floats F⦄ ⦃fm : Formats T⦄ ⦃ts : Tensors F T⦄ (lr beta : F) where
  -- The fresh contributions are merged once, into the next round, whose phase is their longest.
  pub record IsMerged (fresh : List (Contribution F)) (blobs : Dict (TensorDict T))
      (s : GlobalState T) (n : ℕ) (t : GlobalState T) : Type 0 where
    pub model : TensorDict T
    pub was : s.global_file ≡ some model
    pub weights : t.global_file ≡ some (merged_files lr beta fresh blobs s.momentum_file model).0
    pub velocity : t.momentum_file ≡ some (merged_files lr beta fresh blobs s.momentum_file model).1
    pub next_round : n ≡ s.round + 1
    pub round : t.round ≡ n
    pub phase : ℕ
    pub longest : AreAtMost phase fresh
    pub attained : IsAttained phase fresh
    pub global_step : t.global_step ≡ s.global_step + phase
    pub total_tokens : t.total_tokens ≡ s.total_tokens + sum_by (λ c. c.tokens) fresh
    pub keys : t.keys ≡ s.keys
    pub saved :
        t.saved
        ≡ some (record {
          round = t.round;
          global_step = t.global_step;
          keys = t.keys;
          total_tokens = t.total_tokens;
          clusters = t.clusters;
        })

  -- Which exceptions there are, and that they leave everything but the notes on stale clusters.
  abbrev pub IsRefused : List (Contribution F) → GlobalState T → GlobalState T → Error → Type 0
  IsRefused fresh s t e = (((e ≡ stale_contribution) × (fresh ≡ [])) ⊎ IsRefusal e) × IsNoted s t

  abbrev pub IsOutcome :
      List (Contribution F)
      → Dict (TensorDict T)
      → GlobalState T
      → Result ℕ × GlobalState T
      → Type 0
  IsOutcome fresh blobs s a =
      Outcome a.0 (λ n. IsMerged fresh blobs s n a.1) (IsRefused fresh s a.1) × IsGlobal a.1

  settle_lem :
      (fresh : List (Contribution F)) (blobs : Dict (TensorDict T)) (s noted : GlobalState T)
      (m : Result (TensorDict T × TensorDict T))
      → IsNoted s noted
      → IsGlobal noted
      → Outcome m
          (λ files.
            (g : TensorDict T) × (noted.global_file ≡ some g)
            × (files ≡ merged_files lr beta fresh blobs noted.momentum_file g))
          IsRefusal
      → IsOutcome fresh blobs s (settle fresh m noted)
  unfolding adopt_files save_meta
  settle_lem fresh blobs s noted (err e) h k refused = ((inr refused, h), k)
  settle_lem fresh blobs s noted (ok files) h k (g, there, written) =
      let start = record noted { global_file = some (files.0); momentum_file = some (files.1) } in
      let booked = credit_lem fresh start in
      let before = merged_files lr beta fresh blobs noted.momentum_file g in
      let same = h.momentum_file in
      let now : files ≡ merged_files lr beta fresh blobs s.momentum_file g =
        written ∙ ap (λ m. merged_files lr beta fresh blobs m g) same in
      let round = h.round in
      let step = h.global_step in
      let total = h.total_tokens in
      let known = h.keys in
      let was = h.global_file in
      let books = k.books in
      (
        record {
          model = g;
          was = sym was ∙ there;
          weights = booked.5 ∙ ap (λ f. some (f.0)) now;
          velocity = booked.6 ∙ ap (λ f. some (f.1)) now;
          next_round = omega (arith, booked, round);
          round = refl;
          phase = most_steps fresh;
          longest = (most_steps_lem fresh).0;
          attained = (most_steps_lem fresh).1;
          global_step = omega (arith, booked, step);
          total_tokens = omega (arith, booked, total);
          keys = booked.4 ∙ known;
          saved = refl;
        },
        record {
          books = omega (arith, booked, books);
          saved = omega (arith, booked, books);
          momentum =
              subst (λ x. Fits (credit fresh start).momentum_file x) (sym booked.5)
                (subst (λ x. Fits x (some (files.0))) (sym booked.6)
                  (ap (λ f. keys_of f.1) written
                    ∙ keys_of-map _ g (λ k v. refl)
                    ∙ sym (keys_of-map _ g (λ k v. refl))
                    ∙ sym (ap (λ f. keys_of f.0) written)));
        },
      )

  merge_fresh_lem :
      (fresh : List (Contribution F)) (blobs : Dict (TensorDict T)) (s noted : GlobalState T)
      → IsNoted s noted
      → IsGlobal noted
      → IsOutcome fresh blobs s (merge_fresh lr beta fresh blobs noted)
  unfolding merge_fresh
  merge_fresh_lem [] blobs s noted h k = ((inl (refl, refl), h), k)
  merge_fresh_lem (c ∷ fresh) blobs s noted h k =
      settle_lem (c ∷ fresh) blobs s noted (new_files lr beta (c ∷ fresh) blobs noted) h k
        (new_files_lem lr beta (c ∷ fresh) blobs noted k.momentum)

  -- From balanced books and momentum that fits, a merge takes exactly the contributions that are for
  -- the current round, if it is strict, and all otherwise: each tensor of the model becomes FedMom's,
  -- the round is the next, the tokens add up and the step counter grows by the longest phase. Or it
  -- raises, for no other reason than that no contribution is fresh, that a weight, a key, a shape or a file is
  -- wrong, and then nothing changes but the notes on stale clusters. The books balance either way.
  pub merge-IsOutcome :
      (strict : Bool) (items : List (Contribution F)) (blobs : Dict (TensorDict T))
      (s : GlobalState T)
      → IsGlobal s
      → IsOutcome (fresh_of strict s.round items) blobs s (merge lr beta strict items blobs s)
  unfolding merge fresh_of
  merge-IsOutcome strict [] blobs s h = ((inr (inl refl), same-IsNoted s), h)
  merge-IsOutcome strict (c ∷ items) blobs s h =
      let sifted = sift_lem strict (c ∷ items) s in
      let noted = (sift strict (c ∷ items) s).1 in
      subst
        (λ fresh.
          IsOutcome fresh blobs s (merge_fresh lr beta (sift strict (c ∷ items) s).0 blobs noted))
        sifted.0
        (merge_fresh_lem (sift strict (c ∷ items) s).0 blobs s noted sifted.1
          (IsNoted-IsGlobal s noted sifted.1 h))
