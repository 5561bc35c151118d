-- ===== src/Central/Global/Books.antt =====
-- The books of src/pww/central/globalstate.py: whose tokens have been merged.
use project_world_wide.Prelude.{
  ℕ, ◌+◌, ◌≡◌, refl, sym, ap, ◌∙◌, Bool, false, not, ◌||◌, ◌==◌, none, some, ◌&&◌, String, List, [],
  ◌∷◌, arith, if◌then◌else◌, Bool-cases, Option-cases, inl, inr, sum_by,
}
use project_world_wide.Prelude.Dict.{Dict, lookup, sum_values, sum_values-put, sum_values-put_new}
use project_world_wide.Central.Global.{
  Contribution, ClusterRecord, GlobalState, note_seen, note_stale,
}
use project_world_wide.Central.Global.Merging.{is_stale, sift, credit}

-- The tokens of all clusters.
abbrev pub tokens_of : Dict ClusterRecord → ℕ
tokens_of clusters = sum_values (λ r. r.tokens_total) clusters

-- All but the clusters' records is as before, and so is the sum of their tokens.
pub record IsNoted {T : Type 0} (s t : GlobalState T) : Type 0 where
  pub round : t.round ≡ s.round
  pub global_step : t.global_step ≡ s.global_step
  pub keys : t.keys ≡ s.keys
  pub total_tokens : t.total_tokens ≡ s.total_tokens
  pub global_file : t.global_file ≡ s.global_file
  pub momentum_file : t.momentum_file ≡ s.momentum_file
  pub saved : t.saved ≡ s.saved
  pub tokens : tokens_of t.clusters ≡ tokens_of s.clusters

module _ {T : Type 0} where
  -- A cluster that is seen adds the tokens that its record is credited with.
  tokens_of-note_seen :
      (cluster : String) (change : ClusterRecord → ClusterRecord) (n : ℕ) (s : GlobalState T)
      → ((r : ClusterRecord) → (change r).tokens_total ≡ r.tokens_total + n)
      → tokens_of (note_seen cluster change s).clusters ≡ tokens_of s.clusters + n
  unfolding note_seen
  tokens_of-note_seen cluster change n s h = elim (Option-cases (lookup cluster s.clusters)) [
    | inl new ↦
        let r : ClusterRecord = record {
          first_seen_round = s.round;
          last_seen_round = s.round;
          rounds_contributed = 0;
          tokens_total = 0;
          stale_rejected = 0;
        } in
        let grown = sum_values-put_new (λ r. r.tokens_total) cluster (change r) s.clusters new in
        rw (new, note_seen) (omega (arith, grown, h r))
    | inr (r, known) ↦
        let r' = record r { last_seen_round = s.round } in
        let grown = sum_values-put (λ r. r.tokens_total) cluster (change r') r s.clusters known in
        rw (known, note_seen) (omega (arith, grown, h r'))
  ]

  pub same-IsNoted : (s : GlobalState T) → IsNoted s s
  same-IsNoted s = record {
    round = refl;
    global_step = refl;
    keys = refl;
    total_tokens = refl;
    global_file = refl;
    momentum_file = refl;
    saved = refl;
    tokens = refl;
  }

  IsNoted-trans : (s t u : GlobalState T) → IsNoted s t → IsNoted t u → IsNoted s u
  IsNoted-trans s t u h k = record {
    round = k.round ∙ h.round;
    global_step = k.global_step ∙ h.global_step;
    keys = k.keys ∙ h.keys;
    total_tokens = k.total_tokens ∙ h.total_tokens;
    global_file = k.global_file ∙ h.global_file;
    momentum_file = k.momentum_file ∙ h.momentum_file;
    saved = k.saved ∙ h.saved;
    tokens = k.tokens ∙ h.tokens;
  }

  pub note_stale-IsNoted : (cluster : String) (s : GlobalState T) → IsNoted s (note_stale cluster s)
  unfolding note_stale note_seen
  note_stale-IsNoted cluster s = record {
    round = refl;
    global_step = refl;
    keys = refl;
    total_tokens = refl;
    global_file = refl;
    momentum_file = refl;
    saved = refl;
    tokens =
        let same =
          tokens_of-note_seen cluster (λ r. record r { stale_rejected = r.stale_rejected + 1 }) 0 s
            (λ r. omega arith) in
        omega (arith, same);
  }

module _ {F : Type 0} where
  -- The contributions that count: all of them, or those for the current round.
  unfoldable pub fresh_of : Bool → ℕ → List (Contribution F) → List (Contribution F)
  fresh_of strict round [] = []
  fresh_of strict round (c ∷ items) =
      let is_current : Bool = elim c.base_round [ none ↦ false | some b ↦ b == round ] in
      if is_current || not strict
      then c ∷ fresh_of strict round items
      else fresh_of strict round items

  -- A contribution is rejected as stale exactly if it is not one that counts.
  is_stale_lem :
      (strict : Bool) (round : ℕ) (c : Contribution F) (items : List (Contribution F))
      → fresh_of strict round (c ∷ items) ≡ (
          if strict && is_stale round c
          then fresh_of strict round items
          else c ∷ fresh_of strict round items)
  unfolding fresh_of is_stale
  is_stale_lem strict round c items = elim (Option-cases c.base_round) [
    | inl none_given ↦ ground (arith, none_given)
    | inr (b, given) ↦ ground (arith, given)
  ]

module _ {F T : Type 0} where
  pub sift_lem :
      (strict : Bool) (items : List (Contribution F)) (s : GlobalState T)
      → ((sift strict items s).0 ≡ fresh_of strict s.round items)
        × IsNoted s (sift strict items s).1
  unfolding sift fresh_of
  sift_lem strict [] s = (refl, same-IsNoted s)
  sift_lem strict (c ∷ items) s =
      let split = is_stale_lem strict s.round c items in
      elim (Bool-cases (strict && is_stale s.round c)) [
        | inl stale ↦
            let noted = note_stale-IsNoted c.cluster s in
            let rest = sift_lem strict items (note_stale c.cluster s) in
            let e = noted.round in
            let same : fresh_of strict s.round (c ∷ items) ≡ fresh_of strict s.round items =
              split ∙ rw stale refl in
            rw (stale, sift)
              (
                rest.0 ∙ ap (λ r. fresh_of strict r items) e ∙ sym same,
                IsNoted-trans s _ _ noted rest.1,
              )
        | inr kept ↦
            let rest = sift_lem strict items s in
            let same : fresh_of strict s.round (c ∷ items) ≡ c ∷ fresh_of strict s.round items =
              split ∙ rw kept refl in
            rw (kept, sift) (ap (λ x. c ∷ x) rest.0 ∙ sym same, rest.1)
      ]

  pub credit_lem :
      (items : List (Contribution F)) (s : GlobalState T)
      → (tokens_of (credit items s).clusters ≡ tokens_of s.clusters + sum_by (λ c. c.tokens) items)
        × ((credit items s).total_tokens ≡ s.total_tokens + sum_by (λ c. c.tokens) items)
        × ((credit items s).round ≡ s.round)
        × ((credit items s).global_step ≡ s.global_step)
        × ((credit items s).keys ≡ s.keys)
        × ((credit items s).global_file ≡ s.global_file)
        × ((credit items s).momentum_file ≡ s.momentum_file)
  unfolding credit note_seen
  credit_lem [] s = (omega arith, omega arith, refl, refl, refl, refl, refl)
  credit_lem (c ∷ items) s =
      let add = λ (r : ClusterRecord). record r {
        rounds_contributed = r.rounds_contributed + 1;
        tokens_total = r.tokens_total + c.tokens;
      } in
      let seen = note_seen c.cluster add s in
      let rest = credit_lem items (record seen { total_tokens = s.total_tokens + c.tokens }) in
      let one = tokens_of-note_seen c.cluster add c.tokens s (λ r. refl) in
      (omega (arith, rest, one), omega (arith, rest), rest.2, rest.3, rest.4, rest.5, rest.6)
