-- ===== src/Central/Driver/Complete.antt =====
-- Every cluster that is asked in a round of src/pww/central/httpround.py is accounted for.
use project_world_wide.Prelude.{
  ℕ, ◌≡◌, refl, sym, Bool, true, false, ◌&&◌, ◌||◌, ◌⊎◌, String, some, none, List, [], ◌∷◌, arith,
  if◌then◌else◌, str_eq, eq_iff, Bool-cases, inl, inr, ◌∙◌, ap, subst,
}
use project_world_wide.Prelude.Dict.{Dict, put, lookup}
use project_world_wide.Darl.Floats.{Floats}
use project_world_wide.Central.Members.{has}
use project_world_wide.Central.Round.{
  Kind, idle, Reason, silent, late, Payload, RoundState, has_key, has_answered, open_round, submit,
  poll, wait,
}
use project_world_wide.Central.Round.Laws.{has_key-put, is_awaited, submit_outcome, poll_answered}
use project_world_wide.Central.Driver.{Wake, arrive, is_over, wait_for_all, fill_missing, collect}

-- Two filled options.
some_inj : {A : Type 0} {x y : A} → some x ≡ some y → x ≡ y
some_inj e = cc e

-- Whether a submission is in a list, and whether it is one of those that come while the driver waits.
abbrev pub IsIn : {A : Type 0} → A → List A → Type 0
IsIn x [] = ⊥
IsIn x (y ∷ ys) = (x ≡ y) ⊎ IsIn x ys

abbrev pub WasSent : {F P : Type 0} → String × ℕ × Payload P → List (Wake F P) → Type 0
WasSent x [] = ⊥
WasSent x (w ∷ wakes) = IsIn x w.arrivals ⊎ WasSent x wakes

-- Only clusters that were asked have answered, and every result was sent for this round and is ok.
pub record IsAsked {C P : Type 0} (clusters : List String) (server_round : ℕ)
    (Sent : String × ℕ × Payload P → Type 0) (s : RoundState C P) : Type 0 where
  pub expected : s.expected ≡ clusters
  pub current : s.server_round ≡ server_round
  pub known : (c : String) → has_answered c s ≡ true → has c clusters ≡ true
  pub sent :
      (c : String) (p : Payload P)
      → lookup c s.results ≡ some p
      → (p.is_ok ≡ true) × Sent (c, server_round, p)

module _ {C P : Type 0} (clusters : List String) (round : ℕ)
    (Sent : String × ℕ × Payload P → Type 0) where
  submit-IsAsked :
      (cluster : String) (server_round : ℕ) (payload : Payload P) (s : RoundState C P)
      → Sent (cluster, server_round, payload)
      → IsAsked clusters round Sent s
      → IsAsked clusters round Sent (submit cluster server_round payload s).1
  submit-IsAsked cluster server_round payload s new_one h =
      let o = submit_outcome cluster server_round payload s in
      let accepted = (submit cluster server_round payload s).0 in
      record {
        expected = let e = h.expected in o.2 ∙ e;
        current = let e = h.current in o.3 ∙ e;
        known = λ c a. elim (Bool-cases (has_answered c s)) [
          | inl before ↦ h.known c before
          | inr new ↦
              let now = sym (o.4 c) ∙ a in
              let asked : is_awaited cluster server_round s ≡ true =
                ground (arith, now, new, o.0) in
              let same : str_eq cluster c ≡ true = ground (arith, now, new) in
              let e : cluster ≡ c = (eq_iff cluster c).0 same in
              let listed : has cluster s.expected ≡ true = ground (arith, asked) in
              let e' = h.expected in
              ap (λ x. has x clusters) (sym e) ∙ ap (has cluster) (sym e') ∙ listed
        ];
        sent = λ c p there.
            let got = sym (o.5 c) ∙ there in
            elim (Bool-cases (accepted && payload.is_ok && str_eq cluster c)) [
              | inr other ↦ h.sent c p (ground (arith, got, other))
              | inl own ↦
                  let same : payload ≡ p = some_inj (ground (arith, got, own)) in
                  let fine : payload.is_ok ≡ true = ground (arith, own) in
                  let name : cluster ≡ c = (eq_iff cluster c).0 (ground (arith, own)) in
                  let on_time : server_round ≡ round =
                    let e = h.current in let e' = o.0 in ground (arith, own, e, e') in
                  (
                    ap (λ q. q.is_ok) (sym same) ∙ fine,
                    subst (λ x. Sent (x, round, p)) name
                        (subst (λ n. Sent (cluster, n, p)) on_time
                          (subst (λ q. Sent (cluster, server_round, q)) same new_one)),
                  )
            ];
      }

  arrive-IsAsked :
      (arrivals : List (String × ℕ × Payload P)) (s : RoundState C P)
      → ((x : String × ℕ × Payload P) → IsIn x arrivals → Sent x)
      → IsAsked clusters round Sent s
      → IsAsked clusters round Sent (arrive arrivals s)
  unfolding arrive
  arrive-IsAsked [] s all_sent h = h
  arrive-IsAsked ((cluster, server_round, payload) ∷ arrivals) s all_sent h =
      arrive-IsAsked arrivals (submit cluster server_round payload s).1 (λ x k. all_sent x (inr k))
        (submit-IsAsked cluster server_round payload s
          (all_sent (cluster, server_round, payload) (inl refl)) h)

module _ {F C P : Type 0} ⦃fl : Floats F⦄ (clusters : List String) (round : ℕ)
    (Sent : String × ℕ × Payload P → Type 0) where
  wait_for_all-IsAsked :
      (deadline : F) (wakes : List (Wake F P)) (s : RoundState C P)
      → ((x : String × ℕ × Payload P) → WasSent x wakes → Sent x)
      → IsAsked clusters round Sent s
      → IsAsked clusters round Sent (wait_for_all deadline wakes s)
  unfolding wait_for_all
  wait_for_all-IsAsked deadline [] s all_sent h = h
  wait_for_all-IsAsked deadline (w ∷ wakes) s all_sent h =
      let s' = arrive w.arrivals s in
      let h' = arrive-IsAsked clusters round Sent w.arrivals s (λ x k. all_sent x (inl k)) h in
      elim (Bool-cases (is_over deadline w s')) [
        | inl over ↦ rw over h'
        | inr more ↦ rw more (wait_for_all-IsAsked deadline wakes s' (λ x k. all_sent x (inr k)) h')
      ]

module _ {C P : Type 0} where
  -- Whatever else is submitted, a cluster that has answered has answered.
  arrive-answered :
      (cluster : String) (arrivals : List (String × ℕ × Payload P)) (s : RoundState C P)
      → has_answered cluster s ≡ true
      → (has_answered cluster (arrive arrivals s) ≡ true)
        × ((arrive arrivals s).finished ≡ s.finished)
  unfolding arrive
  arrive-answered cluster [] s h = (h, refl)
  arrive-answered cluster ((c, n, payload) ∷ arrivals) s h =
      let o = submit_outcome c n payload s in
      let rest =
        arrive-answered cluster arrivals (submit c n payload s).1
          (ground (arith, o.4 cluster, h)) in
      (rest.0, rest.1 ∙ o.9)

  -- A cluster whose result was accepted is not given the round's work again, however many results of any
  -- cluster are submitted in the meantime: its polls are held, or told to wait once they are due.
  pub poll-arrive-submit :
      (cluster : String) (server_round : ℕ) (payload : Payload P) (s : RoundState C P)
      (arrivals : List (String × ℕ × Payload P)) (is_due : Bool)
      → s.finished ≡ false
      → is_awaited cluster server_round s ≡ true
      → let later = arrive arrivals (submit cluster server_round payload s).1 in
        poll cluster is_due later ≡ (if is_due then some wait else none, later)
  poll-arrive-submit cluster server_round payload s arrivals is_due running awaited =
      let o = submit_outcome cluster server_round payload s in
      let self : str_eq cluster cluster ≡ true = (eq_iff cluster cluster).1 refl in
      let answered =
        arrive-answered cluster arrivals (submit cluster server_round payload s).1
          (ground (arith, o.4 cluster, o.0, awaited, self)) in
      poll_answered cluster (arrive arrivals (submit cluster server_round payload s).1) is_due
        (answered.1 ∙ o.9 ∙ running) answered.0

has_key-fill_missing :
    {P : Type 0} (c : String) (live_now clusters : List String) (got : Dict (Payload P))
    (bad : Dict Reason)
    → (has_key c got || has_key c (fill_missing live_now clusters got bad))
      ≡ (has_key c got || has_key c bad || has c clusters)
unfolding fill_missing has
has_key-fill_missing c live_now [] got bad = ground arith
has_key-fill_missing c live_now (d ∷ clusters) got bad =
    let reason = if has d live_now then late else silent in
    elim (Bool-cases (has_key d got || has_key d bad)) [
      | inl there ↦ rw there (
          has_key-fill_missing c live_now clusters got bad ∙ (elim (Bool-cases (str_eq d c)) [
            | inr other ↦ rw other refl
            | inl same ↦
                let e : d ≡ c = (eq_iff d c).0 same in
                let there' : (has_key c got || has_key c bad) ≡ true =
                  ap (λ x. has_key x got || has_key x bad) (sym e) ∙ there in
                ground (arith, there')
          ]))
      | inr missing ↦ rw missing (
          has_key-fill_missing c live_now clusters got (put d reason bad)
          ∙ ground (arith, has_key-put d c reason bad))
    ]

module _ {F C P : Type 0} ⦃fl : Floats F⦄ where
  -- Whatever arrives while the driver waits, and whenever the waiting ends, the clusters with a result
  -- or a failure are exactly those that were asked: none is forgotten, and no stranger gets in. Each result
  -- is ok and was sent by its cluster for this round, none for another. Afterwards no work is open.
  pub collect_complete :
      (kind : Kind) (server_round : ℕ) (config : C) (clusters : List String) (deadline : F)
      (wakes : List (Wake F P)) (live_now : List String) (s : RoundState C P)
      → let (answers, after) =
          collect kind server_round config clusters deadline wakes live_now s in
        ((c : String) → (has_key c answers.0 || has_key c answers.1) ≡ has c clusters)
        × (after.kind ≡ idle)
        × (after.expected ≡ [])
        × ((c : String) (p : Payload P)
            → lookup c answers.0 ≡ some p
            → (p.is_ok ≡ true) × WasSent (c, server_round, p) wakes)
  unfolding collect lookup
  collect_complete kind server_round config clusters deadline wakes live_now s =
      let opened = open_round server_round kind config clusters s in
      let waited = wait_for_all deadline wakes opened in
      let Sent = λ (x : String × ℕ × Payload P). WasSent x wakes in
      let h =
        wait_for_all-IsAsked clusters server_round Sent deadline wakes opened (λ x k. k)
          opened-IsAsked in
      (
        (λ c.
            has_key-fill_missing c live_now clusters waited.results waited.failures
            ∙ (elim (Bool-cases (has_answered c waited)) [
              | inl answered ↦
                  let listed = h.known c answered in rw listed (ground (arith, answered))
              | inr nothing ↦ ground (arith, nothing)
            ])),
        refl,
        refl,
        (λ c p there. h.sent c p there),
      )
    where
      opened-IsAsked :
          IsAsked clusters server_round
            (λ x. WasSent x wakes)
            (open_round server_round kind config clusters s)
      opened-IsAsked = record {
        expected = refl;
        current = refl;
        known = λ c a. cc;
        sent = λ c p e. absurd (cc e);
      }
