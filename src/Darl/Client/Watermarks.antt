-- ===== src/Darl/Client/Watermarks.antt =====
-- How the watermarks of a span lie in src/pww/darl/client.py, whatever the order of the session's steps.
use project_world_wide.Prelude.{
  ℕ, ◌≤◌, ◌<◌, ◌≡◌, refl, sym, ap, subst, ◌∙◌, true, false, String, Option, none, some, List, [],
  ◌∷◌, ltb, if◌then◌else◌, str_eq, eq_iff, min, arith, Bool-cases, Option-cases, inl, inr,
}
use project_world_wide.Prelude.Dict.{Dict, lookup, put, lookup-put}
use project_world_wide.Darl.Client.{
  Span, Session, pop, LeaseInfo, cut_span, apply_lease, apply_leases, apply_reply, note_consumed,
  begin_commit, CommitAnswer, gone, settled, on_answer, end_commit,
}

-- The watermarks of a span are in order.
pub record IsSpan (v : Span) : Type 0 where
  pub begun : v.start ≤ v.committed
  pub settled_first : v.committed ≤ v.consumed
  pub inside : v.consumed ≤ v.end

-- Of all spans of a session.
pub record AreSpans (s : Session) : Type 0 where
  pub each : (i : String) (v : Span) → lookup i s.spans ≡ some v → IsSpan v

-- A commit whose request is under way does not reach behind what is consumed of its span.
pub record IsPending (i : String) (through : ℕ) (s : Session) : Type 0 where
  pub within : (v : Span) → lookup i s.spans ≡ some v → (v.start ≤ through) × (through ≤ v.consumed)

lookup-pop :
    (i j : String) (d : Dict Span) → lookup j (pop i d) ≡ (if str_eq i j then none else lookup j d)
unfolding lookup pop
lookup-pop i j [] = ground arith
lookup-pop i j ((k, w) ∷ d) = elim (Bool-cases (str_eq k i)) [
  | inl same ↦
      let e = (eq_iff k i).0 same in
      let e' : str_eq k j ≡ str_eq i j = ap (λ x. str_eq x j) e in
      ground (arith, lookup-pop i j d, same, e')
  | inr other ↦ elim (Bool-cases (str_eq k j)) [
    | inr elsewhere ↦ ground (arith, lookup-pop i j d, other, elsewhere)
    | inl mine ↦ elim (Bool-cases (str_eq i j)) [
      | inr apart ↦ ground (arith, other, mine, apart)
      | inl both ↦
          let e : k ≡ i = (eq_iff k j).0 mine ∙ sym ((eq_iff i j).0 both) in
          let self : str_eq k i ≡ true = (eq_iff k i).1 e in ground (arith, self, other)
    ]
  ]
]

pub put-AreSpans :
    (i : String) (w : Span) (s : Session) (t : Session)
    → t.spans ≡ put i w s.spans
    → IsSpan w
    → AreSpans s
    → AreSpans t
put-AreSpans i w s t e h k = record {
  each = λ j v found. elim (Bool-cases (str_eq i j)) [
    | inl same ↦
        let e' : w ≡ v = ground (arith, e, found, lookup-put i j w s.spans, same) in
        subst IsSpan e' h
    | inr other ↦ k.each j v (ground (arith, e, found, lookup-put i j w s.spans, other))
  ];
}

put-IsPending :
    (i j : String) (through : ℕ) (v w : Span) (s t : Session)
    → t.spans ≡ put j w s.spans
    → lookup j s.spans ≡ some v
    → w.start ≡ v.start
    → v.consumed ≤ w.consumed
    → IsPending i through s
    → IsPending i through t
put-IsPending i j through v w s t e there same_start grown h = record {
  within = λ u found. elim (Bool-cases (str_eq j i)) [
    | inl same ↦
        let k : j ≡ i = (eq_iff j i).0 same in
        let e' : w ≡ u = ground (arith, e, found, lookup-put j i w s.spans, same) in
        let old = h.within v (ap (λ x. lookup x s.spans) (sym k) ∙ there) in
        subst (λ x. (x.start ≤ through) × (through ≤ x.consumed)) e'
          (omega (arith, old, same_start), omega (arith, old, grown))
    | inr other ↦ h.within u (ground (arith, e, found, lookup-put j i w s.spans, other))
  ];
}

-- What a step that is not part of a commit keeps.
pub record IsKept (s t : Session) : Type 0 where
  pub spans : AreSpans s → AreSpans t
  pub pending : (i : String) (through : ℕ) → IsPending i through s → IsPending i through t

same-IsKept : (s : Session) → IsKept s s
same-IsKept s = record { spans = λ h. h; pending = λ i through h. h }

put-IsKept :
    (i : String) (v w : Span) (s t : Session)
    → t.spans ≡ put i w s.spans
    → lookup i s.spans ≡ some v
    → (IsSpan v → IsSpan w)
    → w.start ≡ v.start
    → v.consumed ≤ w.consumed
    → IsKept s t
put-IsKept i v w s t e there proper same_start grown = record {
  spans = λ h. put-AreSpans i w s t e (proper (h.each i v there)) h;
  pending = λ j through h. put-IsPending j i through v w s t e there same_start grown h;
}

-- A cut by the coordinator never goes below what is consumed.
cut_span-IsSpan : (o : Option ℕ) (v : Span) → IsSpan v → IsSpan (cut_span o v)
unfolding cut_span
cut_span-IsSpan none v h = h
cut_span-IsSpan (some e) v h = elim (Bool-cases (ltb e v.end)) [
  | inl less ↦
      rw (less, cut_span)
        (record { begun = h.begun; settled_first = h.settled_first; inside = omega arith })
  | inr more ↦ rw (more, cut_span) h
]

cut_span-kept :
    (o : Option ℕ) (v : Span)
    → ((cut_span o v).start ≡ v.start) × ((cut_span o v).consumed ≡ v.consumed)
unfolding cut_span
cut_span-kept none v = (refl, refl)
cut_span-kept (some e) v = (ground arith, ground arith)

pub note_consumed-IsKept :
    (i : String) (through : ℕ) (s : Session) → IsKept s (note_consumed i through s)
unfolding note_consumed
note_consumed-IsKept i through s = elim (Option-cases (lookup i s.spans)) [
  | inl missing ↦ rw (missing, note_consumed) (same-IsKept s)
  | inr (v, there) ↦
      rw (there, note_consumed)
        (put-IsKept i v _ s _ refl there
          (λ h. record {
            begun = h.begun;
            settled_first = let c = h.settled_first in omega (arith, c);
            inside = let c = h.inside in omega (arith, c);
          })
          refl (omega arith))
]

apply_lease-IsKept : (i : String) (info : LeaseInfo) (s : Session) → IsKept s (apply_lease i info s)
unfolding apply_lease
apply_lease-IsKept i info s = elim (Option-cases (lookup i s.spans)) [
  | inl missing ↦ rw (missing, apply_lease) (same-IsKept s)
  | inr (v, there) ↦ elim (Bool-cases info.is_valid) [
    | inl fine ↦
        let cut = cut_span-kept info.new_end v in
        rw (there, apply_lease, fine)
          (put-IsKept i v (cut_span info.new_end v) s _ refl there (cut_span-IsSpan info.new_end v)
            cut.0 (omega (arith, cut)))
    | inr lost ↦
        rw (there, apply_lease, lost)
          (put-IsKept i v (record v { valid = false }) s _ refl there
            (λ h. record { begun = h.begun; settled_first = h.settled_first; inside = h.inside })
            refl (omega arith))
  ]
]

apply_leases-IsKept :
    (leases : List (String × LeaseInfo)) (s : Session) → IsKept s (apply_leases leases s)
unfolding apply_leases
apply_leases-IsKept [] s = same-IsKept s
apply_leases-IsKept ((i, info) ∷ leases) s =
    let first = apply_lease-IsKept i info s in
    let rest = apply_leases-IsKept leases (apply_lease i info s) in
    record {
      spans = λ h. rest.spans (first.spans h);
      pending = λ j through h. rest.pending j through (first.pending j through h);
    }

pub apply_reply-IsKept :
    (epoch : Option ℕ) (leases : List (String × LeaseInfo)) (s : Session)
    → IsKept s (apply_reply epoch leases s)
unfolding apply_reply
apply_reply-IsKept epoch leases s =
    let t = record s { epoch = elim epoch [ none ↦ s.epoch | some e ↦ e ] } in
    let rest = apply_leases-IsKept leases t in
    record {
      spans = λ h. rest.spans (record { each = h.each });
      pending = λ j through h. rest.pending j through (record { within = h.within });
    }

-- The watermark that a commit sends is within what is consumed, if that is what it is asked for.
pub begin_commit-IsPending :
    (i : String) (asked : Option ℕ) (through : ℕ) (s : Session)
    → AreSpans s
    → ((v : Span) (n : ℕ) → lookup i s.spans ≡ some v → asked ≡ some n → n ≤ v.consumed)
    → begin_commit i asked s ≡ some through
    → IsPending i through s
unfolding begin_commit
begin_commit-IsPending i none through s h reached e = record {
  within = λ v there.
      let k = h.each i v there in
      let a = k.begun in
      let b : (v.consumed ≡ through) × (v.committed < through) = ground (arith, e, there) in
      omega (arith, a, b);
}
begin_commit-IsPending i (some n) through s h reached e = record {
  within = λ v there.
      let k = h.each i v there in
      let a = k.begun in
      let r = reached v n there refl in
      let b : (min n v.end ≡ through) × (v.committed < through) = ground (arith, e, there) in
      omega (arith, a, b, r);
}

pop-AreSpans : (i : String) (s t : Session) → t.spans ≡ pop i s.spans → AreSpans s → AreSpans t
pop-AreSpans i s t e h = record {
  each = λ j v found. let e' = lookup-pop i j s.spans in h.each j v (ground (arith, e, found, e'));
}

on_answer-AreSpans :
    (i : String) (through : ℕ) (answer : CommitAnswer) (v : Span) (s : Session)
    → AreSpans s
    → IsSpan v
    → (v.start ≤ through) × (through ≤ v.consumed)
    → AreSpans (on_answer i through answer v s).1
unfolding pop
on_answer-AreSpans i through gone v s h k q =
    put-AreSpans i (record v { valid = false }) s _ refl
      (record { begun = k.begun; settled_first = k.settled_first; inside = k.inside }) h
on_answer-AreSpans i through (settled complete closed) v s h k q =
    let w = record v { committed = through } in
    let t = record s { spans = put i w s.spans } in
    let new =
      put-AreSpans i w s t refl (record { begun = q.0; settled_first = q.1; inside = k.inside })
        h in
    elim (Bool-cases closed) [
      | inl last ↦ rw last (pop-AreSpans i t _ refl new)
      | inr still ↦ rw still (record { each = new.each })
    ]

pub end_commit-AreSpans :
    (i : String) (through : ℕ) (answer : CommitAnswer) (s : Session)
    → AreSpans s
    → IsPending i through s
    → AreSpans (end_commit i through answer s).1
unfolding end_commit
end_commit-AreSpans i through answer s h p = elim (Option-cases (lookup i s.spans)) [
  | inl missing ↦ rw (missing, end_commit) h
  | inr (v, there) ↦
      rw (there, end_commit)
        (on_answer-AreSpans i through answer v s h (h.each i v there) (p.within v there))
]
