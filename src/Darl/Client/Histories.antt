-- ===== src/Darl/Client/Histories.antt =====
-- The session of src/pww/darl/client.py under any order of heartbeats, grants, progress and commits.
use project_world_wide.Prelude.{
  ℕ, ◌≤◌, ◌≡◌, refl, subst, false, String, str_eq, Option, none, some, List, [], arith,
}
use project_world_wide.Prelude.Dict.{lookup, lookup-put}
use project_world_wide.Darl.Client.{
  Span, new_span, Session, LeaseInfo, apply_reply, adopt, note_consumed, begin_commit, CommitAnswer,
  end_commit,
}
use project_world_wide.Darl.Client.Watermarks.{
  AreSpans, IsPending, put-AreSpans, note_consumed-IsKept, apply_reply-IsKept,
  begin_commit-IsPending, end_commit-AreSpans,
}

-- A session with the commit whose request is under way, if there is one.
pub record Client : Type 0 where
  pub session : Session
  pub pending : Option (String × ℕ)

-- One step. The heartbeat's thread may apply a reply and the prefetching thread adopt a granted span at
-- any time, also while a commit is under way, but not a span under the id of that commit; the training
-- thread adopts a span and notes progress, and begins a commit while none is under way.
pub data Step : Client → Client → Type 0 where
  applied :
      (c : Client) (epoch : Option ℕ) (leases : List (String × LeaseInfo))
      → Step c (record c { session = apply_reply epoch leases c.session })
  noted :
      (c : Client) (i : String) (through : ℕ)
      → Step c (record c { session = note_consumed i through c.session })
  adopted :
      (c : Client) (i : String) (epoch start end : ℕ)
      → start ≤ end
      → ((j : String) (through : ℕ) → c.pending ≡ some (j, through) → str_eq i j ≡ false)
      → Step c (record c { session = adopt i (new_span epoch start end) c.session })
  begun :
      (s : Session) (i : String) (asked : Option ℕ) (through : ℕ)
      → ((v : Span) (n : ℕ) → lookup i s.spans ≡ some v → asked ≡ some n → n ≤ v.consumed)
      → begin_commit i asked s ≡ some through
      → Step
          (record { session = s; pending = none })
          (record { session = s; pending = some (i, through) })
  ended :
      (s : Session) (i : String) (through : ℕ) (answer : CommitAnswer)
      → Step
          (record { session = s; pending = some (i, through) })
          (record { session = (end_commit i through answer s).1; pending = none })

pub data Reach (c : Client) : Client → Type 0 where
  here : Reach c c
  next : {d e : Client} → Reach c d → Step d e → Reach c e

-- The invariant.
record IsClient (c : Client) : Type 0 where
  spans : AreSpans c.session
  pending :
      (i : String) (through : ℕ) → c.pending ≡ some (i, through) → IsPending i through c.session

Step-IsClient : {c d : Client} → Step c d → IsClient c → IsClient d
unfolding adopt
Step-IsClient (applied c epoch leases) h =
    let k = apply_reply-IsKept epoch leases c.session in
    record {
      spans = k.spans h.spans;
      pending = λ i through e. k.pending i through (h.pending i through e);
    }
Step-IsClient (noted c i through) h =
    let k = note_consumed-IsKept i through c.session in
    record { spans = k.spans h.spans; pending = λ j n e. k.pending j n (h.pending j n e) }
Step-IsClient (adopted c i epoch start end proper other) h = record {
  spans =
      put-AreSpans i (new_span epoch start end) c.session _ refl
        (record { begun = omega arith; settled_first = omega arith; inside = proper }) h.spans;
  pending = λ j n e. record {
    within = λ v found.
        let apart = other j n e in
        let same = lookup-put i j (new_span epoch start end) c.session.spans in
        (h.pending j n e).within v (ground (arith, apart, same, found));
  };
}
Step-IsClient (begun s i asked through reached e) h = record {
  spans = h.spans;
  pending = λ j n same.
      let k = begin_commit-IsPending i asked through s h.spans reached e in
      let same_id : i ≡ j = cc in
      let same_end : through ≡ n = cc in
      subst (λ x. IsPending x n s) same_id (subst (λ m. IsPending i m s) same_end k);
}
Step-IsClient (ended s i through answer) h = record {
  spans = end_commit-AreSpans i through answer s h.spans (h.pending i through refl);
  pending = λ j n e. ground arith;
}

Reach-IsClient : {c d : Client} → Reach c d → IsClient c → IsClient d
Reach-IsClient here h = h
Reach-IsClient (next r s) h = Step-IsClient s (Reach-IsClient r h)

-- From a session without spans, under any order of heartbeat replies, grants, progress and commits
-- up to what is consumed, one at a time, also with replies, progress and grants of other ids between a
-- commit's request and its answer: of every span
-- the start, what is committed, what is consumed and the end stay in this order.
pub watermarks_in_order :
    (s : Session) (d : Client) (i : String) (v : Span)
    → s.spans ≡ []
    → Reach (record { session = s; pending = none }) d
    → lookup i d.session.spans ≡ some v
    → (v.start ≤ v.committed) × (v.committed ≤ v.consumed) × (v.consumed ≤ v.end)
unfolding lookup
watermarks_in_order s d i v empty r found =
    let h = Reach-IsClient r (record {
      spans = record { each = λ j w e. ground (arith, e, empty) };
      pending = λ j n e. ground arith;
    }) in
    let k = h.spans.each i v found in (k.begun, k.settled_first, k.inside)
