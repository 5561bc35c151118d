-- ===== src/Darl/Client.antt =====
-- class Span and the watermarks of class LeaseSession (src/pww/darl/client.py).
-- Replies of the coordinator are arguments. `commit` is two functions, before and after its request,
-- since the session's lock is free while the request is under way. Prefetching, waiting and the
-- threads themselves are left out. A lease id is its text.
pub mod Watermarks
pub mod Histories
mod Tests
use project_world_wide.Prelude.{
  ℕ, ◌+◌, ◌-◌, ◌≡◌, Bool, true, false, not, ◌&&◌, ◌||◌, String, Option, none, some, List, [], ◌∷◌,
  ◌==◌, ltb, leb, if◌then◌else◌, str_eq, min, max,
}
use project_world_wide.Prelude.Dict.{Dict, lookup, put}

pub record Span : Type 0 where
  pub epoch : ℕ
  pub start : ℕ
  pub end : ℕ
  pub consumed : ℕ
  pub committed : ℕ
  pub valid : Bool

-- Span(...) with __post_init__, for a span that is granted
abbrev pub new_span : ℕ → ℕ → ℕ → Span
new_span epoch start end = record {
  epoch = epoch;
  start = start;
  end = end;
  consumed = start;
  committed = start;
  valid = true;
}

-- remaining
unfoldable pub remaining : Span → ℕ
remaining v = if v.valid then v.end - v.consumed else 0

pub record Session : Type 0 where
  pub spans : Dict Span
  pub epoch : ℕ
  pub blocks_committed : ℕ
  pub blocks_lost : ℕ
  pub epoch_complete : Bool

-- d.pop(k, None)
unfoldable pub pop {ℓ} : {V : Type ℓ} → String → Dict V → Dict V
pop k [] = []
pop k ((j, v) ∷ d) = let rest = pop k d in if str_eq j k then rest else (j, v) ∷ rest

-- The entry of a heartbeat's reply for a lease.
pub record LeaseInfo : Type 0 where
  pub is_valid : Bool
  pub new_end : Option ℕ

-- An end that the coordinator reports.
unfoldable pub cut_span : Option ℕ → Span → Span
cut_span none v = v
cut_span (some e) v = if ltb e v.end then record v { end = max e v.consumed } else v

-- One round of the loop of `_apply`.
unfoldable pub apply_lease : String → LeaseInfo → Session → Session
unfolding cut_span
apply_lease i info s = elim (lookup i s.spans) [
  | none ↦ s
  | some v ↦
      if info.is_valid
      then record s { spans = put i (cut_span info.new_end v) s.spans }
      else record s {
        spans = put i (record v { valid = false }) s.spans;
        blocks_lost = s.blocks_lost + (v.end - v.committed);
      }
]

unfoldable pub apply_leases : List (String × LeaseInfo) → Session → Session
unfolding apply_lease
apply_leases [] s = s
apply_leases ((i, info) ∷ leases) s = apply_leases leases (apply_lease i info s)

-- _apply, without the granted TTL
unfoldable pub apply_reply : Option ℕ → List (String × LeaseInfo) → Session → Session
unfolding apply_leases
apply_reply epoch leases s =
    apply_leases leases (record s { epoch = elim epoch [ none ↦ s.epoch | some e ↦ e ] })

-- The loop of `acquire` over a granted span.
unfoldable pub adopt : String → Span → Session → Session
adopt i v s = record s { spans = put i v s.spans }

-- note_consumed
unfoldable pub note_consumed : String → ℕ → Session → Session
note_consumed i through s = elim (lookup i s.spans) [
  | none ↦ s
  | some v ↦ record s {
    spans = put i (record v { consumed = max v.consumed (min through v.end) }) s.spans;
  }
]

-- commit, up to its request: the watermark that is sent, if one is
unfoldable pub begin_commit : String → Option ℕ → Session → Option ℕ
begin_commit i asked s = elim (lookup i s.spans) [
  | none ↦ none
  | some v ↦
      let through : ℕ = elim asked [ none ↦ v.consumed | some n ↦ min n v.end ] in
      if leb through v.committed || not v.valid then none else some through
]

-- What a commit is answered with; `gone` is LeaseGone.
pub data CommitAnswer : Type 0 where
  gone : CommitAnswer
  settled : Bool → Bool → CommitAnswer

-- What a commit that was sent does to its span `v` once it is answered.
abbrev pub on_answer : String → ℕ → CommitAnswer → Span → Session → ℕ × Session
on_answer i through gone v s = (
  0,
  record s {
    spans = put i (record v { valid = false }) s.spans;
    blocks_lost = s.blocks_lost + (v.end - v.committed);
  },
)
on_answer i through (settled complete closed) v s =
    let spans = put i (record v { committed = through }) s.spans in
    (
      through - v.committed,
      record s {
        spans = if closed then pop i spans else spans;
        blocks_committed = s.blocks_committed + (through - v.committed);
        epoch_complete = complete;
      },
    )

-- commit, after its request: the blocks newly committed. `release_all`, which may drop the span in
-- the meantime, is left out.
unfoldable pub end_commit : String → ℕ → CommitAnswer → Session → ℕ × Session
unfolding pop
end_commit i through answer s = elim (lookup i s.spans) [
  | none ↦ (0, s)
  | some v ↦ on_answer i through answer v s
]

-- The list `targets` of commit_all.
unfoldable pub targets : Dict Span → List (String × ℕ)
targets [] = []
targets ((i, v) ∷ spans) =
    let rest = targets spans in
    if v.valid && ltb v.committed v.consumed then (i, v.consumed) ∷ rest else rest
