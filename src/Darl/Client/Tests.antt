-- ===== src/Darl/Client/Tests.antt =====
-- A session (src/pww/darl/client.py) that loses the end of its span, and is granted another, while a commit
-- is under way.
use project_world_wide.Prelude.{
  ◌≤◌, ◌≡◌, refl, subst, str_eq, true, false, String, none, some, List, [], ◌∷◌, arith,
}
use project_world_wide.Prelude.Dict.{lookup, put}
use project_world_wide.Darl.Client.{
  Span, new_span, Session, LeaseInfo, apply_reply, adopt, note_consumed, begin_commit, settled,
  end_commit, targets,
}
use project_world_wide.Darl.Client.Histories.{
  Client, Reach, here, next, applied, noted, adopted, begun, ended, watermarks_in_order,
}

abbrev fresh : Session
fresh = record {
  spans = [];
  epoch = 0;
  blocks_committed = 0;
  blocks_lost = 0;
  epoch_complete = false;
}

abbrev idle : Session → Client
idle s = record { session = s; pending = none }

-- With the commit of all that is consumed of "a" under way.
abbrev sent : Session → Client
sent s = record { session = s; pending = some ("a", 13) }

abbrev with_span : Session → Session
unfolding adopt
with_span s = adopt "a" (new_span 0 10 14) s

abbrev progressed : Session → Session
unfolding note_consumed
progressed s = note_consumed "a" 13 s

abbrev granted : Session → Session
unfolding adopt
granted s = adopt "b" (new_span 0 20 24) s

abbrev stolen : List (String × LeaseInfo)
stolen = ("a", record { is_valid = true; new_end = some 12 }) ∷ []

abbrev final_span : Span
final_span = record { epoch = 0; start = 10; end = 13; consumed = 13; committed = 13; valid = true }

abbrev last : Client
unfolding end_commit apply_reply
last =
    idle
      (end_commit "a" 13 (settled false false)
        (apply_reply none stolen (granted (progressed (with_span fresh))))).1

history : Reach (idle fresh) last
unfolding last begin_commit adopt note_consumed lookup put with_span progressed granted
history =
    next
      (next
        (next
          (next
            (next (next here (adopted (idle fresh) "a" 0 10 14 (omega arith) (λ j n e. cc)))
              (noted (idle (with_span fresh)) "a" 13))
            (begun (progressed (with_span fresh)) "a" none 13 (λ v n h e. cc) refl))
          (adopted (sent (progressed (with_span fresh))) "b" 0 20 24 (omega arith)
            (λ j n e. let same : "a" ≡ j = cc in subst (λ x. str_eq "b" x ≡ false) same refl)))
        (applied (sent (granted (progressed (with_span fresh)))) none stolen))
      (ended (apply_reply none stolen (granted (progressed (with_span fresh)))) "a" 13
        (settled false false))

watermarks_in_order_example :
    (final_span.start ≤ final_span.committed)
    × (final_span.committed ≤ final_span.consumed)
    × (final_span.consumed ≤ final_span.end)
unfolding last apply_reply end_commit adopt note_consumed lookup put with_span progressed granted
watermarks_in_order_example = watermarks_in_order fresh last "a" final_span refl history refl

targets_runs : targets (progressed (with_span fresh)).spans ≡ ("a", 13) ∷ []
unfolding targets adopt note_consumed lookup put with_span progressed granted
targets_runs = refl
