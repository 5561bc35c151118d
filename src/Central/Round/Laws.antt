-- ===== src/Central/Round/Laws.antt =====
-- What the round state of src/pww/central/httpround.py does with results, late ones included.
use project_world_wide.Prelude.{
  ℕ, ◌≡◌, Bool, true, false, ◌&&◌, ◌||◌, not, String, none, some, ◌==◌, arith, if◌then◌else◌,
  str_eq,
}
use project_world_wide.Prelude.Dict.{Dict, put, lookup, lookup-put}
use project_world_wide.Central.Members.{has}
use project_world_wide.Central.Round.{
  reported, Payload, RoundState, has_key, submit, has_answered, poll, wait,
}

pub has_key-put :
    {V : Type 0} (k j : String) (v : V) (d : Dict V)
    → has_key j (put k v d) ≡ (str_eq k j || has_key j d)
unfolding has_key
has_key-put k j v d = ground (arith, lookup-put k j v d)

module _ {C P : Type 0} where
  -- Whether a result is accepted: it is for the round that is open, from a cluster that was asked.
  abbrev pub is_awaited : String → ℕ → RoundState C P → Bool
  is_awaited cluster server_round s = (server_round == s.server_round) && has cluster s.expected

  -- A result is accepted exactly if it is for the current round and from a cluster that is expected. An
  -- accepted result is under its cluster among the results if it is ok, and its error among the failures
  -- if it is not; what other clusters have sent, the round and what it asks for stay as they are. A
  -- result that is not accepted changes nothing at all.
  pub submit_outcome :
      (cluster : String) (server_round : ℕ) (payload : Payload P) (s : RoundState C P)
      → let (accepted, s') = submit cluster server_round payload s in
        (accepted ≡ is_awaited cluster server_round s)
        × (accepted ≡ false → s' ≡ s)
        × (s'.expected ≡ s.expected)
        × (s'.server_round ≡ s.server_round)
        × ((c : String) → has_answered c s' ≡ (has_answered c s || (accepted && str_eq cluster c)))
        × ((c : String)
            → lookup c s'.results ≡ (
                if accepted && payload.is_ok && str_eq cluster c
                then some payload
                else lookup c s.results))
        × ((c : String)
            → lookup c s'.failures ≡ (
                if accepted && not payload.is_ok && str_eq cluster c
                then some (reported payload.error)
                else lookup c s.failures))
        × (s'.kind ≡ s.kind)
        × (s'.config ≡ s.config)
        × (s'.finished ≡ s.finished)
        × (s'.stopped ≡ s.stopped)
  unfolding submit
  submit_outcome cluster server_round payload s = (
    ground arith,
    (λ e. ground (arith, e)),
    ground arith,
    ground arith,
    (λ c. ground (
      arith,
      has_key-put cluster c payload s.results,
      has_key-put cluster c (reported payload.error) s.failures,
    )),
    (λ c. ground (arith, lookup-put cluster c payload s.results)),
    (λ c. ground (arith, lookup-put cluster c (reported payload.error) s.failures)),
    ground arith,
    ground arith,
    ground arith,
    ground arith,
  )

  -- A cluster that has answered is not given the round's work: its polls are held, or told to wait once
  -- they are due.
  pub poll_answered :
      (cluster : String) (s : RoundState C P) (is_due : Bool)
      → s.finished ≡ false
      → has_answered cluster s ≡ true
      → poll cluster is_due s ≡ (if is_due then some wait else none, s)
  unfolding poll
  poll_answered cluster s is_due running answered = ground arith
