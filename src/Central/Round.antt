-- ===== src/Central/Round.antt =====
-- class RoundState and the endpoint of src/pww/central/httpround.py.
-- `C` is a round's config and `P` the payload of a result; both are passed on without being read.
-- The state's lock is held in each operation, so operations follow one another.
pub mod Laws
use project_world_wide.Prelude.{
  ℕ, ◌≡◌, Bool, true, false, ◌&&◌, ◌||◌, not, String, Option, none, some, List, [], ◌∷◌, ◌==◌,
  if◌then◌else◌, str_eq,
}
use project_world_wide.Prelude.Dict.{Dict, lookup, put}
use project_world_wide.Darl.Floats.{Floats}
use project_world_wide.Central.Members.{Manager, has, touch}

-- `kind`: "", "fit" or "evaluate"
pub data Kind : Type 0 where
  idle fit evaluate : Kind

abbrev pub is_active : Kind → Bool
is_active idle = false
is_active fit = true
is_active evaluate = true

-- Why a cluster has failed: its own words, or what `_collect` finds.
pub data Reason : Type 0 where
  reported : String → Reason
  silent late : Reason

-- The body of a result: `status` is "ok" or not, and the text of its error.
pub record Payload (P : Type 0) : Type 0 where
  pub is_ok : Bool
  pub error : String
  pub content : P

pub record RoundState (C P : Type 0) : Type 0 where
  pub server_round : ℕ
  pub kind : Kind
  pub config : C
  pub expected : List String
  pub results : Dict (Payload P)
  pub failures : Dict Reason
  pub finished : Bool
  pub stopped : List String

-- key in d
unfoldable pub has_key {ℓ} : {V : Type ℓ} → String → Dict V → Bool
unfolding lookup
has_key k d = elim (lookup k d) [ none ↦ false | some _ ↦ true ]

module _ {C P : Type 0} where
  -- RoundState()
  abbrev pub new_state : C → RoundState C P
  new_state config = record {
    server_round = 0;
    kind = idle;
    config = config;
    expected = [];
    results = [];
    failures = [];
    finished = false;
    stopped = [];
  }

  -- open
  unfoldable pub open_round : ℕ → Kind → C → List String → RoundState C P → RoundState C P
  open_round server_round kind config clusters s = record s {
    server_round = server_round;
    kind = kind;
    config = config;
    expected = clusters;
    results = [];
    failures = [];
  }

  -- close
  unfoldable pub close_round : RoundState C P → RoundState C P
  close_round s = record s { kind = idle; expected = [] }

  -- submit
  unfoldable pub submit : String → ℕ → Payload P → RoundState C P → Bool × RoundState C P
  submit cluster server_round payload s =
      if not (server_round == s.server_round) || not (has cluster s.expected)
      then (false, s)
      else if payload.is_ok
      then (true, record s { results = put cluster payload s.results })
      else (true, record s { failures = put cluster (reported payload.error) s.failures })

  -- Whether a cluster has answered, in either way.
  abbrev pub has_answered : String → RoundState C P → Bool
  has_answered c s = has_key c s.results || has_key c s.failures

  -- answered >= self.expected
  unfoldable pub all_answered : List String → RoundState C P → Bool
  all_answered [] s = true
  all_answered (c ∷ cs) s = has_answered c s && all_answered cs s

  -- self.expected - answered
  unfoldable pub outstanding : List String → RoundState C P → List String
  outstanding [] s = []
  outstanding (c ∷ cs) s = if has_answered c s then outstanding cs s else c ∷ outstanding cs s

-- outstanding & set(still_live()), if it is not empty
unfoldable pub any_live : List String → List String → Bool
any_live [] live = false
any_live (c ∷ cs) live = has c live || any_live cs live

-- What a client is told by /poll.
pub data Instruction (C : Type 0) : Type 0 where
  stop wait : Instruction C
  act : Kind → ℕ → C → Instruction C

module _ {C P : Type 0} where
  -- One round of the loop of /poll: `none` is another second of waiting, and `is_due` says that the
  -- poll has been held long enough. `_jsonable` is the identity on the configs that it lets through.
  unfoldable pub poll : String → Bool → RoundState C P → Option (Instruction C) × RoundState C P
  unfolding has_key
  poll cluster is_due s =
      if s.finished
      then (some stop, record s { stopped = cluster ∷ s.stopped })
      else if is_active s.kind
          && has cluster s.expected
          && not (has_key cluster s.results)
          && not (has_key cluster s.failures)
      then (some (act s.kind s.server_round s.config), s)
      else if is_due
      then (some wait, s)
      else (none, s)

-- A request of do_POST after its token and its JSON have been read.
pub data Request (P : Type 0) : Type 0 where
  to_join : Request P
  to_poll : Bool → Request P
  to_result : ℕ → Payload P → Request P
  elsewhere : Request P

-- A status code with the body where it matters. `held` is a poll that waits on.
pub data Response (C : Type 0) : Type 0 where
  joined : ℕ → Response C
  told : Instruction C → Response C
  held : Response C
  taken : Bool → Response C
  refused : ℕ → Response C

module _ {F C P : Type 0} ⦃fl : Floats F⦄ where
  -- do_POST. A poll is touched once, and then looks at the state again and again.
  unfoldable pub do_post :
      Bool
      → String
      → Request P
      → F
      → Manager F
      → RoundState C P
      → Response C × Manager F × RoundState C P
  unfolding touch submit poll
  do_post authorised cluster request now m s =
      if not authorised
      then (refused 401, m, s)
      else if str_eq cluster ""
      then (refused 400, m, s)
      else elim request [
        | to_join ↦ (joined s.server_round, touch cluster now m, s)
        | to_poll is_due ↦
            let (told_what, s') = poll cluster is_due s in
            (elim told_what [ none ↦ held | some i ↦ told i ], touch cluster now m, s')
        | to_result server_round payload ↦
            let (accepted, s') = submit cluster server_round payload s in
            (taken accepted, touch cluster now m, s')
        | elsewhere ↦ (refused 404, m, s)
      ]
