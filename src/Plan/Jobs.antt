-- ===== src/Plan/Jobs.antt =====
-- `fold` of src/pww/plan/state.py: the current state of every job, from the log of events.
-- A text that is missing or empty is "", and `lower` is `str.lower`, of which nothing is assumed.
pub mod Distinct
pub mod Rows
use project_world_wide.Prelude.{
  ℕ, ◌≡◌, Bool, true, false, not, ◌&&◌, ◌||◌, String, Option, none, some, List, [], ◌∷◌, ◌++◌, ◌==◌,
  if◌then◌else◌, str_eq, map,
}
use project_world_wide.Prelude.Dict.{Dict, lookup, put}

-- (site, lane_id, link)
pub record Triple : Type 0 where
  pub site : String
  pub lane_id : String
  pub link : ℕ

unfoldable pub same_triple : Triple → Triple → Bool
same_triple a b = str_eq a.site b.site && str_eq a.lane_id b.lane_id && (a.link == b.link)

pub data EventKind : Type 0 where
  submitted submit_failed submit_skipped status other : EventKind

pub record JobEvent (F : Type 0) : Type 0 where
  pub kind : EventKind
  pub job_id : String
  pub place : Triple
  pub role : Option String
  pub shape : String
  pub ts : Option F
  pub host : Option String
  pub reason : String
  pub state : Option String

-- `key`: the job id, or the triple as long as there is none
pub data Key : Type 0 where
  by_id : String → Key
  by_triple : Triple → Key

pub record JobView (F : Type 0) : Type 0 where
  pub key : Key
  pub site : String
  pub role : String
  pub lane_id : String
  pub link : ℕ
  pub job_id : Option String
  pub shape : String
  pub submitted_at : Option F
  pub state : String
  pub last_update : Option F
  pub host : String
  pub reason : String
  pub history : List String

abbrev pub get_or {ℓ} : {A : Type ℓ} → Option A → A → A
get_or none d = d
get_or (some a) d = a

abbrev pub is_set : String → Bool
is_set s = not (str_eq s "")

-- _EVENT_STATE
abbrev pub event_state : EventKind → Option String
event_state submitted = some "submitted"
event_state submit_failed = some "failed"
event_state submit_skipped = some "skipped"
event_state status = none
event_state other = none

-- kind in _EVENT_STATE
abbrev pub is_submission : EventKind → Bool
is_submission submitted = true
is_submission submit_failed = true
is_submission submit_skipped = true
is_submission status = false
is_submission other = false

module _ {F : Type 0} where
  -- by_triple, in insertion order
  unfoldable pub find_view : Triple → List (Triple × JobView F) → Option (JobView F)
  find_view k [] = none
  find_view k ((j, v) ∷ views) = if same_triple j k then some v else find_view k views

  unfoldable pub put_view :
      Triple → JobView F → List (Triple × JobView F) → List (Triple × JobView F)
  put_view k v [] = (k, v) ∷ []
  put_view k v ((j, w) ∷ views) =
      if same_triple j k then (j, v) ∷ views else (j, w) ∷ put_view k v views

  -- The view of a row that is met for the first time.
  unfoldable pub first_view : JobEvent F → Triple → JobView F
  first_view ev t = record {
    key = if is_set ev.job_id then by_id ev.job_id else by_triple t;
    site = t.site;
    role = get_or ev.role "site";
    lane_id = t.lane_id;
    link = t.link;
    job_id = none;
    shape = ev.shape;
    submitted_at = none;
    state = "unknown";
    last_update = none;
    host = "";
    reason = "";
    history = [];
  }

  -- Whether an event gives the row a job id.
  abbrev pub names_job : JobEvent F → Bool
  names_job ev = is_set ev.job_id && elim ev.kind [ submitted ↦ true | status ↦ true | _ ↦ false ]

-- The variables of the loop.
pub record Folding (F : Type 0) : Type 0 where
  pub views : List (Triple × JobView F)
  pub by_job_id : Dict Triple
  pub order : List Triple

module _ {F : Type 0} where
  -- The row of an event: that of its job id, if the id is known, or else its own triple.
  unfoldable pub row_of : JobEvent F → Folding F → Triple
  unfolding lookup
  row_of ev s =
      if is_set ev.job_id then get_or (lookup ev.job_id s.by_job_id) ev.place else ev.place

  -- [by_triple[t] for t in order]; a missing key cannot be and would be left out here
  unfoldable pub in_order : List (Triple × JobView F) → List Triple → List (JobView F)
  in_order views [] = []
  in_order views (t ∷ order) = elim (find_view t views) [
    | some v ↦ v ∷ in_order views order
    | none ↦ in_order views order
  ]

module _ {F : Type 0} (lower : String → String) where
  -- The new state of a row.
  unfoldable pub next_state : JobEvent F → JobView F → String
  next_state ev v = elim (event_state ev.kind) [
    | some s ↦ s
    | none ↦ elim ev.kind [ status ↦ lower (get_or ev.state v.state) | _ ↦ v.state ]
  ]

  -- The view of a row after an event.
  unfoldable pub next_view : JobEvent F → JobView F → JobView F
  unfolding next_state
  next_view ev v =
      let state = next_state ev v in
      let job_id = if names_job ev then some ev.job_id else v.job_id in
      record v {
        key = elim job_id [ some i ↦ (if is_set i then by_id i else v.key) | none ↦ v.key ];
        job_id = job_id;
        submitted_at = elim ev.kind [
          | submitted ↦ (elim ev.ts [ some t ↦ some t | none ↦ v.submitted_at ])
          | _ ↦ v.submitted_at
        ];
        state = state;
        last_update = elim ev.ts [ some t ↦ some t | none ↦ v.last_update ];
        host = if is_submission ev.kind then get_or ev.host v.host else v.host;
        reason = if is_submission ev.kind then ev.reason else v.reason;
        history = if str_eq state v.state then v.history else v.history ++ (state ∷ []);
      }

  -- One event.
  unfoldable pub fold_event : JobEvent F → Folding F → Folding F
  unfolding find_view put_view first_view next_view row_of put
  fold_event ev s =
      let t = row_of ev s in
      let by_job_id = if names_job ev then put ev.job_id t s.by_job_id else s.by_job_id in
      elim (find_view t s.views) [
        | some v ↦ record {
          views = put_view t (next_view ev v) s.views;
          by_job_id = by_job_id;
          order = s.order;
        }
        | none ↦ record {
          views = put_view t (next_view ev (first_view ev t)) s.views;
          by_job_id = by_job_id;
          order = s.order ++ (t ∷ []);
        }
      ]

  unfoldable pub fold_events : List (JobEvent F) → Folding F → Folding F
  unfolding fold_event
  fold_events [] s = s
  fold_events (ev ∷ events) s = fold_events events (fold_event ev s)

  -- fold
  unfoldable pub fold : List (JobEvent F) → List (JobView F)
  unfolding fold_events in_order
  fold events =
      let s = fold_events events (record { views = []; by_job_id = []; order = [] }) in
      in_order s.views s.order
