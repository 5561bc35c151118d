-- ===== src/Darl/Server/Routes.antt =====
-- `do_POST` of class _Handler (src/pww/darl/server.py).
use project_world_wide.Prelude.{
  ℕ, ◌+◌, Bool, true, not, String, Option, none, some, List, if◌then◌else◌, Result, ok, err, Error,
  value_error, key_error, permission_error, cluster_busy,
}
use project_world_wide.Darl.Floats.{Floats}
use project_world_wide.Darl.Lease.{LeaseId}
use project_world_wide.Darl.Server.{
  Coordinator, Reply, written, on_register, on_acquire, on_heartbeat, on_commit, on_release,
  save_snapshot, on_advance,
}

-- A route with its payload: a JSON object whose cluster, digest and incarnation are texts and whose numbers
-- are not negative and in the range of floats. `unreadable` is a body for a handler from which it cannot
-- take its arguments: it is no JSON object, a name is missing, or int() or float() refuses a value. The
-- exception is raised before anything has changed.
pub data Request (F : Type 0) : Type 0 where
  to_register : String → String → ℕ → String → Request F
  to_acquire : String → ℕ → F → ℕ → F → F → String → Request F
  to_heartbeat : String → List (LeaseId × ℕ) → F → F → F → Request F
  to_commit : String → LeaseId → ℕ → Request F
  to_release : String → Option LeaseId → String → Bool → Request F
  unreadable : Error → Request F
  to_snapshot to_advance elsewhere : Request F

-- The status code and, where there is one, the reply. `dropped` is an exception that leaves
-- do_POST, so that no response is sent.
pub data Response (F : Type 0) : Type 0 where
  sent : ℕ → Option (Reply F) → Response F
  dropped : Error → Response F

-- The status codes of the `except` clauses.
abbrev pub status_of : Error → ℕ
status_of key_error = 409
status_of cluster_busy = 503
status_of permission_error = 403
status_of value_error = 400
status_of _ = 500

module _ {F : Type 0} where
  -- `self._send(200, handler(self._body()))` and the `except` clauses
  abbrev pub send : Coordinator F → Result (Reply F × Coordinator F) → Response F × Coordinator F
  send c (ok (reply, c')) = (sent 200 (some reply), c')
  send c (err e) = (sent (status_of e) none, c)

  -- The route /snapshot stands outside the `try`.
  abbrev pub send_snapshot :
      Coordinator F → Result (Bool × Coordinator F) → Response F × Coordinator F
  send_snapshot c (ok (done, c')) = (sent 200 (some (written done)), c')
  send_snapshot c (err e) = (dropped e, c)

module _ {F : Type 0} ⦃fl : Floats F⦄ where
  -- The routes of an authorised request.
  unfoldable pub dispatch : Request F → F → F → Coordinator F → Response F × Coordinator F
  dispatch (to_register cid digest ranks incarnation) now clk c =
      send c (on_register cid digest ranks incarnation now c)
  dispatch (to_acquire cid blocks ttl max_spans macro_step_s rtt_s rid) now clk c =
      send c (on_acquire cid blocks ttl max_spans macro_step_s rtt_s rid now clk c)
  dispatch (to_heartbeat cid progress macro_step_s rtt_s ttl) now clk c =
      send c (on_heartbeat cid progress macro_step_s rtt_s ttl now c)
  dispatch (to_commit cid i through) now clk c = send c (on_commit cid i through now c)
  dispatch (to_release cid lease_id incarnation count_attempt) now clk c =
      send c (on_release cid lease_id incarnation count_attempt now c)
  dispatch (unreadable e) now clk c = send c (err e)
  dispatch to_snapshot now clk c = send_snapshot c (save_snapshot true now c)
  dispatch to_advance now clk c =
      let (reply, c') = on_advance now clk c in (sent 200 (some reply), c')
  dispatch elsewhere now clk c = (sent 404 none, c)

  -- do_POST
  unfoldable pub do_post : Bool → Request F → F → F → Coordinator F → Response F × Coordinator F
  do_post authorised q now clk c =
      if not authorised
      then (sent 401 none, c)
      else dispatch q now clk (record c { requests = c.requests + 1 })
