-- ===== src/Darl/Server/Answers.antt =====
-- What `do_POST` (src/pww/darl/server.py) answers, and what it leaves behind.
use project_world_wide.Prelude.{
  ◌+◌, ◌≡◌, refl, Bool, true, false, inl, inr, ◌⊎◌, none, Returns, Outcome, Outcome-map,
  Outcome-Returns, Error, Result, ok, err, value_error, key_error, permission_error, cluster_busy,
}
use project_world_wide.Darl.Floats.{Floats}
use project_world_wide.Darl.Server.{
  Coordinator, Reply, on_register, on_acquire, on_heartbeat, on_commit, on_release, save_snapshot,
}
use project_world_wide.Darl.Server.Routes.{
  Request, to_register, to_acquire, to_heartbeat, to_commit, to_release, to_snapshot, to_advance,
  elsewhere, unreadable, Response, sent, dropped, status_of, send, send_snapshot, dispatch, do_post,
}
use project_world_wide.Darl.Server.Sound.{IsSound}
use project_world_wide.Darl.Server.Operations.{
  on_register_outcome, on_acquire-IsSound, on_heartbeat-IsSound, on_commit_outcome,
  on_release-IsSound, save_snapshot-IsSound, on_advance-IsSound,
}

module _ {F : Type 0} ⦃fl : Floats F⦄ where
  -- The status codes of requests that can be read: 500 is not among them.
  abbrev pub IsAnswered : Response F → Type 0
  IsAnswered (sent status _) =
      (status ≡ 200)
      ⊎ (status ≡ 400)
      ⊎ (status ≡ 401)
      ⊎ (status ≡ 403)
      ⊎ (status ≡ 404)
      ⊎ (status ≡ 409)
      ⊎ (status ≡ 503)
  IsAnswered (dropped e) = ⊥

  -- The answer of a handler whose exceptions have a status code.
  send-IsSound :
      (c : Coordinator F) (m : Result (Reply F × Coordinator F))
      → IsSound c
      → Outcome m
          (λ a. IsSound a.1)
          (λ e.
            ((e ≡ value_error) ⊎ (e ≡ cluster_busy)) ⊎ ((e ≡ key_error) ⊎ (e ≡ permission_error)))
      → IsAnswered (send c m).0 × IsSound (send c m).1
  send-IsSound c (ok a) h k = (inl refl, k)
  send-IsSound c (err e) h k = (status k, h)
    where
      status :
          ((e ≡ value_error) ⊎ (e ≡ cluster_busy)) ⊎ ((e ≡ key_error) ⊎ (e ≡ permission_error))
          → IsAnswered (sent (status_of e) none)
      status (inl (inl p)) = rw p (inr (inl refl))
      status (inl (inr p)) = rw p (inr (inr (inr (inr (inr (inr refl))))))
      status (inr (inl p)) = rw p (inr (inr (inr (inr (inr (inl refl))))))
      status (inr (inr p)) = rw p (inr (inr (inr (inl refl))))

  abbrev IsReadable : Request F → Type 0
  IsReadable (unreadable e) = ⊥
  IsReadable _ = Unit {0}

  dispatch-IsSound :
      (q : Request F) (now clk : F) (c : Coordinator F)
      → IsSound c
      → IsReadable q
      → IsAnswered (dispatch q now clk c).0 × IsSound (dispatch q now clk c).1
  unfolding dispatch
  dispatch-IsSound (to_register cid digest ranks incarnation) now clk c h readable =
      send-IsSound c (on_register cid digest ranks incarnation now c) h (
        Outcome-map (on_register cid digest ranks incarnation now c) _ _ _ _ (λ a k. k)
          (λ e k. inl k) (on_register_outcome cid digest ranks incarnation now c h))
  dispatch-IsSound (to_acquire cid blocks ttl max_spans macro_step_s rtt_s rid) now clk c h
        readable =
      send-IsSound c (on_acquire cid blocks ttl max_spans macro_step_s rtt_s rid now clk c) h (
        Outcome-Returns (on_acquire cid blocks ttl max_spans macro_step_s rtt_s rid now clk c) _ _ _
          (λ a k. k)
          (on_acquire-IsSound cid blocks max_spans ttl macro_step_s rtt_s rid now clk c h))
  dispatch-IsSound (to_heartbeat cid progress macro_step_s rtt_s ttl) now clk c h readable =
      send-IsSound c (on_heartbeat cid progress macro_step_s rtt_s ttl now c) h (
        Outcome-Returns (on_heartbeat cid progress macro_step_s rtt_s ttl now c) _ _ _ (λ a k. k)
          (on_heartbeat-IsSound cid progress macro_step_s rtt_s ttl now c h))
  dispatch-IsSound (to_commit cid i through) now clk c h readable =
      send-IsSound c (on_commit cid i through now c) h (
        Outcome-map (on_commit cid i through now c) _ _ _ _ (λ a k. k) (λ e k. inr k)
          (on_commit_outcome cid i through now c h))
  dispatch-IsSound (to_release cid lease_id incarnation count_attempt) now clk c h readable =
      send-IsSound c (on_release cid lease_id incarnation count_attempt now c) h (
        Outcome-Returns (on_release cid lease_id incarnation count_attempt now c) _ _ _ (λ a k. k)
          (on_release-IsSound cid lease_id incarnation count_attempt now c h))
  dispatch-IsSound (unreadable e) now clk c h readable = absurd readable
  dispatch-IsSound to_snapshot now clk c h readable =
      snapshot_sent (save_snapshot true now c) (save_snapshot-IsSound true now c h)
    where
      snapshot_sent :
          (m : Result (Bool × Coordinator F))
          → Returns m (λ a. IsSound a.1)
          → IsAnswered (send_snapshot c m).0 × IsSound (send_snapshot c m).1
      snapshot_sent (ok a) k = (inl refl, k)
      snapshot_sent (err e) k = absurd k
  dispatch-IsSound to_advance now clk c h readable = (inl refl, on_advance-IsSound now clk c h)
  dispatch-IsSound elsewhere now clk c h readable = (inr (inr (inr (inr (inl refl)))), h)

  -- The answer to a request: one of these codes, or, if the body cannot be read, that of its exception, and
  -- then nothing but the number of requests has changed.
  abbrev pub IsAnsweredTo : Request F → Coordinator F → Response F × Coordinator F → Type 0
  IsAnsweredTo q c a =
      IsAnswered a.0
      ⊎ ((e : Error) × (q ≡ unreadable e)
          × (a ≡ (sent (status_of e) none, record c { requests = c.requests + 1 })))

  dispatched :
      (q : Request F) (now clk : F) (c : Coordinator F)
      → IsSound c
      → IsReadable q
      → let a = dispatch q now clk (record c { requests = c.requests + 1 }) in
        IsAnsweredTo q c a × IsSound a.1
  dispatched q now clk c h readable =
      let k =
        dispatch-IsSound q now clk (record c { requests = c.requests + 1 })
          (record { valid = h.valid; kept = h.kept; journal = h.journal; saved = h.saved })
          readable in
      (inl k.0, k.1)

  pub do_post-IsSound :
      (authorised : Bool) (q : Request F) (now clk : F) (c : Coordinator F)
      → IsSound c
      → IsAnsweredTo q c (do_post authorised q now clk c)
        × IsSound (do_post authorised q now clk c).1
  unfolding do_post dispatch
  do_post-IsSound false q now clk c h = (inl (inr (inr (inl refl))), h)
  do_post-IsSound true (unreadable e) now clk c h = (
    inr (e, refl, refl),
    record { valid = h.valid; kept = h.kept; journal = h.journal; saved = h.saved },
  )
  do_post-IsSound true (to_register cid digest ranks incarnation) now clk c h =
      dispatched (to_register cid digest ranks incarnation) now clk c h tt
  do_post-IsSound true (to_acquire cid blocks ttl max_spans macro_step_s rtt_s rid) now clk c h =
      dispatched (to_acquire cid blocks ttl max_spans macro_step_s rtt_s rid) now clk c h tt
  do_post-IsSound true (to_heartbeat cid progress macro_step_s rtt_s ttl) now clk c h =
      dispatched (to_heartbeat cid progress macro_step_s rtt_s ttl) now clk c h tt
  do_post-IsSound true (to_commit cid i through) now clk c h =
      dispatched (to_commit cid i through) now clk c h tt
  do_post-IsSound true (to_release cid lease_id incarnation count_attempt) now clk c h =
      dispatched (to_release cid lease_id incarnation count_attempt) now clk c h tt
  do_post-IsSound true to_snapshot now clk c h = dispatched to_snapshot now clk c h tt
  do_post-IsSound true to_advance now clk c h = dispatched to_advance now clk c h tt
  do_post-IsSound true elsewhere now clk c h = dispatched elsewhere now clk c h tt
