-- ===== src/Darl/Server/Replaying.antt =====
-- The replay of a journal (`_replay` of src/pww/darl/server.py), an entry and all of them.
use project_world_wide.Prelude.{
  ◌<◌, ◌≡◌, refl, sym, Bool, true, false, String, inl, inr, some, List, [], ◌∷◌, All, Returns,
  Returns-bind, Returns-map, Outcome, Outcome-map, Outcome-bind, Outcome-Returns, >>=-eq-ok, Result,
  ok, err, ◌>>=◌, ap, ◌∙◌, subst,
}
use project_world_wide.Prelude.Dict.{lookup}
use project_world_wide.Darl.Floats.{Floats}
use project_world_wide.Darl.Lease.{Lease, ClusterRecord}
use project_world_wide.Darl.Table.{LeaseTable, register, register_plain}
use project_world_wide.Darl.Table.Reclaim.{reap, release}
use project_world_wide.Darl.Table.Hold.{heartbeat, commit}
use project_world_wide.Darl.Table.Durable.{replay_lease}
use project_world_wide.Darl.Valid.{IsValid}
use project_world_wide.Darl.Valid.Granting.{IsGrantTo}
use project_world_wide.Darl.Valid.Acquire.{advance_config}
use project_world_wide.Darl.Valid.GivenBack.{IsGivenBack}
use project_world_wide.Darl.Valid.Expiry.{reap-IsGivenBack}
use project_world_wide.Darl.Valid.Release.{release-IsGivenBack}
use project_world_wide.Darl.Valid.Heartbeat.{heartbeat-IsGivenBack}
use project_world_wide.Darl.Valid.Registration.{
  IsRegistered, register_outcome, register_plain-IsRegistered, advance_epoch-IsValid,
}
use project_world_wide.Darl.Valid.Replay.{IsReplayed, replay_lease-IsReplayed}
use project_world_wide.Darl.Server.{
  Op, acquires, registers, commits, releases, heartbeats, reaps, advances, is_skipped, or_skip,
  replay_leases, replay, replay_all,
}
use project_world_wide.Darl.Server.Sound.{IsTable, IsReplayable}
use project_world_wide.Darl.Server.Operations.{commit_outcome}

module _ {F : Type 0} where
  IsTable-trans : (t u v : LeaseTable F) → IsTable t u → IsTable u v → IsTable t v
  IsTable-trans t u v h k = (k.0, k.1 ∙ h.1)

  or_skip-IsTable :
      (t : LeaseTable F) (m : Result (LeaseTable F))
      → IsValid t
      → Outcome m (IsTable t) (λ e. is_skipped e ≡ true)
      → Returns (or_skip t m) (IsTable t)
  or_skip-IsTable t (ok u) h k = k
  or_skip-IsTable t (err e) h k = rw k (h, refl)

  -- One round of the loop over the replayed leases.
  next_lease :
      (t : LeaseTable F) (f : LeaseTable F → Result (LeaseTable F))
      (m : Result (Bool × LeaseTable F))
      → Returns m (IsReplayed t)
      → ((done : Bool) (u : LeaseTable F) → IsReplayed t (done, u) → Returns (f u) (IsTable t))
      → Returns
          (elim m as (λ _. Result (LeaseTable F)) [ ok (_, u) ↦ f u | err e ↦ or_skip t (err e) ])
          (IsTable t)
  next_lease t f (ok (done, u)) k g = g done u k
  next_lease t f (err e) k g = absurd k

module _ {F : Type 0} ⦃fl : Floats F⦄ (floor clk : F) where
  replay_leases-IsTable :
      (cid : String) (r : ClusterRecord F) (ls : List (Lease F)) (t : LeaseTable F)
      → IsValid t
      → lookup cid t.clusters ≡ some r
      → All (IsGrantTo cid t.config.num_blocks) ls
      → Returns (replay_leases floor ls t) (IsTable t)
  unfolding replay_leases
  replay_leases-IsTable cid r [] t h known proper = (h, refl)
  replay_leases-IsTable cid r (l ∷ ls) t h known (p, proper) =
      next_lease t (replay_leases floor ls) (replay_lease floor l t)
        (replay_lease-IsReplayed t floor l h (r, rw p.0 known) p.1 p.2)
        λ done u k.
          Returns-map (replay_leases floor ls u) (IsTable u) (IsTable t)
            (λ v m. IsTable-trans t u v (k.valid, k.config) m)
            (replay_leases-IsTable cid r ls u k.valid
              (let e = k.clusters in ap (lookup cid) e ∙ known)
              (let e = k.config in subst (λ c. All (IsGrantTo cid c.num_blocks) ls) (sym e) proper))

  -- A journalled operation is replayed on any valid table without an exception that leaves `_replay`.
  replay-IsTable :
      (op : Op F) (now : F) (t : LeaseTable F)
      → IsValid t
      → 0 < t.config.num_blocks
      → IsReplayable t.config.num_blocks (op, now)
      → Returns (replay floor clk (op, now) t) (IsTable t)
  unfolding replay
  replay-IsTable (registers cid digest incarnation ranks) now t h some_blocks k =
      or_skip-IsTable t (register cid digest ranks incarnation false now t) h (
        Outcome-map (register cid digest ranks incarnation false now t) _ _ _ _
          (λ u m. (m.2.0, m.2.5)) (λ e m. elim m [ inl a ↦ rw a.0 refl | inr b ↦ cc b.2 ])
          (register_outcome cid digest incarnation ranks false now t h))
  replay-IsTable (acquires cid leases) now t h some_blocks k =
      or_skip-IsTable t (register_plain cid now t >>= replay_leases floor leases) h (
        Outcome-Returns (register_plain cid now t >>= replay_leases floor leases) (IsTable t) _ _
          (λ u m. m)
          (Returns-bind (register_plain cid now t) (replay_leases floor leases) (IsRegistered cid t)
            (IsTable t) (register_plain-IsRegistered cid now t h)
            λ u reg.
              Returns-map (replay_leases floor leases u) (IsTable u) (IsTable t)
                (λ v m. IsTable-trans t u v (reg.0, reg.5) m)
                (replay_leases-IsTable cid reg.1.0 leases u reg.0 reg.1.1
                  (subst (λ c. All (IsGrantTo cid c.num_blocks) leases) (sym reg.5) k))))
  replay-IsTable (commits cid i through) now t h some_blocks k =
      or_skip-IsTable t (commit cid i through now t >>= λ a. ok a.1) h (
        Outcome-bind (commit cid i through now t) (λ a. ok a.1) _ _ _ _
          (commit_outcome cid i through now t h) (λ a m. m)
          (λ e m. elim m [ inl a ↦ rw a refl | inr b ↦ rw b refl ]))
  replay-IsTable (releases cid lease_id incarnation) now t h some_blocks k =
      or_skip-IsTable t (release cid lease_id "" true t >>= λ a. ok a.0) h (
        Outcome-bind (release cid lease_id "" true t) (λ a. ok a.0) (λ a. IsGivenBack t a.0) _ _ _
          (Outcome-Returns (release cid lease_id "" true t) _ _ (λ _. ⊥) (λ a m. m)
            (release-IsGivenBack cid lease_id "" true t h))
          (λ a m. (m.valid, m.config)) (λ e m. absurd m))
  replay-IsTable (heartbeats cid progress ttl) now t h some_blocks k =
      or_skip-IsTable t
        (heartbeat cid progress (fl.of_nat 0) (fl.of_nat 0) ttl now t >>= λ a. ok a.1) h
        (Outcome-bind (heartbeat cid progress (fl.of_nat 0) (fl.of_nat 0) ttl now t) (λ a. ok a.1)
          (λ a. IsGivenBack t a.1) _ _ _
          (Outcome-Returns (heartbeat cid progress (fl.of_nat 0) (fl.of_nat 0) ttl now t) _ _
            (λ _. ⊥) (λ a m. m)
            (heartbeat-IsGivenBack cid progress (fl.of_nat 0) (fl.of_nat 0) ttl now t h))
          (λ a m. (m.valid, m.config)) (λ e m. absurd m))
  replay-IsTable (reaps _) now t h some_blocks k =
      or_skip-IsTable t (reap now t >>= λ a. ok a.0) h (
        Outcome-bind (reap now t) (λ a. ok a.0) (λ a. IsGivenBack t a.0) _ _ _
          (Outcome-Returns (reap now t) _ _ (λ _. ⊥) (λ a m. m) (reap-IsGivenBack now t h))
          (λ a m. (m.valid, m.config)) (λ e m. absurd m))
  replay-IsTable advances now t h some_blocks k =
      ((advance_epoch-IsValid clk t some_blocks h).0, advance_config clk t)

  pub replay_all-IsTable :
      (entries : List (Op F × F)) (t : LeaseTable F)
      → IsValid t
      → 0 < t.config.num_blocks
      → All (IsReplayable t.config.num_blocks) entries
      → Returns (replay_all floor clk entries t) (IsTable t)
  unfolding replay_all
  replay_all-IsTable [] t h some_blocks k = (h, refl)
  replay_all-IsTable ((op, now) ∷ entries) t h some_blocks k =
      Returns-bind (replay floor clk (op, now) t) (replay_all floor clk entries) (IsTable t)
        (IsTable t) (replay-IsTable op now t h some_blocks k.0)
        λ u m.
          Returns-map (replay_all floor clk entries u) (IsTable u) (IsTable t)
            (λ v m'. IsTable-trans t u v m m')
            (replay_all-IsTable entries u m.0 (subst (λ c. 0 < c.num_blocks) (sym m.1) some_blocks)
              (subst (λ c. All (IsReplayable c.num_blocks) entries) (sym m.1) k.1))

module _ {F : Type 0} ⦃fl : Floats F⦄ where
  -- All the entries of a journal, replayed one after the other.
  pub data Replayed (floor clk : F) : List (Op F × F) → LeaseTable F → LeaseTable F → Type 0 where
    nothing : (t : LeaseTable F) → Replayed floor clk [] t t
    then_rest :
        (entry : Op F × F) (entries : List (Op F × F)) (t u v : LeaseTable F)
        → replay floor clk entry t ≡ ok u
        → Replayed floor clk entries u v
        → Replayed floor clk (entry ∷ entries) t v

  pub replay_all-Replayed :
      (floor clk : F) (entries : List (Op F × F)) (t v : LeaseTable F)
      → replay_all floor clk entries t ≡ ok v
      → Replayed floor clk entries t v
  unfolding replay_all
  replay_all-Replayed floor clk [] t v e =
      let same : t ≡ v = cc e in subst (λ x. Replayed floor clk [] t x) same (nothing t)
  replay_all-Replayed floor clk ((op, now) ∷ entries) t v e =
      let (u, first, rest) =
        >>=-eq-ok (replay floor clk (op, now) t) (replay_all floor clk entries) v e in
      then_rest (op, now) entries t u v first (replay_all-Replayed floor clk entries u v rest)
