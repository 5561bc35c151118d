-- ===== src/Darl/Server/Life.antt =====
-- The life of a coordinator (src/pww/darl/server.py): requests, maintenance and restarts, in any order.
use project_world_wide.Prelude.{
  ℕ, ◌+◌, ◌≤◌, ◌<◌, ◌≡◌, Bool, String, Option, none, some, [], arith, ok, Returns, Returns-ok,
  Outcome-ok, ltb, subst,
}
use project_world_wide.Darl.Interval.Cover.{cover}
use project_world_wide.Darl.Floats.{Floats}
use project_world_wide.Darl.Table.{LeaseTable, Config, new_table, reset_epoch, blank}
use project_world_wide.Darl.Blocks.{lease_cover}
use project_world_wide.Darl.Valid.Registration.{reset_epoch-IsValid}
use project_world_wide.Darl.Server.{Coordinator, tick, load}
use project_world_wide.Darl.Server.Routes.{Request, do_post}
use project_world_wide.Darl.Server.Sound.{IsSound}
use project_world_wide.Darl.Server.Operations.{tick-IsSound}
use project_world_wide.Darl.Server.Answers.{do_post-IsSound}
use project_world_wide.Darl.Server.Recovery.{IsLoaded, load-IsLoaded}

module _ {F : Type 0} ⦃fl : Floats F⦄ where
  -- Coordinator(table, state_dir, ...)
  unfoldable pub new_coordinator : LeaseTable F → Bool → F → Bool → Coordinator F
  new_coordinator t is_durable interval verifies = record {
    table = t;
    is_durable = is_durable;
    journal = [];
    saved = none;
    snapshot_interval = interval;
    verify_on_snapshot = verifies;
    last_snapshot = fl.of_nat 0;
    grant_cache = [];
    requests = 0;
  }

  -- One step: a request, a round of the maintenance thread, or a crash and a restart from the files.
  pub data Step : Coordinator F → Coordinator F → Type 0 where
    posted :
        (c : Coordinator F) (authorised : Bool) (q : Request F) (now clk : F)
        → Step c (do_post authorised q now clk c).1
    ticked : {c d : Coordinator F} (now : F) → tick now c ≡ ok d → Step c d
    restarted :
        {c d : Coordinator F} (blocks : Option ℕ) (digest : String) (grace_s clk : F)
        → load blocks digest grace_s clk c ≡ ok (some d)
        → Step c d

  pub data Reach (c : Coordinator F) : Coordinator F → Type 0 where
    here : Reach c c
    next : {d e : Coordinator F} → Reach c d → Step d e → Reach c e

  Step-IsSound : {c d : Coordinator F} → Step c d → IsSound c → IsSound d
  Step-IsSound (posted c authorised q now clk) h = (do_post-IsSound authorised q now clk c h).1
  Step-IsSound {c} (ticked now e) h = Returns-ok (tick now c) IsSound _ (tick-IsSound now c h) e
  Step-IsSound {c} (restarted blocks digest grace_s clk e) h =
      (Outcome-ok (load blocks digest grace_s clk c) (IsLoaded grace_s clk c) _ (some _)
        (load-IsLoaded blocks digest grace_s clk c h) e).0

  pub Reach-IsSound : {c d : Coordinator F} → Reach c d → IsSound c → IsSound d
  Reach-IsSound here h = h
  Reach-IsSound (next r s) h = Step-IsSound s (Reach-IsSound r h)

  pub new_coordinator-IsSound :
      (args : Config F) (epoch : ℕ) (clk : F) (is_durable : Bool) (interval : F) (verifies : Bool)
      → 0 < args.num_blocks
      → Returns
          (new_table args epoch clk)
          (λ t. IsSound (new_coordinator t is_durable interval verifies))
  unfolding new_table new_coordinator
  new_coordinator-IsSound args epoch clk is_durable interval verifies some_blocks =
      let proper : ltb args.num_blocks 1 ≡ Bool.false = ground arith in
      rw proper (record {
        valid = reset_epoch-IsValid epoch clk (blank args epoch clk) some_blocks;
        kept = unfold reset_epoch in (some_blocks, omega arith, ground arith, omega arith);
        journal = tt;
        saved = tt;
      })

  -- A coordinator that starts with a new table of at least one block may serve any requests, run its
  -- maintenance, crash and restart from its files, in any order and at any times: no position is
  -- ever in two leases, nor in a lease and free at once, nor free twice.
  pub never_twice :
      (args : Config F) (epoch : ℕ) (clk : F) (is_durable : Bool) (interval : F) (verifies : Bool)
      (t : LeaseTable F) (d : Coordinator F) (p : ℕ)
      → 0 < args.num_blocks
      → new_table args epoch clk ≡ ok t
      → Reach (new_coordinator t is_durable interval verifies) d
      → cover p d.table.free.intervals + lease_cover p d.table.leases ≤ 1
  never_twice args epoch clk is_durable interval verifies t d p some_blocks e r =
      let begun =
        subst (λ m. Returns m (λ u. IsSound (new_coordinator u is_durable interval verifies))) e
          (new_coordinator-IsSound args epoch clk is_durable interval verifies some_blocks) in
      let h = Reach-IsSound r begun in
      let free = h.valid.blocks.free_at p in
      let held = h.valid.blocks.leased_at p in ground (arith, free, held)
