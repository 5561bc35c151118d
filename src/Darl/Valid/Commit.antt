-- ===== src/Darl/Valid/Commit.antt =====
-- What `commit` (src/pww/darl/table.py) does in each case.
use project_world_wide.Prelude.{
  ℕ, ◌-◌, ◌<◌, ◌≡◌, ◌≢◌, refl, sym, true, false, not, String, none, some, ◌==◌, arith, str_eq,
  Bool-cases, inl, inr, Returns, err, subst, min, max, leb, eq_iff, ◌⊎◌, Error, Option-cases,
  key_error, permission_error,
}
use project_world_wide.Darl.Floats.{Floats}
use project_world_wide.Darl.Lease.{Lease, LeaseId, find_lease}
use project_world_wide.Darl.Table.{LeaseTable}
use project_world_wide.Darl.Table.Hold.{commit, close_lease}
use project_world_wide.Darl.Blocks.{All-find_lease, find_lease_id}
use project_world_wide.Darl.Valid.{IsMarked, IsOwned, IsValid}
use project_world_wide.Darl.Valid.Holding.{IsCommitted, commit_blocks_then_close}

module _ {F : Type 0} ⦃fl : Floats F⦄ where
  close_unchanged :
      (t : LeaseTable F) (l : Lease F)
      → IsValid t
      → l.committed_end < l.end
      → IsCommitted t l l.committed_end (close_lease l.cluster l l.committed_end t).1
  unfolding close_lease
  close_unchanged t l h more =
      let still_open : leb l.end l.committed_end ≡ false = ground arith in
      let nothing_new : (l.committed_end - l.committed_end == 0) ≡ true = ground arith in
      rw (still_open, nothing_new)
        (record {
          valid = h;
          marked = λ p a. absurd (ground arith);
          elsewhere = λ p a. refl;
          counted = omega arith;
          config = refl;
          epoch = refl;
        })

  -- In a valid table the owner's commit of a lease that is held raises nothing, at any watermark.
  -- With the watermark clamped between the old one and the lease's end, exactly the blocks up to it
  -- go from leased to committed, the counter grows by their number, every other block keeps its
  -- state, and the table stays valid.
  pub commit-IsCommitted :
      (t : LeaseTable F) (l : Lease F) (i : LeaseId) (asked : ℕ) (now : F)
      → IsValid t
      → find_lease i t.leases ≡ some l
      → Returns
          (commit l.cluster i asked now t)
          (λ a. IsCommitted t l (min (max asked l.committed_end) l.end) a.1)
  unfolding commit
  commit-IsCommitted t l i asked now h held =
      let through = min (max asked l.committed_end) l.end in
      let held' : find_lease l.lease_id t.leases ≡ some l =
        subst (λ j. find_lease j t.leases ≡ some l) (sym (find_lease_id i l t.leases held)) held in
      let m =
        All-find_lease (IsMarked t.config.num_blocks t.epoch t.seq) i l t.leases held h.marks in
      let more = m.unfinished in
      let own : not (str_eq l.cluster l.cluster) ≡ false =
        rw ((eq_iff l.cluster l.cluster).1 refl) refl in
      let (r, known) = All-find_lease (IsOwned t.clusters) i l t.leases held h.owned in
      elim (Bool-cases (through == l.committed_end)) [
        | inl same ↦
            let e : through ≡ l.committed_end = ground arith in
            rw (held, commit, own, same)
              (subst (λ b. IsCommitted t l b (close_lease l.cluster l b t).1) (sym e)
                (close_unchanged t l h more))
        | inr further ↦
            rw (held, commit, own, further)
              (commit_blocks_then_close t l through now r h held'
                (let far : through ≢ l.committed_end = ground arith in omega (arith, more, far))
                (omega arith) known)
      ]

  -- In a valid table a commit that raises either raises KeyError, and the lease is not held, or it
  -- raises PermissionError, and the lease is held by another cluster.
  pub commit_errors :
      (t : LeaseTable F) (cid : String) (i : LeaseId) (asked : ℕ) (now : F) (e : Error)
      → IsValid t
      → commit cid i asked now t ≡ err e
      → ((e ≡ key_error) × (find_lease i t.leases ≡ none))
        ⊎ ((e ≡ permission_error)
            × ((l : Lease F) × (find_lease i t.leases ≡ some l) × (l.cluster ≢ cid)))
  unfolding commit
  commit_errors t cid i asked now e h raised = elim (Option-cases (find_lease i t.leases)) [
    | inl absent ↦ let r = (rw (absent, commit) at raised) in inl (cc r, absent)
    | inr (l, held) ↦ elim (Bool-cases (str_eq l.cluster cid)) [
      | inl own ↦
          let mine : l.cluster ≡ cid = (eq_iff l.cluster cid).0 own in
          let raised' : commit l.cluster i asked now t ≡ err e =
            subst (λ c. commit c i asked now t ≡ err e) (sym mine) raised in
          absurd (
            subst
              (λ m. Returns m (λ a. IsCommitted t l (min (max asked l.committed_end) l.end) a.1))
              raised' (commit-IsCommitted t l i asked now h held))
      | inr other ↦
          let r = (rw (held, commit, other) at raised) in
          inr (cc r, (l, held, λ same. ground (arith, eq_iff l.cluster cid)))
    ]
  ]
