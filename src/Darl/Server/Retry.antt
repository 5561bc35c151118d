-- ===== src/Darl/Server/Retry.antt =====
-- A request for blocks that is sent again (src/pww/darl/server.py).
use project_world_wide.Prelude.{
  ℕ, suc, ◌≡◌, refl, true, false, ◌&&◌, String, none, some, List, [], ◌∷◌, ◌++◌, ◌==◌, ltb, length,
  arith, Bool-cases, Option-cases, inl, inr, str_eq, eq_iff, ok, ap, ◌∙◌, sym, >>=-eq-ok,
}
use project_world_wide.Darl.Floats.{Floats}
use project_world_wide.Darl.Lease.{Grant}
use project_world_wide.Darl.Table.{is_text}
use project_world_wide.Darl.Table.Acquire.{acquire}
use project_world_wide.Darl.Server.{
  Coordinator, answered, find_grant, evict, note_grant, on_acquire,
}

same_key : (cid rid : String) → (str_eq cid cid && str_eq rid rid) ≡ true
same_key cid rid = ground (arith, eq_iff cid cid, eq_iff rid rid)

module _ {F : Type 0} where
  find_grant-last :
      (cid rid : String) (g : Grant F) (cache : List ((String × String) × Grant F))
      → find_grant cid rid cache ≡ none
      → find_grant cid rid (cache ++ (((cid, rid), g) ∷ [])) ≡ some g
  unfolding find_grant
  find_grant-last cid rid g [] h = rw (same_key cid rid) refl
  find_grant-last cid rid g (((cid', rid'), g') ∷ cache) h =
      elim (Bool-cases (str_eq cid' cid && str_eq rid' rid)) [
        | inl e ↦ let h' = (rw e at h) in cc
        | inr e ↦ let h' = (rw e at h) in rw e (find_grant-last cid rid g cache h')
      ]

  -- The newest entry is not dropped.
  find_grant-evict :
      (cid rid : String) (g : Grant F) (cache : List ((String × String) × Grant F))
      → find_grant cid rid cache ≡ none
      → find_grant cid rid (evict (cache ++ (((cid, rid), g) ∷ []))) ≡ some g
  unfolding find_grant evict
  find_grant-evict cid rid g [] h = rw (same_key cid rid) refl
  find_grant-evict cid rid g (((cid', rid'), g') ∷ cache) h =
      elim (Bool-cases (str_eq cid' cid && str_eq rid' rid)) [
        | inl e ↦ let h' = (rw e at h) in cc
        | inr e ↦
            let h' = (rw e at h) in
            elim (Bool-cases (ltb 256 (suc (length (cache ++ (((cid, rid), g) ∷ [])))))) [
              | inl full ↦ rw full (find_grant-evict cid rid g cache h')
              | inr fits ↦ rw (fits, e) (find_grant-last cid rid g cache h')
            ]
      ]

module _ {F : Type 0} ⦃fl : Floats F⦄ where
  note_grant-cache :
      (cid rid : String) (now : F) (g : Grant F) (c : Coordinator F)
      → is_text rid ≡ true
      → (length g.leases == 0) ≡ false
      → (note_grant cid rid now g c).grant_cache ≡ evict (c.grant_cache ++ (((cid, rid), g) ∷ []))
  unfolding note_grant
  note_grant-cache cid rid now g c named some_leases = elim (Bool-cases c.is_durable) [
    | inl e ↦ rw (named, some_leases, e) refl
    | inr e ↦ rw (named, some_leases, e) refl
  ]

  -- An acquire that has granted leases and is sent again with the same request id, with whatever
  -- other arguments and whenever, as long as nothing has come in between, is answered with the same
  -- grant and changes nothing: no second span is leased.
  pub on_acquire_again :
      (cid rid : String) (blocks blocks' max_spans max_spans' : ℕ)
      (ttl ttl' step step' rtt rtt' now now' clk clk' : F) (g : Grant F) (c d : Coordinator F)
      → is_text rid ≡ true
      → (length g.leases == 0) ≡ false
      → on_acquire cid blocks ttl max_spans step rtt rid now clk c ≡ ok (answered g, d)
      → on_acquire cid blocks' ttl' max_spans' step' rtt' rid now' clk' d ≡ ok (answered g, d)
  unfolding on_acquire
  on_acquire_again cid rid blocks blocks' max_spans max_spans' ttl ttl' step step' rtt rtt' now now'
        clk clk' g c d named some_leases first =
      elim (Option-cases (find_grant cid rid c.grant_cache)) [
        | inr (g', e) ↦
            let first' = (rw (named, on_acquire, e) at first) in
            let same_grant : g' ≡ g = cc in
            let same : c ≡ d = cc in
            let again : find_grant cid rid d.grant_cache ≡ some g = cc in
            rw (named, on_acquire, again) refl
        | inl e ↦
            let first' = (rw (named, on_acquire, e) at first) in
            let (a, granted, noted) =
              >>=-eq-ok (acquire cid blocks ttl max_spans step rtt now clk c.table) _ _ first' in
            let same_grant : a.0 ≡ g = cc in
            let same : note_grant cid rid now a.0 (record c { table = a.1 }) ≡ d = cc in
            let some_leases' : (length a.0.leases == 0) ≡ false =
              ap (λ (x : Grant F). length x.leases == 0) same_grant ∙ some_leases in
            let cache : d.grant_cache ≡ evict (c.grant_cache ++ (((cid, rid), a.0) ∷ [])) =
              ap (λ (x : Coordinator F). x.grant_cache) (sym same)
              ∙ note_grant-cache cid rid now a.0 (record c { table = a.1 }) named some_leases' in
            let again : find_grant cid rid d.grant_cache ≡ some g =
              ap (find_grant cid rid) cache
              ∙ find_grant-evict cid rid a.0 c.grant_cache e
              ∙ ap some same_grant in
            rw (named, on_acquire, again) refl
      ]
