-- ===== src/Central/Names/Tests.antt =====
-- The names of blobs of a run, by example (src/pww/fedproto.py, src/pww/central/blobstore.py).
use project_world_wide.Prelude.{
  ◌≡◌, refl, true, false, not, ◌&&◌, leb, err, blob_store_error, str_eq,
}
use project_world_wide.Central.Names.{
  sanitise, global_blob, delta_blob, text_length, is_safe, safe_name,
}
use project_world_wide.Central.Names.Safe.{begins_with_underscore, is_safe-global_blob}

is_safe-global_blob_example : is_safe (global_blob "_trial 7" 12) ≡ (
    not (begins_with_underscore (sanitise "_trial 7" "run"))
    && leb (text_length (global_blob "_trial 7" 12)) 201)
is_safe-global_blob_example = is_safe-global_blob "_trial 7" 12

global_blob_runs : str_eq (global_blob "campaign 7" 120) "campaign-7-global-r120.pww" ≡ true
unfolding global_blob
global_blob_runs = refl

-- The underscore stays, and is refused.
underscore_runs :
    (is_safe (global_blob "_trial" 3) ≡ false)
    × (safe_name "_trial-global-r3.pww" ≡ err blob_store_error)
unfolding is_safe global_blob safe_name
underscore_runs = (refl, refl)

-- Two cluster names, one blob.
delta_blob_runs : str_eq (delta_blob "r" 1 "a/b") (delta_blob "r" 1 "a-b") ≡ true
unfolding delta_blob
delta_blob_runs = refl

-- A newline at the end is accepted.
newline_runs : is_safe "a.pww\n" ≡ true
unfolding is_safe project_world_wide.Central.Names.is_empty
newline_runs = refl
