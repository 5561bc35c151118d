-- ===== src/Central/Blobs.antt =====
-- class BlobStore of src/pww/central/blobstore.py: files under one directory. The files are a dict
-- of bytes by name. A staging file is seen by nobody but the call that writes it, and it is gone
-- when the call ends, so it is no part of the state. The stream of a request is a parameter: a type
-- of streams and its `read`, which is given a number of bytes.
pub mod Received
pub mod Tests
use project_world_wide.Prelude.{
  ℕ, zero, suc, ◌+◌, ◌-◌, ◌≡◌, Bool, true, false, String, Option, none, some, List, [], ◌∷◌, ◌++◌,
  ◌==◌, str_eq, min, length, if◌then◌else◌, Result, ok, err, Error, file_not_found,
  blob_store_error, ◌>>=◌,
}
use project_world_wide.Prelude.Dict.{Dict, lookup, put}
use project_world_wide.Central.Names.{safe_name}

pub record BlobStore : Type 0 where
  pub files : Dict (List ℕ)
  pub bytes_in : ℕ
  pub bytes_out : ℕ
  pub puts : ℕ
  pub gets : ℕ

-- CHUNK
abbrev pub chunk : ℕ
chunk = 8388608

-- The end of receive: the rename, or the exception.
unfoldable pub land : String → BlobStore → Result (List ℕ) → Result ℕ × BlobStore
unfolding put
land name b (err e) = (err e, b)
land name b (ok written) = (
  ok (length written),
  record b {
    files = put name written b.files;
    bytes_in = b.bytes_in + length written;
    puts = b.puts + 1;
  },
)

-- The `while` loop of receive: what has been written, or the exception. `none` is a loop that goes on
-- for more than `fuel` rounds.
module _ {S : Type 0} (read : ℕ → S → List ℕ × S) where
  unfoldable pub copy_blocks : ℕ → ℕ → List ℕ → S → Option (Result (List ℕ) × S)
  copy_blocks zero remaining out stream = if remaining == 0 then some (ok out, stream) else none
  copy_blocks (suc fuel) remaining out stream =
      let (block, rest) = read (min chunk remaining) stream in
      let more = copy_blocks fuel (remaining - length block) (out ++ block) rest in
      if remaining == 0
      then some (ok out, stream)
      else if length block == 0
      then some (err blob_store_error, rest)
      else more

  -- receive
  unfoldable pub receive : String → S → ℕ → BlobStore → Option (Result ℕ × S × BlobStore)
  unfolding copy_blocks land safe_name
  receive name stream n b = elim (safe_name name) [
    | err e ↦ some (err e, stream, b)
    | ok _ ↦ elim (copy_blocks n n [] stream) [
      | none ↦ none
      | some (written, rest) ↦ let (answer, b') = land name b written in some (answer, rest, b')
    ]
  ]

-- exists, size (`none` for -1), open_read
unfoldable pub exists_blob : String → BlobStore → Result Bool
exists_blob name b =
    safe_name name >>= λ n. ok (elim (lookup n b.files) [ none ↦ false | some _ ↦ true ])

unfoldable pub size : String → BlobStore → Result (Option ℕ)
size name b =
    safe_name name >>= λ n. ok (elim (lookup n b.files) [ none ↦ none | some f ↦ some (length f) ])

unfoldable pub open_read : String → BlobStore → Result (List ℕ)
open_read name b =
    safe_name name >>= λ n. elim (lookup n b.files) [ none ↦ err file_not_found | some f ↦ ok f ]

-- target.unlink()
unfoldable pub unlink : String → Dict (List ℕ) → Dict (List ℕ)
unlink name [] = []
unlink name ((k, f) ∷ files) =
    let rest = unlink name files in if str_eq k name then rest else (k, f) ∷ rest

-- delete
unfoldable pub delete : String → BlobStore → Result (Bool × BlobStore)
unfolding unlink lookup
delete name b = safe_name name >>= λ n. ok (elim (lookup n b.files) [
  | none ↦ (false, b)
  | some _ ↦ (true, record b { files = unlink n b.files })
])

-- note_sent
unfoldable pub note_sent : ℕ → BlobStore → BlobStore
note_sent count b = record b { bytes_out = b.bytes_out + count; gets = b.gets + 1 }
