-- ===== src/Central/Blobs/Tests.antt =====
-- An upload to src/pww/central/blobstore.py over a stream that counts its bytes.
use project_world_wide.Prelude.{
  ℕ, zero, suc, ◌+◌, ◌≤◌, ◌≡◌, refl, Bool, true, false, String, Option, none, some, List, [], ◌∷◌,
  length, Result, ok, err, blob_store_error, arith,
}
use project_world_wide.Prelude.Dict.{Dict}
use project_world_wide.Central.Blobs.{
  BlobStore, receive, size, exists_blob, open_read, note_sent, delete,
}
use project_world_wide.Central.Blobs.Received.{IsReceived, receive-IsReceived}

-- One byte at a time.
unfoldable next_byte : ℕ → ℕ → List ℕ × ℕ
next_byte zero s = ([], s)
next_byte (suc m) s = (s ∷ [], s + 1)

next_byte_short : (m s : ℕ) → length (next_byte m s).0 ≤ m
unfolding next_byte
next_byte_short zero s = omega arith
next_byte_short (suc m) s = omega arith

-- A stream that has ended.
abbrev ended : ℕ → ℕ → List ℕ × ℕ
ended m s = ([], s)

abbrev store : BlobStore
store = record { files = ("a.pww", 7 ∷ []) ∷ []; bytes_in = 1; bytes_out = 0; puts = 1; gets = 0 }

receive-IsReceived_example :
    (a : Result ℕ × ℕ × BlobStore) × (receive next_byte "b.pww" 4 3 store ≡ some a)
    × IsReceived next_byte "b.pww" 4 3 store a
receive-IsReceived_example = receive-IsReceived next_byte "b.pww" 4 3 store next_byte_short

receive_runs :
    receive next_byte "b.pww" 4 3 store
    ≡ some (
      ok 3,
      7,
      record {
        files = ("a.pww", 7 ∷ []) ∷ ("b.pww", 4 ∷ 5 ∷ 6 ∷ []) ∷ [];
        bytes_in = 4;
        bytes_out = 0;
        puts = 2;
        gets = 0;
      },
    )
unfolding receive next_byte
receive_runs = refl

disconnected_runs : receive ended "a.pww" 4 3 store ≡ some (err blob_store_error, 4, store)
unfolding receive
disconnected_runs = refl

store_runs :
    (size "a.pww" store ≡ ok (some 1))
    × (exists_blob "b.pww" store ≡ ok false)
    × (open_read "../a.pww" store ≡ err blob_store_error)
    × ((note_sent 5 store).bytes_out ≡ 5)
    × (delete "a.pww" store ≡ ok (true, record store { files = [] }))
unfolding size exists_blob open_read note_sent delete project_world_wide.Central.Names.safe_name
    project_world_wide.Prelude.Dict.lookup
store_runs = (refl, refl, refl, refl, refl)
