-- ===== src/Central/Blobs/Received.antt =====
-- An upload to src/pww/central/blobstore.py lands whole or not at all, and it ends.
use mathlib.Core.List.{append_assoc, append-nil}
use project_world_wide.Prelude.{
  ℕ, zero, suc, ◌+◌, ◌-◌, ◌≤◌, ◌≡◌, refl, sym, ap, ◌∙◌, subst, true, String, some, List, [], ◌++◌,
  ◌==◌, min, length, length-append, str_eq, if◌then◌else◌, Result, ok, err, blob_store_error,
  Outcome, Outcome-map, Bool-cases, inl, inr, arith,
}
use project_world_wide.Prelude.Dict.{lookup, lookup-put}
use project_world_wide.Central.Names.{safe_name, is_safe}
use project_world_wide.Central.Blobs.{BlobStore, chunk, copy_blocks, land, receive}

module _ {S : Type 0} (read : ℕ → S → List ℕ × S) where
  -- Bytes that come from a stream in some reads, and the stream after them.
  pub data Reads : S → List ℕ → S → Type 0 where
    done : (s : S) → Reads s [] s
    more :
        (n : ℕ) (s : S) (bytes : List ℕ) (t : S)
        → Reads (read n s).1 bytes t
        → Reads s ((read n s).0 ++ bytes) t

  -- What the loop adds to `out`.
  abbrev IsCopied : ℕ → List ℕ → S → Result (List ℕ) × S → Type 0
  IsCopied remaining out stream a =
      Outcome a.0
        (λ written.
          (bytes : List ℕ) × (written ≡ out ++ bytes)
          × (length bytes ≡ remaining)
          × Reads stream bytes a.1)
        (λ e. e ≡ blob_store_error)

  copy_blocks_lem :
      (fuel remaining : ℕ) (out : List ℕ) (stream : S)
      → ((n : ℕ) (s : S) → length (read n s).0 ≤ n)
      → remaining ≤ fuel
      → (a : Result (List ℕ) × S) × (copy_blocks read fuel remaining out stream ≡ some a)
        × IsCopied remaining out stream a
  unfolding copy_blocks
  copy_blocks_lem zero remaining out stream short h =
      let over : remaining ≡ 0 = omega (arith, h) in
      let stop : (remaining == 0) ≡ true = ground (arith, over) in
      (
        (ok out, stream),
        rw (stop, copy_blocks) refl,
        ([], sym (append-nil out), sym over, done stream),
      )
  copy_blocks_lem (suc fuel) remaining out stream short h =
      let block = (read (min chunk remaining) stream).0 in
      let rest = (read (min chunk remaining) stream).1 in
      let fits = short (min chunk remaining) stream in
      elim (Bool-cases (remaining == 0)) [
        | inl stop ↦ (
          (ok out, stream),
          rw (stop, copy_blocks) refl,
          ([], sym (append-nil out), ground (arith, stop), done stream),
        )
        | inr on ↦ elim (Bool-cases (length block == 0)) [
          | inl gone ↦ ((err blob_store_error, rest), rw (on, copy_blocks, gone) refl, refl)
          | inr some_bytes ↦
              let (a, e, copied) =
                copy_blocks_lem fuel (remaining - length block) (out ++ block) rest short
                  (ground (arith, some_bytes, h)) in
              (
                a,
                rw (on, copy_blocks, some_bytes) e,
                Outcome-map a.0 _ _ _ _
                    (λ written k. (
                      block ++ k.0,
                      k.1 ∙ append_assoc out block k.0,
                      length-append block k.0 ∙ omega (arith, k.2, fits),
                      more (min chunk remaining) stream k.0 a.1 k.3,
                    ))
                    (λ x k. k) copied,
              )
        ]
      ]

  -- What an upload of `n` bytes leaves: the file whole, or nothing new.
  abbrev pub IsReceived : String → S → ℕ → BlobStore → Result ℕ × S × BlobStore → Type 0
  IsReceived name stream n b (answer, rest, b') =
      Outcome answer
        (λ count.
          (count ≡ n)
          × (b'.bytes_in ≡ b.bytes_in + n)
          × (b'.puts ≡ b.puts + 1)
          × ((bytes : List ℕ) × (length bytes ≡ n)
              × Reads stream bytes rest
              × ((other : String)
                  → lookup other b'.files
                    ≡ (if str_eq name other then some bytes else lookup other b.files))))
        (λ e. (e ≡ blob_store_error) × (b' ≡ b))

  land_lem :
      (name : String) (stream : S) (n : ℕ) (b : BlobStore) (a : Result (List ℕ) × S)
      → IsCopied n [] stream a
      → IsReceived name stream n b ((land name b a.0).0, a.1, (land name b a.0).1)
  unfolding land
  land_lem name stream n b (err e, rest) failed = (failed, refl)
  land_lem name stream n b (ok written, rest) (bytes, same, size, reads) =
      let count : length written ≡ n = ap length same ∙ size in
      (
        count,
        ap (λ x. b.bytes_in + x) count,
        refl,
        (
          written,
          count,
          subst (λ x. Reads stream x rest) (sym same) reads,
          λ other. lookup-put name other written b.files,
        ),
      )

  -- An upload over a stream whose `read` returns no more bytes than it is asked for ends. Either exactly
  -- as many bytes as were announced have come from the stream and are the file of that name, with the other
  -- files as before; or BlobStoreError is raised and the store is as before.
  pub receive-IsReceived :
      (name : String) (stream : S) (n : ℕ) (b : BlobStore)
      → ((m : ℕ) (s : S) → length (read m s).0 ≤ m)
      → (a : Result ℕ × S × BlobStore) × (receive read name stream n b ≡ some a)
        × IsReceived name stream n b a
  unfolding receive safe_name
  receive-IsReceived name stream n b short = elim (Bool-cases (is_safe name)) [
    | inr unsafe ↦
        ((err blob_store_error, stream, b), rw (unsafe, receive, safe_name) refl, (refl, refl))
    | inl safe ↦
        let (a, e, copied) = copy_blocks_lem n n [] stream short (omega arith) in
        (
          ((land name b a.0).0, a.1, (land name b a.0).1),
          rw (safe, receive, safe_name, e) refl,
          land_lem name stream n b a copied,
        )
  ]
