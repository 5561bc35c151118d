-- ===== src/Titan/Shards/Windows.antt =====
-- What `window_tokens` of src/pww/titan/shards.py returns for a corpus that is staged completely.
use project_world_wide.Prelude.{
  ℕ, ◌+◌, ◌-◌, ◌*◌, ◌<◌, ◌≡◌, refl, sym, ap, subst, ◌∙◌, Bool, true, false, ◌||◌, String, Option,
  List, ◌==◌, ltb, if◌then◌else◌, str_eq, length, ok, err, index_error, Returns, arith, Bool-cases,
  inl, inr,
}
use project_world_wide.Prelude.Slices.{slice, length-slice}
use project_world_wide.Titan.Shards.{
  Manifest, num_windows, total_tokens, Corpus, offsets_from, open_corpus, window_tokens,
  verify_compatible,
}
use project_world_wide.Titan.Shards.Reading.{
  corpus_tokens, are_staged, total-offsets_from, length-corpus_tokens, read_at_lem, rows_fit,
}

-- What an opened corpus is.
open_corpus-inv :
    (m : Manifest) (c : Corpus)
    → open_corpus m ≡ ok c
    → c ≡ record {
      manifest = m;
      offsets = (offsets_from 0 m.shards).0;
      total = (offsets_from 0 m.shards).1;
    }
unfolding open_corpus
open_corpus-inv m c e = elim (Bool-cases (str_eq m.dtype "uint16" || str_eq m.dtype "uint32")) [
  | inl known ↦ ground (arith, known)
  | inr strange ↦ ground (arith, strange)
]

module _ (files : String → Option (List ℕ)) where
  -- For a corpus whose files are all there and long enough, window `index` is the slice of that number
  -- of all the tokens, one file after the other, wherever the shards are cut; an index that no window
  -- has raises IndexError.
  pub window_tokens_lem :
      (m : Manifest) (c : Corpus) (index : ℕ)
      → open_corpus m ≡ ok c
      → are_staged files m.window m.shards ≡ true
      → window_tokens files c index ≡ (
          if ltb index (num_windows m)
          then ok (slice (index * m.window) m.window (corpus_tokens files m.window m.shards))
          else err index_error)
  unfolding window_tokens num_windows
  window_tokens_lem m c index opened staged =
      let e = open_corpus-inv m c opened in
      let total = total-offsets_from 0 m.shards in
      ap (λ d. window_tokens files d index) e ∙ elim (Bool-cases (ltb index (num_windows m))) [
        | inl inside ↦
            let below : ltb index (offsets_from 0 m.shards).1 ≡ true =
              ground (arith, total, inside) in
            let same : index - 0 ≡ index = omega arith in
            let read =
              read_at_lem files m.window m.shards 0 index staged (omega arith)
                (ground (arith, inside)) in
            rw (below, inside)
              (read
                ∙ ap
                    (λ i.
                      ok (slice (i * m.window) m.window (corpus_tokens files m.window m.shards)))
                    same)
        | inr outside ↦
            let above : ltb index (offsets_from 0 m.shards).1 ≡ false =
              ground (arith, total, outside) in
            rw (above, outside) refl
      ]

  -- In a staged corpus that is compatible with a job, each window has the job's sequence length and
  -- one token more, for the label; all windows together are all the tokens.
  pub window_tokens_size :
      (m : Manifest) (c : Corpus) (index seq_len : ℕ) (assets : Bool) (fingerprint : Option String)
      → open_corpus m ≡ ok c
      → are_staged files m.window m.shards ≡ true
      → verify_compatible m seq_len assets fingerprint ≡ ok tt
      → index < num_windows m
      → Returns (window_tokens files c index) (λ tokens. length tokens ≡ seq_len + 1)
        × (length (corpus_tokens files m.window m.shards) ≡ total_tokens m)
  unfolding verify_compatible num_windows total_tokens
  window_tokens_size m c index seq_len assets fingerprint opened staged compatible inside =
      let fits : m.window ≡ seq_len + 1 = compatible_window in
      let below : ltb index (num_windows m) ≡ true = ground arith in
      let all = length-corpus_tokens files m.window m.shards staged in
      let room = rows_fit index (num_windows m) m.window inside in
      let size =
        length-slice (index * m.window) m.window (corpus_tokens files m.window m.shards)
          (omega (arith, room, all)) in
      (
        subst (λ r. Returns r (λ tokens. length tokens ≡ seq_len + 1))
            (sym (window_tokens_lem m c index opened staged)) (rw below (size ∙ fits)),
        all,
      )
    where
      compatible_window : m.window ≡ seq_len + 1
      compatible_window = elim (Bool-cases (m.seq_len == seq_len)) [
        | inr other ↦ ground (arith, other)
        | inl same ↦ elim (Bool-cases (m.window == m.seq_len + 1)) [
          | inr other ↦ ground (arith, same, other)
          | inl exact ↦ ground (arith, same, exact)
        ]
      ]
