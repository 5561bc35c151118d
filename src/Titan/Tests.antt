-- ===== src/Titan/Tests.antt =====
-- The theorems about the corpus (src/pww/titan/shards.py) with two small files.
use project_world_wide.Prelude.{
  ℕ, ◌*◌, ◌+◌, ◌≡◌, refl, true, String, Option, none, some, List, [], ◌∷◌, ltb, if◌then◌else◌,
  str_eq, length, ok, err, index_error, Returns, arith,
}
use project_world_wide.Prelude.Slices.{slice}
use project_world_wide.Titan.Shards.{Manifest, num_windows, total_tokens, Corpus, window_tokens}
use project_world_wide.Titan.Shards.Reading.{corpus_tokens}
use project_world_wide.Titan.Shards.Windows.{window_tokens_lem, window_tokens_size}

abbrev two_files : String → Option (List ℕ)
two_files path =
    if str_eq path "a.bin"
    then some (1 ∷ 2 ∷ 3 ∷ 4 ∷ 5 ∷ [])
    else if str_eq path "b.bin"
    then some (6 ∷ 7 ∷ [])
    else none

abbrev small : Manifest
small = record {
  seq_len = 1;
  window = 2;
  dtype = "uint32";
  vocab_size = 9;
  tokenizer_repo = "";
  tokenizer_sha256 = "f0";
  shards = record { path = "a.bin"; windows = 2 } ∷ record { path = "b.bin"; windows = 1 } ∷ [];
  format = "pww-tokens-v1";
}

abbrev opened_small : Corpus
opened_small = record { manifest = small; offsets = 0 ∷ 2 ∷ []; total = 3 }

window_tokens_example : window_tokens two_files opened_small 2 ≡ (
    if ltb 2 (num_windows small)
    then ok (slice (2 * 2) 2 (corpus_tokens two_files 2 small.shards))
    else err index_error)
unfolding project_world_wide.Titan.Shards.open_corpus
    project_world_wide.Titan.Shards.Reading.are_staged
window_tokens_example = window_tokens_lem two_files small opened_small 2 refl refl

window_tokens_runs : window_tokens two_files opened_small 2 ≡ ok (6 ∷ 7 ∷ [])
unfolding window_tokens
window_tokens_runs = refl

window_tokens_size_example :
    Returns (window_tokens two_files opened_small 1) (λ tokens. length tokens ≡ 1 + 1)
    × (length (corpus_tokens two_files 2 small.shards) ≡ total_tokens small)
unfolding project_world_wide.Titan.Shards.open_corpus
    project_world_wide.Titan.Shards.Reading.are_staged
    project_world_wide.Titan.Shards.verify_compatible num_windows
window_tokens_size_example =
    window_tokens_size two_files small opened_small 1 1 true (some "f0") refl refl refl
      (omega arith)
