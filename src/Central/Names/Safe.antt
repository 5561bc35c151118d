-- ===== src/Central/Names/Safe.antt =====
-- Which names src/pww/fedproto.py makes that src/pww/central/blobstore.py accepts.
use Prim.Native.Char.{Char, code}
use project_world_wide.Prelude.{
  ℕ, zero, suc, ◌/◌, ◌%◌, ◌≡◌, refl, ap, ◌∙◌, Bool, true, false, not, ◌&&◌, String, ◌==◌, leb,
  if◌then◌else◌, Bool-cases, inl, inr, arith,
}
use project_world_wide.Central.Names.{
  join, text_length, is_empty, is_alnum, is_word, safe_char, clean, is_edge, strip_left,
  strip_right, sanitise, digit, numeral, global_blob, matches_rest, is_safe,
}

-- Whether all characters are in [A-Za-z0-9._-].
unfoldable pub are_words : String → Bool
are_words String.[] = true
are_words (String.◌∷◌ c s) = is_word (code c) && are_words s

-- Whether the first character is one that a name may begin with, and whether it is an underscore.
unfoldable pub begins_well : String → Bool
begins_well String.[] = false
begins_well (String.◌∷◌ c s) = is_alnum (code c)

unfoldable pub begins_with_underscore : String → Bool
begins_with_underscore String.[] = false
begins_with_underscore (String.◌∷◌ c s) = code c == b'_'

-- Whether the first character is not one that is stripped.
unfoldable begins_inside : String → Bool
begins_inside String.[] = false
begins_inside (String.◌∷◌ c s) = not (is_edge (code c))

newline_is_no_word : (c : ℕ) → is_word c ≡ true → (c == 10) ≡ false
unfolding is_word is_alnum
newline_is_no_word c h = ground arith

matches_rest_lem :
    (n : ℕ) (s : String) → are_words s ≡ true → matches_rest n s ≡ leb (text_length s) n
unfolding matches_rest are_words text_length
matches_rest_lem n String.[] h = ground arith
matches_rest_lem zero (String.◌∷◌ c s) h =
    let other = newline_is_no_word (code c) (ground arith) in ground (arith, other)
matches_rest_lem (suc n) (String.◌∷◌ c s) h =
    let other = newline_is_no_word (code c) (ground arith) in
    let rest = matches_rest_lem n s (ground arith) in ground (arith, other, rest)

-- A text of such characters is accepted if it begins well and has 201 characters at most.
is_safe_words :
    (s : String) → are_words s ≡ true → is_safe s ≡ (begins_well s && leb (text_length s) 201)
unfolding is_safe are_words begins_well text_length
is_safe_words String.[] h = refl
is_safe_words (String.◌∷◌ c s) h =
    let rest = matches_rest_lem 200 s (ground arith) in ground (arith, rest)

is_word_dash : is_word b'-' ≡ true
unfolding is_word is_alnum
is_word_dash = refl

is_word-safe_char : (c : Char) → is_word (code (safe_char c)) ≡ true
unfolding safe_char
is_word-safe_char c = elim (Bool-cases (is_word (code c))) [
  | inl word ↦ rw (word, safe_char) word
  | inr other ↦ rw (other, safe_char) is_word_dash
]

are_words-clean : (s : String) → are_words (clean s) ≡ true
unfolding are_words clean
are_words-clean String.[] = refl
are_words-clean (String.◌∷◌ c s) =
    let one = is_word-safe_char c in ground (arith, one, are_words-clean s)

are_words-strip_left : (s : String) → are_words s ≡ true → are_words (strip_left s) ≡ true
unfolding are_words strip_left
are_words-strip_left String.[] h = refl
are_words-strip_left (String.◌∷◌ c s) h = ground (arith, are_words-strip_left s)

are_words-strip_right : (s : String) → are_words s ≡ true → are_words (strip_right s) ≡ true
unfolding are_words strip_right
are_words-strip_right String.[] h = refl
are_words-strip_right (String.◌∷◌ c s) h = ground (arith, are_words-strip_right s)

are_words-join : (s t : String) → are_words (join s t) ≡ (are_words s && are_words t)
unfolding are_words join
are_words-join String.[] t = refl
are_words-join (String.◌∷◌ c s) t = ground (arith, are_words-join s t)

is_alnum_word : (c : ℕ) → is_word c ≡ true → is_edge c ≡ false → is_alnum c ≡ not (c == b'_')
unfolding is_word is_alnum is_edge
is_alnum_word c h k = ground arith

begins_inside-strip_left :
    (s : String) → is_empty (strip_left s) ≡ false → begins_inside (strip_left s) ≡ true
unfolding begins_inside strip_left is_empty
begins_inside-strip_left String.[] h = absurd (cc)
begins_inside-strip_left (String.◌∷◌ c s) h = ground (arith, begins_inside-strip_left s)

begins_inside-strip_right :
    (s : String) → begins_inside s ≡ true → begins_inside (strip_right s) ≡ true
unfolding begins_inside strip_right
begins_inside-strip_right String.[] h = absurd (cc)
begins_inside-strip_right (String.◌∷◌ c s) h = ground arith

strip_right_empty : (s : String) → is_empty (strip_right s) ≡ false → is_empty s ≡ false
unfolding is_empty strip_right
strip_right_empty String.[] h = h
strip_right_empty (String.◌∷◌ c s) h = refl

-- A name of such characters that begins inside begins well unless it begins with an underscore.
begins_well_lem :
    (s : String)
    → are_words s ≡ true
    → begins_inside s ≡ true
    → begins_well s ≡ not (begins_with_underscore s)
unfolding begins_well begins_with_underscore begins_inside are_words
begins_well_lem String.[] h k = absurd (cc)
begins_well_lem (String.◌∷◌ c s) h k = is_alnum_word (code c) (ground arith) (ground arith)

-- What `sanitise` returns, for a fallback that is itself of such characters.
sanitise_words :
    (text fallback : String)
    → are_words fallback ≡ true
    → begins_inside fallback ≡ true
    → (are_words (sanitise text fallback) ≡ true) × (begins_inside (sanitise text fallback) ≡ true)
unfolding sanitise
sanitise_words text fallback h k =
    let left = strip_left (clean text) in
    let words =
      are_words-strip_right left (are_words-strip_left (clean text) (are_words-clean text)) in
    elim (Bool-cases (is_empty (strip_right left))) [
      | inl nothing ↦ rw (nothing, sanitise) (h, k)
      | inr something ↦
          let inside = begins_inside-strip_left (clean text) (strip_right_empty left something) in
          rw (something, sanitise) (words, begins_inside-strip_right left inside)
    ]

is_word_if :
    (b : Bool) (c d : Char)
    → is_word (code c) ≡ true
    → is_word (code d) ≡ true
    → is_word (code (if b then c else d)) ≡ true
is_word_if true c d h k = h
is_word_if false c d h k = k

is_word-digit : (n : ℕ) → is_word (code (digit n)) ≡ true
unfolding digit is_word is_alnum
is_word-digit n = is_word_if (n == 0) "0" _ refl (
    is_word_if (n == 1) "1" _ refl (
      is_word_if (n == 2) "2" _ refl (
        is_word_if (n == 3) "3" _ refl (
          is_word_if (n == 4) "4" _ refl (
            is_word_if (n == 5) "5" _ refl (
              is_word_if (n == 6) "6" _ refl
                (is_word_if (n == 7) "7" _ refl (is_word_if (n == 8) "8" "9" refl refl))))))))

are_words-numeral :
    (fuel n : ℕ) (rest : String) → are_words rest ≡ true → are_words (numeral fuel n rest) ≡ true
unfolding are_words numeral
are_words-numeral zero n rest h = let one = is_word-digit (n % 10) in ground (arith, one)
are_words-numeral (suc fuel) n rest h =
    let one = is_word-digit (n % 10) in
    let more =
      are_words-numeral fuel (n / 10) (String.◌∷◌ (digit (n % 10)) rest) (ground (arith, one)) in
    ground (arith, one, more)

begins-join : (s t : String) → is_empty s ≡ false → (begins_well (join s t) ≡ begins_well s)
unfolding begins_well join is_empty
begins-join String.[] t h = absurd (cc)
begins-join (String.◌∷◌ c s) t h = refl

begins_inside_filled : (s : String) → begins_inside s ≡ true → is_empty s ≡ false
unfolding begins_inside is_empty
begins_inside_filled String.[] h = absurd (cc)
begins_inside_filled (String.◌∷◌ c s) h = refl

-- The fixed parts of the name.
fixed_words :
    (are_words "run" ≡ true)
    × (begins_inside "run" ≡ true)
    × (are_words "-global-r" ≡ true)
    × (are_words ".pww" ≡ true)
unfolding are_words is_word is_alnum begins_inside is_edge
fixed_words = (refl, refl, refl, refl)

-- The store accepts the name of a global model unless the sanitised run id begins with an underscore
-- or the name is longer than 201 characters, and in these cases it does not.
pub is_safe-global_blob :
    (run_id : String) (round_index : ℕ)
    → is_safe (global_blob run_id round_index) ≡ (
        not (begins_with_underscore (sanitise run_id "run"))
        && leb (text_length (global_blob run_id round_index)) 201)
unfolding global_blob
is_safe-global_blob run_id round_index =
    let run = sanitise run_id "run" in
    let words = sanitise_words run_id "run" fixed_words.0 fixed_words.1 in
    let tail = join "-global-r" (numeral round_index round_index ".pww") in
    let tail_words : are_words tail ≡ true =
      are_words-join "-global-r" (numeral round_index round_index ".pww")
      ∙ ground
          (arith, fixed_words.2, are_words-numeral round_index round_index ".pww" fixed_words.3) in
    let all : are_words (join run tail) ≡ true =
      are_words-join run tail ∙ ground (arith, words, tail_words) in
    let first =
      begins-join run tail (begins_inside_filled run words.1)
      ∙ begins_well_lem run words.0 words.1 in
    is_safe_words (join run tail) all ∙ ap (λ b. b && leb (text_length (join run tail)) 201) first
