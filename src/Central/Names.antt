-- ===== src/Central/Names.antt =====
-- The names of blobs: src/pww/fedproto.py makes them, src/pww/central/blobstore.py accepts them.
pub mod Safe
pub mod Tests
use Prim.Native.Char.{Char, code}
use project_world_wide.Prelude.{
  ℕ, zero, suc, ◌+◌, ◌-◌, ◌/◌, ◌%◌, ◌≡◌, Bool, true, false, not, ◌&&◌, ◌||◌, String, ◌==◌, ltb, leb,
  if◌then◌else◌, within, Result, ok, err, blob_store_error,
}

-- s + t
unfoldable pub join : String → String → String
join String.[] t = t
join (String.◌∷◌ c s) t = String.◌∷◌ c (join s t)

-- len(s)
unfoldable pub text_length : String → ℕ
text_length String.[] = 0
text_length (String.◌∷◌ c s) = suc (text_length s)

unfoldable pub is_empty : String → Bool
is_empty String.[] = true
is_empty (String.◌∷◌ c s) = false

-- [A-Za-z0-9], and with ._- besides
unfoldable pub is_alnum : ℕ → Bool
is_alnum c = within b'0' (b'9' + 1) c || within b'A' (b'Z' + 1) c || within b'a' (b'z' + 1) c

unfoldable pub is_word : ℕ → Bool
unfolding is_alnum
is_word c = is_alnum c || (c == b'.') || (c == b'_') || (c == b'-')

-- _UNSAFE.sub("-", text), of a character and of a text
unfoldable pub safe_char : Char → Char
unfolding is_word
safe_char c = let dash : Char = "-" in if is_word (code c) then c else dash

unfoldable pub clean : String → String
unfolding safe_char
clean String.[] = String.[]
clean (String.◌∷◌ c s) = String.◌∷◌ (safe_char c) (clean s)

-- A character that .strip("-.") takes away.
unfoldable pub is_edge : ℕ → Bool
is_edge c = (c == b'-') || (c == b'.')

unfoldable pub strip_left : String → String
unfolding is_edge
strip_left String.[] = String.[]
strip_left (String.◌∷◌ c s) = if is_edge (code c) then strip_left s else String.◌∷◌ c s

unfoldable pub strip_right : String → String
unfolding is_edge is_empty
strip_right String.[] = String.[]
strip_right (String.◌∷◌ c s) =
    let rest = strip_right s in
    if is_empty rest && is_edge (code c) then String.[] else String.◌∷◌ c rest

-- sanitise
unfoldable pub sanitise : String → String → String
unfolding clean strip_left strip_right
sanitise text fallback =
    let cleaned = strip_right (strip_left (clean text)) in
    if is_empty cleaned then fallback else cleaned

-- A digit, and the decimal numeral of a number before a text; the fuel is the number itself.
unfoldable pub digit : ℕ → Char
digit n =
    if n == 0
    then "0"
    else if n == 1
    then "1"
    else if n == 2
    then "2"
    else if n == 3
    then "3"
    else if n == 4
    then "4"
    else if n == 5
    then "5"
    else if n == 6
    then "6"
    else if n == 7
    then "7"
    else if n == 8
    then "8"
    else "9"

unfoldable pub numeral : ℕ → ℕ → String → String
unfolding digit
numeral zero n rest = String.◌∷◌ (digit (n % 10)) rest
numeral (suc fuel) n rest =
    let more = numeral fuel (n / 10) (String.◌∷◌ (digit (n % 10)) rest) in
    if ltb n 10 then String.◌∷◌ (digit (n % 10)) rest else more

-- global_blob
unfoldable pub global_blob : String → ℕ → String
unfolding sanitise numeral join
global_blob run_id round_index =
    join (sanitise run_id "run") (join "-global-r" (numeral round_index round_index ".pww"))

-- init_blob
unfoldable pub init_blob : String → String
unfolding sanitise join
init_blob run_id = join (sanitise run_id "run") "-init.pww"

-- delta_blob
unfoldable pub delta_blob : String → ℕ → String → String
unfolding sanitise numeral join
delta_blob run_id round_index cluster = join (sanitise run_id "run") (
    join "-delta-r"
      (numeral round_index round_index (join "-" (join (sanitise cluster "cluster") ".pww"))))

-- [A-Za-z0-9._-]{0,n}$, where $ also stands before a last newline
unfoldable pub matches_rest : ℕ → String → Bool
unfolding is_word
matches_rest n String.[] = true
matches_rest zero (String.◌∷◌ c s) = (code c == 10) && is_empty s
matches_rest (suc n) (String.◌∷◌ c s) =
    let rest = matches_rest n s in (is_word (code c) && rest) || ((code c == 10) && is_empty s)

-- _SAFE_NAME.match(name)
unfoldable pub is_safe : String → Bool
unfolding is_alnum matches_rest
is_safe String.[] = false
is_safe (String.◌∷◌ c s) = is_alnum (code c) && matches_rest 200 s

-- safe_name; its second test never holds after the first
unfoldable pub safe_name : String → Result String
unfolding is_safe
safe_name name = if is_safe name then ok name else err blob_store_error
