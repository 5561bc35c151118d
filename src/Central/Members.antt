-- ===== src/Central/Members.antt =====
-- class HttpClientManager (src/pww/central/httpround.py): who has polled lately.
pub mod Live
use Prim.Native.Char.{code}
use project_world_wide.Prelude.{
  ℕ, ◌≡◌, Bool, true, false, ◌&&◌, ◌||◌, not, String, List, [], ◌∷◌, ◌==◌, ltb, if◌then◌else◌,
  length, str_eq, zero, suc,
}
use project_world_wide.Prelude.Dict.{Dict, put}
use project_world_wide.Darl.Floats.{Floats}

pub record Manager (F : Type 0) : Type 0 where
  pub seen : Dict F
  pub liveness_s : F

-- name in names
unfoldable pub has : String → List String → Bool
has name [] = false
has name (other ∷ names) = str_eq other name || has name names

-- The order of Python's `str`: by code points.
unfoldable pub text_le : String → String → Bool
text_le String.[] _ = true
text_le (String.◌∷◌ c s) String.[] = false
text_le (String.◌∷◌ c s) (String.◌∷◌ d t) =
    ltb (code c) (code d) || ((code c == code d) && text_le s t)

-- sorted(names)
unfoldable pub insert_name : String → List String → List String
insert_name name [] = name ∷ []
insert_name name (other ∷ names) =
    if text_le name other then name ∷ other ∷ names else other ∷ insert_name name names

unfoldable pub sorted : List String → List String
unfolding insert_name
sorted [] = []
sorted (name ∷ names) = insert_name name (sorted names)

-- names[:n]
unfoldable pub first : ℕ → List String → List String
first zero names = []
first (suc n) [] = []
first (suc n) (name ∷ names) = name ∷ first n names

module _ {F : Type 0} ⦃fl : Floats F⦄ where
  -- touch
  unfoldable pub touch : String → F → Manager F → Manager F
  touch cluster now m = record m { seen = put cluster now m.seen }

  -- [c for c, t in self._seen.items() if now - t < self.liveness_s]
  unfoldable pub recent : F → F → Dict F → List String
  recent now liveness_s [] = []
  recent now liveness_s ((c, t) ∷ seen) =
      if fl.lt (fl.sub now t) liveness_s
      then c ∷ recent now liveness_s seen
      else recent now liveness_s seen

  -- live
  unfoldable pub live : F → Manager F → List String
  unfolding sorted recent
  live now m = sorted (recent now m.liveness_s m.seen)

  -- num_available
  unfoldable pub num_available : F → Manager F → ℕ
  unfolding live
  num_available now m = length (live now m)

  -- sample, by the ids of the proxies
  unfoldable pub sample : ℕ → F → Manager F → List String
  unfolding first live
  sample num_clients now m = first num_clients (live now m)
