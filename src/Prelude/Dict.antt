-- ===== src/Prelude/Dict.antt =====
-- Python's `dict` with text keys, in insertion order: a write to a present key keeps its place.
use Prim.Native.Nat.{ℕ, ◌+◌}
use Prim.Native.String.{String}
use mathlib.Core.Path.{◌≡◌, refl}
use mathlib.Core.Option.{Option, none, some}
use mathlib.Core.List.{List, [], ◌∷◌}
use native.Mathlib.Omega.{arith}
use text.Mathlib.Text.{◌==◌}
use text.Mathlib.TextEquality.{eq_iff}
use project_world_wide.Prelude.Tests.{if◌then◌else◌}

abbrev pub Dict {ℓ} : Type ℓ → Type ℓ
Dict V = List (String × V)

module _ {ℓ} {V : Type ℓ} where
  -- d.get(k)
  unfoldable pub lookup : String → Dict V → Option V
  lookup k [] = none
  lookup k ((j, v) ∷ d) = if j == k then some v else lookup k d

  -- d[k] = v
  unfoldable pub put : String → V → Dict V → Dict V
  put k v [] = (k, v) ∷ []
  put k v ((j, w) ∷ d) = if j == k then (j, v) ∷ d else (j, w) ∷ put k v d

  -- list(d.values())
  unfoldable pub values : Dict V → List V
  values [] = []
  values ((_, v) ∷ d) = v ∷ values d

  -- `for v in d.values()`, with a change of the object `v` in each round
  unfoldable pub map_values : (V → V) → Dict V → Dict V
  map_values f [] = []
  map_values f ((k, v) ∷ d) = (k, f v) ∷ map_values f d

  pub lookup-put :
      (k j : String) (v : V) (d : Dict V)
      → lookup j (put k v d) ≡ (if k == j then some v else lookup j d)
  unfolding lookup put
  lookup-put k j v [] = refl
  lookup-put k j v ((i, w) ∷ d) =
      ground (arith, eq_iff k j, eq_iff i k, eq_iff i j, lookup-put k j v d)

  -- The sum of a number over the values.
  unfoldable pub sum_values : (V → ℕ) → Dict V → ℕ
  sum_values f [] = 0
  sum_values f ((_, v) ∷ d) = f v + sum_values f d

  pub sum_values-put :
      (f : V → ℕ) (k : String) (v w : V) (d : Dict V)
      → lookup k d ≡ some w
      → sum_values f (put k v d) + f w ≡ sum_values f d + f v
  unfolding lookup put sum_values
  sum_values-put f k v w [] h = ground arith
  sum_values-put f k v w ((j, u) ∷ d) h = ground (arith, sum_values-put f k v w d)

  pub sum_values-put_new :
      (f : V → ℕ) (k : String) (v : V) (d : Dict V)
      → lookup k d ≡ none
      → sum_values f (put k v d) ≡ sum_values f d + f v
  unfolding lookup put sum_values
  sum_values-put_new f k v [] h = omega arith
  sum_values-put_new f k v ((j, u) ∷ d) h = ground (arith, sum_values-put_new f k v d)

  pub sum_values-map_values :
      (f : V → ℕ) (g : V → V)
      → ((v : V) → f (g v) ≡ f v)
      → (d : Dict V) → sum_values f (map_values g d) ≡ sum_values f d
  unfolding sum_values map_values
  sum_values-map_values f g h [] = refl
  sum_values-map_values f g h ((k, v) ∷ d) = omega (arith, h v, sum_values-map_values f g h d)

  pub lookup-map_values :
      (k : String) (g : V → V) (d : Dict V)
      → lookup k (map_values g d) ≡ elim (lookup k d) [ none ↦ none | some v ↦ some (g v) ]
  unfolding lookup map_values
  lookup-map_values k g [] = refl
  lookup-map_values k g ((j, v) ∷ d) = ground (arith, lookup-map_values k g d)

  pub lookup-put_self : (k : String) (v : V) (d : Dict V) → lookup k (put k v d) ≡ some v
  lookup-put_self k v d = rw lookup-put (rw ((eq_iff k k).1 refl) refl)
