-- ===== src/Prelude/Slices.antt =====
-- Slices xs[i : i + n] of a list that is joined from two.
use Prim.Native.Nat.{ℕ, zero, suc, ◌+◌, ◌-◌, ◌≤◌}
use mathlib.Core.Path.{◌≡◌, refl, ap}
use mathlib.Core.List.{List, [], ◌∷◌, ◌++◌}
use native.Mathlib.Omega.{arith}
use project_world_wide.Prelude.Lists.{length, take, drop}

-- xs[i : i + n]
abbrev pub slice {ℓ} : {A : Type ℓ} → ℕ → ℕ → List A → List A
slice i n xs = take n (drop i xs)

module _ {ℓ} {A : Type ℓ} where
  pub length-take : (n : ℕ) (xs : List A) → n ≤ length xs → length (take n xs) ≡ n
  length-take zero xs h = refl
  length-take (suc n) [] h = omega arith
  length-take (suc n) (x ∷ xs) h = ap suc (length-take n xs (omega arith))

  length-drop : (n : ℕ) (xs : List A) → length (drop n xs) ≡ length xs - n
  length-drop zero xs = omega arith
  length-drop (suc n) [] = omega arith
  length-drop (suc n) (x ∷ xs) = omega (arith, length-drop n xs)

  pub length-slice : (i n : ℕ) (xs : List A) → i + n ≤ length xs → length (slice i n xs) ≡ n
  length-slice i n xs h = length-take n (drop i xs) (omega (arith, length-drop i xs))

  take-++ : (n : ℕ) (xs ys : List A) → n ≤ length xs → take n (xs ++ ys) ≡ take n xs
  take-++ zero xs ys h = refl
  take-++ (suc n) [] ys h = ground arith
  take-++ (suc n) (x ∷ xs) ys h = ap (λ zs. x ∷ zs) (take-++ n xs ys (omega arith))

  -- A slice that ends within the first list is a slice of it.
  pub slice-++_first :
      (i n : ℕ) (xs ys : List A) → i + n ≤ length xs → slice i n (xs ++ ys) ≡ slice i n xs
  slice-++_first zero n xs ys h = take-++ n xs ys (omega arith)
  slice-++_first (suc i) n [] ys h = ground arith
  slice-++_first (suc i) n (x ∷ xs) ys h = slice-++_first i n xs ys (omega arith)

  -- A slice that begins behind the first list is a slice of the second.
  pub slice-++_second :
      (i j n : ℕ) (xs ys : List A) → j ≡ length xs + i → slice j n (xs ++ ys) ≡ slice i n ys
  slice-++_second i j n [] ys e = let same : j ≡ i = omega arith in ap (λ k. slice k n ys) same
  slice-++_second i zero n (x ∷ xs) ys e = ground arith
  slice-++_second i (suc j) n (x ∷ xs) ys e = slice-++_second i j n xs ys (omega arith)
