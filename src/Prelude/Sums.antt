-- ===== src/Prelude/Sums.antt =====
-- Sums over the positions below a bound.
use Prim.Native.Nat.{ℕ, zero, suc, ◌+◌, ◌-◌, ◌≤◌, ◌<◌, min}
use mathlib.Core.Path.{◌≡◌, refl}
use mathlib.Core.Logic.{inl, inr}
use native.Mathlib.Omega.{arith}
use project_world_wide.Prelude.Tests.{count_of, within, lt_cases}

-- The sum of `f` over the positions below `n`.
unfoldable pub sum_to : (ℕ → ℕ) → ℕ → ℕ
sum_to f zero = 0
sum_to f (suc n) = f n + sum_to f n

pub sum_to-ext : (f g : ℕ → ℕ) (n : ℕ) → ((p : ℕ) → p < n → f p ≡ g p) → sum_to f n ≡ sum_to g n
unfolding sum_to
sum_to-ext f g zero h = refl
sum_to-ext f g (suc n) h =
    let rest = sum_to-ext f g n (λ p k. h p (omega arith)) in
    let here = h n (omega arith) in omega (arith, rest, here)

pub sum_to-add : (f g : ℕ → ℕ) (n : ℕ) → sum_to (λ p. f p + g p) n ≡ sum_to f n + sum_to g n
unfolding sum_to
sum_to-add f g zero = refl
sum_to-add f g (suc n) = let rest = sum_to-add f g n in omega (arith, rest)

pub sum_to_none : (n : ℕ) → sum_to (λ p. 0) n ≡ 0
unfolding sum_to
sum_to_none zero = refl
sum_to_none (suc n) = let rest = sum_to_none n in omega (arith, rest)

pub sum_to-within : (a b n : ℕ) → sum_to (λ p. count_of (within a b p)) n ≡ min b n - min a n
unfolding sum_to
sum_to-within a b zero = omega arith
sum_to-within a b (suc n) = ground (arith, sum_to-within a b n)

-- Terms that are at most as large have an equal sum only if they are equal.
pub sum_to_mono : (f g : ℕ → ℕ) (n : ℕ) → ((p : ℕ) → p < n → f p ≤ g p) → sum_to f n ≤ sum_to g n
unfolding sum_to
sum_to_mono f g zero h = omega arith
sum_to_mono f g (suc n) h =
    let rest = sum_to_mono f g n (λ p k. h p (omega arith)) in
    let here = h n (omega arith) in omega (arith, rest, here)

pub sum_to-eq_inv :
    (f g : ℕ → ℕ) (n : ℕ)
    → ((p : ℕ) → p < n → f p ≤ g p)
    → sum_to f n ≡ sum_to g n
    → (p : ℕ) → p < n
    → f p ≡ g p
unfolding sum_to
sum_to-eq_inv f g zero h e p k = absurd (omega arith)
sum_to-eq_inv f g (suc n) h e p k =
    let less = λ (q : ℕ) (b : q < n). h q (omega arith) in
    let rest = sum_to_mono f g n less in
    let here = h n (omega arith) in
    elim (lt_cases p n) [
      | inl below ↦ sum_to-eq_inv f g n less (omega (arith, rest, here)) p below
      | inr above ↦ let last : p ≡ n = omega arith in rw last (omega (arith, rest, here))
    ]
