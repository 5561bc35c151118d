-- ===== src/Darl/Floats.antt =====
-- What the lease table does with Python's floats: times, rates and fractions.
-- The operations are a parameter and no law of them is assumed, so what is proved holds for any
-- rounding. `of_nat` and `truncate` are total: they stand for float() of an integer and int() of a float where
-- these are defined, so what is proved is about integers in the range of floats and about floats that int()
-- is given being finite. There float() and int() raise no OverflowError and no ValueError.
use project_world_wide.Prelude.{Result, ℕ, Bool, not, if◌then◌else◌}

pub record Floats (F : Type 0) : Type 0 where
  -- float(n) of an integer
  pub of_nat : ℕ → F
  -- the literal with these digits and so many places: `decimal 25 1` is 2.5
  pub decimal : ℕ → ℕ → F
  pub add : F → F → F
  pub sub : F → F → F
  pub mul : F → F → F
  pub div : F → F → F
  pub lt : F → F → Bool
  pub le : F → F → Bool
  pub eq : F → F → Bool
  -- int(x), for the numbers that are not negative
  pub truncate : F → ℕ
  -- round(x, places)
  pub round : ℕ → F → F

module _ {F : Type 0} ⦃fl : Floats F⦄ where
  -- max(a, b) and min(a, b), which return `a` unless `b` is strictly better
  abbrev pub fmax : F → F → F
  fmax a b = if fl.lt a b then b else a

  abbrev pub fmin : F → F → F
  fmin a b = if fl.lt b a then b else a

  -- `if x:`
  abbrev pub is_set : F → Bool
  is_set x = not (fl.eq x (fl.of_nat 0))

-- The functions of Python's math module, and two operations on floats besides.
pub record MathOps (F : Type 0) : Type 0 where
  pub is_finite : F → Bool
  -- round(x), for the numbers that are not negative: it raises ValueError for NaN and OverflowError for
  -- infinity
  pub nearest : F → Result ℕ
  -- x ** 2
  pub square : F → F
  pub sqrt : F → F
  pub cos : F → F
  pub pi : F
