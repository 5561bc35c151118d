-- ===== src/Prelude/Results.antt =====
-- Python's exceptions as values, with `do` blocks.

use mathlib.Core.Path.{◌≡◌, refl, subst}

-- The exception classes that the modelled code raises.
pub data Error : Type 0 where
  value_error index_error key_error permission_error assertion_error : Error
  double_free cluster_busy file_not_found stale_contribution blob_store_error zero_division_error
        overflow_error type_error attribute_error :
      Error

pub data Result {ℓ} (A : Type ℓ) : Type ℓ where
  ok : A → Result A
  err : Error → Result A

-- What follows a call: it is skipped when the call raises.
infixl 5 ◌>>=◌
abbrev pub ◌>>=◌ {ℓ κ} : {S : Type ℓ} {T : Type κ} → Result S → (S → Result T) → Result T
◌>>=◌ (err raised) next = err raised
◌>>=◌ (ok value) next = next value

-- What a result holds, if it is one: an error does not.
abbrev pub Returns {ℓ} : {A : Type ℓ} → Result A → (A → Type 0) → Type 0
Returns (ok a) P = P a
Returns (err e) P = ⊥

-- What holds of the result, and what holds of the error.
abbrev pub Outcome {ℓ} : {A : Type ℓ} → Result A → (A → Type 0) → (Error → Type 0) → Type 0
Outcome (ok a) P E = P a
Outcome (err e) P E = E e

pub Returns-bind {ℓ κ} :
    {A : Type ℓ} {B : Type κ} (m : Result A) (f : A → Result B) (P : A → Type 0) (Q : B → Type 0)
    → Returns m P
    → ((a : A) → P a → Returns (f a) Q)
    → Returns (m >>= f) Q
Returns-bind (ok a) f P Q h k = k a h
Returns-bind (err e) f P Q h k = absurd h

pub Returns-map {ℓ} :
    {A : Type ℓ} (m : Result A) (P Q : A → Type 0)
    → ((a : A) → P a → Q a)
    → Returns m P
    → Returns m Q
Returns-map (ok a) P Q k h = k a h
Returns-map (err e) P Q k h = absurd h

pub Outcome-map {ℓ} :
    {A : Type ℓ} (m : Result A) (P Q : A → Type 0) (E G : Error → Type 0)
    → ((a : A) → P a → Q a)
    → ((e : Error) → E e → G e)
    → Outcome m P E
    → Outcome m Q G
Outcome-map (ok a) P Q E G k g h = k a h
Outcome-map (err e) P Q E G k g h = g e h

pub Outcome-bind {ℓ κ} :
    {A : Type ℓ} {B : Type κ} (m : Result A) (f : A → Result B) (P : A → Type 0) (Q : B → Type 0)
    (E G : Error → Type 0)
    → Outcome m P E
    → ((a : A) → P a → Outcome (f a) Q G)
    → ((e : Error) → E e → G e)
    → Outcome (m >>= f) Q G
Outcome-bind (ok a) f P Q E G h k g = k a h
Outcome-bind (err e) f P Q E G h k g = g e h

pub Outcome-Returns {ℓ} :
    {A : Type ℓ} (m : Result A) (P Q : A → Type 0) (E : Error → Type 0)
    → ((a : A) → P a → Q a)
    → Returns m P
    → Outcome m Q E
Outcome-Returns (ok a) P Q E k h = k a h
Outcome-Returns (err e) P Q E k h = absurd h

-- What holds of every outcome holds of this one.
pub Outcome-ok {ℓ} :
    {A : Type ℓ} (m : Result A) (P : A → Type 0) (E : Error → Type 0) (a : A)
    → Outcome m P E
    → m ≡ ok a
    → P a
Outcome-ok (ok b) P E a h e = let same : b ≡ a = cc in subst P same h
Outcome-ok (err x) P E a h e = absurd (cc e)

pub Returns-ok {ℓ} :
    {A : Type ℓ} (m : Result A) (P : A → Type 0) (a : A) → Returns m P → m ≡ ok a → P a
Returns-ok (ok b) P a h e = let same : b ≡ a = cc in subst P same h
Returns-ok (err x) P a h e = absurd h

-- A chain of calls that returns has returned at each of them.
pub >>=-eq-ok {ℓ κ} :
    {A : Type ℓ} {B : Type κ} (m : Result A) (f : A → Result B) (b : B)
    → (m >>= f) ≡ ok b
    → (a : A) × (m ≡ ok a) × (f a ≡ ok b)
>>=-eq-ok (ok a) f b h = (a, refl, h)
>>=-eq-ok (err e) f b h = cc

-- What a call returns is what it returns.
pub Returns-eq :
    {A : Type 0} (m : Result A) (P : A → Type 0) → Returns m P → Returns m (λ a. P a × (m ≡ ok a))
Returns-eq (ok a) P h = (h, refl)
Returns-eq (err e) P h = absurd h

pub Outcome-self : {A : Type 0} (m : Result A) → Outcome m (λ a. m ≡ ok a) (λ e. m ≡ err e)
Outcome-self (ok a) = refl
Outcome-self (err e) = refl
