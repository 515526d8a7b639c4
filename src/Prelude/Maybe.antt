-- ===== src/Prelude/Maybe.antt =====
-- `Option` as the result of code that may fail: the block form, guards, and inversion.
use mathlib.Core.Path.{◌≡◌, refl}
use mathlib.Core.Bool.{Bool, true, false}
use mathlib.Core.Option.{Option, none, some}
use convoscore.Prelude.Tests.{get_or_else}

infixl 5 ◌>>=◌ ◌>>◌
abbrev pub ◌>>=◌ {ℓ κ} : {A : Type ℓ} {B : Type κ} → Option A → (A → Option B) → Option B
none >>= f = none
some a >>= f = f a

abbrev pub ◌>>◌ {ℓ} : {B : Type ℓ} → Option (Unit {0}) → Option B → Option B
m >> k = m >>= λ _. k

abbrev pub guard : Bool → Option (Unit {0})
guard true = some tt
guard false = none

pub >>=-eq-some {ℓ κ} :
    {A : Type ℓ} {B : Type κ} (m : Option A) (f : A → Option B) {b : B}
    → (m >>= f) ≡ some b
    → (a : A) × (m ≡ some a) × (f a ≡ some b)
>>=-eq-some none f h = cc
>>=-eq-some (some a) f h = (a, refl, h)

pub some_inj {ℓ} : {A : Type ℓ} {a b : A} → some a ≡ some b → a ≡ b
some_inj h = cc

-- A property of both outcomes of `get_or_else`.
pub get_or_else_ind {ℓ κ} :
    {A : Type ℓ} (P : A → Type κ) (o : Option A) (d : A)
    → ((a : A) → o ≡ some a → P a)
    → P d
    → P (get_or_else o d)
get_or_else_ind P none d k h = h
get_or_else_ind P (some a) d k h = k a refl
