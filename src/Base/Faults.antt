-- ===== src/Base/Faults.antt =====
-- Runs of C code: a value, or a fault where the C standard gives the run no meaning.
use mathlib.Core.Path.{◌≡◌, refl}
use mathlib.Core.Bool.{Bool, true, false}

-- `null_read` is a read through a null pointer or past an array, `freed_read` one of a freed
-- object, `foreign_member` a read of a union member other than the one that was written, and
-- `bad_division` an integer division by zero or one whose quotient does not fit, `signed_overflow` a
-- sum that does not fit.
pub data Fault : Type 0 where
  null_read freed_read foreign_member bad_division signed_overflow unfinished : Fault

pub data Run {ℓ} (A : Type ℓ) : Type ℓ where
  ok : A → Run A
  fault : Fault → Run A

infixl 5 ◌>>=◌
abbrev pub ◌>>=◌ {ℓ κ} : {A : Type ℓ} {B : Type κ} → Run A → (A → Run B) → Run B
ok a >>= f = f a
fault e >>= f = fault e

-- A run that ends with the property `Q`, or in arithmetic that C leaves undefined; it never reads
-- through a bad pointer or a foreign member.
abbrev pub Defined {ℓ} : {A : Type ℓ} → (A → Type 0) → Run A → Type 0
Defined Q (ok a) = Q a
Defined Q (fault bad_division) = Unit
Defined Q (fault signed_overflow) = Unit
Defined Q (fault _) = ⊥

pub Defined-bind {ℓ κ} :
    {A : Type ℓ} {B : Type κ} (P : A → Type 0) (Q : B → Type 0) (m : Run A) (f : A → Run B)
    → Defined P m
    → ((a : A) → P a → Defined Q (f a))
    → Defined Q (m >>= f)
Defined-bind P Q (ok a) f h next = next a h
Defined-bind P Q (fault bad_division) f h next = tt
Defined-bind P Q (fault signed_overflow) f h next = tt
Defined-bind P Q (fault _) f h next = absurd h

-- the value that a run ends with is that of the run
pub Defined-ran :
    {A : Type 0} (P : A → Type 0) (m : Run A) → Defined P m → Defined (λ a. P a × (m ≡ ok a)) m
Defined-ran P (ok a) h = (h, refl)
Defined-ran P (fault bad_division) h = tt
Defined-ran P (fault signed_overflow) h = tt
Defined-ran P (fault _) h = absurd h

-- What a run that reports success promises.
abbrev pub When : Bool → Type 0 → Type 0
When true A = A
When false A = Unit

pub When-intro : {A : Type 0} (b : Bool) → (b ≡ true → A) → When b A
When-intro true h = h refl
When-intro false h = tt

pub When-elim : {A : Type 0} (b : Bool) → When b A → b ≡ true → A
When-elim true h e = h
When-elim false h e = cc
