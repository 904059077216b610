-- ===== src/Calc/Outcome.antt =====
-- Evaluating a node ends with a value, with a missing operand (-1 and no message), with an error
-- (-1 and a message) or with a fault.
use krproject.Base.{Fault}
use krproject.Calc.{CalcError}

pub data Exec {ℓ} (A : Type ℓ) : Type ℓ where
  value : A → Exec A
  missing : Exec A
  error : CalcError → Exec A
  crash : Fault → Exec A

infixl 5 ◌>>=◌
abbrev pub ◌>>=◌ {ℓ κ} : {A : Type ℓ} {B : Type κ} → Exec A → (A → Exec B) → Exec B
value a >>= f = f a
missing >>= f = missing
error e >>= f = error e
crash e >>= f = crash e

-- the same by name, for modules that also sequence runs
abbrev pub bind {ℓ κ} : {A : Type ℓ} {B : Type κ} → Exec A → (A → Exec B) → Exec B
bind m f = m >>= f
