-- ===== src/Calc/Members.antt =====
-- Reading the members of `U_KRValue`. `kr_bool` and `kr_int` are both `int`, so the members `b` and
-- `i` may be read for one another; any other reading of a foreign member is a fault. After `calloc`
-- every number is 0 and every pointer is null.
use krproject.Base.{Bool, true, false, not, null_read, foreign_member}
use krproject.Base.Int.{ℤ, pos, eqb_ℤ}
use krproject.Platform.{Platform, HashSet, Value, Val}
use krproject.Calc.Outcome.{Exec, value, crash}

-- a C truth value
abbrev pub truth_of : Bool → ℤ
truth_of true = pos 1
truth_of false = pos 0

abbrev pub is_true : ℤ → Bool
is_true n = not (eqb_ℤ n (pos 0))

module _ {D S R T : Type 0} where
  abbrev pub as_int : Value D S R T → Exec ℤ
  as_int (Value.b n) = value n
  as_int (Value.i n) = value n
  as_int Value.zeroed = value (pos 0)
  as_int _ = crash foreign_member

  abbrev pub as_l : Value D S R T → Exec ℤ
  as_l (Value.l n) = value n
  as_l Value.zeroed = value (pos 0)
  as_l _ = crash foreign_member

  abbrev pub as_s : Value D S R T → Exec S
  as_s (Value.s t) = value t
  as_s Value.zeroed = crash null_read
  as_s _ = crash foreign_member

  abbrev pub as_set : Value D S R T → Exec (HashSet T)
  as_set (Value.set h) = value h
  as_set Value.zeroed = crash null_read
  as_set _ = crash foreign_member

  abbrev pub as_regex : Value D S R T → Exec R
  as_regex (Value.regex r) = value r
  as_regex Value.zeroed = crash null_read
  as_regex _ = crash foreign_member

-- The platform gives the double whose bits are all 0.
abbrev pub as_d : (p : Platform) → Val p → Exec p.Double
as_d p (Value.d x) = value x
as_d p Value.zeroed = value p.zero_double
as_d p _ = crash foreign_member
