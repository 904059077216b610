-- ===== src/Utils/KrDatetime.antt =====
-- krutils/kr_datetime.c: leap years and the last day of a month. A date is a text of eight bytes: four
-- of the year, two of the month and two of the day.
pub mod MonthEnd
use krproject.Base.{
  ℕ, ◌+◌, ◌%◌, Bool, not, ◌&&◌, ◌||◌, Option, none, some, [], ◌∷◌, ◌++◌, ◌==◌, if◌then◌else◌,
}
use krproject.Base.Int.{ℤ, pos, pos_part, neg_part, eqb_ℤ}
use krproject.Message.{Bytes, take, drop, atoi}

-- `a % n == 0` in C, which does not depend on the sign
abbrev pub divides : ℕ → ℤ → Bool
divides n a = (pos_part a + neg_part a) % n == 0

abbrev pub leap : ℤ → Bool
leap year = divides 4 year && not (divides 100 year) || divides 400 year

-- `kr_date_isleap`
unfoldable pub date_isleap : Bytes → Bool
date_isleap date = leap (atoi (take 4 date))

-- the eight bytes with this day
abbrev pub with_day : Bytes → Bytes → Bytes
with_day date day = take 6 date ++ (day ++ drop 8 date)

abbrev pub is_long : ℤ → Bool
is_long m =
    eqb_ℤ m (pos 1)
    || eqb_ℤ m (pos 3)
    || eqb_ℤ m (pos 5)
    || eqb_ℤ m (pos 7)
    || eqb_ℤ m (pos 8)
    || eqb_ℤ m (pos 10)
    || eqb_ℤ m (pos 12)

abbrev pub is_short : ℤ → Bool
is_short m = eqb_ℤ m (pos 4) || eqb_ℤ m (pos 6) || eqb_ℤ m (pos 9) || eqb_ℤ m (pos 11)

-- the switch, for a month and for whether the year is a leap year
abbrev pub last_day : ℤ → Bool → Option Bytes
last_day month is_leap =
    if is_long month
    then some (b'3' ∷ b'1' ∷ [])
    else if is_short month
    then some (b'3' ∷ b'0' ∷ [])
    else if eqb_ℤ month (pos 2)
    then (if is_leap then some (b'2' ∷ b'9' ∷ []) else some (b'2' ∷ b'8' ∷ []))
    else none

abbrev pub put_day : Bytes → Option Bytes → Option Bytes
put_day date none = none
put_day date (some day) = some (with_day date day)

-- `kr_date_getmonthend`: the changed text
unfoldable pub date_getmonthend : Bytes → Option Bytes
unfolding date_isleap
date_getmonthend date =
    put_day date (last_day (atoi (take 2 (drop 4 date))) (date_isleap (take 4 date)))
