-- ===== src/Tests/KrDatetime.antt =====
-- The last day of a month, of 3 February 2000 and for the month 13.
use krproject.Base.{◌≡◌, refl, some, none, [], ◌∷◌, arith}
use krproject.Base.Int.{pos}
use krproject.Message.{Bytes, take, drop, atoi}
use krproject.Utils.KrDatetime.{with_day, date_isleap, date_getmonthend}
use krproject.Utils.KrDatetime.MonthEnd.{month_days, two_digits, date_getmonthend-month_days}

abbrev day : Bytes
day = b'2' ∷ b'0' ∷ b'0' ∷ b'0' ∷ b'0' ∷ b'2' ∷ b'0' ∷ b'3' ∷ []

leap_february :
    date_getmonthend day ≡ some (b'2' ∷ b'0' ∷ b'0' ∷ b'0' ∷ b'0' ∷ b'2' ∷ b'2' ∷ b'9' ∷ [])
unfolding date_getmonthend date_isleap take drop atoi
leap_february = refl

no_month : date_getmonthend (b'2' ∷ b'0' ∷ b'0' ∷ b'0' ∷ b'1' ∷ b'3' ∷ b'0' ∷ b'1' ∷ []) ≡ none
unfolding date_getmonthend date_isleap take drop atoi
no_month = refl

year : atoi (take 4 day) ≡ pos 2000
unfolding take atoi
year = refl

month : atoi (take 2 (drop 4 day)) ≡ pos 2
unfolding take drop atoi
month = refl

date_getmonthend-month_days_example :
    date_getmonthend day ≡ some (with_day day (two_digits (month_days 1999 2)))
date_getmonthend-month_days_example =
    date_getmonthend-month_days day 1999 2 year month (omega arith) (omega arith)
