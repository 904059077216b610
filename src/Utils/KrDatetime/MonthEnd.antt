-- ===== src/Utils/KrDatetime/MonthEnd.antt =====
-- The last day of a month, as krutils/kr_datetime.c gives it, against a count of days.
use mathlib.Core.Path.{subst}
use krproject.Base.{
  ℕ, zero, suc, ◌+◌, ◌-◌, ◌*◌, ◌/◌, ◌%◌, ◌≤◌, ◌≡◌, refl, sym, ap, ◌∙◌, true, some, [], ◌∷◌,
  if◌then◌else◌, arith, leb, Bool-cases, inl, inr,
}
use krproject.Base.Int.{pos}
use krproject.Message.{Bytes, take, drop, atoi}
use krproject.Utils.KrDatetime.{
  leap, date_isleap, with_day, put_day, is_long, is_short, last_day, date_getmonthend,
}

-- The days before the first of a month, in years that begin in March: month 1 of year n + 1 is month
-- 10 of the year n.
abbrev pub march_days : ℕ → ℕ → ℕ
march_days year month = 365 * year + year / 4 + year / 400 + (153 * month + 2) / 5 - year / 100

-- for month 13 too, which is the first one of the next year
abbrev pub days_before : ℕ → ℕ → ℕ
days_before n month =
    if leb month 2 then march_days n (month + 9) else march_days (suc n) (month - 3)

-- the days of a month of the year n + 1
abbrev pub month_days : ℕ → ℕ → ℕ
month_days n month = days_before n (suc month) - days_before n month

-- a number below 100 in two digits
abbrev pub two_digits : ℕ → Bytes
two_digits d = (b'0' + d / 10) ∷ (b'0' + d % 10) ∷ []

abbrev leap_day : ℕ → ℕ
leap_day n = if leap (pos (suc n)) then 1 else 0

divisions : (n : ℕ) → suc n / 4 + suc n / 400 + n / 100 ≡ n / 4 + n / 400 + suc n / 100 + leap_day n
divisions n = ground arith

february : (n : ℕ) → month_days n 2 ≡ 28 + leap_day n
february n = omega (arith, divisions n)

february_day : (n : ℕ) → last_day (pos 2) (leap (pos (suc n))) ≡ some (two_digits (28 + leap_day n))
february_day n = elim (Bool-cases (leap (pos (suc n)))) [ inl e ↦ rw e refl | inr e ↦ rw e refl ]

long_month : (n m : ℕ) → is_long (pos m) ≡ true → month_days n m ≡ 31
long_month n m h = ground (arith, h)

short_month : (n m : ℕ) → is_short (pos m) ≡ true → month_days n m ≡ 30
short_month n m h = ground (arith, h)

last_days :
    (n m : ℕ)
    → 1 ≤ m
    → m ≤ 12
    → last_day (pos m) (leap (pos (suc n))) ≡ some (two_digits (month_days n m))
last_days n m h k = elim (Bool-cases (is_long (pos m))) [
  | inl e ↦ rw e (ap (λ d. some (two_digits d)) (sym (long_month n m e)))
  | inr e ↦ elim (Bool-cases (is_short (pos m))) [
    | inl e' ↦ rw (e, e') (ap (λ d. some (two_digits d)) (sym (short_month n m e')))
    | inr e' ↦
        let two : m ≡ 2 = ground (arith, e, e', h, k) in
        subst (λ j. last_day (pos j) (leap (pos (suc n))) ≡ some (two_digits (month_days n j)))
          (sym two) (february_day n ∙ ap (λ d. some (two_digits d)) (sym (february n)))
  ]
]

take-take : (n : ℕ) (xs : Bytes) → take n (take n xs) ≡ take n xs
unfolding take
take-take zero xs = refl
take-take (suc n) [] = refl
take-take (suc n) (x ∷ xs) = ap (◌∷◌ x) (take-take n xs)

-- In a date with a positive year and a month from 1 to 12, the day becomes the number of days from the
-- first of the month to the first of the next month, counted over all the years, with their leap days,
-- and written with two digits.
pub date_getmonthend-month_days :
    (date : Bytes) (n m : ℕ)
    → atoi (take 4 date) ≡ pos (suc n)
    → atoi (take 2 (drop 4 date)) ≡ pos m
    → 1 ≤ m
    → m ≤ 12
    → date_getmonthend date ≡ some (with_day date (two_digits (month_days n m)))
unfolding date_getmonthend date_isleap
date_getmonthend-month_days date n m year month h k =
    ap (λ y. put_day date (last_day (atoi (take 2 (drop 4 date))) (leap (atoi y))))
      (take-take 4 date)
    ∙ ap (λ y. put_day date (last_day (atoi (take 2 (drop 4 date))) (leap y))) year
    ∙ ap (λ j. put_day date (last_day j (leap (pos (suc n))))) month
    ∙ ap (put_day date) (last_days n m h k)
