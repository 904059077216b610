-- ===== src/Message/Decimal.antt =====
-- Printing an int in decimal and reading it again.
use krproject.Base.{
  ℕ, zero, suc, ◌+◌, ◌-◌, ◌*◌, ◌/◌, ◌%◌, ◌≤◌, ◌<◌, ◌≡◌, refl, sym, ap, ◌∙◌, true, false, [], ◌∷◌,
  ◌++◌, ◌==◌, ltb, Bool-cases, length, arith, inl, inr, all, not,
}
use krproject.Base.Int.{ℤ, pos, negsuc, fits_int}
use krproject.Message.{
  Bytes, blanks, pad, digits_loop, print_int, is_digit, read_digits, negated, atoi,
}

abbrev pow10 : ℕ → ℕ
pow10 zero = 1
pow10 (suc n) = 10 * pow10 n

read-digit :
    (v d : ℕ) (acc : Bytes)
    → d < 10
    → read_digits v ((b'0' + d) ∷ acc) ≡ read_digits (v * 10 + d) acc
read-digit v d acc h =
    let e : is_digit (b'0' + d) ≡ true = ground (arith, h) in
    let e' : b'0' + d - b'0' ≡ d = omega arith in rw (e, e') refl

-- What the digits of a number are read as, whatever comes after them.
read_digits-digits_loop :
    (fuel n : ℕ) (acc : Bytes)
    → n < pow10 fuel
    → read_digits 0 (digits_loop fuel n acc) ≡ read_digits n acc
read_digits-digits_loop zero n acc h =
    let e : n ≡ 0 = omega (arith, h) in ap (λ v. read_digits v acc) (sym e)
read_digits-digits_loop (suc fuel) n acc h = elim (Bool-cases (ltb n 10)) [
  | inl e ↦
      let lt : n < 10 = ground (arith, e) in
      let e' : 0 * 10 + n ≡ n = omega arith in
      rw e (read-digit 0 n acc lt ∙ ap (λ v. read_digits v acc) e')
  | inr e ↦
      let next = read_digits-digits_loop fuel (n / 10) ((b'0' + n % 10) ∷ acc) (omega (arith, h)) in
      let whole : n / 10 * 10 + n % 10 ≡ n = omega arith in
      rw e
        (next ∙ read-digit (n / 10) (n % 10) acc (omega arith) ∙ ap (λ v. read_digits v acc) whole)
]

length-digits_loop :
    (j fuel n : ℕ) (acc : Bytes)
    → n < pow10 (suc j)
    → length (digits_loop fuel n acc) ≤ suc j + length acc
length-digits_loop j zero n acc h = omega arith
length-digits_loop zero (suc fuel) n acc h =
    let e : ltb n 10 ≡ true = ground (arith, h) in rw e (omega arith)
length-digits_loop (suc j) (suc fuel) n acc h = elim (Bool-cases (ltb n 10)) [
  | inl e ↦ rw e (omega arith)
  | inr e ↦
      let next = length-digits_loop j fuel (n / 10) ((b'0' + n % 10) ∷ acc) (omega (arith, h)) in
      rw e (omega (arith, next))
]

-- the text of a number begins with a digit
abbrev pub Digit : Bytes → Type 0
Digit [] = ⊥
Digit (x ∷ xs) = is_digit x ≡ true

Digit-cons : (xs : Bytes) → Digit xs → (y : ℕ) × (ys : Bytes) × (xs ≡ y ∷ ys)
Digit-cons [] h = absurd h
Digit-cons (y ∷ ys) h = (y, ys, refl)

digits_loop-Digit :
    (fuel n : ℕ) (acc : Bytes) → n < pow10 (suc fuel) → Digit (digits_loop (suc fuel) n acc)
digits_loop-Digit zero n acc h =
    let e : ltb n 10 ≡ true = ground (arith, h) in
    let d : is_digit (b'0' + n) ≡ true = ground (arith, h) in rw e d
digits_loop-Digit (suc fuel) n acc h = elim (Bool-cases (ltb n 10)) [
  | inl e ↦ let d : is_digit (b'0' + n) ≡ true = ground (arith, e) in rw e d
  | inr e ↦ rw e (digits_loop-Digit fuel (n / 10) ((b'0' + n % 10) ∷ acc) (omega (arith, h)))
]

atoi-digits : (xs : Bytes) → Digit xs → atoi xs ≡ pos (read_digits 0 xs)
unfolding atoi
atoi-digits [] h = absurd h
atoi-digits (x ∷ xs) h =
    let blank : (x == b' ') ≡ false = ground (arith, h) in
    let minus : (x == b'-') ≡ false = ground (arith, h) in
    let plus : (x == b'+') ≡ false = ground (arith, h) in rw (blank, minus, plus) refl

atoi-blanks : (n : ℕ) (xs : Bytes) → atoi (blanks n ++ xs) ≡ atoi xs
unfolding atoi
atoi-blanks zero xs = refl
atoi-blanks (suc n) xs = atoi-blanks n xs

atoi-pad : (width : ℕ) (xs : Bytes) → atoi (pad width xs) ≡ atoi xs
atoi-pad width xs = atoi-blanks (width - length xs) xs

-- An int that `%4d` prints in four characters.
abbrev pub FitsFour : ℤ → Type 0
FitsFour (pos n) = n ≤ 9999
FitsFour (negsuc n) = n ≤ 998

-- an int, printed and read
pub atoi-int : (z : ℤ) → fits_int z ≡ true → atoi (print_int z) ≡ z
unfolding print_int atoi
atoi-int (pos n) h =
    let small : n < pow10 10 = ground (arith, h) in
    atoi-digits _ (digits_loop-Digit 9 n [] small) ∙ ap pos (read_digits-digits_loop 10 n [] small)
atoi-int (negsuc n) h = ap negated (read_digits-digits_loop 10 (suc n) [] (ground (arith, h)))

FitsFour-int : (z : ℤ) → FitsFour z → fits_int z ≡ true
FitsFour-int (pos n) h = ground (arith, h)
FitsFour-int (negsuc n) h = ground (arith, h)

pub atoi-print_int : (z : ℤ) → FitsFour z → atoi (pad 4 (print_int z)) ≡ z
atoi-print_int z h = atoi-pad 4 (print_int z) ∙ atoi-int z (FitsFour-int z h)

-- the digits have no comma among them
digits_loop-Lacks :
    (fuel n : ℕ) (acc : Bytes)
    → all (λ x. not (x == b',')) acc ≡ true
    → all (λ x. not (x == b',')) (digits_loop fuel n acc) ≡ true
digits_loop-Lacks zero n acc h = h
digits_loop-Lacks (suc fuel) n acc h = elim (Bool-cases (ltb n 10)) [
  | inl e ↦ let d : not (b'0' + n == b',') ≡ true = ground arith in rw (e, d, h) refl
  | inr e ↦
      let d : not (b'0' + n % 10 == b',') ≡ true = ground arith in
      rw e (digits_loop-Lacks fuel (n / 10) ((b'0' + n % 10) ∷ acc) (rw (d, h) refl))
]

-- a printed int is not empty and has no comma
pub print_int-comma :
    (z : ℤ)
    → fits_int z ≡ true
    → (x : ℕ) × (xs : Bytes) × (print_int z ≡ x ∷ xs)
      × (all (λ y. not (y == b',')) (print_int z) ≡ true)
unfolding print_int
print_int-comma (pos n) h =
    let d = digits_loop-Digit 9 n [] (ground (arith, h)) in
    let (x, xs, e) = Digit-cons (digits_loop 10 n []) d in
    (x, xs, e, digits_loop-Lacks 10 n [] refl)
print_int-comma (negsuc n) h =
    (b'-', digits_loop 10 (suc n) [], refl, digits_loop-Lacks 10 (suc n) [] refl)

pub length-print_int : (z : ℤ) → FitsFour z → length (print_int z) ≤ 4
unfolding print_int
length-print_int (pos n) h = length-digits_loop 3 10 n [] (omega (arith, h))
length-print_int (negsuc n) h =
    let e = length-digits_loop 2 10 (suc n) [] (omega (arith, h)) in omega (arith, e)
