-- ===== src/Utils/KrString/Letters.antt =====
-- krutils/kr_string.c: the tests of the bytes of a string, its hash, and `kr_string_toupper` and
-- `kr_string_tolower`, which leave characters of two bytes as they are.
use krproject.Base.{
  ℕ, ◌+◌, ◌-◌, ◌*◌, ◌^◌, ◌%◌, ◌≡◌, refl, Bool, true, false, ◌&&◌, ◌||◌, [], ◌∷◌, ◌==◌, leb, all,
  if◌then◌else◌, arith, Bool-cases, inl, inr, ∷-eq,
}
use krproject.Message.{Bytes}

abbrev is_digit : ℕ → Bool
is_digit x = leb b'0' x && leb x b'9'

-- `kr_string_isnumeric`
abbrev pub string_isnumeric : Bytes → Bool
string_isnumeric s = all is_digit s

-- `kr_string_isdecimal`
abbrev pub string_isdecimal : Bytes → Bool
string_isdecimal s = all (λ x. is_digit x || (x == b'.' || (x == b'-' || x == b'+'))) s

-- `kr_string_isalphabet`
abbrev pub string_isalphabet : Bytes → Bool
string_isalphabet s = all (λ x. (leb b'A' x && leb x b'Z') || (leb b'a' x && leb x b'z')) s

-- One round of `kr_string_hash`: the byte is a `signed char`, and `h` an `unsigned int`.
abbrev hash_step : ℕ → ℕ → ℕ
hash_step h x = (h * 2 ^ 5 + h + (if leb 128 x then 2 ^ 32 + x - 256 else x)) % 2 ^ 32

unfoldable pub hash_loop : ℕ → Bytes → ℕ
hash_loop h [] = h
hash_loop h (x ∷ xs) = hash_loop (hash_step h x) xs

-- `kr_string_hash`
abbrev pub string_hash : Bytes → ℕ
string_hash s = hash_loop 5381 s

-- `toupper` and `tolower` in the C locale
abbrev pub to_upper : ℕ → ℕ
to_upper x = if leb b'a' x && leb x b'z' then x - 32 else x

abbrev pub to_lower : ℕ → ℕ
to_lower x = if leb b'A' x && leb x b'Z' then x + 32 else x

-- the first byte of a character of two bytes
abbrev pub is_wide : ℕ → Bool
is_wide x = leb 129 x && leb x 254

-- The loop of both; `skipped` is whether the byte is the second one of a character.
unfoldable pub letters_loop : (ℕ → ℕ) → (skipped : Bool) → Bytes → Bytes
letters_loop f skipped [] = []
letters_loop f true (x ∷ xs) = x ∷ letters_loop f false xs
letters_loop f false (x ∷ xs) =
    let wide = x ∷ letters_loop f true xs in
    let single = f x ∷ letters_loop f false xs in if is_wide x then wide else single

abbrev pub string_toupper : Bytes → Bytes
string_toupper s = letters_loop to_upper false s

abbrev pub string_tolower : Bytes → Bytes
string_tolower s = letters_loop to_lower false s

module _ (f g : ℕ → ℕ) (narrow : (x : ℕ) → is_wide x ≡ false → is_wide (g x) ≡ false)
    (absorbed : (x : ℕ) → f (g x) ≡ f x) where
  letters_loop-letters_loop :
      (skipped : Bool) (s : Bytes)
      → letters_loop f skipped (letters_loop g skipped s) ≡ letters_loop f skipped s
  unfolding letters_loop
  letters_loop-letters_loop true [] = refl
  letters_loop-letters_loop false [] = refl
  letters_loop-letters_loop true (x ∷ xs) = ∷-eq refl (letters_loop-letters_loop false xs)
  letters_loop-letters_loop false (x ∷ xs) = elim (Bool-cases (is_wide x)) [
    | inl wide ↦ rw (wide, wide) (∷-eq refl (letters_loop-letters_loop true xs))
    | inr single ↦
        rw (single, narrow x single, absorbed x) (∷-eq refl (letters_loop-letters_loop false xs))
  ]

-- Each of the two case conversions undoes the other one: lower case is the same for a string and for
-- its upper case, and the other way round, characters of two bytes included.
string_tolower-string_toupper :
    (s : Bytes)
    → (string_tolower (string_toupper s) ≡ string_tolower s)
      × (string_toupper (string_tolower s) ≡ string_toupper s)
string_tolower-string_toupper s = (
  letters_loop-letters_loop to_lower to_upper (λ x h. ground (arith, h)) (λ x. ground arith) false
      s,
  letters_loop-letters_loop to_upper to_lower (λ x h. ground (arith, h)) (λ x. ground arith) false
      s,
)
