-- ===== src/Tests/KrString.antt =====
-- Runs of the string functions, and uses of the theorems on them.
use krproject.Base.{
  ◌≡◌, refl, Option, none, some, [], ◌∷◌, ◌++◌, ◌==◌, ◌&&◌, true, false, if◌then◌else◌, ok, arith,
}
use krproject.Message.{Bytes}
use krproject.Utils.KrString.{
  string_ltrim, string_rtrim, string_alltrim, value_of_env, dupenv_loop, string_dupenv,
}
use krproject.Utils.KrString.Env.{variable, string_dupenv-second}
use krproject.Utils.KrString.Letters.{
  string_isnumeric, string_isdecimal, string_isalphabet, hash_loop, string_hash, letters_loop,
  string_toupper,
}
use krproject.Utils.KrString.Trim.{IsTrimmed, string_alltrim-IsTrimmed}

abbrev spaced : Bytes
spaced = b' ' ∷ b'a' ∷ b' ' ∷ b'b' ∷ b' ' ∷ b' ' ∷ []

alltrim_run : string_alltrim spaced ≡ b'a' ∷ b' ' ∷ b'b' ∷ []
unfolding string_alltrim string_ltrim string_rtrim
alltrim_run = refl

string_alltrim-IsTrimmed_example : IsTrimmed spaced (string_alltrim spaced)
string_alltrim-IsTrimmed_example = string_alltrim-IsTrimmed spaced

-- an environment with the variables `A` and `B`
abbrev getenv : Bytes → Option Bytes
getenv [] = none
getenv (x ∷ xs) =
    if x == b'A' then some (b'1' ∷ b'2' ∷ []) else if x == b'B' then some (b'3' ∷ []) else none

dupenv_run : string_dupenv getenv (variable (b'A' ∷ []) (b'/' ∷ [])) ≡ ok (b'1' ∷ b'2' ∷ b'/' ∷ [])
unfolding string_dupenv dupenv_loop
dupenv_run = refl

string_dupenv-second_example :
    string_dupenv getenv (variable (b'A' ∷ []) (b'/' ∷ variable (b'B' ∷ []) []))
    ≡ ok (value_of_env getenv (b'A' ∷ []) ++ b'/' ∷ [])
string_dupenv-second_example =
    string_dupenv-second getenv b'A' [] (b'B' ∷ []) (b'/' ∷ []) refl refl refl (omega arith) refl
      (omega arith)

-- the letter `a`, a character of two bytes whose second one is an `a`, and the letter `b`
abbrev mixed : Bytes
mixed = b'a' ∷ 200 ∷ b'a' ∷ b'b' ∷ []

toupper_run : string_toupper mixed ≡ b'A' ∷ 200 ∷ b'a' ∷ b'B' ∷ []
unfolding letters_loop
toupper_run = refl

hash_run : string_hash (b'a' ∷ []) ≡ 177670
unfolding hash_loop
hash_run = refl

hash_run_signed : string_hash (200 ∷ []) ≡ 177517
unfolding hash_loop
hash_run_signed = refl

bytes_run :
    (string_isnumeric (b'1' ∷ [])
      && string_isdecimal (b'-' ∷ b'1' ∷ [])
      && string_isalphabet (b'a' ∷ []))
    ≡ true
bytes_run = refl

wide_is_no_letter : string_isalphabet mixed ≡ false
wide_is_no_letter = refl
