-- ===== src/Utils/KrString.antt =====
-- krutils/kr_string.c: trimming, and `kr_string_dupenv`, which puts environment variables into a
-- text. A string is its bytes before the terminating zero.
pub mod Env
pub mod Letters
pub mod Trim
use krproject.Base.{
  ℕ, zero, suc, ◌+◌, Bool, true, false, ◌&&◌, ◌||◌, Option, none, some, List, [], ◌∷◌, ◌++◌, ◌==◌,
  leb, if◌then◌else◌, length, Run, ok, fault, null_read, ◌>>=◌,
}
use krproject.Message.{Bytes, c_string}

-- `isspace` in the C locale
abbrev pub is_space : ℕ → Bool
is_space x = x == b' ' || (leb 9 x && leb x 13)

-- `kr_string_ltrim`
unfoldable pub string_ltrim : Bytes → Bytes
string_ltrim [] = []
string_ltrim (x ∷ xs) = if is_space x then string_ltrim xs else x ∷ xs

-- one step of the loop of `kr_string_rtrim`, from the end: a byte stays if one after it does
abbrev pub keep_before : ℕ → Bytes → Bytes
keep_before x [] = if is_space x then [] else x ∷ []
keep_before x (y ∷ ys) = x ∷ y ∷ ys

-- `kr_string_rtrim`
unfoldable pub string_rtrim : Bytes → Bytes
string_rtrim [] = []
string_rtrim (x ∷ xs) = keep_before x (string_rtrim xs)

-- `kr_string_alltrim`
unfoldable pub string_alltrim : Bytes → Bytes
string_alltrim s = string_ltrim (string_rtrim s)

-- Where the loop of `kr_string_dupenv` is: in the text, after a `$`, or in a name, with the bytes
-- of it so far.
pub data Place : Type 0 where
  in_text : Place
  after_dollar : Place
  in_name : Bytes → Place

abbrev pub zeros : ℕ → Bytes
zeros zero = []
zeros (suc n) = 0 ∷ zeros n

abbrev pub put_before : Bytes → Run Bytes → Run Bytes
put_before xs (ok ys) = ok (xs ++ ys)
put_before xs (fault e) = fault e

abbrev pub or_nothing : Option Bytes → Bytes
or_nothing none = []
or_nothing (some value) = value

-- `caOutput` has 1024 bytes
abbrev pub in_output : Run Bytes → Run Bytes
in_output (fault e) = fault e
in_output (ok out) = if leb 1024 (length out) then fault null_read else ok out

module _ (getenv : Bytes → Option Bytes) where
  -- what is put in for the name in `caEnv`
  abbrev pub value_of_env : Bytes → Bytes
  value_of_env name = or_nothing (getenv (c_string name))

  -- The loop. `env` is how far `pEnv` is in `caEnv`, which has 100 bytes; a name that is not closed
  -- is read past its end.
  unfoldable pub dupenv_loop : Place → ℕ → Bytes → Run Bytes
  dupenv_loop in_text env [] = ok []
  dupenv_loop after_dollar env [] = ok (value_of_env [])
  dupenv_loop (in_name name) env [] = fault null_read
  dupenv_loop in_text env (x ∷ xs) =
      let copied = put_before (x ∷ []) (dupenv_loop in_text env xs) in
      let dollar = dupenv_loop after_dollar env xs in if x == b'$' then dollar else copied
  dupenv_loop after_dollar env (x ∷ xs) =
      let copied = put_before (x ∷ []) (dupenv_loop in_text env xs) in
      let dollar = dupenv_loop after_dollar env xs in
      let named = dupenv_loop (in_name []) env xs in
      if x == b'{'
      then named
      else put_before (value_of_env []) (if x == b'$' then dollar else copied)
  dupenv_loop (in_name name) env (x ∷ xs) =
      let longer = dupenv_loop (in_name (name ++ x ∷ [])) env xs in
      let rest = dupenv_loop in_text (env + length name) xs in
      if x == b'}'
      then put_before (value_of_env (zeros env ++ name)) rest
      else if leb 99 (env + length name)
      then fault null_read
      else longer

  unfoldable pub string_dupenv : Bytes → Run Bytes
  string_dupenv s = in_output (dupenv_loop in_text 0 s)
