-- ===== src/Utils/KrString/Env.antt =====
-- `kr_string_dupenv` of krutils/kr_string.c on texts with variables.
use krproject.Base.{
  ℕ, suc, ◌+◌, ◌<◌, ◌≡◌, refl, sym, ap, ◌∙◌, true, false, not, Option, none, [], ◌∷◌, ◌++◌, ◌==◌,
  leb, all, length, length-append, Run, ok, fault, arith,
}
use mathlib.Core.List.{append-nil}
use krproject.Message.{Bytes}
use krproject.Utils.KrString.{
  or_nothing, in_text, in_name, zeros, put_before, value_of_env, dupenv_loop, in_output,
  string_dupenv,
}
use krproject.Utils.KrString.Trim.{append_assoc}

-- a byte does not occur
abbrev pub Lacks : ℕ → Bytes → Type 0
Lacks y xs = all (λ x. not (x == y)) xs ≡ true

-- `${name}`
abbrev pub variable : Bytes → Bytes → Bytes
variable name rest = b'$' ∷ b'{' ∷ (name ++ b'}' ∷ rest)

put_before_nil : (r : Run Bytes) → put_before [] r ≡ r
put_before_nil (ok ys) = refl
put_before_nil (fault e) = refl

put_before_cons :
    (x : ℕ) (xs : Bytes) (r : Run Bytes)
    → put_before (x ∷ []) (put_before xs r) ≡ put_before (x ∷ xs) r
put_before_cons x xs (ok ys) = refl
put_before_cons x xs (fault e) = refl

module _ (getenv : Bytes → Option Bytes) where
  text-put_before :
      (env : ℕ) (xs rest : Bytes)
      → Lacks b'$' xs
      → dupenv_loop getenv in_text env (xs ++ rest)
        ≡ put_before xs (dupenv_loop getenv in_text env rest)
  unfolding dupenv_loop
  text-put_before env [] rest h = sym (put_before_nil _)
  text-put_before env (x ∷ xs) rest h =
      let e : (x == b'$') ≡ false = ground (arith, h) in
      let later = text-put_before env xs rest (ground (arith, h)) in
      rw e (ap (put_before (x ∷ [])) later ∙ put_before_cons x xs _)

  name-put_before :
      (env : ℕ) (name xs rest : Bytes)
      → Lacks b'}' xs
      → env + length name + length xs < 100
      → dupenv_loop getenv (in_name name) env (xs ++ b'}' ∷ rest)
        ≡ put_before
            (value_of_env getenv (zeros env ++ (name ++ xs)))
            (dupenv_loop getenv in_text (env + length (name ++ xs)) rest)
  unfolding dupenv_loop
  name-put_before env name [] rest h fits =
      ap
        (λ n.
          put_before (value_of_env getenv (zeros env ++ n))
            (dupenv_loop getenv in_text (env + length n) rest))
        (sym (append-nil name))
  name-put_before env name (x ∷ xs) rest h fits =
      let e : (x == b'}') ≡ false = ground (arith, h) in
      let room : leb 99 (env + length name) ≡ false = ground (arith, fits) in
      let l = length-append name (x ∷ []) in
      let later =
        name-put_before env (name ++ x ∷ []) xs rest (ground (arith, h)) (omega (arith, fits, l)) in
      rw (e, room)
        (later
          ∙ ap
              (λ n.
                put_before (value_of_env getenv (zeros env ++ n))
                  (dupenv_loop getenv in_text (env + length n) rest))
              (append_assoc name (x ∷ []) xs))

  variable-put_before :
      (env : ℕ) (name rest : Bytes)
      → Lacks b'}' name
      → env + length name < 100
      → dupenv_loop getenv in_text env (variable name rest)
        ≡ put_before
            (value_of_env getenv (zeros env ++ name))
            (dupenv_loop getenv in_text (env + length name) rest)
  unfolding dupenv_loop
  variable-put_before env name rest h fits =
      name-put_before env [] name rest h (omega (arith, fits))

  first_variable :
      (name rest : Bytes)
      → Lacks b'}' name
      → length name < 100
      → dupenv_loop getenv in_text 0 (variable name rest)
        ≡ put_before (value_of_env getenv name) (dupenv_loop getenv in_text (length name) rest)
  first_variable name rest h fits =
      let z : 0 + length name ≡ length name = omega arith in
      variable-put_before 0 name rest h (omega (arith, fits))
      ∙ ap (λ k. put_before (value_of_env getenv name) (dupenv_loop getenv in_text k rest)) z

  ended : (env : ℕ) → dupenv_loop getenv in_text env [] ≡ ok []
  unfolding dupenv_loop
  ended env = refl

  -- the name that is looked up after one variable was read is empty
  value_of_env-zeros :
      (n : ℕ) (name : Bytes) → getenv [] ≡ none → value_of_env getenv (zeros (suc n) ++ name) ≡ []
  value_of_env-zeros n name e = ap or_nothing e

  -- Of two variables in a text, only the first one is put in, with the text between them: nothing
  -- stands in the place of the second one, whatever its value is. The names have no closing brace and
  -- together less than 100 bytes, and the first one is not empty; the text between has no dollar sign;
  -- the result has less than 1024 bytes; no variable has the empty name.
  pub string_dupenv-second :
      (x : ℕ) (name other mid : Bytes)
      → Lacks b'}' (x ∷ name)
      → Lacks b'}' other
      → Lacks b'$' mid
      → length (x ∷ name) + length other < 100
      → getenv [] ≡ none
      → length (value_of_env getenv (x ∷ name) ++ mid) < 1024
      → string_dupenv getenv (variable (x ∷ name) (mid ++ variable other []))
        ≡ ok (value_of_env getenv (x ∷ name) ++ mid)
  unfolding string_dupenv
  string_dupenv-second x name other mid h h' m fits e out =
      let n = length (x ∷ name) in
      let first = first_variable (x ∷ name) (mid ++ variable other []) h (omega (arith, fits)) in
      let second = variable-put_before n other [] h' fits in
      let nothing = value_of_env-zeros (length name) other e in
      let run =
        first
        ∙ ap (put_before (value_of_env getenv (x ∷ name))) (
            text-put_before n mid (variable other []) m
            ∙ ap (put_before mid)
                (second ∙ ap (put_before _) (ended _) ∙ ap (λ v. put_before v (ok [])) nothing)) in
      let found = value_of_env getenv (x ∷ name) in
      let whole = run ∙ ap (λ v. ok (found ++ v)) (append-nil mid) in
      let room : leb 1024 (length (found ++ mid)) ≡ false = ground (arith, out) in
      ap in_output whole ∙ rw room refl
