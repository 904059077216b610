-- ===== src/Tests/KrHashset.antt =====
-- Sets that are made from a text, on a hash table that is two lists; a string is one letter.
use krproject.Base.{
  ℕ, ◌≡◌, refl, sym, ap, ◌∙◌, Bool, true, false, ◌||◌, Option, none, some, is_some, List, [], ◌∷◌,
  ◌==◌, any, map, if◌then◌else◌, arith,
}
use krproject.Base.Int.{ℤ, pos, negsuc, sub_ℕ, ◌+ℤ◌, ◌-ℤ◌, ltb_ℤ, eqb_ℤ}
use krproject.Platform.{Platform, KrType, Value, Val}
use krproject.Calc.Members.{truth_of}
use krproject.Calc.Logic.{hashset_search}
use krproject.Message.{Bytes, print_int}
use krproject.Utils.KrHashset.{Reader, tokens_loop, unquoted, hashset_make}
use krproject.Utils.KrHashset.Tokens.{join}
use krproject.Utils.KrHashset.Made.{Laws, quoted, hashset_search-ints, hashset_search-strings}

record Table : Type 0 where
  ints : List ℤ
  strings : List ℕ

abbrev V : Type 0
V = Value ℤ ℕ ℕ Table

abbrev insert : Table → V → Table
insert t (Value.i n) = record t { ints = n ∷ t.ints }
insert t (Value.s a) = record t { strings = a ∷ t.strings }
insert t _ = t

abbrev lookup : Table → V → Option V
lookup t (Value.i n) = if any (λ m. eqb_ℤ n m) t.ints then some (Value.i n) else none
lookup t (Value.s a) =
    if any (λ b. eqb_ℤ (sub_ℕ a b) (pos 0)) t.strings then some (Value.s a) else none
lookup t _ = none

abbrev lists : Platform
lists = record {
  Double = ℤ;
  zero_double = pos 0;
  of_int = λ n. n;
  add = λ x y. x +ℤ y;
  sub = λ x y. x -ℤ y;
  mul = λ x y. x;
  div = λ x y. x;
  lt = λ x y. ltb_ℤ x y;
  le = λ x y. ltb_ℤ x y || eqb_ℤ x y;
  eq = λ x y. eqb_ℤ x y;
  to_int = λ x. x;
  to_long = λ x. x;
  Str = ℕ;
  strcmp = λ a b. sub_ℕ a b;
  Regex = ℕ;
  regexec = λ r a. if r == a then pos 0 else pos 1;
  Table = Table;
  table_remove_all = λ t. record { ints = []; strings = [] };
  table_insert = insert;
  table_lookup = lookup;
}

abbrev first : Bytes → ℕ
first [] = 0
first (x ∷ xs) = x

abbrev reader : Reader lists
reader = record {
  new_table = record { ints = []; strings = [] };
  atof = λ t. pos 0;
  to_str = first;
}

is_some-if : {A : Type 0} (b : Bool) (x : A) → is_some (if b then some x else none) ≡ b
is_some-if true x = refl
is_some-if false x = refl

new : (v : Val lists) → is_some (lookup reader.new_table v) ≡ false
new v = ground arith

reader-Laws : Laws reader
reader-Laws = record {
  new = new;
  inserted_int = λ t m n.
      is_some-if (eqb_ℤ n m || any (λ k. eqb_ℤ n k) t.ints) (Value.i n)
      ∙ ap (λ b. eqb_ℤ n m || b) (sym (is_some-if (any (λ k. eqb_ℤ n k) t.ints) (Value.i n)));
  inserted_string = λ t a b.
      is_some-if (eqb_ℤ (sub_ℕ b a) (pos 0) || any (λ c. eqb_ℤ (sub_ℕ b c) (pos 0)) t.strings)
        (Value.s b)
      ∙ ap (λ c. eqb_ℤ (sub_ℕ b a) (pos 0) || c)
          (sym (is_some-if (any (λ c. eqb_ℤ (sub_ℕ b c) (pos 0)) t.strings) (Value.s b)));
}

-- A quoted string with a comma is cut in two, and each piece loses a letter at either end.
comma_in_string :
    map unquoted (tokens_loop [] (quoted b'\'' (b'a' ∷ b',' ∷ b'b' ∷ []))) ≡ [] ∷ [] ∷ []
unfolding tokens_loop
comma_in_string = refl

hashset_search-ints_example :
    hashset_search lists
      (hashset_make reader KrType.int (join (map print_int (pos 12 ∷ negsuc 2 ∷ pos 7 ∷ []))))
      (Value.i (negsuc 2))
    ≡ truth_of (any (λ m. eqb_ℤ (negsuc 2) m) (pos 12 ∷ negsuc 2 ∷ pos 7 ∷ []))
hashset_search-ints_example =
    hashset_search-ints reader-Laws (pos 12 ∷ negsuc 2 ∷ pos 7 ∷ []) (negsuc 2) refl

hashset_search-strings_example :
    hashset_search lists
      (hashset_make reader KrType.string
        (join (map (quoted b'\'') ((b'a' ∷ []) ∷ (b'c' ∷ []) ∷ []))))
      (Value.s b'c')
    ≡ truth_of (any (λ w. eqb_ℤ (sub_ℕ b'c' (first w)) (pos 0)) ((b'a' ∷ []) ∷ (b'c' ∷ []) ∷ []))
hashset_search-strings_example =
    hashset_search-strings reader-Laws b'\'' ((b'a' ∷ []) ∷ (b'c' ∷ []) ∷ []) b'c' refl refl
