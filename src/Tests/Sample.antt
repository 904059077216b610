-- ===== src/Tests/Sample.antt =====
-- A small platform, and trees and callbacks on it: doubles are whole numbers, strings have one
-- letter, a hash table is a list of letters or of numbers.
use krproject.Base.{
  ℕ, ◌+◌, ◌*◌, ◌/◌, ◌≡◌, refl, Bool, true, false, ◌||◌, Option, none, some, List, [], ◌∷◌, Run, ok,
  ◌==◌, any, if◌then◌else◌,
}
use krproject.Base.Int.{ℤ, pos, pos_part, neg_part, sub_ℕ, ◌+ℤ◌, ◌-ℤ◌, ltb_ℤ, eqb_ℤ}
use krproject.Platform.{Platform, KrType, Value, Val, HashSet, zeroed}
use krproject.Calc.{
  Op, no_op, ge, or, Kind, rel, logic, int, did, string, mstring, mint, Node, Tree, node, nil, cons,
  Calc, no_error,
}
use krproject.Calc.Object.{Calculator}
use krproject.Calc.Sound.{fits, suits, Serves}
use krproject.Calc.Sound.Whole.{IsWellFormed, AllWellFormed}
use krproject.Base.{arith}

abbrev member : List ℕ → ℕ → Bool
member t n = any (λ m. m == n) t

abbrev insert : List ℕ → Value ℤ ℕ ℕ (List ℕ) → List ℕ
insert t (Value.other n) = n ∷ t
insert t _ = t

abbrev lookup : List ℕ → Value ℤ ℕ ℕ (List ℕ) → Option (Value ℤ ℕ ℕ (List ℕ))
lookup t (Value.s a) = if member t a then some (Value.s a) else none
lookup t (Value.i n) = if member t (pos_part n) then some (Value.i n) else none
lookup t _ = none

abbrev pub small : Platform
small = record {
  Double = ℤ;
  zero_double = pos 0;
  of_int = λ n. n;
  add = λ x y. x +ℤ y;
  sub = λ x y. x -ℤ y;
  mul = λ x y.
      sub_ℕ (pos_part x * pos_part y + neg_part x * neg_part y)
        (pos_part x * neg_part y + neg_part x * pos_part y);
  div = λ x y. pos (pos_part x / pos_part y);
  lt = λ x y. ltb_ℤ x y;
  le = λ x y. ltb_ℤ x y || eqb_ℤ x y;
  eq = λ x y. eqb_ℤ x y;
  to_int = λ x. x;
  to_long = λ x. x;
  Str = ℕ;
  strcmp = λ a b. sub_ℕ a b;
  Regex = ℕ;
  regexec = λ r a. if r == a then pos 0 else pos 1;
  Table = List ℕ;
  table_remove_all = λ t. [];
  table_insert = insert;
  table_lookup = lookup;
}

-- Item 7 is 9, and every read is counted.
abbrev pub read : Kind → ℤ → ℕ → Run (Option (Val small) × ℕ)
read did id n = ok (if eqb_ℤ id (pos 7) then some (Value.i (pos 9)) else none, n + 1)
read _ id n = ok (none, n)

abbrev pub declared : Kind → ℤ → KrType
declared a id = KrType.int

abbrev pub calc : Calc small ℕ
calc = record {
  get_type_cb = λ a id n. KrType.int;
  get_value_cb = read;
  calc_param = 0;
  calc_status = pos 0;
  calc_errmsg = no_error;
}

abbrev pub plain : Kind → Op → KrType → Node small
plain a o t = record { kind = a; op = o; id = pos 0; type = t; ind = false; value = zeroed }

abbrev pub number : ℤ → Node small
number n = record {
  kind = int;
  op = no_op;
  id = pos 0;
  type = KrType.int;
  ind = true;
  value = Value.i n;
}

abbrev pub item : ℤ → Node small
item id = record {
  kind = did;
  op = no_op;
  id = id;
  type = KrType.unknown;
  ind = false;
  value = zeroed;
}

-- a string of one letter
abbrev pub letter_node : ℕ → Node small
letter_node a = record {
  kind = string;
  op = no_op;
  id = pos 0;
  type = KrType.string;
  ind = true;
  value = Value.s a;
}

abbrev pub letter_set : HashSet (List ℕ)
letter_set = record { type = KrType.string; set = b'a' ∷ b'c' ∷ [] }

abbrev pub number_set : HashSet (List ℕ)
number_set = record { type = KrType.int; set = 3 ∷ 5 ∷ [] }

abbrev pub letters : Node small
letters = record {
  kind = mstring;
  op = no_op;
  id = pos 0;
  type = KrType.pointer;
  ind = true;
  value = Value.set letter_set;
}

abbrev pub numbers : Node small
numbers = record {
  kind = mint;
  op = no_op;
  id = pos 0;
  type = KrType.pointer;
  ind = true;
  value = Value.set number_set;
}

abbrev leaf : Node small → Tree small
leaf n = node n nil

-- item 7 >= 5
abbrev pub at_least_five : Tree small
at_least_five =
    node (plain logic ge KrType.bool)
      (cons (leaf (item (pos 7))) (cons (leaf (number (pos 5))) nil))

-- item 7 >= 5 or item 8 >= 5
abbrev pub either : Tree small
either = node (plain rel or KrType.bool) (
    cons at_least_five (
      cons
        (node (plain logic ge KrType.bool)
          (cons (leaf (item (pos 8))) (cons (leaf (number (pos 5))) nil)))
        nil))

abbrev pub calculator : Tree small → Calculator small ℕ
calculator t = record { calc_tree = t; state = calc }

values :
    (a : Kind) (id : ℤ) (n n' : ℕ) (v : Val small)
    → read a id n ≡ ok (some v, n')
    → (fits (declared a id) v ≡ true) × (suits a v ≡ true)
values did id n n' v h = ground arith
values _ id n n' v h = ground arith

reads : (a : Kind) (id : ℤ) (n : ℕ) → (r : Option (Val small) × ℕ) × (read a id n ≡ ok r)
reads did id n = (_, refl)
reads _ id n = (_, refl)

pub calc-Serves : Serves declared calc
calc-Serves = record { types = λ a id c. refl; reads = reads; values = values }

pub either-IsWellFormed : IsWellFormed declared either
unfolding IsWellFormed AllWellFormed
either-IsWellFormed = ground arith

pub at_least_five-IsWellFormed : IsWellFormed declared at_least_five
unfolding IsWellFormed AllWellFormed
at_least_five-IsWellFormed = ground arith
