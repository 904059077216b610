-- ===== src/Tests/Json.antt =====
-- A small JSON library, runs of the parser and the dumpers, and uses of the theorems on them.
use krproject.Base.{
  ℕ, ◌≡◌, refl, ap, Option, none, some, List, [], ◌∷◌, ◌++◌, ◌==◌, if◌then◌else◌, ok, arith,
}
use krproject.Base.Int.{ℤ, pos}
use krproject.Calc.{not', did, Tree, node, nil, cons}
use krproject.Calc.Outcome.{value}
use krproject.Calc.Flex.{Printer, flex_tree, flex_children, flex_node, calc_dump_flex}
use krproject.Calc.Json.{CJson, Member, m_op, m_child, m_kind, m_value}
use krproject.Calc.Json.Parser.{
  exp_node, identifier, Status, no_message, parse_json, calc_parse_json,
}
use krproject.Calc.Json.Dumper.{dump_json}
use krproject.Calc.Json.Fresh.{fresh, depth, depth_children}
use krproject.Calc.Json.Members.{Laws, member_code, first_of}
use krproject.Calc.Json.Reads.{Reads, AllRead, IsElement}
use krproject.Calc.Json.OnlyReads.{calc_parse_json-Reads}
use krproject.Calc.Json.RoundTrip.{Dumpable, AllDumpable, parse_json-dump_json}
use krproject.Tests.Sample.{small, either, at_least_five}

mutual
  data Value : Type 0 where
    number : ℤ → Value
    string : ℕ → Value
    array : Values → Value
    object : Members → Value

  data Values : Type 0 where
    end : Values
    item : Value → Values → Values

  data Members : Type 0 where
    none_left : Members
    member : Member → Value → Members → Members

abbrev values : Values → List Value
values end = []
values (item v vs) = v ∷ values vs

abbrev add_value : Values → Value → Values
add_value end w = item w end
add_value (item v vs) w = item v (add_value vs w)

abbrev add_member : Members → Member → Value → Members
add_member none_left m w = member m w none_left
add_member (member n v ms) m w = member n v (add_member ms m w)

abbrev find : Member → Members → Option Value
find m none_left = none
find m (member n v ms) = if member_code m == member_code n then some v else find m ms

abbrev find_in : Member → Value → Option Value
find_in m (object ms) = find m ms
find_in m _ = none

abbrev number_in : Value → ℤ
number_in (number n) = n
number_in _ = pos 0

abbrev string_in : Value → Option ℕ
string_in (string s) = some s
string_in _ = none

abbrev values_in : Value → List Value
values_in (array vs) = values vs
values_in _ = []

abbrev with_member : Value → Member → Value → Value
with_member (object ms) m v = object (add_member ms m v)
with_member v m w = object (member m w none_left)

abbrev with_value : Value → Value → Value
with_value (array vs) v = array (add_value vs v)
with_value w v = array (item v end)

abbrev first_in : List ℕ → ℕ
first_in [] = 0
first_in (x ∷ xs) = x

-- item 7, as a value
abbrev item_seven : Value
item_seven = object (member m_kind (number (pos 14)) (member m_value (number (pos 7)) none_left))

-- the negation of it
abbrev not_seven : Value
not_seven =
    object (member m_op (number (pos 15)) (member m_child (array (item item_seven end)) none_left))

abbrev cjson : CJson small
cjson = record {
  Json = Value;
  parse = λ s. if s == 0 then none else some not_seven;
  get_object_item = find_in;
  items = values_in;
  valuedouble = number_in;
  valuestring = string_in;
  create_object = object none_left;
  create_array = array end;
  create_number = number;
  create_string = string;
  add_item_to_object = with_member;
  add_item_to_array = with_value;
  hashset_make = λ t s. record { type = t; set = s ∷ [] };
  hashset_name = λ h. first_in h.set;
  regex_compile = λ s. some s;
  regex_pattern = λ r. r;
}

find-add :
    (m n : Member) (ms : Members) (v : Value)
    → find m (add_member ms n v)
      ≡ first_of (find m ms) (if member_code m == member_code n then some v else none)
find-add m n none_left v = refl
find-add m n (member l w ms) v = ground (arith, find-add m n ms v)

find_in-with :
    (m n : Member) (j v : Value)
    → find_in m (with_member j n v)
      ≡ first_of (find_in m j) (if member_code m == member_code n then some v else none)
find_in-with m n (object ms) v = find-add m n ms v
find_in-with m n (number i) v = refl
find_in-with m n (string s) v = refl
find_in-with m n (array vs) v = refl

values-add : (vs : Values) (v : Value) → values (add_value vs v) ≡ values vs ++ v ∷ []
values-add end v = refl
values-add (item w vs) v = ap (◌∷◌ w) (values-add vs v)

values_in-with : (a v : Value) → values_in (with_value a v) ≡ values_in a ++ v ∷ []
values_in-with (array vs) v = values-add vs v
values_in-with (number i) v = refl
values_in-with (string s) v = refl
values_in-with (object ms) v = refl

cjson-Laws : Laws cjson
cjson-Laws = record {
  new_object = λ m. refl;
  added_member = find_in-with;
  new_array = refl;
  added_item = values_in-with;
  number = λ d. refl;
  text = λ s. refl;
  exact = λ n h. refl;
}

abbrev status : Status small
status = record { calc_status = pos 0; calc_errmsg = no_message }

either-Dumpable : Dumpable cjson either
unfolding Dumpable AllDumpable
either-Dumpable = (
  (refl, λ h. cc),
  (
    ((refl, λ h. cc), ((refl, tt), (((pos 5, refl, refl), tt), tt))),
    (((refl, λ h. cc), ((refl, tt), (((pos 5, refl, refl), tt), tt))), tt),
  ),
)

-- item 7 >= 5 or item 8 >= 5
parse_json-dump_json_example :
    (j : Value) × (dump_json cjson 0 either ≡ value j)
    × ((s : Status small) → parse_json cjson 3 j s ≡ ok (some (fresh either), s))
unfolding depth depth_children
parse_json-dump_json_example =
    parse_json-dump_json cjson-Laws either 3 either-Dumpable (omega arith)

abbrev negation : Tree small
negation = node (exp_node not') (cons (node (identifier did (pos 7)) nil) nil)

-- the text 1 is read as that
negation_read : calc_parse_json cjson 2 1 status ≡ ok (some negation, status)
unfolding Reads AllRead IsElement krproject.Calc.Json.op_of krproject.Calc.Json.kind_of
negation_read = (calc_parse_json-Reads cjson 2 1 status status negation).1 (
  (not_seven, refl, (not', _, refl, refl, refl, ((_, _, did, refl, refl, refl, refl, refl), tt))),
  refl,
)

abbrev printer : Printer small
printer = record {
  show_int = λ n. b'7' ∷ [];
  show_double = λ d. b'd' ∷ [];
  show_string = λ s. s ∷ [];
  set_name = λ h. h.set;
  pattern = λ r. r ∷ [];
}

flex_run :
    calc_dump_flex printer at_least_five
    ≡ value (b'(' ∷ b'D' ∷ b'_' ∷ b'7' ∷ b' ' ∷ b'>' ∷ b'=' ∷ b' ' ∷ b'7' ∷ b')' ∷ b';' ∷ [])
unfolding calc_dump_flex flex_tree flex_children flex_node
flex_run = refl
