-- ===== src/Calc/Json/Parser.antt =====
-- krcalc/kr_calc_parser_json.c
use krproject.Base.{
  ℕ, zero, suc, ◌+◌, true, false, Option, none, some, List, [], ◌∷◌, Run, ok, fault, null_read,
  unfinished, ◌>>=◌,
}
use krproject.Base.Int.{ℤ, pos, negsuc}
use krproject.Platform.{Platform, KrType, Value, Val, zeroed}
use krproject.Calc.{
  Op, no_op, plus, sub, mut, div, mod', not', and, or, Kind, rel, arith', logic, int, float, string,
  mint, mfloat, mstring, regex, set, cid, fid, sid, did, hid, Node, Tree, node, nil, tree_append,
}
use krproject.Calc.Json.{CJson, m_op, m_child, m_kind, m_value, op_of, kind_of}

-- What is printed into `calc_errmsg`.
pub data ParseError (S : Type 0) : Type 0 where
  no_message : ParseError S
  unknown_kind : ℤ → ParseError S
  unknown_op : ℤ → ParseError S
  child_failed : ℕ → ParseError S
  cjson_failed : S → ParseError S
  json_failed : ParseError S

-- `calc_status` and `calc_errmsg`
pub record Status (p : Platform) : Type 0 where
  pub calc_status : ℤ
  pub calc_errmsg : ParseError p.Str

-- a null pointer, or a tree; and what is left in the calculator
abbrev pub Parsed : Platform → Type 0
Parsed p = Run (Option (Tree p) × Status p)

-- the kind of the node of an operation
abbrev pub kind_of_op : Op → Kind
kind_of_op plus = arith'
kind_of_op sub = arith'
kind_of_op mut = arith'
kind_of_op div = arith'
kind_of_op mod' = arith'
kind_of_op not' = rel
kind_of_op and = rel
kind_of_op or = rel
kind_of_op _ = logic

-- the type of the node of an operation
abbrev pub type_of_op : Op → KrType
type_of_op plus = KrType.double
type_of_op sub = KrType.double
type_of_op mut = KrType.double
type_of_op div = KrType.double
type_of_op mod' = KrType.double
type_of_op _ = KrType.bool

module _ {p : Platform} where
  abbrev pub fail : ParseError p.Str → Option (Tree p) × Status p
  fail e = (none, record { calc_status = negsuc 0; calc_errmsg = e })

  -- the first part of `kr_calc_parse_exp`
  abbrev pub exp_node : Op → Node p
  exp_node op = record {
    kind = kind_of_op op;
    op = op;
    id = pos 0;
    type = type_of_op op;
    ind = false;
    value = zeroed;
  }

  -- an element with a value, and one with an identifier
  abbrev pub constant : Kind → KrType → Val p → Node p
  constant k t v = record { kind = k; op = no_op; id = pos 0; type = t; ind = true; value = v }

  abbrev pub identifier : Kind → ℤ → Node p
  identifier k n = record {
    kind = k;
    op = no_op;
    id = n;
    type = KrType.unknown;
    ind = false;
    value = zeroed;
  }

-- `kr_strdup`, and what else reads the text, of a value that has none
abbrev pub text : {S : Type 0} → Option S → Run S
text none = fault null_read
text (some s) = ok s

-- `kr_regex_compile` is NULL for a pattern that is none
abbrev pub compiled : {D S R T : Type 0} → Option R → Value D S R T
compiled none = zeroed
compiled (some r) = Value.regex r

module _ {p : Platform} where
  -- one round of the loop over the children, with what it does after it
  abbrev pub after_child :
      ℕ → Tree p → (Tree p → Status p → Parsed p) → Option (Tree p) × Status p → Parsed p
  after_child i tree later (none, s) = ok (fail (child_failed i))
  after_child i tree later (some t, s) = later (tree_append tree t) s

module _ {p : Platform} (cjson : CJson p) where
  open cjson use {Json, items, valuedouble, valuestring, hashset_make, regex_compile}

  abbrev pub get_int : Json → ℤ
  get_int json = p.to_int (valuedouble json)

  -- the cases of `kr_calc_parse_ele`
  unfoldable pub ele_node : Kind → Json → Run (Option (Node p))
  ele_node int json = ok (some (constant int KrType.int (Value.i (get_int json))))
  ele_node float json = ok (some (constant float KrType.double (Value.d (valuedouble json))))
  ele_node string json = do
    s ← text (valuestring json)
    ok (some (constant string KrType.string (Value.s s)))
  ele_node cid json = ok (some (identifier cid (get_int json)))
  ele_node fid json = ok (some (identifier fid (get_int json)))
  ele_node sid json = ok (some (identifier sid (get_int json)))
  ele_node did json = ok (some (identifier did (get_int json)))
  ele_node hid json = ok (some (identifier hid (get_int json)))
  ele_node set json = ok (some (identifier set (get_int json)))
  ele_node mint json = do
    s ← text (valuestring json)
    ok (some (constant mint KrType.pointer (Value.set (hashset_make KrType.int s))))
  ele_node mfloat json = do
    s ← text (valuestring json)
    ok (some (constant mfloat KrType.pointer (Value.set (hashset_make KrType.double s))))
  ele_node mstring json = do
    s ← text (valuestring json)
    ok (some (constant mstring KrType.pointer (Value.set (hashset_make KrType.string s))))
  ele_node regex json = do
    s ← text (valuestring json)
    ok (some (constant regex KrType.pointer (compiled (regex_compile s))))
  ele_node _ json = ok none

  abbrev pub ele_result : ℤ → Status p → Option (Node p) → Option (Tree p) × Status p
  ele_result kind s none = (none, record s { calc_errmsg = unknown_kind kind })
  ele_result kind s (some n) = (some (node n nil), s)

  abbrev pub ele_of : ℤ → Json → Status p → Option Kind → Parsed p
  ele_of kind json s none = ok (ele_result kind s none)
  ele_of kind json s (some k) = do n ← ele_node k json; ok (ele_result kind s n)

  -- `kr_calc_parse_ele`; the assertion fails for an element without a value
  unfoldable pub parse_ele : ℤ → Option Json → Status p → Parsed p
  parse_ele kind none s = fault null_read
  parse_ele kind (some json) s = ele_of kind json s (kind_of kind)

  module _ (parse_child : Json → Status p → Parsed p) where
    -- the loop over the children: `i` is the index of the next one
    unfoldable pub parse_children : ℕ → List Json → Tree p → Status p → Parsed p
    parse_children i [] tree s = ok (some tree, s)
    parse_children i (child ∷ rest) tree s =
        parse_child child s >>= after_child i tree (parse_children (i + 1) rest)

    abbrev pub with_children : Option Json → Tree p → Status p → Parsed p
    with_children none tree s = fault null_read
    with_children (some children) tree s = parse_children 0 (items children) tree s

    abbrev pub exp_of : ℤ → Json → Status p → Option Op → Parsed p
    exp_of op json s none = ok (fail (unknown_op op))
    exp_of op json s (some o) =
        with_children (cjson.get_object_item m_child json) (node (exp_node o) nil) s

    -- `kr_calc_parse_exp`
    unfoldable pub parse_exp : ℤ → Json → Status p → Parsed p
    parse_exp op json s = exp_of op json s (op_of op)

    abbrev pub as_element : Option Json → Json → Status p → Parsed p
    as_element none json s = ok (none, s)
    as_element (some kind) json s = parse_ele (get_int kind) (cjson.get_object_item m_value json) s

    -- the body of `_kr_calc_parse_json`, with the operation if there is one
    abbrev pub as_expression : Option Json → Json → Status p → Parsed p
    as_expression none json s = as_element (cjson.get_object_item m_kind json) json s
    as_expression (some op) json s = parse_exp (get_int op) json s

  -- `_kr_calc_parse_json`; the fuel is the depth to which it follows the value
  unfoldable pub parse_json : ℕ → Json → Status p → Parsed p
  parse_json zero json s = fault unfinished
  parse_json (suc fuel) json s =
      as_expression (parse_json fuel) (cjson.get_object_item m_op json) json s

  abbrev pub parsed_tree : Option (Tree p) × Status p → Option (Tree p) × Status p
  parsed_tree (none, s) = fail json_failed
  parsed_tree (some t, s) = (some t, s)

  abbrev pub parse_value : ℕ → p.Str → Option Json → Status p → Parsed p
  parse_value fuel calc_string none s = ok (fail (cjson_failed calc_string))
  parse_value fuel calc_string (some json) s = do r ← parse_json fuel json s; ok (parsed_tree r)

  -- `kr_calc_parse_json` of the text: the tree is NULL where it returns -1.
  unfoldable pub calc_parse_json : ℕ → p.Str → Status p → Parsed p
  calc_parse_json fuel calc_string s = parse_value fuel calc_string (cjson.parse calc_string) s
