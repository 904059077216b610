-- ===== src/Calc/Json/Members.antt =====
-- The objects that krcalc/kr_calc_dumper_json.c writes, read by krcalc/kr_calc_parser_json.c.
use krproject.Base.{
  ℕ, suc, ◌≡◌, ◌≢◌, refl, ap, ◌∙◌, true, Option, none, some, [], ◌∷◌, ◌++◌, ◌==◌, if◌then◌else◌,
}
use krproject.Base.Int.{ℤ, pos, fits_int}
use krproject.Platform.{Platform}
use krproject.Calc.{
  Op, no_op, plus, sub, mut, div, mod', lt, le, gt, ge, eq, neq, bl, nbl, match, not', and, or,
  Kind, rel, arith', logic, int, float, string, mint, mfloat, mstring, regex, set, cid, fid, sid,
  did, hid, node, nil,
}
use krproject.Calc.Json.{
  CJson, Member, m_op, m_child, m_kind, m_value, op_code, kind_code, op_of, kind_of,
}
use krproject.Calc.Json.Parser.{
  Status, exp_node, ele_of, parse_ele, parse_children, parse_exp, parse_json, as_expression,
  get_int, exp_of, with_children,
}
use krproject.Calc.Json.Dumper.{number_of, element_of, expression_of}

abbrev pub member_code : Member → ℕ
member_code m_op = 0
member_code m_child = 1
member_code m_kind = 2
member_code m_value = 3

-- the first member of that name
abbrev pub first_of {ℓ} : {A : Type ℓ} → Option A → Option A → Option A
first_of none other = other
first_of (some x) other = some x

-- What the code relies on in cJSON: new members and elements come last, a number and a string are
-- what they were made from, and a double holds every int.
pub record Laws {p : Platform} (cjson : CJson p) : Type 0 where
  pub new_object : (m : Member) → cjson.get_object_item m cjson.create_object ≡ none
  pub added_member :
      (m n : Member) (j v : cjson.Json)
      → cjson.get_object_item m (cjson.add_item_to_object j n v)
        ≡ first_of
            (cjson.get_object_item m j)
            (if member_code m == member_code n then some v else none)
  pub new_array : cjson.items cjson.create_array ≡ []
  pub added_item :
      (a j : cjson.Json) → cjson.items (cjson.add_item_to_array a j) ≡ cjson.items a ++ j ∷ []
  pub number : (d : p.Double) → cjson.valuedouble (cjson.create_number d) ≡ d
  pub text : (s : p.Str) → cjson.valuestring (cjson.create_string s) ≡ some s
  pub exact : (n : ℤ) → fits_int n ≡ true → p.to_int (p.of_int n) ≡ n

kind_of-kind_code :
    (k : Kind) → (kind_of (pos (kind_code k)) ≡ some k) × (fits_int (pos (kind_code k)) ≡ true)
unfolding kind_of
kind_of-kind_code rel = (refl, refl)
kind_of-kind_code arith' = (refl, refl)
kind_of-kind_code logic = (refl, refl)
kind_of-kind_code int = (refl, refl)
kind_of-kind_code float = (refl, refl)
kind_of-kind_code string = (refl, refl)
kind_of-kind_code mint = (refl, refl)
kind_of-kind_code mfloat = (refl, refl)
kind_of-kind_code mstring = (refl, refl)
kind_of-kind_code regex = (refl, refl)
kind_of-kind_code set = (refl, refl)
kind_of-kind_code cid = (refl, refl)
kind_of-kind_code fid = (refl, refl)
kind_of-kind_code sid = (refl, refl)
kind_of-kind_code did = (refl, refl)
kind_of-kind_code hid = (refl, refl)

op_of-op_code :
    (o : Op) → o ≢ no_op → (op_of (pos (op_code o)) ≡ some o) × (fits_int (pos (op_code o)) ≡ true)
unfolding op_of
op_of-op_code no_op h = absurd (h refl)
op_of-op_code plus h = (refl, refl)
op_of-op_code sub h = (refl, refl)
op_of-op_code mut h = (refl, refl)
op_of-op_code div h = (refl, refl)
op_of-op_code mod' h = (refl, refl)
op_of-op_code lt h = (refl, refl)
op_of-op_code le h = (refl, refl)
op_of-op_code gt h = (refl, refl)
op_of-op_code ge h = (refl, refl)
op_of-op_code eq h = (refl, refl)
op_of-op_code neq h = (refl, refl)
op_of-op_code bl h = (refl, refl)
op_of-op_code nbl h = (refl, refl)
op_of-op_code match h = (refl, refl)
op_of-op_code not' h = (refl, refl)
op_of-op_code and h = (refl, refl)
op_of-op_code or h = (refl, refl)

module _ {p : Platform} {cjson : CJson p} (laws : Laws cjson) where
  element-member :
      (k : Kind) (v : cjson.Json)
      → (cjson.get_object_item m_op (element_of cjson k v) ≡ none)
        × (cjson.get_object_item m_kind (element_of cjson k v)
            ≡ some (number_of cjson (pos (kind_code k))))
        × (cjson.get_object_item m_value (element_of cjson k v) ≡ some v)
  element-member k v = (
    rw (laws.added_member, laws.added_member, laws.new_object) refl,
    rw (laws.added_member, laws.added_member, laws.new_object) refl,
    rw (laws.added_member, laws.added_member, laws.new_object) refl,
  )

  expression-member :
      (o : Op) (a : cjson.Json)
      → (cjson.get_object_item m_op (expression_of cjson o a)
          ≡ some (number_of cjson (pos (op_code o))))
        × (cjson.get_object_item m_child (expression_of cjson o a) ≡ some a)
  expression-member o a = (
    rw (laws.added_member, laws.added_member, laws.new_object) refl,
    rw (laws.added_member, laws.added_member, laws.new_object) refl,
  )

  pub get_int-number : (n : ℤ) → fits_int n ≡ true → get_int cjson (number_of cjson n) ≡ n
  get_int-number n h = ap p.to_int (laws.number (p.of_int n)) ∙ laws.exact n h

  pub parse-element :
      (fuel : ℕ) (k : Kind) (v : cjson.Json) (s : Status p)
      → parse_json cjson (suc fuel) (element_of cjson k v) s
        ≡ ele_of cjson (pos (kind_code k)) v s (some k)
  unfolding parse_json parse_ele
  parse-element fuel k v s =
      let m = element-member k v in
      let c = kind_of-kind_code k in
      rw (m.0, m.1, m.2, get_int-number (pos (kind_code k)) c.1, c.0) refl

  pub parse-expression :
      (fuel : ℕ) (o : Op) (a : cjson.Json) (s : Status p)
      → o ≢ no_op
      → parse_json cjson (suc fuel) (expression_of cjson o a) s
        ≡ parse_children cjson (parse_json cjson fuel) 0 (cjson.items a) (node (exp_node o) nil) s
  unfolding parse_json parse_exp
  parse-expression fuel o a s h =
      let m = expression-member o a in
      let c = op_of-op_code o h in
      let j = expression_of cjson o a in
      let child = parse_json cjson fuel in
      let tree = node (exp_node o) nil in
      ap (λ w. as_expression cjson child w j s) m.0
      ∙ ap (λ n. exp_of cjson child n j s (op_of n)) (get_int-number (pos (op_code o)) c.1)
      ∙ ap (exp_of cjson child (pos (op_code o)) j s) c.0
      ∙ ap (λ w. with_children cjson child w tree s) m.1
