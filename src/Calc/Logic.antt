-- ===== src/Calc/Logic.antt =====
-- `_kr_calc_tree_eval_logic` of krcalc/kr_calc_tree.c, `kr_hashset_search` of krutils/kr_hashset.c
-- and `kr_regex_execute` of krutils/kr_regex.c.
use krproject.Base.{false, Bool, not, ◌&&◌, List, if◌then◌else◌, is_some}
use krproject.Base.Int.{ℤ, pos, ltb_ℤ, eqb_ℤ}
use krproject.Platform.{Platform, KrType, type_eq, HashSet, Value, Val}
use krproject.Calc.{
  Op, lt, le, gt, ge, eq, neq, bl, nbl, match, unsupported_op, op_types, bl_types, bl_kind,
  nbl_types, nbl_kind, match_types, Node,
}
use krproject.Calc.Check.{is_string, is_set_kind, is_regex_kind}
use krproject.Calc.Outcome.{Exec, value, error, ◌>>=◌}
use krproject.Calc.Members.{truth_of, is_true, as_int, as_l, as_s, as_set, as_regex, as_d}
use krproject.Calc.Arithmetic.{with_pair}

-- The answer of a comparison of strings, from the result of `strcmp`. For NEQ it is that result.
unfoldable pub string_test : Op → ℤ → ℤ
string_test lt n = truth_of (ltb_ℤ n (pos 0))
string_test le n = truth_of (not (ltb_ℤ (pos 0) n))
string_test gt n = truth_of (ltb_ℤ (pos 0) n)
string_test ge n = truth_of (not (ltb_ℤ n (pos 0)))
string_test eq n = truth_of (eqb_ℤ n (pos 0))
string_test neq n = n
string_test _ n = pos 0

module _ (p : Platform) where
  unfoldable pub number_test : Op → p.Double → p.Double → Bool
  number_test lt x y = p.lt x y
  number_test le x y = p.le x y
  number_test gt x y = p.lt y x
  number_test ge x y = p.le y x
  number_test eq x y = p.eq x y
  number_test neq x y = not (p.eq x y)
  number_test _ x y = false

  -- `kr_hashset_search`
  unfoldable pub hashset_search : HashSet p.Table → Val p → ℤ
  hashset_search h element = truth_of (is_some (p.table_lookup h.set element))

  -- `kr_regex_execute`
  unfoldable pub regex_execute : p.Regex → p.Str → ℤ
  regex_execute r a = truth_of (eqb_ℤ (p.regexec r a) (pos 0))

module _ {p : Platform} where
  -- an operand of a comparison as a double; 0.0 if it is no number
  unfoldable pub promote : Node p → Exec p.Double
  promote child = elim child.type [
    | KrType.bool ↦ as_int child.value >>= (λ n. value (p.of_int n))
    | KrType.int ↦ as_int child.value >>= (λ n. value (p.of_int n))
    | KrType.long ↦ as_l child.value >>= (λ n. value (p.of_int n))
    | KrType.double ↦ as_d p child.value
    | _ ↦ value p.zero_double
  ]

  -- KR_CALCOP_LT to KR_CALCOP_NEQ
  unfoldable pub comparison : Op → Node p → Node p → p.Double → p.Double → Exec ℤ
  unfolding string_test number_test
  comparison o left right x y =
      if is_string left.type && is_string right.type
      then (do a ← as_s left.value; b ← as_s right.value; value (string_test o (p.strcmp a b)))
      else (if not (is_string left.type) && not (is_string right.type)
          then value (truth_of (number_test p o x y))
          else error (op_types o left.type right.type))

  -- KR_CALCOP_BL. The element is looked up by its string or by the address of the union.
  unfoldable pub eval_bl : Node p → Node p → Exec ℤ
  eval_bl left right =
      if is_set_kind right.kind
      then (do
        h ← as_set right.value
        if is_string left.type && is_string h.type
            then as_s left.value >>= (λ a. value (hashset_search p h (Value.s a)))
            else (if type_eq left.type h.type
                then value (hashset_search p h left.value)
                else error (bl_types left.type h.type)))
      else error (bl_kind right.kind)

  -- KR_CALCOP_NBL. Its second test is on the type of the right node, not of the set.
  unfoldable pub eval_nbl : Node p → Node p → Exec ℤ
  eval_nbl left right =
      if is_set_kind right.kind
      then (do
        h ← as_set right.value
        if is_string left.type && is_string h.type
            then as_s left.value
              >>= (λ a. value (truth_of (not (is_true (hashset_search p h (Value.s a))))))
            else (if type_eq left.type right.type
                then value (truth_of (not (is_true (hashset_search p h left.value))))
                else error (nbl_types left.type h.type)))
      else error (nbl_kind right.kind)

  unfoldable pub eval_match : Node p → Node p → Exec ℤ
  eval_match left right =
      if is_string left.type && is_regex_kind right.kind
      then (do r ← as_regex right.value; a ← as_s left.value; value (regex_execute p r a))
      else error (match_types left.type right.kind)

  -- the switch on the operation in `_kr_calc_tree_eval_logic`
  unfoldable pub logic_op : Op → Node p → Node p → p.Double → p.Double → Exec ℤ
  unfolding comparison hashset_search eval_bl eval_nbl regex_execute eval_match
  logic_op o left right x y = elim o [
    | lt ↦ comparison lt left right x y
    | le ↦ comparison le left right x y
    | gt ↦ comparison gt left right x y
    | ge ↦ comparison ge left right x y
    | eq ↦ comparison eq left right x y
    | neq ↦ comparison neq left right x y
    | bl ↦ eval_bl left right
    | nbl ↦ eval_nbl left right
    | match ↦ eval_match left right
    | other ↦ error (unsupported_op other)
  ]

  -- `_kr_calc_tree_eval_logic`
  unfoldable pub eval_logic : Node p → List (Node p) → Exec (Val p)
  unfolding with_pair promote logic_op
  eval_logic n children = with_pair children λ left right. do
    x ← promote left
    y ← promote right
    t ← logic_op n.op left right x y
    value (Value.b t)
