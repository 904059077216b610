-- ===== src/Calc/Check.antt =====
-- The type checker of krcalc/kr_calc_tree.c. `node_check` gives the message of a failed check and
-- `none` where `_kr_calc_tree_check` returns 0.
pub mod Typing
use krproject.Base.{
  Bool, true, false, not, ◌&&◌, ◌||◌, Option, none, some, List, [], ◌∷◌, Run, ok, if◌then◌else◌,
}
use krproject.Platform.{Platform, KrType, type_eq}
use krproject.Calc.{
  Op, plus, sub, mut, div, mod', lt, le, gt, ge, eq, neq, bl, nbl, match, not', and, or, Kind, rel,
  arith', logic, mint, mfloat, mstring, set, regex, CalcError, arith_children, arith_types,
  not_arith, logic_children, logic_types, logic_operand, not_logic, rel_type, not_rel, Node, Tree,
  Calc, set_error, Visit, traverse,
}

abbrev pub is_unknown : KrType → Bool
is_unknown t = type_eq t KrType.unknown

abbrev pub is_string : KrType → Bool
is_string t = type_eq t KrType.string

abbrev pub is_numeric : KrType → Bool
is_numeric t = type_eq t KrType.int || type_eq t KrType.long || type_eq t KrType.double

abbrev pub is_truth_type : KrType → Bool
is_truth_type t = type_eq t KrType.bool || type_eq t KrType.int

-- the kinds whose value is a hash set
abbrev pub is_set_kind : Kind → Bool
is_set_kind mint = true
is_set_kind mfloat = true
is_set_kind mstring = true
is_set_kind set = true
is_set_kind _ = false

abbrev pub is_regex_kind : Kind → Bool
is_regex_kind regex = true
is_regex_kind _ = false

module _ {p : Platform} where
  check_arith_op : Op → Node p → Node p → Option CalcError
  check_arith_op o left right =
      let checked =
        if not (is_numeric left.type) || not (is_numeric right.type)
        then some (arith_types o left.type right.type)
        else none in
      elim o [
        | plus ↦ checked
        | sub ↦ checked
        | mut ↦ checked
        | div ↦ checked
        | mod' ↦ checked
        | other ↦ some (not_arith other)
      ]

  check_logic_op : Op → Node p → Node p → Option CalcError
  check_logic_op o left right =
      let compared =
        if is_string left.type && not (is_string right.type)
          || is_string right.type && not (is_string left.type)
        then some (logic_types o left.type right.type)
        else none in
      let belongs =
        if not (is_set_kind right.kind) || not (type_eq left.type right.type)
        then some (logic_operand o left.type right.type right.kind)
        else none in
      let matches =
        if not (is_string left.type) || not (is_regex_kind right.kind)
        then some (logic_operand o left.type right.type right.kind)
        else none in
      elim o [
        | lt ↦ compared
        | le ↦ compared
        | gt ↦ compared
        | ge ↦ compared
        | eq ↦ compared
        | neq ↦ compared
        | bl ↦ belongs
        | nbl ↦ belongs
        | match ↦ matches
        | other ↦ some (not_logic other)
      ]

  -- the loop over the children: one of unknown type ends it with success
  check_truths : Op → List (Node p) → Option CalcError
  check_truths o [] = none
  check_truths o (child ∷ rest) =
      if is_unknown child.type
      then none
      else (if not (is_truth_type child.type)
          then some (rel_type o child.type)
          else check_truths o rest)

  check_rel_op : Op → List (Node p) → Option CalcError
  check_rel_op o children =
      let checked = check_truths o children in
      elim o [ and ↦ checked | or ↦ checked | not' ↦ checked | other ↦ some (not_rel other) ]

  -- two children of known type are needed, and then `test` decides
  check_pair : CalcError → (Node p → Node p → Option CalcError) → List (Node p) → Option CalcError
  check_pair e test (left ∷ right ∷ []) =
      if is_unknown left.type || is_unknown right.type then none else test left right
  check_pair e test _ = some e

  pub node_check : Node p → List (Node p) → Option CalcError
  unfolding check_arith_op check_logic_op check_truths check_rel_op check_pair
  node_check n children = elim n.kind [
    | arith' ↦ check_pair (arith_children n.op) (check_arith_op n.op) children
    | logic ↦ check_pair (logic_children n.op) (check_logic_op n.op) children
    | rel ↦ check_rel_op n.op children
    | _ ↦ none
  ]

  module _ {C : Type 0} where
    -- `_kr_calc_tree_check`
    check_visit : Visit p (Calc p C)
    check_visit n children k = elim (node_check n children) [
      | none ↦ ok (n, k, true)
      | some e ↦ ok (n, set_error e k, false)
    ]

    -- `kr_calc_tree_check`
    pub tree_check : Tree p → Calc p C → Run (Tree p × Calc p C × Bool)
    unfolding check_visit traverse
    tree_check t k = traverse none (some check_visit) t k
