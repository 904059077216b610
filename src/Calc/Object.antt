-- ===== src/Calc/Object.antt =====
-- The calculator objects of krcalc/kr_calc.c: a tree with the state that its evaluation needs.
use krproject.Base.{Bool, false, ◌&&◌, Run, ok, fault, foreign_member, if◌then◌else◌, ◌>>=◌}
use krproject.Platform.{Platform, KrType, type_eq, ValueInd, Value, Val}
use krproject.Calc.{Tree, root, Calc}
use krproject.Calc.Members.{is_true}
use krproject.Calc.Check.{tree_check}
use krproject.Calc.Eval.{tree_eval}

-- `T_KRCalc` with its `calc_tree`
pub record Calculator (p : Platform) (C : Type 0) : Type 0 where
  pub calc_tree : Tree p
  pub state : Calc p C

module _ {D S R T : Type 0} where
  -- the member `b` as a condition
  abbrev pub truth : Value D S R T → Run Bool
  truth (Value.b n) = ok (is_true n)
  truth (Value.i n) = ok (is_true n)
  truth Value.zeroed = ok false
  truth _ = fault foreign_member

module _ {p : Platform} {C : Type 0} where
  -- `kr_calc_eval`: the parameter is set first, and read back after.
  unfoldable pub calc_eval : Calculator p C → C → Run (Calculator p C × C × Bool)
  calc_eval krcalc param = do
    (t, k, good) ← tree_eval krcalc.calc_tree (record krcalc.state { calc_param = param })
    ok (record { calc_tree = t; state = k }, k.calc_param, good)

  -- `kr_calc_check`
  unfoldable pub calc_check : Calculator p C → Run (Calculator p C × Bool)
  calc_check krcalc = do
    (t, k, good) ← tree_check krcalc.calc_tree krcalc.state
    ok (record { calc_tree = t; state = k }, good)

  abbrev pub calc_type : Calculator p C → KrType
  calc_type krcalc = (root krcalc.calc_tree).type

  abbrev pub calc_ind : Calculator p C → ValueInd
  calc_ind krcalc = (root krcalc.calc_tree).ind

  abbrev pub calc_value : Calculator p C → Val p
  calc_value krcalc = (root krcalc.calc_tree).value

  -- the condition of `kr_rule_detect` and `kr_group_match`: set, of type bool, and true
  unfoldable pub holds : Calculator p C → Run Bool
  holds krcalc =
      if calc_ind krcalc && type_eq (calc_type krcalc) KrType.bool
      then truth (calc_value krcalc)
      else ok false
