-- ===== src/Calc/Negation.antt =====
-- What krcalc/kr_calc_tree.c makes of rules with BL and with NBL.
use krproject.Base.{◌≡◌, refl, true, false, is_some, ok}
use krproject.Base.Int.{ℤ}
use krproject.Platform.{Platform, KrType, HashSet, Value}
use krproject.Calc.{
  bl, nbl, Node, Tree, Forest, node, nil, cons, mint, Calc, nbl_types, set_error, traverse,
  traverse_children,
}
use krproject.Calc.Members.{truth_of}
use krproject.Calc.Arithmetic.{with_pair}
use krproject.Calc.Logic.{promote, hashset_search, eval_bl, eval_nbl, logic_op, eval_logic}
use krproject.Calc.Eval.{settle, eval_kind, eval_visit, tree_eval}
use krproject.Calc.Json.Parser.{exp_node, constant}

-- the set as a constant of a rule
abbrev pub set_leaf : {p : Platform} → HashSet p.Table → Tree p
set_leaf h = node (constant mint KrType.pointer (Value.set h)) nil

module _ {p : Platform} {C : Type 0} (h : HashSet p.Table) where
  -- Take a rule as the JSON parser makes it, with BL or with NBL over any left side and a set of ints. Let
  -- the left side evaluate to an int. With BL the rule evaluates to whether the set has the int. With NBL
  -- its evaluation always fails, with the message that the types are not those for NBL, which names the
  -- same type twice: so it is not the negation of the other rule.
  pub tree_eval-nbl :
      (t : Tree p) (m : Node p) (cs : Forest p) (k k' : Calc p C) (i : ℤ)
      → h.type ≡ KrType.int
      → tree_eval t k ≡ ok (node m cs, k', true)
      → (m.type ≡ KrType.int) × (m.ind ≡ true) × (m.value ≡ Value.i i)
      → (tree_eval (node (exp_node bl) (cons t (cons (set_leaf h) nil))) k
          ≡ ok (
            node
                (record (exp_node bl) {
                  ind = true;
                  value = Value.b (truth_of (is_some (p.table_lookup h.set (Value.i i))));
                })
                (cons (node m cs) (cons (set_leaf h) nil)),
            k',
            true,
          ))
        × (tree_eval (node (exp_node nbl) (cons t (cons (set_leaf h) nil))) k
            ≡ ok (
              node (exp_node nbl) (cons (node m cs) (cons (set_leaf h) nil)),
              set_error (nbl_types KrType.int KrType.int) k',
              false,
            ))
  unfolding tree_eval traverse traverse_children eval_visit eval_kind settle eval_logic logic_op
      eval_bl eval_nbl hashset_search with_pair promote
  tree_eval-nbl t m cs k k' i typed run (mt, mi, mv) =
      (rw (run, mt, mi, mv, typed) refl, rw (run, mt, mi, mv, typed) refl)
