-- ===== src/Tests/Calc.antt =====
-- The calculator on sample trees.
use krproject.Base.{ℕ, ◌≡◌, refl, Bool, true, false, none, some, List, [], ◌∷◌, Run, ok, is_some}
use krproject.Calc.Negation.{set_leaf, tree_eval-nbl}
use krproject.Calc.Json.Parser.{exp_node}
use krproject.Base.Int.{pos}
use krproject.Platform.{KrType, Value, Val}
use krproject.Calc.{rel, or, Tree, node, traverse, Node}
use krproject.Calc.Sound.Trees.{Ends}
use krproject.Calc.Sound.Whole.{IsWellFormed, tree_eval-IsWellFormed}
use krproject.Calc.Eval.{
  tree_eval, eval_visit, eval_kind, eval_extern, known_type, store_extern, store_value, settle,
  fetch,
}
use krproject.Calc.Logic.{eval_logic}
use krproject.Calc.Arithmetic.{eval_arith}
use krproject.Calc.{Calc}
use krproject.Calc.{
  nil, cons, arith', mod', and, CalcError, set_error, bl, nbl, nbl_types, traverse_children,
}
use krproject.Calc.Check.{tree_check}
use krproject.Calc.Check.Typing.{IsTyped, tree_check-IsTyped}
use krproject.Calc.Outcome.{value}
use krproject.Calc.Members.{truth_of}
use krproject.Calc.Relation.{child_truth, eval_rel}
use krproject.Calc.Truth.{Truths, Passed, decisive, meaning, eval_rel-meaning}
use krproject.Base.{Option, fault, bad_division, ◌⊎◌}
use krproject.Tests.Sample.{
  small, number_set, declared, calc, at_least_five, either, calc-Serves, either-IsWellFormed, plain,
  number,
}

tree_eval-IsWellFormed_example : Ends declared (IsWellFormed declared) (tree_eval either calc)
tree_eval-IsWellFormed_example =
    tree_eval-IsWellFormed declared either calc either-IsWellFormed calc-Serves

abbrev outcome : Run (Tree small × Calc small ℕ × Bool) → Option (Val small × Bool × Bool)
outcome (ok (node n cs, k, good)) = some (n.value, n.ind, good)
outcome (fault f) = none

run_at_least_five : outcome (tree_eval at_least_five calc) ≡ some (Value.b (pos 1), true, true)
unfolding tree_eval traverse eval_visit eval_kind eval_extern known_type store_extern store_value
    settle fetch eval_logic
run_at_least_five = refl

-- Item 8 has no value: the second comparison fails, and with it the whole tree.
run_either : outcome (tree_eval either calc) ≡ some (Value.zeroed, false, false)
unfolding tree_eval traverse eval_visit eval_kind eval_extern known_type store_extern store_value
    settle fetch eval_logic
run_either = refl

-- 5 % 0
run_mod :
    tree_eval
      (node
        (plain arith' mod' KrType.int)
        (cons (node (number (pos 5)) nil) (cons (node (number (pos 0)) nil) nil)))
      calc
    ≡ fault bad_division
unfolding tree_eval traverse eval_visit eval_kind settle eval_arith
run_mod = refl

tree_check-IsTyped_example :
    IsTyped either × (tree_check either calc ≡ ok (either, calc, true))
    ⊎ ((e : CalcError) × (¬ IsTyped either)
        × (tree_check either calc ≡ ok (either, set_error e calc, false)))
tree_check-IsTyped_example = tree_check-IsTyped either calc

abbrev truths : List (Node small)
truths = number (pos 3) ∷ number (pos 0) ∷ []

truths-Truths : Truths truths (true ∷ false ∷ [])
unfolding child_truth
truths-Truths = ((λ o. refl), ((λ o. refl), tt))

eval_rel-meaning_example :
    eval_rel (plain rel or KrType.bool) truths
    ≡ value (Value.b (truth_of (meaning or (true ∷ false ∷ []))))
eval_rel-meaning_example =
    eval_rel-meaning or (plain rel or KrType.bool) truths (true ∷ false ∷ []) tt refl truths-Truths

passed : Passed and (number (pos 3) ∷ [])
unfolding child_truth decisive
passed = (refl, tt)

stops : child_truth and (number (pos 0)) ≡ value (decisive and)
unfolding child_truth decisive
stops = refl

-- 5, alone
five : tree_eval (node (number (pos 5)) nil) calc ≡ ok (node (number (pos 5)) nil, calc, true)
unfolding tree_eval traverse traverse_children eval_visit eval_kind
five = refl

tree_eval-nbl_example :
    (tree_eval
        (node (exp_node bl) (cons (node (number (pos 5)) nil) (cons (set_leaf number_set) nil)))
        calc
      ≡ ok (
        node
            (record (exp_node bl) {
              ind = true;
              value =
                  Value.b (truth_of (is_some (small.table_lookup (3 ∷ 5 ∷ []) (Value.i (pos 5)))));
            })
            (cons (node (number (pos 5)) nil) (cons (set_leaf number_set) nil)),
        calc,
        true,
      ))
    × (tree_eval
          (node (exp_node nbl) (cons (node (number (pos 5)) nil) (cons (set_leaf number_set) nil)))
          calc
        ≡ ok (
          node (exp_node nbl) (cons (node (number (pos 5)) nil) (cons (set_leaf number_set) nil)),
          set_error (nbl_types KrType.int KrType.int) calc,
          false,
        ))
tree_eval-nbl_example =
    tree_eval-nbl number_set (node (number (pos 5)) nil) (number (pos 5)) nil calc calc (pos 5) refl
      five (refl, refl, refl)
