-- ===== src/Tests/Shape.antt =====
-- The failure and the frame of the evaluation on sample trees.
use krproject.Calc.Eval.{tree_eval}
use krproject.Calc.Shape.{SameShape, Yields, tree_eval-SameShape}
use krproject.Tests.Sample.{calc, either}

tree_eval-SameShape_example : Yields (λ u. SameShape u either) (tree_eval either calc)
tree_eval-SameShape_example = tree_eval-SameShape either calc
