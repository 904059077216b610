-- ===== src/Calc/Relation.antt =====
-- `_kr_calc_tree_eval_rel` of krcalc/kr_calc_tree.c: AND, OR and NOT.
use krproject.Base.{Bool, true, false, List, [], ◌∷◌, if◌then◌else◌}
use krproject.Platform.{Platform, KrType, Value, Val}
use krproject.Calc.{Op, not', and, or, not_valided, unsupported_op, Node}
use krproject.Calc.Outcome.{Exec, value, missing, error, ◌>>=◌}
use krproject.Calc.Members.{truth_of, is_true, as_int}

module _ {p : Platform} where
  -- Whether a child of a relation is true: -1 with no message if it is not set.
  unfoldable pub child_truth : Op → Node p → Exec Bool
  child_truth o child =
      if child.ind
      then elim child.type [
        | KrType.bool ↦ as_int child.value >>= (λ n. value (is_true n))
        | KrType.int ↦ as_int child.value >>= (λ n. value (is_true n))
        | other ↦ error (not_valided o other)
      ]
      else missing

  -- the loops of KR_CALCOP_AND, KR_CALCOP_OR and KR_CALCOP_NOT
  unfoldable pub eval_and : List (Node p) → Exec Bool
  eval_and [] = value true
  eval_and (child ∷ rest) =
      let later = eval_and rest in child_truth and child >>= (λ t. if t then later else value false)

  unfoldable pub eval_or : List (Node p) → Exec Bool
  eval_or [] = value false
  eval_or (child ∷ rest) =
      let later = eval_or rest in child_truth or child >>= (λ t. if t then value true else later)

  unfoldable pub eval_not : List (Node p) → Exec Bool
  eval_not [] = value true
  eval_not (child ∷ rest) =
      let later = eval_not rest in
      child_truth not' child >>= (λ t. if t then value false else later)

  -- `_kr_calc_tree_eval_rel`
  unfoldable pub eval_rel : Node p → List (Node p) → Exec (Val p)
  unfolding child_truth eval_and eval_or eval_not
  eval_rel n children =
      let done : Exec Bool → Exec (Val p) = λ m. m >>= (λ t. value (Value.b (truth_of t))) in
      elim n.op [
        | and ↦ done (eval_and children)
        | or ↦ done (eval_or children)
        | not' ↦ done (eval_not children)
        | other ↦ error (unsupported_op other)
      ]
