-- ===== src/Calc/Arithmetic.antt =====
-- `_kr_calc_tree_eval_arith` of krcalc/kr_calc_tree.c.
use krproject.Base.{◌+◌, ◌%◌, ◌&&◌, ◌||◌, List, ◌∷◌, null_read, bad_division, if◌then◌else◌}
use krproject.Base.Int.{ℤ, pos, negsuc, pos_part, neg_part, sub_ℕ, eqb_ℤ}
use krproject.Platform.{Platform, KrType, Value, Val}
use krproject.Calc.{
  Op, plus, sub, mut, div, mod', CalcError, unsupported_op, left_not_numeric, right_not_numeric,
  unsupported_type, Node,
}
use krproject.Calc.Outcome.{Exec, value, missing, error, crash, ◌>>=◌}
use krproject.Calc.Members.{as_int, as_l, as_d}

abbrev pub int_min : ℤ
int_min = negsuc (0x7fff_ffff)

-- `a % b` of two `int`s: the sign is that of `a`.
unfoldable pub c_rem : ℤ → ℤ → Exec ℤ
c_rem a b =
    if eqb_ℤ b (pos 0) || eqb_ℤ a int_min && eqb_ℤ b (negsuc 0)
    then crash bad_division
    else value
        (sub_ℕ (pos_part a % (pos_part b + neg_part b)) (neg_part a % (pos_part b + neg_part b)))

module _ (p : Platform) where
  unfoldable pub arithmetic : Op → p.Double → p.Double → Exec p.Double
  unfolding c_rem
  arithmetic o x y = elim o [
    | plus ↦ value (p.add x y)
    | sub ↦ value (p.sub x y)
    | mut ↦ value (p.mul x y)
    | div ↦ value (p.div x y)
    | mod' ↦ c_rem (p.to_int x) (p.to_int y) >>= (λ n. value (p.of_int n))
    | other ↦ error (unsupported_op other)
  ]

  -- the result in the type of the node
  unfoldable pub store_double : KrType → p.Double → Exec (Val p)
  store_double t x = elim t [
    | KrType.int ↦ value (Value.i (p.to_int x))
    | KrType.long ↦ value (Value.l (p.to_long x))
    | KrType.double ↦ value (Value.d x)
    | other ↦ error (unsupported_type other)
  ]

module _ {p : Platform} where
  -- an operand of an arithmetic operation as a double
  unfoldable pub numeric : (KrType → CalcError) → Node p → Exec p.Double
  numeric e child = elim child.type [
    | KrType.int ↦ as_int child.value >>= (λ n. value (p.of_int n))
    | KrType.long ↦ as_l child.value >>= (λ n. value (p.of_int n))
    | KrType.double ↦ as_d p child.value
    | other ↦ error (e other)
  ]

  -- `left` and `right` are the first two children, which must be there, and both set.
  unfoldable pub with_pair : List (Node p) → (Node p → Node p → Exec (Val p)) → Exec (Val p)
  with_pair (left ∷ right ∷ _) f = if left.ind && right.ind then f left right else missing
  with_pair _ f = crash null_read

  -- `_kr_calc_tree_eval_arith`
  unfoldable pub eval_arith : Node p → List (Node p) → Exec (Val p)
  unfolding with_pair numeric arithmetic store_double
  eval_arith n children = with_pair children λ left right. do
    x ← numeric left_not_numeric left
    y ← numeric right_not_numeric right
    z ← arithmetic p n.op x y
    store_double p n.type z
