-- ===== src/Calc/Eval.antt =====
-- The evaluator of krcalc/kr_calc_tree.c: external values and the switch on the kind of a node.
use krproject.Base.{Bool, true, false, Option, none, some, Run, ok, fault, if◌then◌else◌}
use krproject.Platform.{Platform, KrType, Value, Val}
use krproject.Calc.{
  Kind, rel, arith', logic, set, cid, fid, sid, did, hid, unsupported_type, type_unknown, Node,
  Tree, Calc, set_error, Visit, traverse,
}
use krproject.Calc.Check.{is_unknown}
use krproject.Calc.Outcome.{Exec, value, missing, error, crash, ◌>>=◌}
use krproject.Calc.Members.{as_int, as_l, as_s, as_d}
use krproject.Calc.Arithmetic.{eval_arith}
use krproject.Calc.Relation.{eval_rel}
use krproject.Calc.Logic.{eval_logic}

module _ (p : Platform) where
  -- the switch on the type of the node: `*val` in that type
  unfoldable pub fetch : KrType → Val p → Exec (Val p)
  fetch t v = elim t [
    | KrType.bool ↦ as_int v >>= (λ n. value (Value.b n))
    | KrType.int ↦ as_int v >>= (λ n. value (Value.i n))
    | KrType.long ↦ as_l v >>= (λ n. value (Value.l n))
    | KrType.double ↦ as_d p v >>= (λ x. value (Value.d x))
    | KrType.string ↦ as_s v >>= (λ a. value (Value.s a))
    | KrType.pointer ↦ value v
    | other ↦ error (unsupported_type other)
  ]

module _ {p : Platform} where
  module _ {C : Type 0} where
    -- The node is unset first. On success it has the value and is set; the node that comes in may
    -- have a new type.
    unfoldable pub settle : Exec (Val p) → Node p → Calc p C → Run (Node p × Calc p C × Bool)
    settle (value v) n k = ok (record n { ind = true; value = v }, k, true)
    settle missing n k = ok (record n { ind = false }, k, false)
    settle (error e) n k = ok (record n { ind = false }, set_error e k, false)
    settle (crash f) n k = fault f

    unfoldable pub store_value : Kind → Node p → Val p → Calc p C → Run (Node p × Calc p C × Bool)
    store_value set n v k = settle (value v) (record n { type = KrType.pointer }) k
    store_value _ n v k = settle (fetch p n.type v) n k

    -- A value that the callback gave: none leaves the node unset, and that is no failure.
    unfoldable pub store_extern :
        Node p → Option (Val p) → Calc p C → Run (Node p × Calc p C × Bool)
    store_extern n none k = ok (record n { ind = false }, k, true)
    store_extern n (some v) k = store_value n.kind n v k

    -- the type of the item, which is asked for only while it is unknown
    unfoldable pub known_type : Node p → Calc p C → KrType
    known_type n k = if is_unknown n.type then k.get_type_cb n.kind n.id k.calc_param else n.type

    -- `_kr_calc_tree_eval_extern`: the value is asked for each time.
    unfoldable pub eval_extern : Node p → Calc p C → Run (Node p × Calc p C × Bool)
    eval_extern n k =
        let typed : Node p = record n { type = known_type n k } in
        if is_unknown typed.type
        then settle (error (type_unknown n.kind n.id)) typed k
        else elim (k.get_value_cb n.kind n.id k.calc_param) [
          | fault f ↦ fault f
          | ok r ↦ store_extern typed r.0 (record k { calc_param = r.1 })
        ]

    -- the switch on the kind of the node
    unfoldable pub eval_kind : Kind → Visit p (Calc p C)
    eval_kind rel n children k = settle (eval_rel n children) n k
    eval_kind arith' n children k = settle (eval_arith n children) n k
    eval_kind logic n children k = settle (eval_logic n children) n k
    eval_kind set n children k = eval_extern n k
    eval_kind cid n children k = eval_extern n k
    eval_kind fid n children k = eval_extern n k
    eval_kind sid n children k = eval_extern n k
    eval_kind did n children k = eval_extern n k
    eval_kind hid n children k = eval_extern n k
    eval_kind _ n children k = ok (n, k, true)

    -- `_kr_calc_tree_eval`
    unfoldable pub eval_visit : Visit p (Calc p C)
    eval_visit n children k = eval_kind n.kind n children k

    -- `kr_calc_tree_eval`
    unfoldable pub tree_eval : Tree p → Calc p C → Run (Tree p × Calc p C × Bool)
    tree_eval t k = traverse none (some eval_visit) t k
