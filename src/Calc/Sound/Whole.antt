-- ===== src/Calc/Sound/Whole.antt =====
-- The evaluation of a whole tree by `kr_calc_tree_eval` of krcalc/kr_calc_tree.c.
use krproject.Base.{
  ◌≡◌, refl, Bool, true, false, suc, none, some, List, Run, ok, fault, bad_division, arith, length,
  ◌>>=◌, ap, if◌then◌else◌,
}
use krproject.Base.Int.{ℤ}
use krproject.Platform.{Platform, KrType}
use krproject.Calc.{
  Kind, rel, arith', logic, set, cid, fid, sid, did, hid, Node, Tree, node, Forest, nil, cons, root,
  roots, Calc, traverse, traverse_children,
}
use krproject.Calc.Arithmetic.{eval_arith}
use krproject.Calc.Relation.{eval_rel}
use krproject.Calc.Logic.{eval_logic}
use krproject.Calc.Eval.{eval_kind, eval_visit, tree_eval}
use krproject.Calc.Sound.{fits, suits, TypeOk, ArityOk, count, NodeOk, Serves, Safe}
use krproject.Calc.Sound.Nodes.{NodesOk, eval_rel-Safe, eval_arith-Safe, eval_logic-Safe}
use krproject.Calc.Sound.Trees.{Visited, Ends, settle-suited, eval_item-Ends, eval_set-Ends}
use mathlib.Core.Path.{subst, sym}

module _ {p : Platform} (declared : Kind → ℤ → KrType) where
  unfoldable mutual
    -- every node holds what its kind and type promise, and binary operations have two operands
    pub IsWellFormed : Tree p → Type 0
    IsWellFormed (node n cs) = NodeOk declared n × ArityOk n.kind (count cs) × AllWellFormed cs

    pub AllWellFormed : Forest p → Type 0
    AllWellFormed nil = Unit
    AllWellFormed (cons t ts) = IsWellFormed t × AllWellFormed ts

  pub root-Ok : (t : Tree p) → IsWellFormed t → NodeOk declared (root t)
  unfolding IsWellFormed
  root-Ok (node n cs) h = h.0

  roots-Ok : (ts : Forest p) → AllWellFormed ts → NodesOk declared (roots ts)
  unfolding IsWellFormed AllWellFormed
  roots-Ok nil h = tt
  roots-Ok (cons (node n cs) ts) h = (h.0.0, roots-Ok ts h.1)

  length-roots : (ts : Forest p) → length (roots ts) ≡ count ts
  length-roots nil = refl
  length-roots (cons t ts) = omega (arith, length-roots ts)

  -- what a visited forest is
  abbrev Walked : Forest p → Forest p → Type 0
  Walked ts ts' = AllWellFormed ts' × (count ts' ≡ count ts)

  module _ {C : Type 0} where
    eval_kind-Ends :
        (a : Kind) (n : Node p) (ns : List (Node p)) (k : Calc p C)
        → n.kind ≡ a
        → NodeOk declared n
        → NodesOk declared ns
        → ArityOk a (length ns)
        → Serves declared k
        → Ends declared (Visited declared n.kind) (eval_kind a n ns k)
    unfolding eval_kind
    eval_kind-Ends rel n ns k e h hs two s =
        let typed : n.type ≡ KrType.bool = subst (λ a. TypeOk declared a n.id n.type) e h.typed in
        settle-suited declared (eval_rel n ns) n k
          (subst (λ t. Safe (λ v. fits t v ≡ true) (eval_rel n ns)) (sym typed)
            (eval_rel-Safe declared n.op n ns refl hs))
          (λ v. subst (λ a. suits a v ≡ true) (sym e) refl) h.typed s
    eval_kind-Ends logic n ns k e h hs two s =
        let typed : n.type ≡ KrType.bool = subst (λ a. TypeOk declared a n.id n.type) e h.typed in
        settle-suited declared (eval_logic n ns) n k
          (subst (λ t. Safe (λ v. fits t v ≡ true) (eval_logic n ns)) (sym typed)
            (eval_logic-Safe declared n ns hs two))
          (λ v. subst (λ a. suits a v ≡ true) (sym e) refl) h.typed s
    eval_kind-Ends arith' n ns k e h hs two s =
        settle-suited declared (eval_arith n ns) n k (eval_arith-Safe declared n ns hs two)
          (λ v. subst (λ a. suits a v ≡ true) (sym e) refl) h.typed s
    eval_kind-Ends set n ns k e h hs two s = eval_set-Ends declared n k s e
    eval_kind-Ends cid n ns k e h hs two s = eval_item-Ends declared n k s cid tt e h
    eval_kind-Ends fid n ns k e h hs two s = eval_item-Ends declared n k s fid tt e h
    eval_kind-Ends sid n ns k e h hs two s = eval_item-Ends declared n k s sid tt e h
    eval_kind-Ends did n ns k e h hs two s = eval_item-Ends declared n k s did tt e h
    eval_kind-Ends hid n ns k e h hs two s = eval_item-Ends declared n k s hid tt e h
    eval_kind-Ends _ n ns k e h hs two s = ((h, refl), s)

    Ends-bind :
        {A B : Type 0} (P : A → Type 0) (Q : B → Type 0) (m : Run (A × Calc p C × Bool))
        (f : A × Calc p C × Bool → Run (B × Calc p C × Bool))
        → Ends declared P m
        → ((r : A × Calc p C × Bool) → P r.0 → Serves declared r.1 → Ends declared Q (f r))
        → Ends declared Q (m >>= f)
    Ends-bind P Q (ok r) f h next = next r h.0 h.1
    Ends-bind P Q (fault bad_division) f h next = tt
    Ends-bind P Q (fault _) f h next = absurd h

    Ends-if :
        {A : Type 0} (P : A → Type 0) (b : Bool) (m m' : Run (A × Calc p C × Bool))
        → Ends declared P m
        → Ends declared P m'
        → Ends declared P (if b then m else m')
    Ends-if P true m m' h h' = h
    Ends-if P false m m' h h' = h'

    -- the step after the children
    walked :
        (n : Node p) (cs cs' : Forest p) (k : Calc p C)
        → NodeOk declared n
        → ArityOk n.kind (count cs)
        → Walked cs cs'
        → Serves declared k
        → Ends declared IsWellFormed
            (eval_visit n (roots cs') k >>= (λ r. ok (node r.0 cs', r.1, r.2)))
    unfolding IsWellFormed eval_visit
    walked n cs cs' k h two hs s =
        Ends-bind (Visited declared n.kind) IsWellFormed (eval_kind n.kind n (roots cs') k) _
          (eval_kind-Ends n.kind n (roots cs') k refl h (roots-Ok cs' hs.0)
            (rw (length-roots cs', hs.1) two) s)
          (λ r v s'. ((v.0, rw (v.1, hs.1) two, hs.0), s'))

    mutual
      unfolding traverse traverse_children IsWellFormed AllWellFormed eval_visit

      walk_tree :
          (t : Tree p) (k : Calc p C)
          → IsWellFormed t
          → Serves declared k
          → Ends declared IsWellFormed (traverse none (some eval_visit) t k)
      walk_tree (node n cs) k h s =
          Ends-bind (Walked cs) IsWellFormed (traverse_children none (some eval_visit) cs k) _
            (walk_forest cs k h.2 s)
            λ r hs s'.
              Ends-if _ r.2 _ _ (walked n cs r.0 r.1 h.0 h.1 hs s') ((h.0, rw hs.1 h.1, hs.0), s')

      walk_forest :
          (ts : Forest p) (k : Calc p C)
          → AllWellFormed ts
          → Serves declared k
          → Ends declared (Walked ts) (traverse_children none (some eval_visit) ts k)
      walk_forest nil k h s = ((tt, refl), s)
      walk_forest (cons t ts) k h s =
          Ends-bind IsWellFormed (Walked (cons t ts)) (traverse none (some eval_visit) t k) _
            (walk_tree t k h.0 s)
            λ r w s'.
              Ends-if _ r.2 _ _
                (Ends-bind (Walked ts) (Walked (cons t ts))
                  (traverse_children none (some eval_visit) ts r.1) _ (walk_forest ts r.1 h.1 s')
                  (λ q hs s₂. (((w, hs.0), ap suc hs.1), s₂)))
                (((w, h.1), refl), s')

    -- Evaluating a well-formed tree with callbacks that serve its items always comes to an end: the
    -- run gives a well-formed tree and callbacks that still serve, or it stops at a remainder that
    -- C leaves undefined (by zero, or of the least int by -1). It never reads a null pointer, a
    -- missing operand or a foreign member of the value union.
    pub tree_eval-IsWellFormed :
        (t : Tree p) (k : Calc p C)
        → IsWellFormed t
        → Serves declared k
        → Ends declared IsWellFormed (tree_eval t k)
    unfolding tree_eval
    tree_eval-IsWellFormed t k h s = walk_tree t k h s
