-- ===== src/Calc/Shape.antt =====
-- What kr_calc_tree_eval of krcalc/kr_calc_tree.c leaves as it is, and how it fails on an operand that
-- is not set.
use krproject.Base.{
  ◌≡◌, refl, inl, inr, Bool, true, false, ◌&&◌, none, some, List, ◌∷◌, Run, ok, fault, ◌>>=◌,
  if◌then◌else◌, Option, Bool-cases,
}
use krproject.Base.Int.{ℤ}
use krproject.Platform.{Platform, Val, KrType}
use krproject.Calc.{
  Op, Kind, rel, arith', logic, set, cid, fid, sid, did, hid, Node, Tree, node, Forest, nil, cons,
  roots, Calc, traverse, traverse_children,
}
use krproject.Calc.Check.{is_unknown}
use krproject.Calc.Outcome.{Exec, value, missing, error, crash}
use krproject.Calc.Arithmetic.{with_pair, eval_arith}
use krproject.Calc.Relation.{eval_rel}
use krproject.Calc.Logic.{eval_logic}
use krproject.Calc.Eval.{
  fetch, settle, store_value, store_extern, known_type, eval_extern, eval_kind, eval_visit,
  tree_eval,
}

-- the kinds that need two operands
abbrev pub IsBinary : Kind → Type 0
IsBinary arith' = Unit
IsBinary logic = Unit
IsBinary _ = ⊥

module _ {p : Platform} {C : Type 0} where
  missing_kind :
      (a : Kind) (n l r : Node p) (ns : List (Node p)) (k : Calc p C)
      → IsBinary a
      → (l.ind && r.ind) ≡ false
      → eval_kind a n (l ∷ r ∷ ns) k ≡ ok (record n { ind = false }, k, false)
  unfolding eval_kind eval_arith eval_logic with_pair settle
  missing_kind arith' n l r ns k b h = rw h refl
  missing_kind logic n l r ns k b h = rw h refl
  missing_kind _ n l r ns k b h = absurd b

  -- An arithmetic or logic node with an operand that is not set fails: the node is unset, and the
  -- calculator is as before, with no status and no message for the failure.
  eval_visit-missing :
      (n l r : Node p) (ns : List (Node p)) (k : Calc p C)
      → IsBinary n.kind
      → (l.ind && r.ind) ≡ false
      → eval_visit n (l ∷ r ∷ ns) k ≡ ok (record n { ind = false }, k, false)
  unfolding eval_visit
  eval_visit-missing n l r ns k b h = missing_kind n.kind n l r ns k b h

module _ {p : Platform} where
  -- what a node is, without what evaluation gives it
  abbrev pub label : Node p → Kind × Op × ℤ
  label n = (n.kind, n.op, n.id)

  abbrev Kept : Node p → Node p → Type 0
  Kept n m = label m ≡ label n

  mutual
    -- two trees that differ only in the types and the values of their nodes
    pub SameShape : Tree p → Tree p → Type 0
    SameShape (node n cs) (node m ds) = (label n ≡ label m) × SameShapes cs ds

    pub SameShapes : Forest p → Forest p → Type 0
    SameShapes nil nil = Unit
    SameShapes (cons t ts) (cons u us) = SameShape t u × SameShapes ts us
    SameShapes _ _ = ⊥

  mutual
    unfolding SameShape

    shape_refl : (t : Tree p) → SameShape t t
    shape_refl (node n cs) = (refl, shapes_refl cs)

    shapes_refl : (ts : Forest p) → SameShapes ts ts
    shapes_refl nil = tt
    shapes_refl (cons t ts) = (shape_refl t, shapes_refl ts)

module _ {p : Platform} {C : Type 0} where
  -- the result of a run, if there is one, has the property
  abbrev pub Yields : {A : Type 0} → (A → Type 0) → Run (A × Calc p C × Bool) → Type 0
  Yields P (ok r) = P r.0
  Yields P (fault f) = Unit

  settle-Kept : (m : Exec (Val p)) (n : Node p) (k : Calc p C) → Yields (Kept n) (settle m n k)
  unfolding settle
  settle-Kept (value v) n k = refl
  settle-Kept missing n k = refl
  settle-Kept (error e) n k = refl
  settle-Kept (crash f) n k = tt

  store_value-Kept :
      (a : Kind) (n : Node p) (v : Val p) (k : Calc p C) → Yields (Kept n) (store_value a n v k)
  unfolding store_value
  store_value-Kept set n v k = settle-Kept (value v) (record n { type = KrType.pointer }) k
  store_value-Kept _ n v k = settle-Kept (fetch p n.type v) n k

  store_extern-Kept :
      (n : Node p) (o : Option (Val p)) (k : Calc p C) → Yields (Kept n) (store_extern n o k)
  unfolding store_extern
  store_extern-Kept n none k = refl
  store_extern-Kept n (some v) k = store_value-Kept n.kind n v k

  answer-Kept :
      (n : Node p) (k : Calc p C) (run : Run (Option (Val p) × C))
      → Yields (Kept n) (elim run [
        | fault f ↦ fault f
        | ok r ↦ store_extern n r.0 (record k { calc_param = r.1 })
      ])
  answer-Kept n k (fault f) = tt
  answer-Kept n k (ok r) = store_extern-Kept n r.0 (record k { calc_param = r.1 })

  eval_extern-Kept : (n : Node p) (k : Calc p C) → Yields (Kept n) (eval_extern n k)
  unfolding eval_extern
  eval_extern-Kept n k = elim (Bool-cases (is_unknown (known_type n k))) [
    | inl e ↦ rw e (settle-Kept (error _) (record n { type = known_type n k }) k)
    | inr e ↦ rw e (
        answer-Kept (record n { type = known_type n k }) k
          (k.get_value_cb n.kind n.id k.calc_param))
  ]

  eval_kind-Kept :
      (a : Kind) (n : Node p) (ns : List (Node p)) (k : Calc p C)
      → Yields (Kept n) (eval_kind a n ns k)
  unfolding eval_kind
  eval_kind-Kept rel n ns k = settle-Kept (eval_rel n ns) n k
  eval_kind-Kept arith' n ns k = settle-Kept (eval_arith n ns) n k
  eval_kind-Kept logic n ns k = settle-Kept (eval_logic n ns) n k
  eval_kind-Kept set n ns k = eval_extern-Kept n k
  eval_kind-Kept cid n ns k = eval_extern-Kept n k
  eval_kind-Kept fid n ns k = eval_extern-Kept n k
  eval_kind-Kept sid n ns k = eval_extern-Kept n k
  eval_kind-Kept did n ns k = eval_extern-Kept n k
  eval_kind-Kept hid n ns k = eval_extern-Kept n k
  eval_kind-Kept _ n ns k = refl

  Yields-bind :
      {A B : Type 0} (P : A → Type 0) (Q : B → Type 0) (m : Run (A × Calc p C × Bool))
      (f : A × Calc p C × Bool → Run (B × Calc p C × Bool))
      → Yields P m
      → ((r : A × Calc p C × Bool) → P r.0 → Yields Q (f r))
      → Yields Q (m >>= f)
  Yields-bind P Q (ok r) f h next = next r h
  Yields-bind P Q (fault e) f h next = tt

  Yields-if :
      {A : Type 0} (P : A → Type 0) (b : Bool) (m m' : Run (A × Calc p C × Bool))
      → Yields P m
      → Yields P m'
      → Yields P (if b then m else m')
  Yields-if P true m m' h h' = h
  Yields-if P false m m' h h' = h'

  mutual
    unfolding traverse traverse_children SameShape eval_visit

    keep_tree :
        (t : Tree p) (k : Calc p C)
        → Yields (λ u. SameShape u t) (traverse none (some eval_visit) t k)
    keep_tree (node n cs) k =
        Yields-bind (λ ds. SameShapes ds cs) (λ u. SameShape u (node n cs))
          (traverse_children none (some eval_visit) cs k) _ (keep_forest cs k)
          λ r hs.
            Yields-if _ r.2 _ _
              (Yields-bind (Kept n) (λ u. SameShape u (node n cs))
                (eval_kind n.kind n (roots r.0) r.1) _ (eval_kind-Kept n.kind n (roots r.0) r.1)
                (λ q e. (e, hs)))
              (refl, hs)

    keep_forest :
        (ts : Forest p) (k : Calc p C)
        → Yields (λ us. SameShapes us ts) (traverse_children none (some eval_visit) ts k)
    keep_forest nil k = tt
    keep_forest (cons t ts) k =
        Yields-bind (λ u. SameShape u t) (λ us. SameShapes us (cons t ts))
          (traverse none (some eval_visit) t k) _ (keep_tree t k)
          λ r h.
            Yields-if _ r.2 _ _
              (Yields-bind (λ us. SameShapes us ts) (λ us. SameShapes us (cons t ts))
                (traverse_children none (some eval_visit) ts r.1) _ (keep_forest ts r.1)
                (λ q hs. (h, hs)))
              (h, shapes_refl ts)

  -- Whatever tree is evaluated, with whatever callbacks and whether it succeeds or fails, the tree
  -- that results has the same nodes at the same places, with their kinds, operations and identifiers:
  -- only types, indicators and values change.
  pub tree_eval-SameShape :
      (t : Tree p) (k : Calc p C) → Yields (λ u. SameShape u t) (tree_eval t k)
  unfolding tree_eval
  tree_eval-SameShape t k = keep_tree t k
