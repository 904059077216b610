-- ===== src/Calc/Traverse.antt =====
-- The order in which `kr_calc_tree_traverse` visits the nodes, and visitors that only read.
use krproject.Base.{◌≡◌, refl, true, none, some, List, [], ◌∷◌, ◌++◌, ok}
use mathlib.Core.List.{append-nil, append_assoc}
use krproject.Platform.{Platform}
use krproject.Calc.{Node, Tree, node, Forest, nil, cons, Visit, traverse, traverse_children}

module _ {p : Platform} where
  mutual
    -- the nodes in postorder
    pub postorder : Tree p → List (Node p)
    postorder (node n cs) = postorder_forest cs ++ (n ∷ [])

    pub postorder_forest : Forest p → List (Node p)
    postorder_forest nil = []
    postorder_forest (cons t ts) = postorder t ++ postorder_forest ts

  -- A visitor that writes down what it sees.
  abbrev pub recorder : Visit p (List (Node p))
  recorder n ns seen = ok (n, seen ++ (n ∷ []), true)

  mutual
    unfolding traverse postorder

    record_tree :
        (t : Tree p) (seen : List (Node p))
        → traverse none (some recorder) t seen ≡ ok (t, seen ++ postorder t, true)
    record_tree (node n cs) seen = rw (record_forest cs seen) (rw append_assoc refl)

    record_forest :
        (ts : Forest p) (seen : List (Node p))
        → traverse_children none (some recorder) ts seen
          ≡ ok (ts, seen ++ postorder_forest ts, true)
    record_forest nil seen = rw append-nil refl
    record_forest (cons t ts) seen =
        rw (record_tree t seen) (rw (record_forest ts (seen ++ postorder t)) (rw append_assoc refl))

  -- The post-procedure sees every node exactly once, children before their parent and from left
  -- to right, and a visitor that only records changes nothing else.
  traverse-postorder : (t : Tree p) → traverse none (some recorder) t [] ≡ ok (t, postorder t, true)
  traverse-postorder t = record_tree t []
