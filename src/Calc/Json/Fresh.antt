-- ===== src/Calc/Json/Fresh.antt =====
-- Trees as krcalc/kr_calc_parser_json.c makes them.
use krproject.Base.{ℕ, suc, ◌≡◌, refl, ap, leb, if◌then◌else◌}
use krproject.Platform.{Platform, KrType}
use krproject.Calc.{
  Kind, rel, arith', logic, int, float, string, mint, mfloat, mstring, regex, Node, Tree, Forest,
  node, nil, cons, append_last, tree_append,
}
use krproject.Calc.Json.Parser.{exp_node, constant, identifier}

module _ {p : Platform} where
  -- A node as the parser makes it: with its constant, or unset.
  abbrev pub fresh_tree : Kind → Node p → Forest p → Tree p
  fresh_tree rel n cs = node (exp_node n.op) cs
  fresh_tree arith' n cs = node (exp_node n.op) cs
  fresh_tree logic n cs = node (exp_node n.op) cs
  fresh_tree int n cs = node (constant int KrType.int n.value) nil
  fresh_tree float n cs = node (constant float KrType.double n.value) nil
  fresh_tree string n cs = node (constant string KrType.string n.value) nil
  fresh_tree mint n cs = node (constant mint KrType.pointer n.value) nil
  fresh_tree mfloat n cs = node (constant mfloat KrType.pointer n.value) nil
  fresh_tree mstring n cs = node (constant mstring KrType.pointer n.value) nil
  fresh_tree regex n cs = node (constant regex KrType.pointer n.value) nil
  fresh_tree k n cs = node (identifier k n.id) nil

  unfoldable mutual
    pub fresh : Tree p → Tree p
    fresh (node n cs) = fresh_tree n.kind n (all_fresh cs)

    pub all_fresh : Forest p → Forest p
    all_fresh nil = nil
    all_fresh (cons t ts) = cons (fresh t) (all_fresh ts)

  -- the nodes on the longest way down
  unfoldable mutual
    pub depth : Tree p → ℕ
    depth (node n cs) = suc (depth_children cs)

    pub depth_children : Forest p → ℕ
    depth_children nil = 0
    depth_children (cons t ts) =
        if leb (depth t) (depth_children ts) then depth_children ts else depth t

  unfoldable pub join : Forest p → Forest p → Forest p
  join nil us = us
  join (cons t ts) us = cons t (join ts us)

  pub join-nil : (ts : Forest p) → join ts nil ≡ ts
  unfolding join
  join-nil nil = refl
  join-nil (cons t ts) = ap (cons t) (join-nil ts)

  pub join_assoc : (ts us vs : Forest p) → join (join ts us) vs ≡ join ts (join us vs)
  unfolding join
  join_assoc nil us vs = refl
  join_assoc (cons t ts) us vs = ap (cons t) (join_assoc ts us vs)

  append_last-join : (ts : Forest p) (t : Tree p) → append_last ts t ≡ join ts (cons t nil)
  unfolding append_last join
  append_last-join nil t = refl
  append_last-join (cons u us) t = ap (cons u) (append_last-join us t)

  pub tree_append-join :
      (n : Node p) (ts : Forest p) (t : Tree p)
      → tree_append (node n ts) t ≡ node n (join ts (cons t nil))
  unfolding tree_append
  tree_append-join n ts t = ap (node n) (append_last-join ts t)
