-- ===== src/Calc.antt =====
-- krcalc/kr_calc.h, kr_calc_tree.h and the tree operations of kr_calc_tree.c: the syntax tree of a
-- rule and the traversal that type checks and evaluates it.
pub mod Traverse
pub mod Check
pub mod Outcome
pub mod Members
pub mod Relation
pub mod Truth
pub mod Arithmetic
pub mod Logic
pub mod Comparison
pub mod Negation
pub mod Eval
pub mod Shape
pub mod Object
pub mod Flex
pub mod Json
pub mod Sound
use krproject.Base.{
  Bool, true, false, Option, none, some, List, [], ◌∷◌, Run, ok, ◌>>=◌, if◌then◌else◌,
}
use krproject.Base.Int.{ℤ, pos, negsuc}
use krproject.Platform.{Platform, KrType, ValueInd, Val, zeroed}

-- `E_KRCalcOp`; `no_op` is the 0 of a node that has no operation.
pub data Op : Type 0 where
  no_op plus sub mut div mod' lt le gt ge eq neq bl nbl match not' and or : Op

-- `E_KRCalcKind`
pub data Kind : Type 0 where
  rel arith' logic int float string mint mfloat mstring regex set cid fid sid did hid : Kind

-- What is printed into `calc_errmsg`: the format, with what it is given.
pub data CalcError : Type 0 where
  no_error : CalcError
  arith_children : Op → CalcError
  arith_types : Op → KrType → KrType → CalcError
  not_arith : Op → CalcError
  logic_children : Op → CalcError
  logic_types : Op → KrType → KrType → CalcError
  logic_operand : Op → KrType → KrType → Kind → CalcError
  not_logic : Op → CalcError
  rel_type : Op → KrType → CalcError
  not_rel : Op → CalcError
  not_valided : Op → KrType → CalcError
  unsupported_op : Op → CalcError
  left_not_numeric : KrType → CalcError
  right_not_numeric : KrType → CalcError
  unsupported_type : KrType → CalcError
  op_types : Op → KrType → KrType → CalcError
  bl_types : KrType → KrType → CalcError
  bl_kind : Kind → CalcError
  nbl_types : KrType → KrType → CalcError
  nbl_kind : Kind → CalcError
  match_types : KrType → Kind → CalcError
  type_unknown : Kind → ℤ → CalcError

-- `struct _kr_calc_tree_t` without its children
pub record Node (p : Platform) : Type 0 where
  pub kind : Kind
  pub op : Op
  pub id : ℤ
  pub type : KrType
  pub ind : ValueInd
  pub value : Val p

mutual
  pub data Tree (p : Platform) : Type 0 where
    node : Node p → Forest p → Tree p

  pub data Forest (p : Platform) : Type 0 where
    nil : Forest p
    cons : Tree p → Forest p → Forest p

-- `struct _kr_calc_t` as far as checking and evaluation use it. `C` is what `calc_param` points
-- to; reading a data item may change it. A value that is not there is `none`, the null pointer.
pub record Calc (p : Platform) (C : Type 0) : Type 0 where
  pub get_type_cb : Kind → ℤ → C → KrType
  pub get_value_cb : Kind → ℤ → C → Run (Option (Val p) × C)
  pub calc_param : C
  pub calc_status : ℤ
  pub calc_errmsg : CalcError

module _ {p : Platform} where
  abbrev pub root : Tree p → Node p
  root (node n cs) = n

  -- the nodes that `t->children` points to
  abbrev pub roots : Forest p → List (Node p)
  roots nil = []
  roots (cons t ts) = root t ∷ roots ts

  append_last : Forest p → Tree p → Forest p
  append_last nil t = cons t nil
  append_last (cons u us) t = cons u (append_last us t)

  -- `kr_calc_tree_append`
  unfoldable pub tree_append : Tree p → Tree p → Tree p
  unfolding append_last
  tree_append (node n cs) child = node n (append_last cs child)

  module _ {C : Type 0} where
    -- `calc_status = -1` and the message
    abbrev pub set_error : CalcError → Calc p C → Calc p C
    set_error e k = record k { calc_status = negsuc 0; calc_errmsg = e }

-- `kr_calc_tree_new`
unfoldable pub tree_new : (p : Platform) → Kind → Tree p
tree_new p k =
    node
      (record {
        kind = k;
        op = no_op;
        id = pos 0;
        type = KrType.unknown;
        ind = false;
        value = zeroed;
      })
      nil

-- `traverse_func`: it sees a node and its children, may change the node and the state `S`, and
-- returns whether it returned 0.
abbrev pub Visit : Platform → Type 0 → Type 0
Visit p S = Node p → List (Node p) → S → Run (Node p × S × Bool)

module _ {p : Platform} {S : Type 0} where
  abbrev pub visit : Option (Visit p S) → Visit p S
  visit none n ns s = ok (n, s, true)
  visit (some f) n ns s = f n ns s

module _ {p : Platform} {S : Type 0} (pre post : Option (Visit p S)) where
  unfoldable mutual
    -- `kr_calc_tree_traverse`; what was changed before a failure stays changed.
    pub traverse : Tree p → S → Run (Tree p × S × Bool)
    traverse (node n cs) s = do
      (n₁, s₁, before) ← visit pre n (roots cs) s
      if before
          then (do
            (cs', s₂, inside) ← traverse_children cs s₁
            if inside
                then (do
                  (n₂, s₃, after) ← visit post n₁ (roots cs') s₂
                  ok (node n₂ cs', s₃, after))
                else ok (node n₁ cs', s₂, false))
          else ok (node n₁ cs, s₁, false)

    -- the loop over `t->children`
    pub traverse_children : Forest p → S → Run (Forest p × S × Bool)
    traverse_children nil s = ok (nil, s, true)
    traverse_children (cons t ts) s = do
      (t', s₁, good) ← traverse t s
      if good
          then (do (ts', s₂, rest) ← traverse_children ts s₁; ok (cons t' ts', s₂, rest))
          else ok (cons t' ts, s₁, false)
