-- ===== src/Calc/Check/Typing.antt =====
-- The checker of krcalc/kr_calc_tree.c against the typing rules of expressions.
use krproject.Base.{
  ◌≡◌, refl, ◌≢◌, ◌⊎◌, inl, inr, ◌↔◌, Bool, true, false, Option, none, some, List, [], ◌∷◌, Run, ok,
  arith, Option-cases,
}
use krproject.Platform.{Platform, KrType}
use krproject.Calc.{
  Op, no_op, plus, sub, mut, div, mod', lt, le, gt, ge, eq, neq, bl, nbl, match, not', and, or,
  Kind, rel, arith', logic, regex, CalcError, Node, Tree, node, Forest, nil, cons, roots, Calc,
  set_error, traverse, traverse_children,
}
use krproject.Calc.Check.{
  is_set_kind, check_arith_op, check_logic_op, check_truths, check_rel_op, check_pair, node_check,
  check_visit, tree_check,
}

abbrev pub IsNumeric : KrType → Type 0
IsNumeric t = (t ≡ KrType.int) ⊎ (t ≡ KrType.long) ⊎ (t ≡ KrType.double)

abbrev pub IsTruth : KrType → Type 0
IsTruth t = (t ≡ KrType.bool) ⊎ (t ≡ KrType.int)

-- a comparison is between two strings or between two values that are no strings
abbrev pub SameSort : KrType → KrType → Type 0
SameSort t u = (t ≡ KrType.string) × (u ≡ KrType.string) ⊎ (t ≢ KrType.string) × (u ≢ KrType.string)

module _ {p : Platform} where
  abbrev pub ArithTyped : Op → Node p → Node p → Type 0
  ArithTyped plus l r = IsNumeric l.type × IsNumeric r.type
  ArithTyped sub l r = IsNumeric l.type × IsNumeric r.type
  ArithTyped mut l r = IsNumeric l.type × IsNumeric r.type
  ArithTyped div l r = IsNumeric l.type × IsNumeric r.type
  ArithTyped mod' l r = IsNumeric l.type × IsNumeric r.type
  ArithTyped _ l r = ⊥

  abbrev pub LogicTyped : Op → Node p → Node p → Type 0
  LogicTyped lt l r = SameSort l.type r.type
  LogicTyped le l r = SameSort l.type r.type
  LogicTyped gt l r = SameSort l.type r.type
  LogicTyped ge l r = SameSort l.type r.type
  LogicTyped eq l r = SameSort l.type r.type
  LogicTyped neq l r = SameSort l.type r.type
  LogicTyped bl l r = (is_set_kind r.kind ≡ true) × (l.type ≡ r.type)
  LogicTyped nbl l r = (is_set_kind r.kind ≡ true) × (l.type ≡ r.type)
  LogicTyped match l r = (l.type ≡ KrType.string) × (r.kind ≡ regex)
  LogicTyped _ l r = ⊥

  -- the operands up to the first of unknown type are truth values
  abbrev pub TruthsTyped : List (Node p) → Type 0
  TruthsTyped [] = Unit
  TruthsTyped (c ∷ cs) = (c.type ≡ KrType.unknown) ⊎ IsTruth c.type × TruthsTyped cs

  abbrev pub RelTyped : Op → List (Node p) → Type 0
  RelTyped and cs = TruthsTyped cs
  RelTyped or cs = TruthsTyped cs
  RelTyped not' cs = TruthsTyped cs
  RelTyped _ cs = ⊥

  -- exactly two operands, which obey the rule once their types are known
  abbrev pub PairTyped : (Node p → Node p → Type 0) → List (Node p) → Type 0
  PairTyped R (l ∷ r ∷ []) = (l.type ≡ KrType.unknown) ⊎ (r.type ≡ KrType.unknown) ⊎ R l r
  PairTyped R _ = ⊥

  abbrev pub NodeTyped : Kind → Op → List (Node p) → Type 0
  NodeTyped arith' o cs = PairTyped (ArithTyped o) cs
  NodeTyped logic o cs = PairTyped (LogicTyped o) cs
  NodeTyped rel o cs = RelTyped o cs
  NodeTyped _ o cs = Unit

  mutual
    -- every node of the tree obeys the rule for its kind
    pub IsTyped : Tree p → Type 0
    IsTyped (node n cs) = AreTyped cs × NodeTyped n.kind n.op (roots cs)

    pub AreTyped : Forest p → Type 0
    AreTyped nil = Unit
    AreTyped (cons t ts) = IsTyped t × AreTyped ts

  check_arith_op_iff : (o : Op) (l r : Node p) → (check_arith_op o l r ≡ none) ↔ ArithTyped o l r
  unfolding check_arith_op
  check_arith_op_iff no_op l r = ground arith
  check_arith_op_iff _ l r = ground arith

  check_logic_op_iff : (o : Op) (l r : Node p) → (check_logic_op o l r ≡ none) ↔ LogicTyped o l r
  unfolding check_logic_op
  check_logic_op_iff no_op l r = ground arith
  check_logic_op_iff _ l r = ground arith

  check_truths_iff : (o : Op) (cs : List (Node p)) → (check_truths o cs ≡ none) ↔ TruthsTyped cs
  unfolding check_truths
  check_truths_iff o [] = (λ e. tt, λ u. refl)
  check_truths_iff o (c ∷ cs) = ground (arith, check_truths_iff o cs)

  check_rel_op_iff : (o : Op) (cs : List (Node p)) → (check_rel_op o cs ≡ none) ↔ RelTyped o cs
  unfolding check_rel_op
  check_rel_op_iff no_op cs = ground arith
  check_rel_op_iff and cs = check_truths_iff and cs
  check_rel_op_iff or cs = check_truths_iff or cs
  check_rel_op_iff not' cs = check_truths_iff not' cs
  check_rel_op_iff _ cs = ground arith

  check_pair_iff :
      (e : CalcError) (test : Node p → Node p → Option CalcError) (R : Node p → Node p → Type 0)
      → ((l r : Node p) → (test l r ≡ none) ↔ R l r)
      → (cs : List (Node p)) → (check_pair e test cs ≡ none) ↔ PairTyped R cs
  unfolding check_pair
  check_pair_iff e test R h [] = ground arith
  check_pair_iff e test R h (l ∷ []) = ground arith
  check_pair_iff e test R h (l ∷ r ∷ []) = ground (arith, h l r)
  check_pair_iff e test R h (l ∷ r ∷ x ∷ cs) = ground arith

  node_check_iff :
      (k : Kind) (n : Node p) (cs : List (Node p))
      → n.kind ≡ k
      → (node_check n cs ≡ none) ↔ NodeTyped k n.op cs
  unfolding node_check
  node_check_iff arith' n cs e =
      rw e (check_pair_iff _ _ (ArithTyped n.op) (check_arith_op_iff n.op) cs)
  node_check_iff logic n cs e =
      rw e (check_pair_iff _ _ (LogicTyped n.op) (check_logic_op_iff n.op) cs)
  node_check_iff rel n cs e = rw e (check_rel_op_iff n.op cs)
  node_check_iff _ n cs e = rw e (λ _. tt, λ _. refl)

  module _ {C : Type 0} where
    -- How a check of `t` from the state `k` may end.
    abbrev Verdict : {A : Type 0} → Type 0 → A → Calc p C → Run (A × Calc p C × Bool) → Type 0
    Verdict Typed t k r =
        Typed × (r ≡ ok (t, k, true))
        ⊎ ((e : CalcError) × (¬ Typed) × (r ≡ ok (t, set_error e k, false)))

    check_visit-none :
        (n : Node p) (cs : List (Node p)) (k : Calc p C)
        → node_check n cs ≡ none
        → check_visit n cs k ≡ ok (n, k, true)
    unfolding check_visit
    check_visit-none n cs k e = rw (e, check_visit)

    check_visit-some :
        (n : Node p) (cs : List (Node p)) (k : Calc p C) {e : CalcError}
        → node_check n cs ≡ some e
        → check_visit n cs k ≡ ok (n, set_error e k, false)
    unfolding check_visit
    check_visit-some n cs k e = rw (e, check_visit)

    mutual
      unfolding traverse IsTyped

      check_tree :
          (t : Tree p) (k : Calc p C)
          → Verdict (IsTyped t) t k (traverse none (some check_visit) t k)
      check_tree (node n cs) k = elim (check_forest cs k) [
        | inr (e, bad, run) ↦ inr (e, (λ typed. bad typed.0), rw run)
        | inl (good, run) ↦ elim (Option-cases (node_check n (roots cs))) [
          | inl fine ↦ inl (
            (good, (node_check_iff n.kind n (roots cs) refl).0 fine),
            rw (run, check_visit-none n (roots cs) k fine),
          )
          | inr (e, wrong) ↦ inr (
            e,
            (λ typed. cc ((node_check_iff n.kind n (roots cs) refl).1 typed.1)),
            rw (run, check_visit-some n (roots cs) k wrong),
          )
        ]
      ]

      check_forest :
          (ts : Forest p) (k : Calc p C)
          → Verdict (AreTyped ts) ts k (traverse_children none (some check_visit) ts k)
      check_forest nil k = inl (tt, refl)
      check_forest (cons t ts) k = elim (check_tree t k) [
        | inr (e, bad, run) ↦ inr (e, (λ typed. bad typed.0), rw run)
        | inl (good, run) ↦ elim (check_forest ts k) [
          | inr (e, bad, run') ↦ inr (e, (λ typed. bad typed.1), rw (run, run'))
          | inl (rest, run') ↦ inl ((good, rest), rw (run, run'))
        ]
      ]

    -- `kr_calc_tree_check` decides whether every node of the tree obeys its typing rule: it returns
    -- 0 and changes nothing if so, and otherwise returns -1 with `calc_status` -1 and a message; the
    -- tree stays as it is.
    pub tree_check-IsTyped :
        (t : Tree p) (k : Calc p C)
        → IsTyped t × (tree_check t k ≡ ok (t, k, true))
          ⊎ ((e : CalcError) × (¬ IsTyped t) × (tree_check t k ≡ ok (t, set_error e k, false)))
    unfolding tree_check
    tree_check-IsTyped t k = check_tree t k
