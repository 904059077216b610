-- ===== src/Calc/Sound/Nodes.antt =====
-- The evaluation of one node.
use krproject.Base.{◌≡◌, refl, true, ◌≤◌, List, [], ◌∷◌, bad_division, arith, length}
use krproject.Base.Int.{ℤ}
use krproject.Platform.{Platform, KrType, Val}
use krproject.Calc.{
  Op, no_op, and, or, not', lt, le, gt, ge, eq, neq, bl, nbl, match, Kind, Node, CalcError,
  left_not_numeric, right_not_numeric,
}
use krproject.Calc.Outcome.{Exec, value, missing, error, crash, ◌>>=◌}
use krproject.Calc.Arithmetic.{numeric, arithmetic, c_rem, store_double, with_pair, eval_arith}
use krproject.Calc.Relation.{child_truth, eval_and, eval_or, eval_not, eval_rel}
use krproject.Calc.Logic.{comparison, eval_bl, eval_nbl, eval_match, promote, logic_op, eval_logic}
use krproject.Calc.Sound.{fits, NodeOk, Safe}

Safe-bind :
    {A B : Type 0} (P : A → Type 0) (Q : B → Type 0) (m : Exec A) (f : A → Exec B)
    → Safe P m
    → ((a : A) → P a → Safe Q (f a))
    → Safe Q (m >>= f)
Safe-bind P Q (value a) f h next = next a h
Safe-bind P Q missing f h next = tt
Safe-bind P Q (error e) f h next = tt
Safe-bind P Q (crash bad_division) f h next = tt
Safe-bind P Q (crash _) f h next = ground arith

pub Safe-mono :
    {A : Type 0} (P Q : A → Type 0) (m : Exec A) → Safe P m → ((a : A) → P a → Q a) → Safe Q m
Safe-mono P Q (value a) h weaken = weaken a h
Safe-mono P Q missing h weaken = tt
Safe-mono P Q (error e) h weaken = tt
Safe-mono P Q (crash bad_division) h weaken = tt
Safe-mono P Q (crash _) h weaken = h

module _ (p : Platform) where
  arithmetic-Safe : (o : Op) (x y : p.Double) → Safe (λ z. Unit {0}) (arithmetic p o x y)
  unfolding arithmetic c_rem
  arithmetic-Safe no_op x y = tt
  arithmetic-Safe _ x y = ground arith

  store_double-Safe : (t : KrType) (x : p.Double) → Safe (λ v. fits t v ≡ true) (store_double p t x)
  unfolding store_double
  store_double-Safe KrType.bool x = tt
  store_double-Safe _ x = ground arith

module _ {p : Platform} (declared : Kind → ℤ → KrType) where
  abbrev pub NodesOk : List (Node p) → Type 0
  NodesOk [] = Unit
  NodesOk (n ∷ ns) = NodeOk declared n × NodesOk ns

  child_truth-Safe :
      (o : Op) (n : Node p) → NodeOk declared n → Safe (λ b. Unit {0}) (child_truth o n)
  unfolding child_truth
  child_truth-Safe o n h = ground (arith, h.held)

  numeric-Safe :
      (e : KrType → CalcError) (n : Node p)
      → NodeOk declared n
      → n.ind ≡ true
      → Safe (λ x. Unit {0}) (numeric e n)
  unfolding numeric
  numeric-Safe e n h s = ground (arith, h.held s)

  promote-Safe : (n : Node p) → NodeOk declared n → n.ind ≡ true → Safe (λ x. Unit {0}) (promote n)
  unfolding promote
  promote-Safe n h s = ground (arith, h.held s)

  eval_and-Safe : (ns : List (Node p)) → NodesOk ns → Safe (λ b. Unit {0}) (eval_and ns)
  unfolding eval_and
  eval_and-Safe [] h = tt
  eval_and-Safe (n ∷ ns) h =
      Safe-bind _ _ (child_truth and n) _ (child_truth-Safe and n h.0)
        (λ b u. ground (arith, eval_and-Safe ns h.1))

  eval_or-Safe : (ns : List (Node p)) → NodesOk ns → Safe (λ b. Unit {0}) (eval_or ns)
  unfolding eval_or
  eval_or-Safe [] h = tt
  eval_or-Safe (n ∷ ns) h =
      Safe-bind _ _ (child_truth or n) _ (child_truth-Safe or n h.0)
        (λ b u. ground (arith, eval_or-Safe ns h.1))

  eval_not-Safe : (ns : List (Node p)) → NodesOk ns → Safe (λ b. Unit {0}) (eval_not ns)
  unfolding eval_not
  eval_not-Safe [] h = tt
  eval_not-Safe (n ∷ ns) h =
      Safe-bind _ _ (child_truth not' n) _ (child_truth-Safe not' n h.0)
        (λ b u. ground (arith, eval_not-Safe ns h.1))

  pub eval_rel-Safe :
      (o : Op) (n : Node p) (ns : List (Node p))
      → n.op ≡ o
      → NodesOk ns
      → Safe (λ v. fits KrType.bool v ≡ true) (eval_rel n ns)
  unfolding eval_rel
  eval_rel-Safe and n ns e h =
      rw e (Safe-bind _ _ (eval_and ns) _ (eval_and-Safe ns h) (λ b u. refl))
  eval_rel-Safe or n ns e h = rw e (Safe-bind _ _ (eval_or ns) _ (eval_or-Safe ns h) (λ b u. refl))
  eval_rel-Safe not' n ns e h =
      rw e (Safe-bind _ _ (eval_not ns) _ (eval_not-Safe ns h) (λ b u. refl))
  eval_rel-Safe _ n ns e h = rw e tt

  with_pair-Safe :
      (Q : Val p → Type 0) (ns : List (Node p)) (f : Node p → Node p → Exec (Val p))
      → NodesOk ns
      → 2 ≤ length ns
      → ((l r : Node p)
          → NodeOk declared l
          → NodeOk declared r
          → l.ind ≡ true
          → r.ind ≡ true
          → Safe Q (f l r))
      → Safe Q (with_pair ns f)
  unfolding with_pair
  with_pair-Safe Q [] f hs two next = absurd (omega arith)
  with_pair-Safe Q (l ∷ []) f hs two next = absurd (omega arith)
  with_pair-Safe Q (l ∷ r ∷ ns) f hs two next = ground (arith, next l r hs.0 hs.1.0)

  pub eval_arith-Safe :
      (n : Node p) (ns : List (Node p))
      → NodesOk ns
      → 2 ≤ length ns
      → Safe (λ v. fits n.type v ≡ true) (eval_arith n ns)
  unfolding eval_arith
  eval_arith-Safe n ns h two = with_pair-Safe _ ns _ h two λ l r hl hr sl sr.
      Safe-bind _ _ (numeric left_not_numeric l) _ (numeric-Safe left_not_numeric l hl sl) λ x u.
        Safe-bind _ _ (numeric right_not_numeric r) _ (numeric-Safe right_not_numeric r hr sr)
          λ y u.
            Safe-bind _ _ (arithmetic p n.op x y) _ (arithmetic-Safe p n.op x y)
              λ z u. store_double-Safe p n.type z

  comparison-Safe :
      (o : Op) (l r : Node p) (x y : p.Double)
      → NodeOk declared l
      → NodeOk declared r
      → l.ind ≡ true
      → r.ind ≡ true
      → Safe (λ n. Unit {0}) (comparison o l r x y)
  unfolding comparison
  comparison-Safe o l r x y hl hr sl sr = ground (arith, hl.held sl, hr.held sr)

  eval_bl-Safe :
      (l r : Node p)
      → NodeOk declared l
      → NodeOk declared r
      → l.ind ≡ true
      → r.ind ≡ true
      → Safe (λ n. Unit {0}) (eval_bl l r)
  unfolding eval_bl
  eval_bl-Safe l r hl hr sl sr = ground (arith, hl.held sl, hr.suited sr)

  eval_nbl-Safe :
      (l r : Node p)
      → NodeOk declared l
      → NodeOk declared r
      → l.ind ≡ true
      → r.ind ≡ true
      → Safe (λ n. Unit {0}) (eval_nbl l r)
  unfolding eval_nbl
  eval_nbl-Safe l r hl hr sl sr = ground (arith, hl.held sl, hr.suited sr)

  eval_match-Safe :
      (l r : Node p)
      → NodeOk declared l
      → NodeOk declared r
      → l.ind ≡ true
      → r.ind ≡ true
      → Safe (λ n. Unit {0}) (eval_match l r)
  unfolding eval_match
  eval_match-Safe l r hl hr sl sr = ground (arith, hl.held sl, hr.suited sr)

  logic_op-Safe :
      (o : Op) (l r : Node p) (x y : p.Double)
      → NodeOk declared l
      → NodeOk declared r
      → l.ind ≡ true
      → r.ind ≡ true
      → Safe (λ n. Unit {0}) (logic_op o l r x y)
  unfolding logic_op
  logic_op-Safe lt l r x y hl hr sl sr = comparison-Safe lt l r x y hl hr sl sr
  logic_op-Safe le l r x y hl hr sl sr = comparison-Safe le l r x y hl hr sl sr
  logic_op-Safe gt l r x y hl hr sl sr = comparison-Safe gt l r x y hl hr sl sr
  logic_op-Safe ge l r x y hl hr sl sr = comparison-Safe ge l r x y hl hr sl sr
  logic_op-Safe eq l r x y hl hr sl sr = comparison-Safe eq l r x y hl hr sl sr
  logic_op-Safe neq l r x y hl hr sl sr = comparison-Safe neq l r x y hl hr sl sr
  logic_op-Safe bl l r x y hl hr sl sr = eval_bl-Safe l r hl hr sl sr
  logic_op-Safe nbl l r x y hl hr sl sr = eval_nbl-Safe l r hl hr sl sr
  logic_op-Safe match l r x y hl hr sl sr = eval_match-Safe l r hl hr sl sr
  logic_op-Safe _ l r x y hl hr sl sr = tt

  pub eval_logic-Safe :
      (n : Node p) (ns : List (Node p))
      → NodesOk ns
      → 2 ≤ length ns
      → Safe (λ v. fits KrType.bool v ≡ true) (eval_logic n ns)
  unfolding eval_logic
  eval_logic-Safe n ns h two = with_pair-Safe _ ns _ h two λ l r hl hr sl sr.
      Safe-bind _ _ (promote l) _ (promote-Safe l hl sl) λ x u.
        Safe-bind _ _ (promote r) _ (promote-Safe r hr sr) λ y u.
          Safe-bind _ _ (logic_op n.op l r x y) _ (logic_op-Safe n.op l r x y hl hr sl sr)
            λ t u. refl
