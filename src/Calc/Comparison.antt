-- ===== src/Calc/Comparison.antt =====
-- How the comparisons and memberships of krcalc/kr_calc_tree.c relate to their negations.
use krproject.Base.{◌≡◌, refl, true, false, not, arith, is_some}
use krproject.Base.Int.{ℤ}
use krproject.Platform.{Platform, KrType, type_eq, HashSet, Value}
use krproject.Calc.{Op, lt, le, gt, ge, eq, neq, nbl_types, Node}
use krproject.Calc.Check.{is_string, is_set_kind}
use krproject.Calc.Outcome.{value, error}
use krproject.Calc.Members.{truth_of, is_true}
use krproject.Calc.Logic.{string_test, hashset_search, comparison, eval_bl, eval_nbl}

abbrev pub opposite : Op → Op
opposite lt = ge
opposite ge = lt
opposite le = gt
opposite gt = le
opposite eq = neq
opposite neq = eq
opposite o = o

abbrev pub IsComparison : Op → Type 0
IsComparison lt = Unit
IsComparison le = Unit
IsComparison gt = Unit
IsComparison ge = Unit
IsComparison eq = Unit
IsComparison neq = Unit
IsComparison _ = ⊥

string_test-opposite :
    (o : Op) (n : ℤ)
    → IsComparison o
    → is_true (string_test (opposite o) n) ≡ not (is_true (string_test o n))
unfolding string_test
string_test-opposite lt n i = ground arith
string_test-opposite le n i = ground arith
string_test-opposite gt n i = ground arith
string_test-opposite ge n i = ground arith
string_test-opposite eq n i = ground arith
string_test-opposite neq n i = ground arith
string_test-opposite _ n i = absurd i

module _ {p : Platform} where
  -- Of two strings, a comparison is true exactly if the opposite one is false: LT and GE, LE and GT,
  -- EQ and NEQ.
  comparison-opposite :
      (o : Op) (l r : Node p) (a b : p.Str) (x y : p.Double)
      → IsComparison o
      → (l.type ≡ KrType.string) × (l.value ≡ Value.s a)
      → (r.type ≡ KrType.string) × (r.value ≡ Value.s b)
      → (m : ℤ) × (n : ℤ) × (comparison o l r x y ≡ value m)
        × (comparison (opposite o) l r x y ≡ value n)
        × (is_true n ≡ not (is_true m))
  unfolding comparison
  comparison-opposite o l r a b x y i hl hr = (
    string_test o (p.strcmp a b),
    string_test (opposite o) (p.strcmp a b),
    rw (hl.0, hl.1, hr.0, hr.1) refl,
    rw (hl.0, hl.1, hr.0, hr.1) refl,
    string_test-opposite o (p.strcmp a b) i,
  )

  -- BL of a string and a set of strings is whether the look-up finds the string, and NBL is true
  -- exactly if BL is false.
  eval_nbl-string :
      (l r : Node p) (a : p.Str) (h : HashSet p.Table)
      → (l.type ≡ KrType.string) × (l.value ≡ Value.s a)
      → (is_set_kind r.kind ≡ true) × (r.value ≡ Value.set h)
      → h.type ≡ KrType.string
      → (m : ℤ) × (n : ℤ) × (eval_bl l r ≡ value m)
        × (eval_nbl l r ≡ value n)
        × (is_true m ≡ is_some (p.table_lookup h.set (Value.s a)))
        × (is_true n ≡ not (is_true m))
  unfolding eval_bl eval_nbl hashset_search
  eval_nbl-string l r a h hl hr hs = (
    truth_of (is_some (p.table_lookup h.set (Value.s a))),
    truth_of (not (is_true (truth_of (is_some (p.table_lookup h.set (Value.s a)))))),
    rw (hl.0, hl.1, hr.0, hr.1, hs) refl,
    rw (hl.0, hl.1, hr.0, hr.1, hs) refl,
    ground arith,
    ground arith,
  )

  -- An element that is no string, looked up in a set of its own type, is an error of NBL, where BL
  -- finds it or not: NBL compares its type with that of the node of the set, which is a pointer.
  eval_nbl-refused :
      (l r : Node p) (h : HashSet p.Table)
      → (l.type ≡ h.type) × (is_string h.type ≡ false)
      → (is_set_kind r.kind ≡ true) × (r.value ≡ Value.set h)
      → (r.type ≡ KrType.pointer) × (type_eq h.type KrType.pointer ≡ false)
      → (eval_bl l r ≡ value (truth_of (is_some (p.table_lookup h.set l.value))))
        × (eval_nbl l r ≡ error (nbl_types h.type h.type))
  unfolding eval_bl eval_nbl hashset_search
  eval_nbl-refused l r h hl hr ht = (ground (arith, hl, hr), ground (arith, hl, hr, ht))
