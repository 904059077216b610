-- ===== src/Calc/Truth.antt =====
-- What the relations AND, OR and NOT of krcalc/kr_calc_tree.c compute.
use krproject.Base.{◌≡◌, refl, Bool, true, false, not, List, [], ◌∷◌, ◌++◌, all, any}
use krproject.Platform.{Platform, Value}
use krproject.Calc.{Op, not', and, or, Node}
use krproject.Calc.Outcome.{value}
use krproject.Calc.Members.{truth_of}
use krproject.Calc.Relation.{child_truth, eval_and, eval_or, eval_not, eval_rel}

abbrev id : Bool → Bool
id b = b

-- the value that a relation should have
unfoldable pub meaning : Op → List Bool → Bool
meaning and bs = all (λ b. b) bs
meaning or bs = any (λ b. b) bs
meaning not' bs = not (any (λ b. b) bs)
meaning _ bs = false

abbrev pub IsRelation : Op → Type 0
IsRelation and = Unit
IsRelation or = Unit
IsRelation not' = Unit
IsRelation _ = ⊥

-- the truth value that ends the loop at once
unfoldable pub decisive : Op → Bool
decisive and = false
decisive _ = true

module _ {p : Platform} where
  -- the children are set and have these truth values
  abbrev pub Truths : List (Node p) → List Bool → Type 0
  Truths [] [] = Unit
  Truths (n ∷ ns) (b ∷ bs) = ((o : Op) → child_truth o n ≡ value b) × Truths ns bs
  Truths _ _ = ⊥

  eval_and-all :
      (ns : List (Node p)) (bs : List Bool) → Truths ns bs → eval_and ns ≡ value (all id bs)
  unfolding eval_and
  eval_and-all [] [] h = refl
  eval_and-all [] (b ∷ bs) h = absurd h
  eval_and-all (n ∷ ns) [] h = absurd h
  eval_and-all (n ∷ ns) (true ∷ bs) h = rw (h.0 and) (eval_and-all ns bs h.1)
  eval_and-all (n ∷ ns) (false ∷ bs) h = rw (h.0 and) refl

  eval_or-any :
      (ns : List (Node p)) (bs : List Bool) → Truths ns bs → eval_or ns ≡ value (any id bs)
  unfolding eval_or
  eval_or-any [] [] h = refl
  eval_or-any [] (b ∷ bs) h = absurd h
  eval_or-any (n ∷ ns) [] h = absurd h
  eval_or-any (n ∷ ns) (true ∷ bs) h = rw (h.0 or) refl
  eval_or-any (n ∷ ns) (false ∷ bs) h = rw (h.0 or) (eval_or-any ns bs h.1)

  eval_not-any :
      (ns : List (Node p)) (bs : List Bool) → Truths ns bs → eval_not ns ≡ value (not (any id bs))
  unfolding eval_not
  eval_not-any [] [] h = refl
  eval_not-any [] (b ∷ bs) h = absurd h
  eval_not-any (n ∷ ns) [] h = absurd h
  eval_not-any (n ∷ ns) (true ∷ bs) h = rw (h.0 not') refl
  eval_not-any (n ∷ ns) (false ∷ bs) h = rw (h.0 not') (eval_not-any ns bs h.1)

  -- Where every child is set and has a truth value, AND is their conjunction, OR their disjunction,
  -- and NOT holds if none of them does; without children AND and NOT are true and OR is false.
  pub eval_rel-meaning :
      (o : Op) (n : Node p) (ns : List (Node p)) (bs : List Bool)
      → IsRelation o
      → n.op ≡ o
      → Truths ns bs
      → eval_rel n ns ≡ value (Value.b (truth_of (meaning o bs)))
  unfolding eval_rel meaning
  eval_rel-meaning and n ns bs i e h = rw e (rw (eval_and-all ns bs h) refl)
  eval_rel-meaning or n ns bs i e h = rw e (rw (eval_or-any ns bs h) refl)
  eval_rel-meaning not' n ns bs i e h = rw e (rw (eval_not-any ns bs h) refl)
  eval_rel-meaning _ n ns bs i e h = absurd i

  -- children that do not end the loop
  abbrev pub Passed : Op → List (Node p) → Type 0
  Passed o [] = Unit
  Passed o (n ∷ ns) = (child_truth o n ≡ value (not (decisive o))) × Passed o ns

  module _ (m : Node p) (rest : List (Node p)) where
    eval_and_stop :
        (ns : List (Node p))
        → Passed and ns
        → child_truth and m ≡ value false
        → eval_and (ns ++ (m ∷ rest)) ≡ value false
    unfolding eval_and decisive
    eval_and_stop [] h e = rw e refl
    eval_and_stop (n ∷ ns) h e = rw (h.0) (eval_and_stop ns h.1 e)

    eval_or_stop :
        (ns : List (Node p))
        → Passed or ns
        → child_truth or m ≡ value true
        → eval_or (ns ++ (m ∷ rest)) ≡ value true
    unfolding eval_or decisive
    eval_or_stop [] h e = rw e refl
    eval_or_stop (n ∷ ns) h e = rw (h.0) (eval_or_stop ns h.1 e)

    eval_not_stop :
        (ns : List (Node p))
        → Passed not' ns
        → child_truth not' m ≡ value true
        → eval_not (ns ++ (m ∷ rest)) ≡ value false
    unfolding eval_not decisive
    eval_not_stop [] h e = rw e refl
    eval_not_stop (n ∷ ns) h e = rw (h.0) (eval_not_stop ns h.1 e)

    -- A relation is lazy: a false child of AND, or a true one of OR or NOT, decides it whatever comes
    -- after, be it unset or of a wrong type, provided that the children before it are set and
    -- undecisive. OR is then true, AND and NOT are false.
    eval_rel_lazy :
        (o : Op) (n : Node p) (ns : List (Node p))
        → IsRelation o
        → n.op ≡ o
        → Passed o ns
        → child_truth o m ≡ value (decisive o)
        → eval_rel n (ns ++ (m ∷ rest)) ≡ value (Value.b (truth_of (meaning o (decisive o ∷ []))))
    unfolding eval_rel decisive meaning
    eval_rel_lazy and n ns i e h d = rw e (rw (eval_and_stop ns h d) refl)
    eval_rel_lazy or n ns i e h d = rw e (rw (eval_or_stop ns h d) refl)
    eval_rel_lazy not' n ns i e h d = rw e (rw (eval_not_stop ns h d) refl)
    eval_rel_lazy _ n ns i e h d = absurd i
