-- ===== src/Engine/Sound.antt =====
-- Rules and groups whose calculators are sound, and what one rule of krengine/kr_engine_detect.c
-- does with them.
use mathlib.Core.Path.{subst}
use krproject.Base.{
  ◌≡◌, ◌≢◌, refl, Bool-cases, inl, inr, sym, Bool, true, false, not, ◌&&◌, if◌then◌else◌, Option,
  none, some, Run, ok, fault, bad_division, Defined, Defined-bind, Defined-ran, arith, ap, ◌∙◌,
}
use krproject.Base.Int.{ℤ, eqb_ℤ}
use krproject.Platform.{Platform, KrType, type_eq, Value}
use krproject.Calc.{Kind}
use krproject.Calc.Members.{is_true}
use krproject.Calc.Object.{Calculator, calc_eval, calc_ind, calc_type, calc_value, holds}
use krproject.Calc.Eval.{tree_eval}
use krproject.Calc.Sound.{Serves}
use krproject.Calc.Sound.Trees.{Ends, Serves-param}
use krproject.Calc.Sound.Whole.{IsWellFormed, root-Ok, tree_eval-IsWellFormed}
use krproject.Engine.{
  Rule, Answer, fired, quiet, failed, is_fired, rule_init, answer, rule_eval, rule_detect,
}

module _ {D S R T : Type 0} where
  abbrev pub is_nonzero : Value D S R T → Bool
  is_nonzero (Value.b n) = is_true n
  is_nonzero (Value.i n) = is_true n
  is_nonzero _ = false

module _ {p : Platform} {C : Type 0} where
  -- the verdict of a calculator: its root is set, of type bool, and true
  abbrev pub verdict : Calculator p C → Bool
  verdict krcalc =
      calc_ind krcalc && type_eq (calc_type krcalc) KrType.bool && is_nonzero (calc_value krcalc)

  abbrev pub rule_verdict : Option (Calculator p C) → Bool
  rule_verdict none = false
  rule_verdict (some krcalc) = verdict krcalc

  -- what detection leaves as it is: the identifier, the weight and the data source
  abbrev pub def : Rule p C → ℤ × ℤ × ℤ
  def r = (r.l_rule_id, r.l_rule_weight, r.l_rule_datasrc)

  -- the rule reads records of this table, and its calculator says so
  abbrev pub applies : ℤ → Rule p C → Bool
  applies t r = eqb_ℤ t r.l_rule_datasrc && rule_verdict r.pt_rule_calc

  -- A rule that applies to the table has the calculator that its own becomes by an evaluation, which
  -- succeeds, from the context `c` to the context `c'`; another one keeps its calculator.
  abbrev pub Tested : Bool → Option (Calculator p C) → C → Option (Calculator p C) → C → Type 0
  Tested true own c own' c' =
      (krcalc : Calculator p C) × (krcalc' : Calculator p C) × (own ≡ some krcalc)
      × (calc_eval krcalc c ≡ ok (krcalc', c', true))
      × (own' ≡ some krcalc')
  Tested false own c own' c' = (own' ≡ own) × (c' ≡ c)

ok-injective : {A : Type 0} {a b : A} → ok a ≡ ok b → a ≡ b
ok-injective {A} {a} {b} e = cc

module _ {p : Platform} (declared : Kind → ℤ → KrType) {C : Type 0} where
  abbrev pub CalcOk : Calculator p C → Type 0
  CalcOk krcalc = IsWellFormed declared krcalc.calc_tree × Serves declared krcalc.state

  abbrev pub RuleOk : Rule p C → Type 0
  RuleOk r = (krcalc : Calculator p C) × (r.pt_rule_calc ≡ some krcalc) × CalcOk krcalc

  Ends-Defined :
      {A : Type 0} (P : A → Type 0) (m : Run _)
      → Ends {p = p} declared {C = C} P m
      → Defined (λ r. P r.0 × Serves declared r.1) m
  Ends-Defined P (ok r) h = h
  Ends-Defined P (fault bad_division) h = tt
  Ends-Defined P (fault _) h = absurd h

  pub calc_eval-Defined :
      (krcalc : Calculator p C) (c : C)
      → CalcOk krcalc
      → Defined (λ r. CalcOk r.0) (calc_eval krcalc c)
  unfolding calc_eval
  calc_eval-Defined krcalc c h =
      Defined-bind _ _ (tree_eval krcalc.calc_tree (record krcalc.state { calc_param = c })) _
        (Ends-Defined _ _ (
          tree_eval-IsWellFormed declared krcalc.calc_tree _ h.0
            (Serves-param declared krcalc.state c h.1)))
        (λ r g. g)

  pub calc_eval-Ran :
      (krcalc : Calculator p C) (c : C)
      → CalcOk krcalc
      → Defined (λ r. CalcOk r.0 × (calc_eval krcalc c ≡ ok r)) (calc_eval krcalc c)
  calc_eval-Ran krcalc c h = Defined-ran _ (calc_eval krcalc c) (calc_eval-Defined krcalc c h)

  holds-verdict : (krcalc : Calculator p C) → CalcOk krcalc → holds krcalc ≡ ok (verdict krcalc)
  unfolding holds
  holds-verdict krcalc h = ground (arith, (root-Ok declared krcalc.calc_tree h.0).held)

  -- what the answer says of the calculator; nothing where the evaluation failed
  abbrev pub Answers : Calculator p C → Answer → Type 0
  Answers krcalc fired = verdict krcalc ≡ true
  Answers krcalc quiet = verdict krcalc ≡ false
  Answers krcalc failed = Unit

  pub answer-Defined :
      (krcalc : Calculator p C) (good : Bool)
      → CalcOk krcalc
      → Defined (Answers krcalc) (answer krcalc good)
  unfolding answer
  answer-Defined krcalc false h = tt
  answer-Defined krcalc true h =
      rw (holds-verdict krcalc h)
        (elim (Bool-cases (verdict krcalc)) [ inl e ↦ rw e e | inr e ↦ rw e e ])

  pub answer-Ran :
      (krcalc : Calculator p C) (good : Bool)
      → CalcOk krcalc
      → Defined (λ a. Answers krcalc a × (answer krcalc good ≡ ok a)) (answer krcalc good)
  answer-Ran krcalc good h = Defined-ran _ (answer krcalc good) (answer-Defined krcalc good h)

  judged :
      (krcalc : Calculator p C) (a : Answer)
      → Answers krcalc a
      → a ≢ failed
      → is_fired a ≡ verdict krcalc
  judged krcalc fired h k = sym h
  judged krcalc quiet h k = sym h
  judged krcalc failed h k = absurd (k refl)

  -- the rule `r` after its detection, which the context `c` enters and `c'` leaves
  abbrev pub Detected : ℤ → Rule p C → C → Rule p C → C → Answer → Type 0
  Detected t r c r' c' a =
      RuleOk r'
      × (def r' ≡ def r)
      × (r'.b_violated ≡ is_fired a)
      × (a ≢ failed
          → (r'.b_violated ≡ applies t r')
            × Tested (eqb_ℤ t r.l_rule_datasrc) r.pt_rule_calc c r'.pt_rule_calc c')

  -- an evaluation that failed does not give an answer but that
  pub answer_good :
      (krcalc : Calculator p C) (good : Bool) (a : Answer)
      → answer krcalc good ≡ ok a
      → a ≢ failed
      → good ≡ true
  unfolding answer
  answer_good krcalc true a e k = refl
  answer_good krcalc false a e k = absurd (k (sym (ok-injective e)))

  rule_eval-Defined :
      (t : ℤ) (krcalc : Calculator p C) (r : Rule p C) (c : C)
      → CalcOk krcalc
      → eqb_ℤ t r.l_rule_datasrc ≡ true
      → r.pt_rule_calc ≡ some krcalc
      → Defined (λ q. Detected t r c q.0 q.1 q.2) (rule_eval (some krcalc) r c)
  unfolding rule_eval
  rule_eval-Defined t krcalc r c h e own =
      Defined-bind _ _ (calc_eval krcalc c) _ (calc_eval-Ran krcalc c h) λ q (g, ran).
        Defined-bind _ _ (answer q.0 q.2) _ (answer-Ran q.0 q.2 g) λ a (f, given). (
          (q.0, refl, g),
          refl,
          refl,
          λ k. (
            rw e (judged q.0 a f k),
            subst (λ b. Tested b r.pt_rule_calc c (some q.0) q.1) (sym e)
                (
                  krcalc,
                  q.0,
                  own,
                  ran ∙ ap (λ b. ok (q.0, q.1, b)) (answer_good q.0 q.2 a given k),
                  refl,
                ),
          ),
        )

  pub rule_detect-Defined :
      (t : ℤ) (r : Rule p C) (c : C)
      → RuleOk r
      → Defined (λ q. Detected t r c q.0 q.1 q.2) (rule_detect t r c)
  unfolding rule_detect
  rule_detect-Defined t r c h =
      let D : Rule p C × C × Answer → Type 0 = λ q. Detected t r c q.0 q.1 q.2 in
      let run : Bool → Run (Rule p C × C × Answer) = λ b.
        if not b then ok (rule_init r, c, quiet) else rule_eval r.pt_rule_calc (rule_init r) c in
      elim (Bool-cases (eqb_ℤ t r.l_rule_datasrc)) [
        | inl e ↦
            subst (λ b. Defined D (run b)) (sym e)
              (subst (λ o. Defined D (rule_eval o (rule_init r) c)) (sym h.1)
                (rule_eval-Defined t h.0 (rule_init r) c h.2 e h.1))
        | inr e ↦
            subst (λ b. Defined D (run b)) (sym e)
              (
                (h.0, h.1, h.2),
                refl,
                refl,
                λ k. (
                  rw e refl,
                  subst (λ b. Tested b r.pt_rule_calc c r.pt_rule_calc c) (sym e) (refl, refl),
                ),
              )
      ]
