-- ===== src/Engine/Rules.antt =====
-- `kr_rule_list_detect` of krengine/kr_engine_detect.c.
use krproject.Base.{
  ◌≡◌, refl, sym, ap, ◌∙◌, ℕ, suc, ◌+◌, Bool, true, false, some, List, [], ◌∷◌, map, Run, length,
  ◌==◌, if◌then◌else◌, Defined, Defined-bind, When, When-intro, ∷-eq, length-map, arith, Bool-cases,
  inl, inr,
}
use krproject.Base.Int.{ℤ, pos, eqb_ℤ, ◌+ℤ◌, add_long}
use krproject.Platform.{Platform, KrType}
use krproject.Calc.{Kind}
use krproject.Engine.{
  Rule, RuleList, Answer, fired, quiet, failed, rule_init, rule_detect, after_rule, detect_rules,
  rule_list_detect,
}
use krproject.Engine.Sound.{applies, def, RuleOk, Tested, Detected, rule_detect-Defined}

add_long-Defined : (a b : ℤ) → Defined (λ c. c ≡ a +ℤ b) (add_long a b)
unfolding add_long
add_long-Defined a b = ground arith

module _ {p : Platform} {C : Type 0} where
  -- how many rules are violated
  abbrev pub fired_count : List (Rule p C) → ℕ
  fired_count [] = 0
  fired_count (r ∷ rs) = if r.b_violated then suc (fired_count rs) else fired_count rs

  -- the sum of `w` and of the weights of the violated rules
  abbrev pub fired_weights : ℤ → List (Rule p C) → ℤ
  fired_weights w [] = w
  fired_weights w (r ∷ rs) = fired_weights (if r.b_violated then w +ℤ r.l_rule_weight else w) rs

  abbrev pub NoneViolated : List (Rule p C) → Type 0
  NoneViolated [] = Unit
  NoneViolated (r ∷ rs) = (r.b_violated ≡ false) × NoneViolated rs

  -- a rule is violated exactly if it applies to records of this table
  abbrev pub AllJudged : ℤ → List (Rule p C) → Type 0
  AllJudged t [] = Unit
  AllJudged t (r ∷ rs) = (r.b_violated ≡ applies t r) × AllJudged t rs

  -- The calculators of the rules that apply to the table are evaluated in the order of the list, each
  -- in the context that the ones before left, from `c` to `c'`; all succeed.
  unfoldable pub AllTested : ℤ → List (Rule p C) → C → List (Rule p C) → C → Type 0
  AllTested t [] c [] c' = c' ≡ c
  AllTested t (r ∷ rs) c (r' ∷ rs') c' =
      (c₁ : C) × Tested (eqb_ℤ t r.l_rule_datasrc) r.pt_rule_calc c r'.pt_rule_calc c₁
      × AllTested t rs c₁ rs' c'
  AllTested t _ c _ c' = ⊥

  init-AllTested :
      (t : ℤ) (rs : List (Rule p C)) (c : C) (rs' : List (Rule p C)) (c' : C)
      → AllTested t (map rule_init rs) c rs' c'
      → AllTested t rs c rs' c'
  unfolding AllTested
  init-AllTested t [] c [] c' h = h
  init-AllTested t [] c (r' ∷ rs') c' h = h
  init-AllTested t (r ∷ rs) c [] c' h = h
  init-AllTested t (r ∷ rs) c (r' ∷ rs') c' (c₁, h, k) = (c₁, h, init-AllTested t rs c₁ rs' c' k)

  empty-AllTested :
      (t : ℤ) (rs : List (Rule p C)) (c : C) → length rs ≡ 0 → AllTested t rs c (map rule_init rs) c
  unfolding AllTested
  empty-AllTested t [] c e = refl
  empty-AllTested t (r ∷ rs) c e = absurd (omega (arith, e))

  NoneViolated-fired_count : (rs : List (Rule p C)) → NoneViolated rs → fired_count rs ≡ 0
  NoneViolated-fired_count [] h = refl
  NoneViolated-fired_count (r ∷ rs) h = rw h.0 (NoneViolated-fired_count rs h.1)

  NoneViolated-fired_weights :
      (rs : List (Rule p C)) (w : ℤ) → NoneViolated rs → fired_weights w rs ≡ w
  NoneViolated-fired_weights [] w h = refl
  NoneViolated-fired_weights (r ∷ rs) w h = rw h.0 (NoneViolated-fired_weights rs w h.1)

  init-NoneViolated : (rs : List (Rule p C)) → NoneViolated (map rule_init rs)
  init-NoneViolated [] = tt
  init-NoneViolated (r ∷ rs) = (refl, init-NoneViolated rs)

  init-def : (rs : List (Rule p C)) → map def (map rule_init rs) ≡ map def rs
  init-def [] = refl
  init-def (r ∷ rs) = ap (λ ds. def r ∷ ds) (init-def rs)

  length-def : (rs rs' : List (Rule p C)) → map def rs ≡ map def rs' → length rs ≡ length rs'
  length-def rs rs' e = sym (length-map def rs) ∙ ap length e ∙ length-map def rs'

  empty-AllJudged : (t : ℤ) (rs : List (Rule p C)) → length rs ≡ 0 → AllJudged t rs
  empty-AllJudged t [] e = tt
  empty-AllJudged t (r ∷ rs) e = absurd (omega (arith, e))

module _ {p : Platform} (declared : Kind → ℤ → KrType) {C : Type 0} where
  abbrev pub RulesOk : List (Rule p C) → Type 0
  RulesOk [] = Unit
  RulesOk (r ∷ rs) = RuleOk declared r × RulesOk rs

  init-RulesOk : (rs : List (Rule p C)) → RulesOk rs → RulesOk (map rule_init rs)
  init-RulesOk [] h = tt
  init-RulesOk (r ∷ rs) h = (h.0, init-RulesOk rs h.1)

  -- what the loop makes of the rules `rs` and the totals `n` and `w`
  abbrev Totalled : ℤ → List (Rule p C) → C → ℕ → ℤ → List (Rule p C) × ℕ × ℤ × C × Bool → Type 0
  Totalled t rs c n w (rs', n', w', c', good) =
      RulesOk rs'
      × (map def rs' ≡ map def rs)
      × (n' ≡ n + fired_count rs')
      × (w' ≡ fired_weights w rs')
      × (good ≡ true → AllJudged t rs' × AllTested t rs c rs' c')

  after_rule-Defined :
      (t : ℤ) (a : Answer) (r r' : Rule p C) (rs : List (Rule p C))
      (later : ℕ → ℤ → C → Run (List (Rule p C) × ℕ × ℤ × C × Bool)) (n : ℕ) (w : ℤ) (before c : C)
      → Detected declared t r before r' c a
      → RulesOk rs
      → NoneViolated rs
      → ((n : ℕ) (w : ℤ) (c : C) → Defined (Totalled t rs c n w) (later n w c))
      → Defined (Totalled t (r ∷ rs) before n w) (after_rule a r' rs later n w c)
  unfolding after_rule AllTested
  after_rule-Defined t fired r r' rs later n w b c d h v next =
      Defined-bind _ _ (add_long w r'.l_rule_weight) _ (add_long-Defined w r'.l_rule_weight) λ w₁ e.
        Defined-bind _ _ (later (suc n) w₁ c) _ (next (suc n) w₁ c) λ q g. (
          (d.0, g.0),
          ∷-eq d.1 g.1,
          rw d.2 (omega (arith, g.2)),
          rw (d.2, sym e) g.3,
          λ k. (((d.3 (λ x. cc)).0, (g.4 k).0), (c, (d.3 (λ x. cc)).1, (g.4 k).1)),
        )
  after_rule-Defined t quiet r r' rs later n w b c d h v next =
      Defined-bind _ _ (later n w c) _ (next n w c) λ q g. (
        (d.0, g.0),
        ∷-eq d.1 g.1,
        rw d.2 g.2,
        rw d.2 g.3,
        λ k. (((d.3 (λ x. cc)).0, (g.4 k).0), (c, (d.3 (λ x. cc)).1, (g.4 k).1)),
      )
  after_rule-Defined t failed r r' rs later n w b c d h v next = (
    (d.0, h),
    ∷-eq d.1 refl,
    rw (d.2, NoneViolated-fired_count rs v) (omega arith),
    rw (d.2, NoneViolated-fired_weights rs w v) refl,
    λ k. cc,
  )

  detect_rules-Defined :
      (t : ℤ) (rs : List (Rule p C)) (n : ℕ) (w : ℤ) (c : C)
      → RulesOk rs
      → NoneViolated rs
      → Defined (Totalled t rs c n w) (detect_rules t rs n w c)
  unfolding detect_rules AllTested
  detect_rules-Defined t [] n w c h v = (tt, refl, omega arith, refl, λ k. (tt, refl))
  detect_rules-Defined t (r ∷ rs) n w c h v =
      Defined-bind _ _ (rule_detect t r c) _ (rule_detect-Defined declared t r c h.0) λ q d.
        after_rule-Defined t q.2 r q.0 rs (detect_rules t rs) n w c q.1 d h.1 v.1
          (λ n w c. detect_rules-Defined t rs n w c h.1 v.1)

  abbrev pub RuleListOk : RuleList p C → Type 0
  RuleListOk l = RulesOk l.pt_rule_list × (l.l_rule_cnt ≡ length l.pt_rule_list)

  -- the totals of the list `l'` are those of its violated rules, and its rules are those of `l`
  abbrev pub Accounted : RuleList p C → RuleList p C → Type 0
  Accounted l l' =
      RuleListOk l'
      × (map def l'.pt_rule_list ≡ map def l.pt_rule_list)
      × (l'.l_fired_rules ≡ fired_count l'.pt_rule_list)
      × (l'.l_fired_weights ≡ fired_weights (pos 0) l'.pt_rule_list)

  -- Detecting the rules of a list, counted rightly, whose calculators are sound is defined but for
  -- an overflow or an undefined remainder. Whether it succeeds or fails on the way, the number and
  -- the weight of the fired rules are those of the rules that are marked as violated, and no rule is
  -- lost or gets another weight. If it succeeds, the calculator of each rule that reads this table was
  -- evaluated, in the order of the list, each in the context that the ones before left; what that
  -- evaluation made of it is the calculator of the rule now, and the rule is marked exactly if its root
  -- is set, of type bool and true. Other rules keep their calculators and are not marked.
  pub rule_list_detect-Accounted :
      (l : RuleList p C) (t : ℤ) (c : C)
      → RuleListOk l
      → Defined
          (λ (l', c', good).
            Accounted l l'
            × When good
                (AllJudged t l'.pt_rule_list × AllTested t l.pt_rule_list c l'.pt_rule_list c'))
          (rule_list_detect l (some t) c)
  unfolding rule_list_detect
  rule_list_detect-Accounted l t c h = elim (Bool-cases (l.l_rule_cnt == 0)) [
    | inl e ↦
        let rs = map rule_init l.pt_rule_list in
        let none' = init-NoneViolated l.pt_rule_list in
        let empty : length l.pt_rule_list ≡ 0 = ground (arith, h.1, e) in
        rw e (
          (
            (init-RulesOk l.pt_rule_list h.0, h.1 ∙ sym (length-map rule_init l.pt_rule_list)),
            init-def l.pt_rule_list,
            sym (NoneViolated-fired_count rs none'),
            sym (NoneViolated-fired_weights rs (pos 0) none'),
          ),
          (
            empty-AllJudged t rs (length-map rule_init l.pt_rule_list ∙ empty),
            empty-AllTested t l.pt_rule_list c empty,
          ),
        )
    | inr e ↦ rw e (
        Defined-bind _ _ (detect_rules t (map rule_init l.pt_rule_list) 0 (pos 0) c) _
          (detect_rules-Defined t (map rule_init l.pt_rule_list) 0 (pos 0) c
            (init-RulesOk l.pt_rule_list h.0) (init-NoneViolated l.pt_rule_list))
          (λ q g.
            let same = g.1 ∙ init-def l.pt_rule_list in
            (
              (
                (g.0, h.1 ∙ sym (length-def q.0 l.pt_rule_list same)),
                same,
                omega (arith, g.2),
                g.3,
              ),
              When-intro q.4
                  (λ k. ((g.4 k).0, init-AllTested t l.pt_rule_list c q.0 q.3 (g.4 k).1)),
            )))
  ]
