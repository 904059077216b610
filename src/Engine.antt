-- ===== src/Engine.antt =====
-- krengine/kr_engine_detect.c with the rules and groups of krparam/kr_dym_rule.c, kr_dym_group.c: a
-- record is routed to the first group that matches, and the rules of this group are evaluated.
pub mod Sound
pub mod Rules
pub mod Groups
pub mod Build
use krproject.Base.{
  ℕ, suc, Bool, true, false, not, Option, none, some, List, [], ◌∷◌, map, Run, ok, fault, null_read,
  ◌==◌, if◌then◌else◌, ◌>>=◌,
}
use krproject.Base.Int.{ℤ, pos, eqb_ℤ, add_long}
use krproject.Platform.{Platform}
use krproject.Calc.Object.{Calculator, calc_eval, holds}

-- `T_KRRule`. `ptRuleCalc` is null where the rule's text did not parse. `lRuleDatasrc` is that of
-- `ptShmRuleDef`.
pub record Rule (p : Platform) (C : Type 0) : Type 0 where
  pub l_rule_id : ℤ
  pub l_rule_weight : ℤ
  pub l_rule_datasrc : ℤ
  pub pt_rule_calc : Option (Calculator p C)
  pub b_violated : Bool
  pub pt_related : p.Table

-- `T_KRRuleList`
pub record RuleList (p : Platform) (C : Type 0) : Type 0 where
  pub pt_rule_list : List (Rule p C)
  pub l_rule_cnt : ℕ
  pub l_fired_rules : ℕ
  pub l_fired_weights : ℤ

-- `T_KRGroup`
pub record Group (p : Platform) (C : Type 0) : Type 0 where
  pub l_group_id : ℤ
  pub pt_group_calc : Calculator p C
  pub pt_rule_list : RuleList p C

-- `T_KRGroupList`
pub record GroupList (p : Platform) (C : Type 0) : Type 0 where
  pub l_group_cnt : ℕ
  pub pt_group_list : List (Group p C)

-- `T_KRContext` as far as detection reads it: the table of the current record, null where there is
-- none; the groups; the group that the record was routed to, by its position; the rest.
pub record Context (p : Platform) (C : Type 0) : Type 0 where
  pub table_id : Option ℤ
  pub grouplist : Option (GroupList p C)
  pub pt_group : Option ℕ
  pub rest : C

-- 1, 0 and -1
pub data Answer : Type 0 where
  fired quiet failed : Answer

abbrev pub is_fired : Answer → Bool
is_fired fired = true
is_fired _ = false

module _ {p : Platform} {C : Type 0} where
  -- `kr_rule_init`
  abbrev pub rule_init : Rule p C → Rule p C
  rule_init krrule = record krrule {
    b_violated = false;
    pt_related = p.table_remove_all krrule.pt_related;
  }

  -- `kr_rule_list_init`
  abbrev pub rule_list_init : RuleList p C → RuleList p C
  rule_list_init l = record l {
    l_fired_rules = 0;
    l_fired_weights = pos 0;
    pt_rule_list = map rule_init l.pt_rule_list;
  }

  -- the answer of a calculator that was evaluated
  unfoldable pub answer : Calculator p C → Bool → Run Answer
  unfolding holds
  answer krcalc good =
      if good then holds krcalc >>= (λ b. ok (if b then fired else quiet)) else ok failed

  -- `kr_rule_detect` after the test of the data source
  unfoldable pub rule_eval : Option (Calculator p C) → Rule p C → C → Run (Rule p C × C × Answer)
  unfolding calc_eval answer
  rule_eval none krrule c = fault null_read
  rule_eval (some krcalc) krrule c = do
    (krcalc', c', good) ← calc_eval krcalc c
    a ← answer krcalc' good
    ok (record krrule { pt_rule_calc = some krcalc'; b_violated = is_fired a }, c', a)

  -- `kr_rule_detect`
  unfoldable pub rule_detect : ℤ → Rule p C → C → Run (Rule p C × C × Answer)
  unfolding rule_eval
  rule_detect table_id krrule c =
      let initial = rule_init krrule in
      if not (eqb_ℤ table_id initial.l_rule_datasrc)
      then ok (initial, c, quiet)
      else rule_eval initial.pt_rule_calc initial c

  -- what the loop of `kr_rule_list_detect` does with the answer of a rule; `later` is the loop over
  -- the rules `rs` that follow
  unfoldable pub after_rule :
      Answer
      → Rule p C
      → List (Rule p C)
      → (ℕ → ℤ → C → Run (List (Rule p C) × ℕ × ℤ × C × Bool))
      → ℕ
      → ℤ
      → C
      → Run (List (Rule p C) × ℕ × ℤ × C × Bool)
  after_rule fired r rs later n w c = do
    w₁ ← add_long w r.l_rule_weight
    (rs', n', w', c', good) ← later (suc n) w₁ c
    ok (r ∷ rs', n', w', c', good)
  after_rule quiet r rs later n w c = do
    (rs', n', w', c', good) ← later n w c
    ok (r ∷ rs', n', w', c', good)
  after_rule failed r rs later n w c = ok (r ∷ rs, n, w, c, false)

  -- this loop, with `lFiredRules` and `lFiredWeights`
  unfoldable pub detect_rules :
      ℤ → List (Rule p C) → ℕ → ℤ → C → Run (List (Rule p C) × ℕ × ℤ × C × Bool)
  unfolding rule_detect after_rule
  detect_rules table_id [] n w c = ok ([], n, w, c, true)
  detect_rules table_id (r ∷ rs) n w c =
      let later = detect_rules table_id rs in
      rule_detect table_id r c >>= (λ (r', c', a). after_rule a r' rs later n w c')

  -- `kr_rule_list_detect`
  unfoldable pub rule_list_detect : RuleList p C → Option ℤ → C → Run (RuleList p C × C × Bool)
  unfolding detect_rules
  rule_list_detect l table_id c =
      let initial = rule_list_init l in
      if initial.l_rule_cnt == 0 then ok (initial, c, true) else elim table_id [
        | none ↦ ok (initial, c, false)
        | some t ↦ do
          (rs, n, w, c', good) ← detect_rules t initial.pt_rule_list 0 (pos 0) c
          ok (
            record initial { pt_rule_list = rs; l_fired_rules = n; l_fired_weights = w },
            c',
            good,
          )
      ]

  -- `kr_group_match`
  unfoldable pub group_match : Group p C → C → Run (Group p C × C × Answer)
  unfolding calc_eval answer
  group_match g c = do
    (krcalc', c', good) ← calc_eval g.pt_group_calc c
    a ← answer krcalc' good
    ok (record g { pt_group_calc = krcalc' }, c', a)

  -- what the loop of `kr_engine_detect` does with the answer of the group at the position `i`;
  -- `later` is the loop over the groups `gs` that follow, `pt_group` the group so far
  unfoldable pub after_group :
      Option ℤ
      → Answer
      → Group p C
      → List (Group p C)
      → (C → Run (List (Group p C) × Option ℕ × C × Bool))
      → ℕ
      → Option ℕ
      → C
      → Run (List (Group p C) × Option ℕ × C × Bool)
  unfolding rule_list_detect
  after_group table_id fired g gs later i pt_group c = do
    (l, c', good) ← rule_list_detect g.pt_rule_list table_id c
    ok (record g { pt_rule_list = l } ∷ gs, some i, c', good)
  after_group table_id quiet g gs later i pt_group c = do
    (gs', pt_group', c', good) ← later c
    ok (g ∷ gs', pt_group', c', good)
  after_group table_id failed g gs later i pt_group c = ok (g ∷ gs, pt_group, c, false)

  -- this loop
  unfoldable pub detect_groups :
      Option ℤ → List (Group p C) → ℕ → Option ℕ → C → Run (List (Group p C) × Option ℕ × C × Bool)
  unfolding group_match after_group
  detect_groups table_id [] i pt_group c = ok ([], pt_group, c, true)
  detect_groups table_id (g ∷ gs) i pt_group c =
      let later = detect_groups table_id gs (suc i) pt_group in
      group_match g c >>= (λ (g', c', a). after_group table_id a g' gs later i pt_group c')

  -- `kr_engine_detect`
  unfoldable pub engine_detect : Context p C → Run (Context p C × Bool)
  unfolding detect_groups
  engine_detect x = elim x.table_id [
    | none ↦ ok (x, false)
    | some t ↦ elim x.grouplist [
      | none ↦ ok (x, false)
      | some l ↦ if l.l_group_cnt == 0 then ok (x, true) else (do
        (gs, pt_group, c, good) ← detect_groups (some t) l.pt_group_list 0 x.pt_group x.rest
        ok (
          record x {
            grouplist = some (record l { pt_group_list = gs });
            pt_group = pt_group;
            rest = c;
          },
          good,
        ))
    ]
  ]
