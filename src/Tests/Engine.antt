-- ===== src/Tests/Engine.antt =====
-- Detection on sample rules and groups.
use krproject.Base.{ℕ, ◌≡◌, refl, false, none, some, List, [], ◌∷◌, map, Defined, When}
use krproject.Base.Int.{ℤ, pos}
use krproject.Calc.{Tree}
use krproject.Engine.{Rule, RuleList, Group, Context, rule_list_detect, engine_detect}
use krproject.Engine.Rules.{RuleListOk, Accounted, AllJudged, AllTested, rule_list_detect-Accounted}
use krproject.Engine.Groups.{Ready, first_match, Selected, engine_detect-Routed}
use krproject.Tests.Sample.{
  small, declared, calculator, at_least_five, either, calc-Serves, either-IsWellFormed,
  at_least_five-IsWellFormed,
}

abbrev rule : ℤ → ℤ → Tree small → Rule small ℕ
rule id weight t = record {
  l_rule_id = id;
  l_rule_weight = weight;
  l_rule_datasrc = pos 1;
  pt_rule_calc = some (calculator t);
  b_violated = false;
  pt_related = [];
}

abbrev rules : RuleList small ℕ
rules = record {
  pt_rule_list = rule (pos 1) (pos 10) at_least_five ∷ rule (pos 2) (pos 3) either ∷ [];
  l_rule_cnt = 2;
  l_fired_rules = 5;
  l_fired_weights = pos 5;
}

abbrev groups : List (Group small ℕ)
groups =
    record { l_group_id = pos 4; pt_group_calc = calculator at_least_five; pt_rule_list = rules }
    ∷ []

abbrev context : Context small ℕ
context = record {
  table_id = some (pos 1);
  grouplist = some (record { l_group_cnt = 1; pt_group_list = groups });
  pt_group = none;
  rest = 0;
}

rules-RuleListOk : RuleListOk declared rules
rules-RuleListOk = (
  (
    (calculator at_least_five, refl, (at_least_five-IsWellFormed, calc-Serves)),
    ((calculator either, refl, (either-IsWellFormed, calc-Serves)), tt),
  ),
  refl,
)

context-Ready : Ready declared (pos 1) groups context
context-Ready = (refl, refl, (((at_least_five-IsWellFormed, calc-Serves), rules-RuleListOk), tt))

rule_list_detect-Accounted_example :
    Defined
      (λ (l', c', good).
        Accounted declared rules l'
        × When good (
            AllJudged (pos 1) l'.pt_rule_list
            × AllTested (pos 1) rules.pt_rule_list 0 l'.pt_rule_list c'))
      (rule_list_detect rules (some (pos 1)) 0)
rule_list_detect-Accounted_example =
    rule_list_detect-Accounted declared rules (pos 1) 0 rules-RuleListOk

engine_detect-Routed_example :
    Defined
      (λ (x', good).
        (gs' : List (Group small ℕ)) × Ready declared (pos 1) gs' x'
        × (map (λ g. g.l_group_id) gs' ≡ map (λ g. g.l_group_id) groups)
        × When good (
            (x'.pt_group ≡ first_match 0 none gs')
            × Selected (pos 1) 0 none groups 0 gs' x'.pt_group x'.rest))
      (engine_detect context)
engine_detect-Routed_example = engine_detect-Routed declared context (pos 1) groups context-Ready
