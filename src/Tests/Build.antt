-- ===== src/Tests/Build.antt =====
-- Building sample groups. The text `a` parses, to item 7 >= 5, and no other does.
use krproject.Base.{
  ℕ, ◌≡◌, ◌≢◌, refl, ◌⊎◌, none, some, List, [], ◌∷◌, fault, null_read, length, ◌==◌, if◌then◌else◌,
}
use krproject.Base.Int.{pos}
use krproject.Platform.{KrType}
use krproject.Engine.{GroupList, rule_detect}
use krproject.Engine.Build.{
  Maker, RuleDef, GroupDef, rule_construct, group_list_construct, AllBuild, AllDescribe,
  group_list_construct-AllBuild, rule_construct_unparsed,
}
use krproject.Tests.Sample.{small, read, at_least_five}

abbrev maker : Maker small ℕ
maker = record {
  parse = λ text. if text == b'a' then some at_least_five else none;
  get_type_func = λ a id n. KrType.int;
  get_value_func = read;
  null_param = 0;
  new_table = [];
}

abbrev rule_def : ℕ → RuleDef small
rule_def text = record {
  l_rule_id = pos 1;
  l_rule_weight = pos 10;
  l_rule_datasrc = pos 1;
  text = text;
}

abbrev group_defs : List (GroupDef small)
group_defs =
    record { l_group_id = pos 4; text = b'a'; rules = rule_def b'a' ∷ rule_def b'b' ∷ [] } ∷ []

group_list_construct-AllBuild_example :
    (group_defs ≢ [])
      × AllBuild maker group_defs
      × ((l : GroupList small ℕ) × (group_list_construct maker group_defs ≡ some l)
          × AllDescribe maker group_defs l.pt_group_list
          × (l.l_group_cnt ≡ length group_defs))
    ⊎ (¬ ((group_defs ≢ []) × AllBuild maker group_defs))
      × (group_list_construct maker group_defs ≡ none)
group_list_construct-AllBuild_example = group_list_construct-AllBuild maker group_defs

rule_construct_unparsed_example :
    rule_detect (pos 1) (rule_construct maker (rule_def b'b')) 0 ≡ fault null_read
rule_construct_unparsed_example = rule_construct_unparsed maker (rule_def b'b') 0 refl
