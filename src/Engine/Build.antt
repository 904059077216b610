-- ===== src/Engine/Build.antt =====
-- Building rules and groups from their definitions: `kr_calc_construct` of krcalc/kr_calc.c and the
-- constructors of krparam/kr_dym_rule.c and kr_dym_group.c. Memory is there; the parser
-- `kr_calc_parse` is a parameter, as are the callbacks, the null `calc_param` and a new hash table.
use krproject.Base.{
  ◌≡◌, ◌≢◌, refl, ap, sym, ◌⊎◌, inl, inr, false, Option, none, some, List, [], ◌∷◌, map, Run, fault,
  null_read, length, Option-cases,
}
use krproject.Base.Int.{ℤ, pos, eqb_ℤ_refl}
use krproject.Platform.{Platform, KrType, Val}
use krproject.Calc.{Kind, Tree, no_error}
use krproject.Calc.Object.{Calculator}
use krproject.Engine.{Rule, RuleList, Group, GroupList, rule_detect, rule_eval}

infixl 5 ◌>>=◌
-- a constructor that fails makes its caller fail
abbrev ◌>>=◌ {ℓ κ} : {A : Type ℓ} {B : Type κ} → Option A → (A → Option B) → Option B
none >>= next = none
some a >>= next = next a

-- `T_KRShmRuleDef`; the text stands for its format and its string
pub record RuleDef (p : Platform) : Type 0 where
  pub l_rule_id : ℤ
  pub l_rule_weight : ℤ
  pub l_rule_datasrc : ℤ
  pub text : p.Str

-- `T_KRShmGroupDef` with the `lRuleDefCnt` rules of its `stShmRule`
pub record GroupDef (p : Platform) : Type 0 where
  pub l_group_id : ℤ
  pub text : p.Str
  pub rules : List (RuleDef p)

-- what the constructors are given
pub record Maker (p : Platform) (C : Type 0) : Type 0 where
  pub parse : p.Str → Option (Tree p)
  pub get_type_func : Kind → ℤ → C → KrType
  pub get_value_func : Kind → ℤ → C → Run (Option (Val p) × C)
  pub null_param : C
  pub new_table : p.Table

module _ {p : Platform} {C : Type 0} (m : Maker p C) where
  -- `kr_calc_construct`
  unfoldable pub calc_construct : p.Str → Option (Calculator p C)
  calc_construct text = elim (m.parse text) [
    | none ↦ none
    | some t ↦ some (record {
      calc_tree = t;
      state = record {
        get_type_cb = m.get_type_func;
        get_value_cb = m.get_value_func;
        calc_param = m.null_param;
        calc_status = pos 0;
        calc_errmsg = no_error;
      };
    })
  ]

  -- `kr_rule_construct`
  unfoldable pub rule_construct : RuleDef p → Rule p C
  rule_construct def = record {
    l_rule_id = def.l_rule_id;
    l_rule_weight = def.l_rule_weight;
    l_rule_datasrc = def.l_rule_datasrc;
    pt_rule_calc = calc_construct def.text;
    b_violated = false;
    pt_related = m.new_table;
  }

  -- `kr_rule_list_construct`
  unfoldable pub rule_list_construct : List (RuleDef p) → Option (RuleList p C)
  rule_list_construct [] = none
  rule_list_construct (d ∷ ds) = some (record {
    pt_rule_list = map rule_construct (d ∷ ds);
    l_rule_cnt = length (d ∷ ds);
    l_fired_rules = 0;
    l_fired_weights = pos 0;
  })

  -- `kr_group_construct`
  unfoldable pub group_construct : GroupDef p → Option (Group p C)
  group_construct def = do
    krcalc ← calc_construct def.text
    rules ← rule_list_construct def.rules
    some (record { l_group_id = def.l_group_id; pt_group_calc = krcalc; pt_rule_list = rules })

  -- the loop of `kr_group_list_construct`: the first group that fails ends it
  unfoldable pub construct_groups : List (GroupDef p) → Option (List (Group p C))
  construct_groups [] = some []
  construct_groups (d ∷ ds) =
      let later = construct_groups ds in do g ← group_construct d; gs ← later; some (g ∷ gs)

  -- `kr_group_list_construct`
  unfoldable pub group_list_construct : List (GroupDef p) → Option (GroupList p C)
  group_list_construct [] = none
  group_list_construct (d ∷ ds) = do
    gs ← construct_groups (d ∷ ds)
    some (record { l_group_cnt = length (d ∷ ds); pt_group_list = gs })

  -- the definitions whose group can be built: the text parses, and there is a rule
  abbrev pub Builds : GroupDef p → Type 0
  Builds d = (krcalc : Calculator p C) × (calc_construct d.text ≡ some krcalc) × (d.rules ≢ [])

  abbrev pub AllBuild : List (GroupDef p) → Type 0
  AllBuild [] = Unit
  AllBuild (d ∷ ds) = Builds d × AllBuild ds

  -- a group is the one that the definition describes
  abbrev pub Describes : GroupDef p → Group p C → Type 0
  Describes d g =
      (g.l_group_id ≡ d.l_group_id)
      × (calc_construct d.text ≡ some g.pt_group_calc)
      × (g.pt_rule_list.pt_rule_list ≡ map rule_construct d.rules)
      × (g.pt_rule_list.l_rule_cnt ≡ length d.rules)

  abbrev pub AllDescribe : List (GroupDef p) → List (Group p C) → Type 0
  AllDescribe [] [] = Unit
  AllDescribe (d ∷ ds) (g ∷ gs) = Describes d g × AllDescribe ds gs
  AllDescribe _ _ = ⊥

  with_rules :
      (d : GroupDef p) (krcalc : Calculator p C) (rules : List (RuleDef p))
      → d.rules ≡ rules
      → calc_construct d.text ≡ some krcalc
      → Builds d × ((g : Group p C) × (group_construct d ≡ some g) × Describes d g)
        ⊎ (¬ Builds d) × (group_construct d ≡ none)
  unfolding group_construct rule_list_construct
  with_rules d krcalc [] e c = inr ((λ b. b.2 e), rw (c, e) refl)
  with_rules d krcalc (r ∷ rs) e c =
      let g : Group p C = record {
        l_group_id = d.l_group_id;
        pt_group_calc = krcalc;
        pt_rule_list = record {
          pt_rule_list = map rule_construct (r ∷ rs);
          l_rule_cnt = length (r ∷ rs);
          l_fired_rules = 0;
          l_fired_weights = pos 0;
        };
      } in
      inl (
        (krcalc, c, λ n. cc),
        (g, rw (c, e) refl, (refl, c, ap (map rule_construct) (sym e), ap length (sym e))),
      )

  group_construct-Builds :
      (d : GroupDef p)
      → Builds d × ((g : Group p C) × (group_construct d ≡ some g) × Describes d g)
        ⊎ (¬ Builds d) × (group_construct d ≡ none)
  unfolding group_construct
  group_construct-Builds d = elim (Option-cases (calc_construct d.text)) [
    | inl e ↦ inr ((λ b. cc), rw e refl)
    | inr (krcalc, e) ↦ with_rules d krcalc d.rules refl e
  ]

  construct_groups-AllBuild :
      (ds : List (GroupDef p))
      → AllBuild ds
          × ((gs : List (Group p C)) × (construct_groups ds ≡ some gs) × AllDescribe ds gs)
        ⊎ (¬ AllBuild ds) × (construct_groups ds ≡ none)
  unfolding construct_groups
  construct_groups-AllBuild [] = inl (tt, ([], refl, tt))
  construct_groups-AllBuild (d ∷ ds) = elim (group_construct-Builds d) [
    | inr (bad, e) ↦ inr ((λ b. bad b.0), rw e refl)
    | inl (good, (g, e, h)) ↦ elim (construct_groups-AllBuild ds) [
      | inr (bad, e') ↦ inr ((λ b. bad b.1), rw (e, e') refl)
      | inl (rest, (gs, e', hs)) ↦ inl ((good, rest), (g ∷ gs, rw (e, e') refl, (h, hs)))
    ]
  ]

  -- Building the list of groups succeeds exactly if there is a group, the text of every group parses
  -- and every group has a rule. Then it has the groups of the definitions, in their order, each with
  -- its rules in their order, and the counts are the numbers of groups and of rules; otherwise there
  -- is no list.
  pub group_list_construct-AllBuild :
      (ds : List (GroupDef p))
      → (ds ≢ [])
          × AllBuild ds
          × ((l : GroupList p C) × (group_list_construct ds ≡ some l)
              × AllDescribe ds l.pt_group_list
              × (l.l_group_cnt ≡ length ds))
        ⊎ (¬ ((ds ≢ []) × AllBuild ds)) × (group_list_construct ds ≡ none)
  unfolding group_list_construct
  group_list_construct-AllBuild [] = inr ((λ b. b.0 refl), refl)
  group_list_construct-AllBuild (d ∷ ds) = elim (construct_groups-AllBuild (d ∷ ds)) [
    | inr (bad, e) ↦ inr ((λ b. bad b.1), rw e refl)
    | inl (good, (gs, e, h)) ↦
        let l : GroupList p C = record { l_group_cnt = length (d ∷ ds); pt_group_list = gs } in
        inl ((λ n. cc), good, (l, rw e refl, h, refl))
  ]

  calc_construct_unparsed : (text : p.Str) → m.parse text ≡ none → calc_construct text ≡ none
  unfolding calc_construct
  calc_construct_unparsed text e = rw (calc_construct, e) refl

  -- A rule whose text does not parse is built all the same: detecting it for a record of its table
  -- reads a null pointer.
  pub rule_construct_unparsed :
      (d : RuleDef p) (c : C)
      → m.parse d.text ≡ none
      → rule_detect d.l_rule_datasrc (rule_construct d) c ≡ fault null_read
  unfolding rule_detect rule_construct rule_eval
  rule_construct_unparsed d c e =
      let bad : calc_construct d.text ≡ none = calc_construct_unparsed d.text e in
      rw (eqb_ℤ_refl d.l_rule_datasrc) (rw bad refl)
