-- ===== src/Engine/Groups.antt =====
-- `kr_engine_detect` of krengine/kr_engine_detect.c.
use mathlib.Core.Path.{subst}
use krproject.Base.{
  ◌≡◌, ◌≢◌, refl, ok, ℕ, suc, Bool, true, false, Option, some, List, [], ◌∷◌, map, Run, Defined,
  Defined-bind, When, When-intro, When-elim, ∷-eq, ap, sym, ◌∙◌, length-map, length, arith,
  if◌then◌else◌, ◌==◌,
}
use krproject.Base.Int.{ℤ}
use krproject.Platform.{Platform, KrType}
use krproject.Calc.{Kind}
use krproject.Calc.Object.{calc_eval}
use krproject.Engine.{
  Group, Context, Answer, fired, quiet, failed, answer, group_match, after_group, detect_groups,
  engine_detect, rule_list_detect,
}
use krproject.Engine.Sound.{verdict, CalcOk, Answers, calc_eval-Ran, answer-Ran, answer_good}
use krproject.Engine.Rules.{RuleListOk, AllJudged, AllTested, rule_list_detect-Accounted}

module _ {p : Platform} {C : Type 0} where
  -- The position of the first group whose calculator holds, counted from `i`; `old` if there is none.
  abbrev pub first_match : ℕ → Option ℕ → List (Group p C) → Option ℕ
  first_match i old [] = old
  first_match i old (g ∷ gs) =
      if verdict g.pt_group_calc then some i else first_match (suc i) old gs

  -- The calculators of the groups are evaluated in the order of the list, each in the context that the
  -- one before left, and each evaluation succeeds, up to the first one whose result holds. Its group,
  -- at the position that is counted from `i`, becomes the route `new`; its rules are tested in the
  -- context from then on, and the groups after it stay as they were. If none holds, the route is `old`.
  unfoldable pub Selected :
      ℤ → ℕ → Option ℕ → List (Group p C) → C → List (Group p C) → Option ℕ → C → Type 0
  Selected t i old [] c [] new c' = (new ≡ old) × (c' ≡ c)
  Selected t i old (g ∷ gs) c (g' ∷ gs') new c' =
      (c₁ : C) × (calc_eval g.pt_group_calc c ≡ ok (g'.pt_group_calc, c₁, true))
      × (if verdict g'.pt_group_calc
          then (new ≡ some i)
            × AllJudged t g'.pt_rule_list.pt_rule_list
            × AllTested t g.pt_rule_list.pt_rule_list c₁ g'.pt_rule_list.pt_rule_list c'
            × (gs' ≡ gs)
          else (g'.pt_rule_list ≡ g.pt_rule_list) × Selected t (suc i) old gs c₁ gs' new c')
  Selected t i old _ c _ new c' = ⊥

  length-ids :
      (gs gs' : List (Group p C))
      → map (λ g. g.l_group_id) gs ≡ map (λ g. g.l_group_id) gs'
      → length gs ≡ length gs'
  length-ids gs gs' e =
      sym (length-map (λ g. g.l_group_id) gs) ∙ ap length e ∙ length-map (λ g. g.l_group_id) gs'

module _ {p : Platform} (declared : Kind → ℤ → KrType) {C : Type 0} where
  abbrev pub GroupOk : Group p C → Type 0
  GroupOk g = CalcOk declared g.pt_group_calc × RuleListOk declared g.pt_rule_list

  abbrev pub GroupsOk : List (Group p C) → Type 0
  GroupsOk [] = Unit
  GroupsOk (g ∷ gs) = GroupOk g × GroupsOk gs

  -- what the loop makes of the groups `gs`
  abbrev Routed :
      ℤ → List (Group p C) → C → ℕ → Option ℕ → List (Group p C) × Option ℕ × C × Bool → Type 0
  Routed t gs c i old (gs', new, c', good) =
      GroupsOk gs'
      × (map (λ g. g.l_group_id) gs' ≡ map (λ g. g.l_group_id) gs)
      × (good ≡ true → (new ≡ first_match i old gs') × Selected t i old gs c gs' new c')

  -- the group `g` after its match, which the context `c` enters and `c'` leaves
  abbrev Matched : Group p C → C → Group p C → C → Answer → Type 0
  Matched g c g' c' a =
      GroupOk g'
      × (g'.l_group_id ≡ g.l_group_id)
      × Answers declared g'.pt_group_calc a
      × (g'.pt_rule_list ≡ g.pt_rule_list)
      × (a ≢ failed → calc_eval g.pt_group_calc c ≡ ok (g'.pt_group_calc, c', true))

  group_match-Defined :
      (g : Group p C) (c : C) → GroupOk g → Defined (λ q. Matched g c q.0 q.1 q.2) (group_match g c)
  unfolding group_match
  group_match-Defined g c h =
      Defined-bind _ _ (calc_eval g.pt_group_calc c) _
        (calc_eval-Ran declared g.pt_group_calc c h.0)
        λ q (k, ran).
          Defined-bind _ _ (answer q.0 q.2) _ (answer-Ran declared q.0 q.2 k) λ a (f, given). (
            (k, h.1),
            refl,
            f,
            refl,
            λ ne. ran ∙ ap (λ b. ok (q.0, q.1, b)) (answer_good declared q.0 q.2 a given ne),
          )

  after_group-Defined :
      (t : ℤ) (a : Answer) (g g' : Group p C) (gs : List (Group p C))
      (later : C → Run (List (Group p C) × Option ℕ × C × Bool)) (i : ℕ) (old : Option ℕ)
      (before c : C)
      → Matched g before g' c a
      → GroupsOk gs
      → ((c : C) → Defined (Routed t gs c (suc i) old) (later c))
      → Defined (Routed t (g ∷ gs) before i old) (after_group (some t) a g' gs later i old c)
  unfolding after_group Selected
  after_group-Defined t fired g g' gs later i old b c d h next =
      Defined-bind _ _ (rule_list_detect g'.pt_rule_list (some t) c) _
        (rule_list_detect-Accounted declared g'.pt_rule_list t c d.0.1)
        λ q k. (
          ((d.0.0, k.0.0), h),
          ∷-eq d.1 refl,
          λ e.
              let (judged, tested) = When-elim q.2 k.1 e in
              let was = subst (λ l. AllTested t l.pt_rule_list c q.0.pt_rule_list q.1) d.3 tested in
              rw d.2 (refl, (c, d.4 (λ x. cc), (refl, judged, was, refl))),
        )
  after_group-Defined t quiet g g' gs later i old b c d h next =
      Defined-bind _ _ (later c) _ (next c) λ q k.
        ((d.0, k.0), ∷-eq d.1 k.1, λ e. rw d.2 ((k.2 e).0, (c, d.4 (λ x. cc), (d.3, (k.2 e).1))))
  after_group-Defined t failed g g' gs later i old b c d h next = ((d.0, h), ∷-eq d.1 refl, λ e. cc)

  detect_groups-Defined :
      (t : ℤ) (gs : List (Group p C)) (i : ℕ) (old : Option ℕ) (c : C)
      → GroupsOk gs
      → Defined (Routed t gs c i old) (detect_groups (some t) gs i old c)
  unfolding detect_groups Selected
  detect_groups-Defined t [] i old c h = (tt, refl, λ e. (refl, (refl, refl)))
  detect_groups-Defined t (g ∷ gs) i old c h =
      Defined-bind _ _ (group_match g c) _ (group_match-Defined g c h.0) λ q d.
        after_group-Defined t q.2 g q.0 gs (detect_groups (some t) gs (suc i) old) i old c q.1 d h.1
          (λ c. detect_groups-Defined t gs (suc i) old c h.1)

  -- a context with a record of the table `t` and with sound groups
  abbrev pub Ready : ℤ → List (Group p C) → Context p C → Type 0
  Ready t gs x =
      (x.table_id ≡ some t)
      × (x.grouplist ≡ some (record { l_group_cnt = length gs; pt_group_list = gs }))
      × GroupsOk gs

  -- Detection in a context that has a current record and sound groups, counted rightly, is defined
  -- but for an overflow or an undefined remainder, and leaves such a context, with groups of the
  -- same identifiers. If it succeeds, the calculators of the groups were evaluated in their order, each
  -- in the context that the one before left, up to the first whose result holds (its root is set, of
  -- type bool and true), and the record is routed to the group of that one (the route is the old one if
  -- there is none). The calculators of the rules of that group that read this table were then evaluated
  -- in the same way, and its rules are marked exactly if they read this table and what the evaluation
  -- gave holds. The groups after it, and the rules of those before it, are as they were.
  pub engine_detect-Routed :
      (x : Context p C) (t : ℤ) (gs : List (Group p C))
      → Ready t gs x
      → Defined
          (λ (x', good).
            (gs' : List (Group p C)) × Ready t gs' x'
            × (map (λ g. g.l_group_id) gs' ≡ map (λ g. g.l_group_id) gs)
            × When good (
                (x'.pt_group ≡ first_match 0 x.pt_group gs')
                × Selected t 0 x.pt_group gs x.rest gs' x'.pt_group x'.rest))
          (engine_detect x)
  unfolding engine_detect Selected
  engine_detect-Routed x t [] h = rw (h.0, h.1) ([], (refl, h.1, tt), refl, (refl, (refl, refl)))
  engine_detect-Routed x t (g ∷ gs) h =
      let some' : (suc (length gs) == 0) ≡ false = ground arith in
      rw (h.0, h.1, some')
        (Defined-bind _ _ (detect_groups (some t) (g ∷ gs) 0 x.pt_group x.rest) _
          (detect_groups-Defined t (g ∷ gs) 0 x.pt_group x.rest h.2)
          (λ q k. (
            q.0,
            (
              refl,
              ap (λ n. some (record { l_group_cnt = n; pt_group_list = q.0 }))
                  (sym (length-ids q.0 (g ∷ gs) k.1)),
              k.0,
            ),
            k.1,
            When-intro q.3 k.2,
          )))
