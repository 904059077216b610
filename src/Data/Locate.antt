-- ===== src/Data/Locate.antt =====
-- Which record `kr_sdi_aggr_func` of krdata/kr_sdi_func.c takes its value from.
use mathlib.Core.Path.{subst}
use krproject.Base.{
  ap, ◌∙◌, ◌≡◌, refl, sym, ℕ, suc, Bool, true, false, not, ◌||◌, Option, none, some, List, [], ◌∷◌,
  ok, fault, Bool-cases, inl, inr, arith,
}
use krproject.Base.Int.{pos, eqb_ℤ, eqb_ℤ→eq, eqb_ℤ_refl}
use krproject.Platform.{Platform, KrType, Val}
use krproject.Calc.Outcome.{Exec, value, missing, error, crash}
use krproject.Calc.Object.{Calculator}
use krproject.Data.{Record, Scope}
use krproject.Data.Window.{Decider}
use krproject.Data.Static.{
  LocProp, absolute, relative, other_location, SdiDef, Sdi, SdiRun, absolute_skip, relative_skip,
  read_field, sdi_init, set_value, take, sdi_consider, sdi_loop, sdi_aggr_func,
}
use krproject.Data.Place.{
  place_of, at_from_past, at_from-nth, keep, accepts, accepted, sought, sought_from,
}

module _ {p : Platform} {E : Type 0} (def : SdiDef) (t : KrType) where
  -- the value is read from the field, and the item is set to it
  abbrev pub Read : Exec (Val p) → SdiRun p E → Type 0
  Read (value v) (ok (krsdi, x, good)) =
      (good ≡ true) × (krsdi.u_value ≡ v) × (krsdi.e_value_ind ≡ true)
  Read (crash f) (fault g) = f ≡ g
  Read missing (ok (krsdi, x, good)) = (good ≡ false) × (krsdi.e_value_ind ≡ false)
  Read (error e) (ok (krsdi, x, good)) = (good ≡ false) × (krsdi.e_value_ind ≡ false)
  Read _ _ = ⊥

  -- no record leaves the item unset, and that is no failure
  abbrev pub Located : Option (Record p) → SdiRun p E → Type 0
  Located none (ok (krsdi, x, good)) = (good ≡ true) × (krsdi.e_value_ind ≡ false)
  Located none (fault f) = ⊥
  Located (some r) run = Read (read_field p t (r.field_value def.statistics_field)) run

  module _ (curr : Record p) (decide : Record p → Bool) (K : Calculator p (Scope p E) → Type 0)
      (d : Decider curr decide K) where
    -- an item that is not set yet, and a scope
    abbrev Ready : Sdi p E → Scope p E → Type 0
    Ready krsdi x =
        K krsdi.calc
        × (krsdi.def ≡ def)
        × (krsdi.e_value_type ≡ t)
        × (krsdi.e_value_ind ≡ false)
        × (x.pt_curr_rec ≡ some curr)

    abbrev Later : Option (Record p) → (Sdi p E → Scope p E → SdiRun p E) → Type 0
    Later o run = (krsdi : Sdi p E) (x : Scope p E) → Ready krsdi x → Located o (run krsdi x)

    set_value-Read :
        (m : Exec (Val p)) (r : Record p) (krsdi : Sdi p E) (x : Scope p E)
        → krsdi.e_value_ind ≡ false
        → Read m (set_value m r krsdi x)
    unfolding set_value
    set_value-Read (value v) r krsdi x h = (refl, refl, refl)
    set_value-Read (crash f) r krsdi x h = refl
    set_value-Read missing r krsdi x h = (refl, h)
    set_value-Read (error e) r krsdi x h = (refl, h)

    take-Located :
        (o : Option (Record p)) (r : Record p) (krsdi : Sdi p E) (x : Scope p E)
        → o ≡ some r
        → Ready krsdi x
        → Located (some r) (take o krsdi x)
    unfolding take
    take-Located o r krsdi x e h =
        let m = read_field p krsdi.e_value_type (r.field_value krsdi.def.statistics_field) in
        let same : m ≡ read_field p t (r.field_value def.statistics_field) =
          ap (λ u. read_field p u (r.field_value krsdi.def.statistics_field)) h.2
          ∙ ap (λ f. read_field p t (r.field_value f.statistics_field)) h.1 in
        rw e (subst (λ n. Read n (set_value m r krsdi x)) same (set_value-Read m r krsdi x h.3))

    -- the two outcomes of the filter
    consider-Located :
        (o : Option (Record p)) (r : Record p) (later : ℕ → Sdi p E → Scope p E → SdiRun p E)
        (j : ℕ) (krsdi : Sdi p E) (x : Scope p E)
        → Ready krsdi x
        → (decide r ≡ false → Later o (later j))
        → (decide r ≡ true
            → relative_skip def.location_property def.statistics_location j ≡ true
            → Later o (later (suc j)))
        → (decide r ≡ true
            → relative_skip def.location_property def.statistics_location j ≡ false
            → o ≡ some r)
        → Located o (sdi_consider r later j krsdi x)
    unfolding sdi_consider
    consider-Located o r later j krsdi x h refused skip hit =
        let (krcalc, x', run, k, c', at, typed, held) =
          d.steady krsdi.calc (record x { pt_record = some r }) r h.0 h.4 refl in
        let ready : Ready (record krsdi { calc = krcalc }) x' = (k, h.1, h.2, h.3, c') in
        elim (Bool-cases (decide r)) [
          | inl e ↦
              elim (Bool-cases
                (relative_skip krsdi.def.location_property krsdi.def.statistics_location j)) [
                  | inl f ↦
                      rw (run, typed, held, e, f)
                        (skip e (rw (sym h.1) f) (record krsdi { calc = krcalc }) x' ready)
                  | inr f ↦
                      rw (run, typed, held, e, f, hit e (rw (sym h.1) f))
                        (take-Located x'.pt_record r (record krsdi { calc = krcalc }) x' at ready)
                ]
          | inr e ↦ rw (run, typed, held, e) (refused e (record krsdi { calc = krcalc }) x' ready)
        ]

    abbrev Found : LocProp → List (Record p) → Type 0
    Found q rs = (i j : ℕ) → Later (sought_from q def decide i j rs) (sdi_loop rs i j)

    -- the record is left out before the filter is evaluated
    abbrev Skipped : Record p → ℕ → Bool → Type 0
    Skipped r i b =
        (absolute_skip def.location_property def.statistics_location i
          || not (eqb_ℤ r.table_id def.statistics_datasrc))
        ≡ b

    step_out :
        (o : Option (Record p)) (r : Record p) (rs : List (Record p)) (i j : ℕ) (krsdi : Sdi p E)
        (x : Scope p E)
        → Ready krsdi x
        → Skipped r i true
        → Later o (sdi_loop rs (suc i) j)
        → Located o (sdi_loop (r ∷ rs) i j krsdi x)
    unfolding sdi_loop
    step_out o r rs i j krsdi x h e out =
        let skip : (absolute_skip krsdi.def.location_property krsdi.def.statistics_location i
              || not (eqb_ℤ r.table_id krsdi.def.statistics_datasrc))
            ≡ true =
          rw h.1 e in
        rw skip (out krsdi (record x { pt_record = some r }) h)

    step_in :
        (o : Option (Record p)) (r : Record p) (rs : List (Record p)) (i j : ℕ) (krsdi : Sdi p E)
        (x : Scope p E)
        → Ready krsdi x
        → Skipped r i false
        → Located o (sdi_consider r (sdi_loop rs (suc i)) j krsdi x)
        → Located o (sdi_loop (r ∷ rs) i j krsdi x)
    unfolding sdi_loop
    step_in o r rs i j krsdi x h e in' =
        let skip : (absolute_skip krsdi.def.location_property krsdi.def.statistics_location i
              || not (eqb_ℤ r.table_id krsdi.def.statistics_datasrc))
            ≡ false =
          rw h.1 e in
        rw skip in'

    find-absolute : def.location_property ≡ absolute → (rs : List (Record p)) → Found absolute rs
    unfolding sdi_loop
    find-absolute q [] i j krsdi x h = (refl, h.3)
    find-absolute q (r ∷ rs) i j krsdi x h =
        elim (Bool-cases (eqb_ℤ def.statistics_location (pos i))) [
          | inr f ↦
              rw f (step_out _ r rs i j krsdi x h (rw (q, f) refl) (find-absolute q rs (suc i) j))
          | inl f ↦
              let past : Later none (sdi_loop rs (suc i) j) =
                subst (λ o. Later (keep (accepts def decide) o) (sdi_loop rs (suc i) j))
                  (at_from_past i (suc i) def.statistics_location rs
                    (eqb_ℤ→eq def.statistics_location (pos i) f) (omega arith))
                  (find-absolute q rs (suc i) j) in
              let never : relative_skip def.location_property def.statistics_location j ≡ false =
                rw q refl in
              elim (Bool-cases (eqb_ℤ r.table_id def.statistics_datasrc)) [
                | inr g ↦ rw (f, g) (step_out none r rs i j krsdi x h (rw (q, f, g) refl) past)
                | inl g ↦
                    rw (f, g)
                      (step_in _ r rs i j krsdi x h (rw (q, f, g) refl) (
                        consider-Located _ r (sdi_loop rs (suc i)) j krsdi x h (λ n. rw n past)
                          (λ n s. absurd (cc)) (λ n s. rw n refl)))
              ]
        ]

    place :
        (j : ℕ) (b : Bool)
        → def.location_property ≡ relative
        → relative_skip def.location_property def.statistics_location j ≡ b
        → eqb_ℤ def.statistics_location (pos j) ≡ not b
    place j b q s =
        place_of def.statistics_location j b
          (subst (λ a. relative_skip a def.statistics_location j ≡ b) q s)

    find-relative : def.location_property ≡ relative → (rs : List (Record p)) → Found relative rs
    unfolding sdi_loop
    find-relative q [] i j krsdi x h = (refl, h.3)
    find-relative q (r ∷ rs) i j krsdi x h =
        let later = find-relative q rs (suc i) in
        elim (Bool-cases (eqb_ℤ r.table_id def.statistics_datasrc)) [
          | inr g ↦ rw g (step_out _ r rs i j krsdi x h (rw (q, g) refl) (later j))
          | inl g ↦ rw g (
              step_in _ r rs i j krsdi x h (rw (q, g) refl) (
                consider-Located _ r (sdi_loop rs (suc i)) j krsdi x h (λ n. rw n (later j))
                  (λ n s. rw (n, place j true q s) (later (suc j)))
                  (λ n s. rw (n, place j false q s) refl)))
        ]

    find_first :
        def.location_property ≡ other_location → (rs : List (Record p)) → Found other_location rs
    unfolding sdi_loop
    find_first q [] i j krsdi x h = (refl, h.3)
    find_first q (r ∷ rs) i j krsdi x h =
        let later = find_first q rs (suc i) j in
        let never : relative_skip def.location_property def.statistics_location j ≡ false =
          rw q refl in
        elim (Bool-cases (eqb_ℤ r.table_id def.statistics_datasrc)) [
          | inr g ↦ rw g (step_out _ r rs i j krsdi x h (rw (q, g) refl) later)
          | inl g ↦ rw g (
              step_in _ r rs i j krsdi x h (rw (q, g) refl) (
                consider-Located _ r (sdi_loop rs (suc i)) j krsdi x h (λ n. rw n later)
                  (λ n s. absurd (cc)) (λ n s. rw (n, eqb_ℤ_refl (pos j)) refl)))
        ]

    sought-found :
        (a : LocProp) (rs : List (Record p))
        → def.location_property ≡ a
        → Later (sought a def decide rs) (sdi_loop rs 0 0)
    sought-found absolute rs q =
        subst (λ o. Later (keep (accepts def decide) o) (sdi_loop rs 0 0))
          (at_from-nth def.statistics_location rs) (find-absolute q rs 0 0)
    sought-found relative rs q =
        subst (λ o. Later o (sdi_loop rs 0 0))
          (at_from-nth def.statistics_location (accepted def decide rs)) (find-relative q rs 0 0)
    sought-found other_location rs q =
        subst (λ o. Later o (sdi_loop rs 0 0)) (at_from-nth (pos 0) (accepted def decide rs))
          (find_first q rs 0 0)

module _ {p : Platform} {E : Type 0} (curr : Record p) (decide : Record p → Bool)
    (K : Calculator p (Scope p E) → Type 0) (d : Decider curr decide K) where
  -- For a filter whose evaluation decides every record and keeps the current record and the record
  -- that is looked at, aggregation sets an item that was just initialised to the field of the
  -- record that is sought. If there is none the item stays unset, and that is no failure; if the
  -- field cannot be read as the type of the item, the run returns -1 and leaves the item unset, or
  -- faults.
  pub sdi_aggr_func-sought :
      (krsdi : Sdi p E) (x : Scope p E)
      → K krsdi.calc
      → x.pt_curr_rec ≡ some curr
      → Located krsdi.def krsdi.e_value_type
          (sought krsdi.def.location_property krsdi.def decide x.pt_rec_list)
          (sdi_aggr_func (sdi_init krsdi) x)
  unfolding sdi_aggr_func
  sdi_aggr_func-sought krsdi x h c =
      sought-found krsdi.def krsdi.e_value_type curr decide K d krsdi.def.location_property
        x.pt_rec_list refl (sdi_init krsdi) x (h, refl, refl, refl, c)
