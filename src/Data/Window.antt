-- ===== src/Data/Window.antt =====
-- A specification of `kr_ddi_aggr_func` of krdata/kr_ddi_func.c: the window, and the method folded
-- over it.
use krproject.Base.{
  ◌≡◌, refl, Bool, true, false, not, ◌&&◌, Option, some, List, [], ◌∷◌, ok, fault, if◌then◌else◌,
  Bool-cases, inl, inr, ◌>>=◌, ◌==◌, arith,
}
use krproject.Base.Int.{ltb_ℤ, eqb_ℤ, fits_long, sub_long, ◌+ℤ◌, ◌-ℤ◌}
use krproject.Platform.{Platform, KrType, ValueInd, Val, Value}
use krproject.Calc.Outcome.{Exec, value, missing, error, crash, bind}
use krproject.Calc.Object.{Calculator, calc_eval, calc_type, holds}
use krproject.Data.{Record, Scope}
use krproject.Data.Aggregate.{aggregate}
use krproject.Data.Dynamic.{
  DdiDef, Ddi, DdiRun, ddi_init, left_out, is_field_type, store, accumulate, consider, ddi_step,
  ddi_loop, ddi_aggr_func,
}

module _ {p : Platform} where
  -- A record is in the window of the current one: it is another one, where the current one is excluded,
  -- it is of the table of the item, and it is not older than the item allows.
  unfoldable pub within : DdiDef → Record p → Record p → Bool
  within def curr r =
      not (def.excludes && r.address == curr.address)
      && eqb_ℤ r.table_id def.statistics_datasrc
      && not (ltb_ℤ (r.transtime +ℤ def.statistics_value) curr.transtime)

  -- the differences of the times fit a `long`
  abbrev pub Near : Record p → List (Record p) → Type 0
  Near curr [] = Unit
  Near curr (r ∷ rs) = (fits_long (curr.transtime -ℤ r.transtime) ≡ true) × Near curr rs

  left_out-within :
      (def : DdiDef) (curr r : Record p)
      → fits_long (curr.transtime -ℤ r.transtime) ≡ true
      → left_out def curr r ≡ ok (not (within def curr r))
  unfolding left_out within sub_long ◌+ℤ◌ ◌-ℤ◌
  left_out-within def curr r h = ground (arith, h)

  -- the records that are aggregated, in the order of the list
  abbrev pub window : DdiDef → Record p → (Record p → Bool) → List (Record p) → List (Record p)
  window def curr decide [] = []
  window def curr decide (r ∷ rs) =
      if within def curr r && decide r
      then r ∷ window def curr decide rs
      else window def curr decide rs

  -- the method, from the value `u` on
  abbrev pub folded : DdiDef → KrType → Val p → List (Record p) → Exec (Val p)
  folded def t u [] = value u
  folded def t u (r ∷ rs) =
      if is_field_type (r.field_type def.statistics_field)
      then bind (aggregate p def.method t u (r.field_value def.statistics_field))
          (λ u'. folded def t u' rs)
      else missing

module _ {p : Platform} {E : Type 0} where
  -- The calculators of `K` decide records by `decide`, and leave the current record and the record
  -- that is looked at as they are.
  pub record Decider (curr : Record p) (decide : Record p → Bool)
      (K : Calculator p (Scope p E) → Type 0) : Type 0 where
    pub steady :
        (krcalc : Calculator p (Scope p E)) (x : Scope p E) (r : Record p)
        → K krcalc
        → x.pt_curr_rec ≡ some curr
        → x.pt_record ≡ some r
        → (krcalc' : Calculator p (Scope p E)) × (x' : Scope p E) × (calc_eval krcalc x
            ≡ ok (krcalc', x', true))
          × K krcalc'
          × (x'.pt_curr_rec ≡ some curr)
          × (x'.pt_record ≡ some r)
          × (calc_type krcalc' ≡ KrType.bool)
          × (holds krcalc' ≡ ok (decide r))

  -- How a run of the loop agrees with the fold; `i` is the indicator of the item before.
  abbrev pub Looped : ValueInd → Exec (Val p) → DdiRun p E → Type 0
  Looped i (value v) (ok (krddi, x, good)) = (good ≡ true) × (krddi.u_value ≡ v)
  Looped i (crash f) (fault g) = f ≡ g
  Looped i missing (ok (krddi, x, good)) = (good ≡ false) × (krddi.e_value_ind ≡ i)
  Looped i (error e) (ok (krddi, x, good)) = (good ≡ false) × (krddi.e_value_ind ≡ i)
  Looped i _ _ = ⊥

  -- the item is set to the fold, or the run fails and leaves it unset
  abbrev pub Aggregated : Exec (Val p) → DdiRun p E → Type 0
  Aggregated (value v) (ok (krddi, x, good)) =
      (good ≡ true) × (krddi.u_value ≡ v) × (krddi.e_value_ind ≡ true)
  Aggregated (crash f) (fault g) = f ≡ g
  Aggregated missing (ok (krddi, x, good)) = (good ≡ false) × (krddi.e_value_ind ≡ false)
  Aggregated (error e) (ok (krddi, x, good)) = (good ≡ false) × (krddi.e_value_ind ≡ false)
  Aggregated _ _ = ⊥

  module _ (curr : Record p) (decide : Record p → Bool) (K : Calculator p (Scope p E) → Type 0)
      (d : Decider curr decide K) where
    abbrev rest_of : List (Record p) → Ddi p E × Scope p E × Bool → DdiRun p E
    rest_of rs (krddi, x, good) = if good then ddi_loop rs krddi x else ok (krddi, x, false)

    -- the loop from an item and a scope on
    abbrev Good : List (Record p) → Type 0
    Good rs =
        (krddi : Ddi p E) (x : Scope p E)
        → K krddi.calc
        → x.pt_curr_rec ≡ some curr
        → Looped krddi.e_value_ind
            (folded krddi.def krddi.e_value_type krddi.u_value (window krddi.def curr decide rs))
            (ddi_loop rs krddi x)

    stored :
        (rs : List (Record p)) (r : Record p) (krddi : Ddi p E) (x : Scope p E) (m : Exec (Val p))
        → K krddi.calc
        → x.pt_curr_rec ≡ some curr
        → Good rs
        → Looped krddi.e_value_ind
            (bind m (λ u. folded krddi.def krddi.e_value_type u (window krddi.def curr decide rs)))
            (store m r krddi x >>= rest_of rs)
    unfolding store
    stored rs r krddi x (value v) h c next = next _ x h c
    stored rs r krddi x missing h c next = (refl, refl)
    stored rs r krddi x (error e) h c next = (refl, refl)
    stored rs r krddi x (crash f) h c next = refl

    accumulated :
        (rs : List (Record p)) (r : Record p) (o : Option (Record p)) (krddi : Ddi p E)
        (x : Scope p E)
        → o ≡ some r
        → K krddi.calc
        → x.pt_curr_rec ≡ some curr
        → Good rs
        → Looped krddi.e_value_ind
            (folded krddi.def krddi.e_value_type krddi.u_value
              (r ∷ window krddi.def curr decide rs))
            (accumulate o krddi x >>= rest_of rs)
    unfolding accumulate
    accumulated rs r o krddi x at h c next =
        elim (Bool-cases (is_field_type (r.field_type krddi.def.statistics_field))) [
          | inl e ↦ rw (at, e) (stored rs r krddi x _ h c next)
          | inr e ↦ rw (at, e) (refl, refl)
        ]

    considered :
        (rs : List (Record p)) (r : Record p) (krddi : Ddi p E) (x : Scope p E)
        → K krddi.calc
        → x.pt_curr_rec ≡ some curr
        → Good rs
        → Looped krddi.e_value_ind
            (folded krddi.def krddi.e_value_type krddi.u_value (
              if decide r
              then r ∷ window krddi.def curr decide rs
              else window krddi.def curr decide rs))
            (consider krddi r x >>= rest_of rs)
    unfolding consider
    considered rs r krddi x h c next =
        let (krcalc, x', run, k, c', at, typed, held) =
          d.steady krddi.calc (record x { pt_record = some r }) r h c refl in
        elim (Bool-cases (decide r)) [
          | inl e ↦
              rw (run, typed, held, e)
                (accumulated rs r x'.pt_record (record krddi { calc = krcalc }) x' at k c' next)
          | inr e ↦ rw (run, typed, held, e) (next (record krddi { calc = krcalc }) x' k c')
        ]

    stepped :
        (rs : List (Record p)) (r : Record p) (o : Option (Record p)) (krddi : Ddi p E)
        (x : Scope p E)
        → fits_long (curr.transtime -ℤ r.transtime) ≡ true
        → o ≡ some curr
        → K krddi.calc
        → x.pt_curr_rec ≡ some curr
        → Good rs
        → Looped krddi.e_value_ind
            (folded krddi.def krddi.e_value_type krddi.u_value
              (window krddi.def curr decide (r ∷ rs)))
            (ddi_step o krddi r x >>= rest_of rs)
    unfolding ddi_step
    stepped rs r o krddi x near at h c next =
        let test = left_out-within krddi.def curr r near in
        elim (Bool-cases (within krddi.def curr r)) [
          | inl e ↦ rw (at, test, e) (considered rs r krddi x h c next)
          | inr e ↦ rw (at, test, e) (next krddi (record x { pt_record = some r }) h c)
        ]

    ddi_loop-Looped : (rs : List (Record p)) → Near curr rs → Good rs
    unfolding ddi_loop
    ddi_loop-Looped [] near krddi x h c = (refl, refl)
    ddi_loop-Looped (r ∷ rs) near krddi x h c =
        stepped rs r x.pt_curr_rec krddi x near.0 c h c (ddi_loop-Looped rs near.1)

    finished :
        (m : Exec (Val p)) (run : DdiRun p E)
        → Looped false m run
        → Aggregated m (
            run >>= (λ (krddi, x, good).
              ok (if good then record krddi { e_value_ind = true } else krddi, x, good)))
    finished (value v) (ok (krddi, x, good)) h = rw h.0 (refl, h.1, refl)
    finished (crash f) (fault g) h = h
    finished missing (ok (krddi, x, good)) h = rw h.0 (refl, h.1)
    finished (error e) (ok (krddi, x, good)) h = rw h.0 (refl, h.1)
    finished (value v) (fault g) h = absurd h
    finished (crash f) (ok r) h = absurd h
    finished missing (fault g) h = absurd h
    finished (error e) (fault g) h = absurd h

    -- For a filter whose evaluation decides every record and keeps the current record and the
    -- record that is looked at, aggregation sets an item that was just initialised to the method
    -- folded, from zero, over the field values of the records that are in the window and that the
    -- filter accepts, in the order of the list. It returns -1 and leaves the item unset exactly if
    -- the fold meets a type or a method that cannot be aggregated, and faults exactly as the fold
    -- does.
    pub ddi_aggr_func-folded :
        (krddi : Ddi p E) (x : Scope p E)
        → K krddi.calc
        → x.pt_curr_rec ≡ some curr
        → Near curr x.pt_rec_list
        → Aggregated
            (folded krddi.def krddi.e_value_type Value.zeroed
              (window krddi.def curr decide x.pt_rec_list))
            (ddi_aggr_func (ddi_init krddi) x)
    unfolding ddi_aggr_func
    ddi_aggr_func-folded krddi x h c near =
        finished _ (ddi_loop x.pt_rec_list (ddi_init krddi) x)
          (ddi_loop-Looped x.pt_rec_list near (ddi_init krddi) x h c)
