-- ===== src/Data/Dynamic.antt =====
-- Dynamic data items: `kr_ddi_init` of krparam/kr_dym_ddi.c and `kr_ddi_aggr_func` of
-- krdata/kr_ddi_func.c.
use krproject.Base.{
  ℕ, Bool, true, false, not, ◌&&◌, ◌||◌, Option, none, some, List, [], ◌∷◌, Run, ok, fault,
  null_read, if◌then◌else◌, ◌>>=◌,
}
use krproject.Base.Int.{ℤ, eqb_ℤ, ltb_ℤ, sub_long}
use krproject.Platform.{Platform, KrType, type_eq, ValueInd, Value, Val}
use krproject.Calc.Outcome.{Exec, value, crash}
use krproject.Calc.Object.{Calculator, calc_eval, calc_type, holds}
use krproject.Data.{Record, Scope, same_record}
use krproject.Data.Aggregate.{Method, aggregate}

-- `T_KRShmDDIDef`, the part that aggregation reads. `excludes` says that `caStatisticsType` is
-- KR_DDI_STATISTICS_EXCLUDE.
pub record DdiDef : Type 0 where
  pub excludes : Bool
  pub statistics_datasrc : ℤ
  pub statistics_index : ℤ
  pub statistics_value : ℤ
  pub statistics_field : ℤ
  pub method : Method

-- `T_KRDDI`. `pt_curr_rec` is the address of the record that the value was computed for.
pub record Ddi (p : Platform) (E : Type 0) : Type 0 where
  pub def : DdiDef
  pub e_value_type : KrType
  pub calc : Calculator p (Scope p E)
  pub pt_curr_rec : Option ℕ
  pub e_value_ind : ValueInd
  pub u_value : Val p
  pub related : p.Table

-- the types of fields that can be aggregated
abbrev pub is_field_type : KrType → Bool
is_field_type KrType.int = true
is_field_type KrType.long = true
is_field_type KrType.double = true
is_field_type KrType.string = true
is_field_type _ = false

abbrev pub DdiRun : (p : Platform) → Type 0 → Type 0
DdiRun p E = Run (Ddi p E × Scope p E × Bool)

module _ {p : Platform} where
  -- whether the loop leaves the record out before the filter is evaluated
  unfoldable pub left_out : DdiDef → Record p → Record p → Run Bool
  left_out def curr r =
      if def.excludes && same_record r curr || not (eqb_ℤ r.table_id def.statistics_datasrc)
      then ok true
      else (sub_long curr.transtime r.transtime >>= (λ d. ok (ltb_ℤ def.statistics_value d)))

module _ {p : Platform} {E : Type 0} where
  -- `kr_ddi_init`
  abbrev pub ddi_init : Ddi p E → Ddi p E
  ddi_init krddi = record krddi {
    e_value_ind = false;
    related = p.table_remove_all krddi.related;
    u_value = Value.zeroed;
  }

  -- the new value is stored and the record is added to the related ones
  unfoldable pub store : Exec (Val p) → Record p → Ddi p E → Scope p E → DdiRun p E
  store (value v) r krddi x = ok (
    record krddi { u_value = v; related = p.table_insert krddi.related (Value.other r.address) },
    x,
    true,
  )
  store (crash f) r krddi x = fault f
  store _ r krddi x = ok (krddi, x, false)

  -- what is done with `krcontext->ptRecord` once the filter holds
  unfoldable pub accumulate : Option (Record p) → Ddi p E → Scope p E → DdiRun p E
  accumulate none krddi x = fault null_read
  accumulate (some r) krddi x =
      if is_field_type (r.field_type krddi.def.statistics_field)
      then store
          (aggregate p krddi.def.method krddi.e_value_type krddi.u_value
            (r.field_value krddi.def.statistics_field))
          r krddi x
      else ok (krddi, x, false)

  -- the record `r` is looked at: the filter is evaluated
  unfoldable pub consider : Ddi p E → Record p → Scope p E → DdiRun p E
  consider krddi r x = do
    (krcalc, x', good) ← calc_eval krddi.calc (record x { pt_record = some r })
    let krddi' : Ddi p E = record krddi { calc = krcalc }
    if not good || not (type_eq (calc_type krcalc) KrType.bool)
        then ok (krddi', x', false)
        else (holds krcalc
            >>= (λ b. if b then accumulate x'.pt_record krddi' x' else ok (krddi', x', true)))

  -- one record, beside the current record; the fields of the current record are read first
  unfoldable pub ddi_step : Option (Record p) → Ddi p E → Record p → Scope p E → DdiRun p E
  ddi_step none krddi r x = fault null_read
  ddi_step (some curr) krddi r x = left_out krddi.def curr r >>= (λ out.
      if out then ok (krddi, record x { pt_record = some r }, true) else consider krddi r x)

  -- the loop over the records of the key
  unfoldable pub ddi_loop : List (Record p) → Ddi p E → Scope p E → DdiRun p E
  ddi_loop [] krddi x = ok (krddi, x, true)
  ddi_loop (r ∷ rs) krddi x =
      let later = ddi_loop rs in
      ddi_step x.pt_curr_rec krddi r x
      >>= (λ (krddi', x', good). if good then later krddi' x' else ok (krddi', x', false))

  -- `kr_ddi_aggr_func`
  unfoldable pub ddi_aggr_func : Ddi p E → Scope p E → DdiRun p E
  ddi_aggr_func krddi x = ddi_loop x.pt_rec_list krddi x >>= (λ (krddi', x', good).
      ok (if good then record krddi' { e_value_ind = true } else krddi', x', good))
