-- ===== src/Data/Static.antt =====
-- Static data items: `kr_sdi_init` of krparam/kr_dym_sdi.c and `kr_sdi_aggr_func` of
-- krdata/kr_sdi_func.c.
use krproject.Base.{
  ℕ, suc, Bool, true, false, not, ◌||◌, Option, none, some, List, [], ◌∷◌, Run, ok, fault,
  null_read, if◌then◌else◌, ◌>>=◌,
}
use krproject.Base.Int.{ℤ, pos, eqb_ℤ}
use krproject.Platform.{Platform, KrType, type_eq, ValueInd, Value, Val}
use krproject.Calc.Outcome.{Exec, value, missing, crash, bind}
use krproject.Calc.Members.{as_int, as_l, as_d, as_s}
use krproject.Calc.Object.{Calculator, calc_eval, calc_type, holds}
use krproject.Data.{Record, Scope}

-- `E_KRLocProp`; `other_location` is any other letter.
pub data LocProp : Type 0 where
  absolute relative other_location : LocProp

-- `T_KRShmSDIDef`, the part that aggregation reads
pub record SdiDef : Type 0 where
  pub location_property : LocProp
  pub statistics_location : ℤ
  pub statistics_datasrc : ℤ
  pub statistics_index : ℤ
  pub statistics_field : ℤ

-- `T_KRSDI`. `pt_curr_rec` is the address of the record that the value was computed for.
pub record Sdi (p : Platform) (E : Type 0) : Type 0 where
  pub def : SdiDef
  pub e_value_type : KrType
  pub calc : Calculator p (Scope p E)
  pub pt_curr_rec : Option ℕ
  pub e_value_ind : ValueInd
  pub u_value : Val p
  pub related : p.Table

abbrev pub SdiRun : (p : Platform) → Type 0 → Type 0
SdiRun p E = Run (Sdi p E × Scope p E × Bool)

-- the record at the place `i` of the list is not the one that is asked for
abbrev pub absolute_skip : LocProp → ℤ → ℕ → Bool
absolute_skip absolute l i = not (eqb_ℤ l (pos i))
absolute_skip _ l i = false

-- the accepted record number `j` is not the one that is asked for
abbrev pub relative_skip : LocProp → ℤ → ℕ → Bool
relative_skip relative l j = not (eqb_ℤ l (pos j))
relative_skip _ l j = false

module _ (p : Platform) where
  -- the field in the type of the item; any other type is the -1 of "Bad FieldType"
  unfoldable pub read_field : KrType → Val p → Exec (Val p)
  read_field KrType.int v = bind (as_int v) (λ x. value (Value.i x))
  read_field KrType.long v = bind (as_l v) (λ x. value (Value.l x))
  read_field KrType.double v = bind (as_d p v) (λ x. value (Value.d x))
  read_field KrType.string v = bind (as_s v) (λ x. value (Value.s x))
  read_field _ v = missing

module _ {p : Platform} {E : Type 0} where
  -- `kr_sdi_init`
  abbrev pub sdi_init : Sdi p E → Sdi p E
  sdi_init krsdi = record krsdi {
    e_value_ind = false;
    related = p.table_remove_all krsdi.related;
    u_value = Value.zeroed;
  }

  -- the value is stored, and the record added to the related ones
  unfoldable pub set_value : Exec (Val p) → Record p → Sdi p E → Scope p E → SdiRun p E
  set_value (value v) r krsdi x = ok (
    record krsdi {
      u_value = v;
      related = p.table_insert krsdi.related (Value.other r.address);
      e_value_ind = true;
    },
    x,
    true,
  )
  set_value (crash f) r krsdi x = fault f
  set_value _ r krsdi x = ok (krsdi, x, false)

  -- what is done with `krcontext->ptRecord` once it is found
  unfoldable pub take : Option (Record p) → Sdi p E → Scope p E → SdiRun p E
  take none krsdi x = fault null_read
  take (some r) krsdi x =
      set_value (read_field p krsdi.e_value_type (r.field_value krsdi.def.statistics_field)) r krsdi
        x

  -- The filter is evaluated for the record `r`; `j` accepted records came before. `later` is the loop
  -- over the records that follow.
  unfoldable pub sdi_consider :
      Record p → (ℕ → Sdi p E → Scope p E → SdiRun p E) → ℕ → Sdi p E → Scope p E → SdiRun p E
  sdi_consider r later j krsdi x = do
    (krcalc, x', good) ← calc_eval krsdi.calc (record x { pt_record = some r })
    let krsdi' : Sdi p E = record krsdi { calc = krcalc }
    if not good || not (type_eq (calc_type krcalc) KrType.bool) then ok (krsdi', x', false) else (do
      b ← holds krcalc
      if not b
          then later j krsdi' x'
          else (if relative_skip krsdi.def.location_property krsdi.def.statistics_location j
              then later (suc j) krsdi' x'
              else take x'.pt_record krsdi' x'))

  -- the loop, at the place `i` of the list and after `j` accepted records
  unfoldable pub sdi_loop : List (Record p) → ℕ → ℕ → Sdi p E → Scope p E → SdiRun p E
  sdi_loop [] i j krsdi x = ok (krsdi, x, true)
  sdi_loop (r ∷ rs) i j krsdi x =
      let later = sdi_loop rs (suc i) in
      if absolute_skip krsdi.def.location_property krsdi.def.statistics_location i
        || not (eqb_ℤ r.table_id krsdi.def.statistics_datasrc)
      then later j krsdi (record x { pt_record = some r })
      else sdi_consider r later j krsdi x

  -- `kr_sdi_aggr_func`
  unfoldable pub sdi_aggr_func : Sdi p E → Scope p E → SdiRun p E
  sdi_aggr_func krsdi x = sdi_loop x.pt_rec_list 0 0 krsdi x
