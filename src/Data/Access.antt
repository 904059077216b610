-- ===== src/Data/Access.antt =====
-- Computing and looking up the value of an item: krdata/kr_ddi.c, krdata/kr_sdi.c and `kr_get_value`
-- of krutils/kr_types.h.
use krproject.Base.{
  ℕ, Bool, true, false, Option, none, some, List, Run, ok, fault, null_read, ◌==◌, if◌then◌else◌,
  ◌>>=◌,
}
use krproject.Base.Int.{ℤ}
use krproject.Platform.{Platform, KrType, Value, Val}
use krproject.Data.{Record, Scope}
use krproject.Data.Dynamic.{Ddi, DdiRun, ddi_init, ddi_aggr_func}
use krproject.Data.Static.{Sdi, SdiRun, sdi_init, sdi_aggr_func}

module _ {D S R T : Type 0} where
  -- `kr_get_value`: where the value is; a string or a pointer may be null
  unfoldable pub get_value : KrType → Value D S R T → Option (Value D S R T)
  get_value KrType.char v = none
  get_value KrType.unknown v = none
  get_value KrType.string Value.zeroed = none
  get_value KrType.pointer Value.zeroed = none
  get_value _ v = some v

module _ {p : Platform} where
  -- `ptCurrRec` as an address
  abbrev pub address_of : Option (Record p) → Option ℕ
  address_of none = none
  address_of (some r) = some r.address

abbrev pub same_address : Option ℕ → Option ℕ → Bool
same_address none none = true
same_address (some a) (some b) = a == b
same_address _ _ = false

-- The database: the records of the key of a record, last one first, in the index with this number;
-- none if the table of the record has no such index.
abbrev pub RecordLists : Platform → Type 0
RecordLists p = Record p → ℤ → Option (List (Record p))

module _ {p : Platform} {E : Type 0} (lists : RecordLists p) where
  -- The rest of `kr_ddi_compute`, for the current record. `own` is the function of the item that was
  -- loaded from a module, if it has one.
  compute_ddi :
      Option (Ddi p E → Scope p E → DdiRun p E)
      → Option (Record p)
      → Ddi p E
      → Scope p E
      → DdiRun p E
  unfolding ddi_aggr_func
  compute_ddi own none krddi x = fault null_read
  compute_ddi own (some r) krddi x = elim (lists r krddi.def.statistics_index) [
    | none ↦ ok (krddi, x, true)
    | some rs ↦ elim own [
      | none ↦ ddi_aggr_func krddi (record x { pt_rec_list = rs })
      | some f ↦ f krddi (record x { pt_rec_list = rs })
    ]
  ]

  -- `kr_ddi_compute`
  unfoldable pub ddi_compute :
      Option (Ddi p E → Scope p E → DdiRun p E) → Ddi p E → Scope p E → DdiRun p E
  unfolding compute_ddi
  ddi_compute own krddi x = compute_ddi own x.pt_curr_rec (ddi_init krddi) x

  -- `kr_ddi_get_value` with the item that the table has, none if there is none
  unfoldable pub ddi_get_value :
      Option (Ddi p E → Scope p E → DdiRun p E)
      → Option (Ddi p E)
      → Scope p E
      → Run (Option (Ddi p E) × Scope p E × Option (Val p))
  ddi_get_value own none x = ok (none, x, none)
  ddi_get_value own (some krddi) x =
      if same_address krddi.pt_curr_rec (address_of x.pt_curr_rec)
      then ok (
        some krddi,
        x,
        if krddi.e_value_ind then get_value krddi.e_value_type krddi.u_value else none,
      )
      else ddi_compute own krddi x >>= (λ (d, x', good). ok (
          if d.e_value_ind
          then (
            some (record d { pt_curr_rec = address_of x'.pt_curr_rec }),
            x',
            get_value d.e_value_type d.u_value,
          )
          else (some d, x', none)))

  -- The rest of `kr_sdi_compute`, for the current record.
  compute_sdi :
      Option (Sdi p E → Scope p E → SdiRun p E)
      → Option (Record p)
      → Sdi p E
      → Scope p E
      → SdiRun p E
  unfolding sdi_aggr_func
  compute_sdi own none krsdi x = fault null_read
  compute_sdi own (some r) krsdi x = elim (lists r krsdi.def.statistics_index) [
    | none ↦ ok (krsdi, x, true)
    | some rs ↦ elim own [
      | none ↦ sdi_aggr_func krsdi (record x { pt_rec_list = rs })
      | some f ↦ f krsdi (record x { pt_rec_list = rs })
    ]
  ]

  -- `kr_sdi_compute`
  unfoldable pub sdi_compute :
      Option (Sdi p E → Scope p E → SdiRun p E) → Sdi p E → Scope p E → SdiRun p E
  unfolding compute_sdi
  sdi_compute own krsdi x = compute_sdi own x.pt_curr_rec (sdi_init krsdi) x

  -- `kr_sdi_get_value` with the item that the table has, none if there is none
  unfoldable pub sdi_get_value :
      Option (Sdi p E → Scope p E → SdiRun p E)
      → Option (Sdi p E)
      → Scope p E
      → Run (Option (Sdi p E) × Scope p E × Option (Val p))
  sdi_get_value own none x = ok (none, x, none)
  sdi_get_value own (some krsdi) x =
      if same_address krsdi.pt_curr_rec (address_of x.pt_curr_rec)
      then ok (
        some krsdi,
        x,
        if krsdi.e_value_ind then get_value krsdi.e_value_type krsdi.u_value else none,
      )
      else sdi_compute own krsdi x >>= (λ (d, x', good). ok (
          if d.e_value_ind
          then (
            some (record d { pt_curr_rec = address_of x'.pt_curr_rec }),
            x',
            get_value d.e_value_type d.u_value,
          )
          else (some d, x', none)))
