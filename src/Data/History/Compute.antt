-- ===== src/Data/History/Compute.antt =====
-- Computing and looking up a data item of past days: krdata/kr_hdi_func.c and krdata/kr_hdi.c, with
-- `kr_ttime_to_date` of krutils/kr_datetime.c.
use krproject.Base.{
  Bool, true, false, Option, none, some, [], ◌∷◌, ◌++◌, Run, ok, fault, null_read, ◌==◌,
  if◌then◌else◌, ◌>>=◌, ◌&&◌,
}
use mathlib.Core.Option
use krproject.Base.Int.{ℤ, sub_long}
use krproject.Platform.{Platform, KrType, Value, Val}
use krproject.Calc.Members.{as_int, as_l, as_d, as_s}
use krproject.Message.{Bytes, take, print_int, atoi}
use krproject.Data.{Record}
use krproject.Data.Access.{address_of, same_address, get_value}
use krproject.Data.History.{
  Hdi, CacheValue, Caches, Statistics, Outside, Indexes, KeyScope, zero_pad, print_long, not_less,
  without_error, copy_value, hdi_init, hdi_cache_get, hdi_cache_write,
}

-- the item, the context, and whether C gives 0
abbrev pub HdiRun : (p : Platform) → Type 0 → Type 0 → Type 0
HdiRun p E C = Run (Hdi p × KeyScope p E C × Bool)

abbrev pub pointee : {A : Type 0} → Option A → Run A
pointee none = fault null_read
pointee (some a) = ok a

abbrev pub known_value : {p : Platform} → Hdi p → Option (Val p)
known_value d = if d.e_value_ind then get_value d.e_value_type d.u_value else none

-- the switch on the type at the end of `kr_hdi_aggr_day` and of `kr_hdi_aggr_mon`
abbrev pub set_number : {p : Platform} → KrType → Hdi p → p.Double → Hdi p × Bool
set_number {p} KrType.int krhdi x =
    (record krhdi { u_value = Value.i (p.to_int x); e_value_ind = true }, true)
set_number {p} KrType.long krhdi x =
    (record krhdi { u_value = Value.l (p.to_long x); e_value_ind = true }, true)
set_number KrType.double krhdi x = (record krhdi { u_value = Value.d x; e_value_ind = true }, true)
set_number _ krhdi x = (krhdi, false)

module _ {p : Platform} (out : Outside p) where
  -- `kr_ttime_to_date`
  unfoldable pub ttime_to_date : ℤ → Bytes
  ttime_to_date t =
      let (year, month, day) = out.localtime t in
      zero_pad 4 (print_int year) ++ (zero_pad 2 (print_int month) ++ zero_pad 2 (print_int day))

  -- `caDataObject`: the key as a text of at most 30 bytes, none for a type that is not supported
  unfoldable pub object_text : KrType → Option (Val p) → Run (Option Bytes)
  object_text KrType.int key =
      pointee key >>= (λ v. without_error (as_int v)) >>= (λ n. ok (some (take 30 (print_int n))))
  object_text KrType.long key =
      pointee key >>= (λ v. without_error (as_l v)) >>= (λ n. ok (some (take 30 (print_long n))))
  object_text KrType.double key =
      pointee key
      >>= (λ v. without_error (as_d p v))
      >>= (λ x. ok (some (take 30 (out.print_double x))))
  object_text KrType.string key =
      pointee key >>= (λ v. without_error (as_s v)) >>= (λ s. ok (some (take 30 (out.text_of s))))
  object_text _ key = ok none

  -- the date `statistics_value` seconds before a time
  unfoldable pub begin_date : Hdi p → ℤ → Run Bytes
  unfolding ttime_to_date
  begin_date krhdi end_time =
      sub_long end_time krhdi.def.statistics_value >>= (λ t. ok (ttime_to_date t))

  -- What the statement selected is not looked at: the switch on the method is commented out.
  set_zero : Hdi p → Option (Statistics p) → Hdi p × Bool
  set_zero krhdi none = (krhdi, false)
  set_zero krhdi (some selected) = set_number krhdi.e_value_type krhdi p.zero_double

  -- `kr_hdi_aggr_day`, for a record with this time
  unfoldable pub aggr_day : Hdi p → ℤ → Bytes → Run (Hdi p × Bool)
  unfolding ttime_to_date begin_date set_zero
  aggr_day krhdi end_time object = begin_date krhdi end_time >>= (λ from.
      ok (set_zero krhdi (out.day_sel object krhdi.hdi_id from (ttime_to_date end_time))))

  -- `kr_hdi_aggr_mon`
  unfoldable pub aggr_mon : Hdi p → ℤ → Bytes → Run (Hdi p × Bool)
  unfolding ttime_to_date begin_date set_zero
  aggr_mon krhdi end_time object = begin_date krhdi end_time >>= (λ from. ok (
      set_zero krhdi
        (out.month_sel object krhdi.hdi_id (take 6 from) (take 6 (ttime_to_date end_time)))))

  set_flag : Hdi p → Option Bytes → Hdi p × Bool
  set_flag krhdi none = (krhdi, false)
  set_flag krhdi (some flag) = elim krhdi.e_value_type [
    | KrType.int ↦ (record krhdi { u_value = Value.i (atoi flag); e_value_ind = true }, true)
    | KrType.long ↦ (record krhdi { u_value = Value.l (out.atol flag); e_value_ind = true }, true)
    | KrType.double ↦ (record krhdi { u_value = Value.d (out.atof flag); e_value_ind = true }, true)
    | KrType.string ↦
        (record krhdi { u_value = Value.s (out.to_str flag); e_value_ind = true }, true)
    | _ ↦ (krhdi, false)
  ]

  -- `kr_hdi_aggr_flag`
  unfoldable pub aggr_flag : Hdi p → Bytes → Hdi p × Bool
  unfolding set_flag
  aggr_flag krhdi object = set_flag krhdi (out.flag_sel object krhdi.hdi_id)

  -- The second switch of `kr_hdi_aggr_func`: what the three functions return is only logged.
  unfoldable pub aggr_object : Hdi p → ℤ → Option Bytes → Run (Hdi p × Bool)
  unfolding aggr_day aggr_mon aggr_flag
  aggr_object krhdi time none = ok (krhdi, false)
  aggr_object krhdi time (some object) =
      if krhdi.def.statistics_type == b'0'
      then (aggr_day krhdi time object >>= (λ (d, logged). ok (d, true)))
      else if krhdi.def.statistics_type == b'1'
      then (aggr_mon krhdi time object >>= (λ (d, logged). ok (d, true)))
      else if krhdi.def.statistics_type == b'2'
      then ok ((aggr_flag krhdi object).0, true)
      else ok (krhdi, false)

module _ {p : Platform} {E C : Type 0} where
  -- the end of `kr_hdi_get_value`, unless the value could not be computed
  unfoldable pub stamped :
      Hdi p × KeyScope p E C × Bool → Run (Option (Hdi p) × KeyScope p E C × Option (Val p))
  stamped (d, x, good) =
      let d' = record d { pt_curr_rec = address_of x.scope.pt_curr_rec } in
      ok (if good then (some d', x, known_value d') else (some d, x, none))

module _ {p : Platform} {E C : Type 0} (indexes : Indexes p) where
  -- the context with the key of the record in an index on this field
  unfoldable pub at_key : ℤ → ℤ → Record p → KeyScope p E C → KeyScope p E C
  at_key index field r x = record x {
    e_key_type = r.field_type field;
    p_key_value = some (r.field_value field);
    scope = record x.scope { pt_rec_list = indexes.record_list r index };
  }

module _ {p : Platform} {E C : Type 0} (out : Outside p) (indexes : Indexes p) where
  -- `kr_hdi_aggr_func`
  unfoldable pub hdi_aggr_func : Hdi p → KeyScope p E C → HdiRun p E C
  unfolding object_text aggr_object
  hdi_aggr_func krhdi x = pointee x.scope.pt_curr_rec >>= (λ r.
      object_text out x.e_key_type x.p_key_value
      >>= (λ o. aggr_object out krhdi r.transtime o >>= (λ (d, good). ok (d, x, good))))

  unfoldable pub compute_hdi : Hdi p → Record p → Option ℤ → KeyScope p E C → HdiRun p E C
  unfolding hdi_aggr_func at_key
  compute_hdi krhdi r none x = ok (krhdi, x, true)
  compute_hdi krhdi r (some field) x =
      hdi_aggr_func krhdi (at_key indexes krhdi.def.statistics_index field r x)

  -- `kr_hdi_compute`, of an item without a function of its own
  unfoldable pub hdi_compute : Hdi p → KeyScope p E C → HdiRun p E C
  unfolding compute_hdi
  hdi_compute krhdi x =
      pointee x.scope.pt_curr_rec
      >>= (λ r. compute_hdi (hdi_init krhdi) r (indexes.index_field r krhdi.def.statistics_index) x)

module _ {p : Platform} {E : Type 0} (out : Outside p) (indexes : Indexes p)
    (caches : Caches p) where
  -- the value that was computed goes into the cache, under the key from before
  unfoldable pub cache_computed :
      Val p → CacheValue p → Hdi p × KeyScope p E caches.C × Bool → HdiRun p E caches.C
  unfolding hdi_cache_write
  cache_computed key v (d, x, good) =
      if d.e_value_ind
      then pointee x.scope.pt_curr_rec >>= (λ r.
        copy_value p d.e_value_type d.u_value v.u_value >>= (λ u.
          let v' = record v {
            e_value_type = d.e_value_type;
            date = ttime_to_date out r.transtime;
            u_value = u;
            e_value_ind = true;
          } in
          ok (
            d,
            record x { hdi_cache = Option.map (λ c. hdi_cache_write caches c key v') x.hdi_cache },
            true,
          )))
      else ok (d, x, true)

  -- `kr_hdi_get_value_from_cache`, with the cache
  unfoldable pub get_value_from_cache :
      caches.C → Val p → Hdi p → KeyScope p E caches.C → HdiRun p E caches.C
  unfolding cache_computed
  get_value_from_cache c key krhdi x =
      let (v, c') = hdi_cache_get caches c key krhdi.hdi_id in
      let x' = record x { hdi_cache = some c' } in
      if v.e_value_ind
        && not_less v.date (b'0' ∷ b'0' ∷ b'0' ∷ b'0' ∷ b'0' ∷ b'0' ∷ b'0' ∷ b'0' ∷ [])
      then copy_value p krhdi.e_value_type v.u_value krhdi.u_value
        >>= (λ u. ok (record krhdi { u_value = u; e_value_ind = true }, x', true))
      else hdi_compute out indexes krhdi x' >>= cache_computed key v

  unfoldable pub fresh_value : Option caches.C → Hdi p → KeyScope p E caches.C → HdiRun p E caches.C
  unfolding get_value_from_cache hdi_compute
  fresh_value none krhdi x = hdi_compute out indexes krhdi x
  fresh_value (some c) krhdi x =
      pointee x.p_key_value >>= (λ key. get_value_from_cache c key krhdi x)

  -- `kr_hdi_get_value` with the item that the table has, none if there is none
  unfoldable pub hdi_get_value :
      Option (Hdi p)
      → KeyScope p E caches.C
      → Run (Option (Hdi p) × KeyScope p E caches.C × Option (Val p))
  unfolding fresh_value stamped
  hdi_get_value none x = ok (none, x, none)
  hdi_get_value (some krhdi) x =
      let fresh = fresh_value x.hdi_cache krhdi x >>= stamped in
      if same_address krhdi.pt_curr_rec (address_of x.scope.pt_curr_rec)
      then ok (some krhdi, x, known_value krhdi)
      else fresh
