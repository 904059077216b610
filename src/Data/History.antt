-- ===== src/Data/History.antt =====
-- Data items of past days: krdata/kr_hdi_func.c, krdata/kr_hdi.c, krdata/kr_hdi_cache.c and
-- `kr_hdi_init` of krparam/kr_dym_hdi.c. The database statements of dbs/ and the cache are
-- parameters.
pub mod Compute
pub mod Cached
pub mod Final
use krproject.Base.{
  ℕ, zero, suc, ◌-◌, Bool, true, false, not, ◌&&◌, Option, none, some, List, [], ◌∷◌, ◌++◌, Run, ok,
  fault, null_read, foreign_member, ◌==◌, ltb, if◌then◌else◌, ◌>>=◌, length,
}
use krproject.Base.Int.{ℤ, pos, negsuc, eqb_ℤ, ◌-ℤ◌}
use krproject.Platform.{Platform, KrType, ValueInd, Value, Val}
use krproject.Calc.Outcome.{Exec, value, crash, missing}
use krproject.Calc.Members.{as_int, as_l, as_d, as_s}
use krproject.Message.{Bytes, take, digits_loop, print_int, atoi}
use krproject.Data.{Record, Scope}
use krproject.Data.Access.{address_of, same_address, get_value}

-- `T_KRShmHDIDef`, the part that is read; `statistics_type` is the letter `caStatisticsType[0]`.
pub record HdiDef : Type 0 where
  pub statistics_type : ℕ
  pub statistics_index : ℤ
  pub statistics_value : ℤ

-- `T_KRHDI`
pub record Hdi (p : Platform) : Type 0 where
  pub def : HdiDef
  pub hdi_id : ℤ
  pub e_value_type : KrType
  pub pt_curr_rec : Option ℕ
  pub e_value_ind : ValueInd
  pub u_value : Val p

-- `T_KRHDICacheValue`
pub record CacheValue (p : Platform) : Type 0 where
  pub hdi_id : ℤ
  pub e_value_type : KrType
  pub date : Bytes
  pub e_value_ind : ValueInd
  pub u_value : Val p

-- A node of the cache: its values by the number of the item.
abbrev pub HdiCacheNode : Platform → Type 0
HdiCacheNode p = List (CacheValue p)

-- What `kr_hdi_cache_get` calls of a cache: look-up and entry by key, and a change of the node of a
-- key in its place.
pub record Caches (p : Platform) : Type 1 where
  pub C : Type 0
  pub get : C → Val p → Option (HdiCacheNode p) × C
  pub set : C → Val p → HdiCacheNode p → C
  pub poke : C → Val p → HdiCacheNode p → C

-- what the statements on days and months give for an object, an item and a period
pub record Statistics (p : Platform) : Type 0 where
  pub out_sum : p.Double
  pub out_min : p.Double
  pub out_max : p.Double
  pub out_count : ℤ

-- The three statements on the database: what they gave if they ended in KR_DBOK or KR_DBNOTFOUND (where
-- it is all zero), none after any other end; and what the C library prints and reads.
pub record Outside (p : Platform) : Type 0 where
  pub day_sel : Bytes → ℤ → Bytes → Bytes → Option (Statistics p)
  pub month_sel : Bytes → ℤ → Bytes → Bytes → Option (Statistics p)
  pub flag_sel : Bytes → ℤ → Option Bytes
  -- year, month and day
  pub localtime : ℤ → ℤ × ℤ × ℤ
  pub print_double : p.Double → Bytes
  pub text_of : p.Str → Bytes
  pub to_str : Bytes → p.Str
  pub atol : Bytes → ℤ
  pub atof : Bytes → p.Double

-- The index with a number in the table of a record: the field it is on, if there is one, and the
-- records of the key.
pub record Indexes (p : Platform) : Type 0 where
  pub index_field : Record p → ℤ → Option ℤ
  pub record_list : Record p → ℤ → List (Record p)

-- `T_KRContext` as far as these items use it; `hdi_cache` is that of the environment.
pub record KeyScope (p : Platform) (E C : Type 0) : Type 0 where
  pub scope : Scope p E
  pub e_key_type : KrType
  pub p_key_value : Option (Val p)
  pub hdi_cache : Option C

abbrev zero_digits : ℕ → Bytes
zero_digits zero = []
zero_digits (suc n) = b'0' ∷ zero_digits n

-- `%04d` and `%02d` of a number that is not negative
abbrev pub zero_pad : ℕ → Bytes → Bytes
zero_pad width text = zero_digits (width - length text) ++ text

-- `%ld`
abbrev pub print_long : ℤ → Bytes
print_long (pos n) = digits_loop 19 n []
print_long (negsuc n) = b'-' ∷ digits_loop 19 (suc n) []

-- whether `strcmp` of two strings is not negative
abbrev pub not_less : Bytes → Bytes → Bool
not_less xs [] = true
not_less [] (y ∷ ys) = false
not_less (x ∷ xs) (y ∷ ys) = if x == y then not_less xs ys else ltb y x

-- what a run of an expression without a message is
abbrev pub without_error : {A : Type 0} → Exec A → Run A
without_error (value a) = ok a
without_error (crash f) = fault f
without_error _ = fault foreign_member

-- a value of this type, from one union to the other
unfoldable pub copy_value : (p : Platform) → KrType → Val p → Val p → Run (Val p)
copy_value p KrType.int from to = without_error (as_int from) >>= (λ n. ok (Value.i n))
copy_value p KrType.long from to = without_error (as_l from) >>= (λ n. ok (Value.l n))
copy_value p KrType.double from to = without_error (as_d p from) >>= (λ n. ok (Value.d n))
copy_value p KrType.string from to = without_error (as_s from) >>= (λ n. ok (Value.s n))
copy_value p _ from to = ok to

module _ {p : Platform} where
  -- `kr_hdi_init`
  abbrev pub hdi_init : Hdi p → Hdi p
  hdi_init krhdi = record krhdi { e_value_ind = false; u_value = Value.zeroed }

  -- `kr_hdi_cache_value_new`
  abbrev cache_value_new : ℤ → CacheValue p
  cache_value_new hid = record {
    hdi_id = hid;
    e_value_type = KrType.unknown;
    date = [];
    e_value_ind = false;
    u_value = Value.zeroed;
  }

  abbrev pub node_lookup : HdiCacheNode p → ℤ → Option (CacheValue p)
  node_lookup [] hid = none
  node_lookup (v ∷ vs) hid = if eqb_ℤ v.hdi_id hid then some v else node_lookup vs hid

  abbrev pub node_replace : HdiCacheNode p → CacheValue p → HdiCacheNode p
  node_replace [] v = v ∷ []
  node_replace (w ∷ ws) v = if eqb_ℤ w.hdi_id v.hdi_id then v ∷ ws else w ∷ node_replace ws v

  module _ (caches : Caches p) where
    open caches use {C, get, set, poke}

    -- with the node, which is in the cache
    unfoldable pub at_value :
        C → Val p → ℤ → HdiCacheNode p → Option (CacheValue p) → CacheValue p × C
    at_value c key hid node (some v) = (v, c)
    at_value c key hid node none =
        let v = cache_value_new hid in (v, poke c key (node_replace node v))

    unfoldable pub at_node : C → Val p → ℤ → Option (HdiCacheNode p) → CacheValue p × C
    unfolding at_value
    at_node c key hid (some node) = at_value c key hid node (node_lookup node hid)
    at_node c key hid none = at_value (set c key []) key hid [] none

    -- `kr_hdi_cache_get`
    unfoldable pub hdi_cache_get : C → Val p → ℤ → CacheValue p × C
    unfolding at_node
    hdi_cache_get c key hid = let (node, c') = get c key in at_node c' key hid node

    unfoldable pub write_in : C → Val p → CacheValue p → Option (HdiCacheNode p) → C
    write_in c key v none = c
    write_in c key v (some node) = poke c key (node_replace node v)

    -- a value of the cache is changed through the pointer that `kr_hdi_cache_get` gave
    unfoldable pub hdi_cache_write : C → Val p → CacheValue p → C
    unfolding write_in
    hdi_cache_write c key v = write_in c key v (get c key).0
