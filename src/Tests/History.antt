-- ===== src/Tests/History.antt =====
-- Data items of past days, with a cache by the first letter of a key.
use krproject.Base.{
  ℕ, suc, ◌≡◌, refl, Bool, true, false, Option, none, some, [], ◌∷◌, ok, arith, ◌==◌, if◌then◌else◌,
}
use krproject.Base.Int.{pos}
use krproject.Platform.{KrType, Value, Val}
use krproject.Message.{Bytes}
use krproject.Data.{Record}
use krproject.Data.Access.{get_value}
use krproject.Data.History.{
  Hdi, CacheValue, HdiCacheNode, Caches, Outside, Indexes, KeyScope, copy_value, hdi_cache_get,
  hdi_cache_write, at_value, at_node,
}
use krproject.Data.History.Compute.{
  object_text, aggr_flag, aggr_object, hdi_aggr_func, at_key, compute_hdi, hdi_compute,
  cache_computed, get_value_from_cache, stamped, fresh_value, hdi_get_value,
}
use krproject.Data.History.Cached.{Laws, hdi_get_value-hdi_cache_write}
use krproject.Data.History.Final.{hdi_get_value_again}
use krproject.Tests.Sample.{small}

abbrev slot : Val small → ℕ
slot (Value.s a) = suc a
slot _ = 0

abbrev entered :
    (ℕ → Option (HdiCacheNode small))
    → Val small
    → HdiCacheNode small
    → ℕ
    → Option (HdiCacheNode small)
entered c k n j = if j == slot k then some n else c j

abbrev slots : Caches small
slots = record {
  C = ℕ → Option (HdiCacheNode small);
  get = λ c k. (c (slot k), c);
  set = entered;
  poke = entered;
}

entered_lem :
    (c : ℕ → Option (HdiCacheNode small)) (k : Val small) (n : HdiCacheNode small)
    → entered c k n (slot k) ≡ some n
entered_lem c k n = let e : (slot k == slot k) ≡ true = ground arith in rw e refl

slots-Laws : Laws slots
slots-Laws = record {
  set_get = entered_lem;
  get_get = λ c k. refl;
  poke_get = λ c k n h. entered_lem c k n;
}

-- A database where the statements end as it says, and the flag is 7.
abbrev database : Bool → Outside small
database works = record {
  day_sel = λ object id from to. none;
  month_sel = λ object id from to. none;
  flag_sel = λ object id. if works then some (b'7' ∷ []) else none;
  localtime = λ t. (pos 2014, pos 5, pos 1);
  print_double = λ x. [];
  text_of = λ a. a ∷ [];
  to_str = λ t. 0;
  atol = λ t. pos 0;
  atof = λ t. pos 0;
}

abbrev indexes : Indexes small
indexes = record { index_field = λ r n. some (pos 2); record_list = λ r n. [] }

-- a record whose key is a letter
abbrev keyed : ℕ → ℕ → Record small
keyed address a = record {
  address = address;
  table_id = pos 1;
  transtime = pos 100;
  field_type = λ f. KrType.string;
  field_value = λ f. Value.s a;
}

-- the context of a record, after an item with the key 'a'
abbrev scope :
    ℕ
    → Option (ℕ → Option (HdiCacheNode small))
    → KeyScope small ℕ (ℕ → Option (HdiCacheNode small))
scope a cache = record {
  scope = record { pt_curr_rec = some (keyed 4 a); pt_record = none; pt_rec_list = []; rest = 0 };
  e_key_type = KrType.string;
  p_key_value = some (Value.s b'a');
  hdi_cache = cache;
}

abbrev item : ℕ → Hdi small
item statistics_type = record {
  def = record {
    statistics_type = statistics_type;
    statistics_index = pos 1;
    statistics_value = pos 50;
  };
  hdi_id = pos 3;
  e_value_type = KrType.int;
  pt_curr_rec = none;
  e_value_ind = false;
  u_value = Value.zeroed;
}

abbrev empty : ℕ → Option (HdiCacheNode small)
empty j = none

abbrev nine : CacheValue small
nine = record {
  hdi_id = pos 3;
  e_value_type = KrType.int;
  date = b'2' ∷ b'0' ∷ b'1' ∷ b'4' ∷ b'0' ∷ b'5' ∷ b'0' ∷ b'1' ∷ [];
  e_value_ind = true;
  u_value = Value.i (pos 9);
}

copied : copy_value small KrType.int (Value.i (pos 9)) Value.zeroed ≡ ok (Value.i (pos 9))
unfolding copy_value
copied = refl

-- The record has the key 'b', and gets the value of the key 'a'.
hdi_get_value-hdi_cache_write_example :
    let c' =
      hdi_cache_write slots
        (hdi_cache_get slots empty (Value.s b'a') (pos 3)).1
        (Value.s b'a')
        nine in
    hdi_get_value (database true) indexes slots (some (item b'2')) (scope b'b' (some c'))
    ≡ ok (
      some (record (item b'2') {
        u_value = Value.i (pos 9);
        e_value_ind = true;
        pt_curr_rec = some 4;
      }),
      scope b'b' (some (hdi_cache_get slots c' (Value.s b'a') (pos 3)).1),
      some (Value.i (pos 9)),
    )
unfolding get_value
hdi_get_value-hdi_cache_write_example =
    hdi_get_value-hdi_cache_write slots-Laws (database true) indexes empty (Value.s b'a')
      (Value.i (pos 9)) nine (item b'2') (scope b'b' none) refl refl refl copied

-- the item and the context after the database failed
abbrev unset : Hdi small
unset = record (item b'2') { pt_curr_rec = some 4 }

abbrev after : KeyScope small ℕ (ℕ → Option (HdiCacheNode small))
after = record (at_key indexes (pos 1) (pos 2) (keyed 4 b'b') (scope b'b' none)) {
  hdi_cache = some (hdi_cache_get slots empty (Value.s b'a') (pos 3)).1;
}

failed :
    hdi_get_value (database false) indexes slots (some (item b'2')) (scope b'b' (some empty))
    ≡ ok (some unset, after, none)
unfolding hdi_get_value get_value_from_cache cache_computed fresh_value stamped hdi_compute
    compute_hdi hdi_aggr_func at_key object_text aggr_object aggr_flag hdi_cache_get at_node
    at_value krproject.Message.take
failed = refl

-- The database works again.
hdi_get_value_again_example :
    hdi_get_value (database true) indexes slots (some unset) (scope b'b' (some empty))
    ≡ ok (some unset, scope b'b' (some empty), none)
unfolding at_key
hdi_get_value_again_example =
    hdi_get_value_again (database false) indexes slots (database true) indexes (item b'2') unset
      (scope b'b' (some empty)) after (scope b'b' (some empty)) empty none refl failed refl
