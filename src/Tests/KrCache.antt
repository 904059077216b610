-- ===== src/Tests/KrCache.antt =====
-- Uses of the theorems on caches, at a cache of one entry; a key is true or false.
use krproject.Base.{
  ℕ, suc, ◌+◌, ◌-◌, ◌≡◌, ◌≢◌, ◌⊎◌, ◌↔◌, refl, Bool, true, false, not, none, some, List, [], ◌∷◌,
  ◌++◌, ◌==◌, ok, if◌then◌else◌, arith, length,
}
use krproject.Base.Int.{pos}
use krproject.Utils.Heap.{Ptr, null, node, Heap}
use krproject.Utils.KrList.{no_callbacks}
use krproject.Utils.KrList.Chain.{Chain}
use krproject.Utils.KrList.Link.{Returns, IsList}
use krproject.Utils.KrCache.{turns, KeyTable, Cache, cache_get, cache_set, cache_set_max_size}
use krproject.Utils.KrCache.Entries.{Entry, Laws, IsCache, has_key, newest}
use krproject.Utils.KrCache.Evict.{cache_set_max_size-Kept}
use krproject.Utils.KrCache.Use.{used, cache_get-Got}
use krproject.Utils.KrCache.Set.{new_entry, cache_set-IsCache, Doubled, cache_set-Doubled}

record Slots : Type 0 where
  no : Ptr
  yes : Ptr

abbrev slot : Slots → Bool → Ptr
slot t true = t.yes
slot t false = t.no

abbrev put_slot : Slots → Bool → Ptr → Slots
put_slot t true p = record t { yes = p }
put_slot t false p = record t { no = p }

abbrev table : KeyTable Bool
table = record {
  T = Slots;
  empty = record { no = null; yes = null };
  lookup = slot;
  replace = put_slot;
  remove = λ t k. put_slot t k null;
  size = λ t. (if t.no == null then 0 else 1) + (if t.yes == null then 0 else 1);
}

abbrev same : Bool → Bool → Bool
same true b = b
same false b = not b

same_iff : (a b : Bool) → (same a b ≡ true) ↔ (a ≡ b)
same_iff true true = (λ _. refl, λ _. refl)
same_iff true false = (λ h. cc, λ h. cc)
same_iff false true = (λ h. cc, λ h. cc)
same_iff false false = (λ _. refl, λ _. refl)

slot-put :
    (t : Slots) (k : Bool) (p : Ptr) (j : Bool)
    → slot (put_slot t k p) j ≡ (if same j k then p else slot t j)
slot-put t true p true = refl
slot-put t true p false = refl
slot-put t false p true = refl
slot-put t false p false = refl

size-put :
    (t : Slots) (k : Bool) (p : Ptr)
    → p ≢ null
    → slot t k ≡ null
    → table.size (put_slot t k p) ≡ suc (table.size t)
size-put t true p h e = ground (arith, h, e)
size-put t false p h e = ground (arith, h, e)

size-put_again :
    (t : Slots) (k : Bool) (p : Ptr)
    → p ≢ null
    → slot t k ≢ null
    → table.size (put_slot t k p) ≡ table.size t
size-put_again t true p h e = ground (arith, h, e)
size-put_again t false p h e = ground (arith, h, e)

size-clear :
    (t : Slots) (k : Bool) → slot t k ≢ null → suc (table.size (put_slot t k null)) ≡ table.size t
size-clear t true h = ground (arith, h)
size-clear t false h = ground (arith, h)

table-Laws : Laws table same
table-Laws = record {
  same_iff = same_iff;
  lookup-replace = slot-put;
  lookup-remove = λ t k j. slot-put t k null j;
  size-replace = size-put;
  size-replace_again = size-put_again;
  size-remove = size-clear;
}

-- the list node 1 with the cache node 10
abbrev heap : Heap
heap = record { cell = λ p. if p == 1 then some (node null null 10) else none; released = [] }

abbrev entry : Entry Bool ℕ
entry = record {
  at = 1;
  object = 10;
  contents = record { key = true; value = 7; hits = 0; last_hit_time = pos 0 };
}

-- a cache with room for one entry, which has one
abbrev cache : Cache table ℕ
cache = record {
  max_size = 1;
  list = record { head = 1; tail = 1; calls = record no_callbacks { free = true }; len = 1 };
  hash_table = record { no = null; yes = 1 };
  objects = λ p. if p == 10 then some entry.contents else none;
}

cache-IsList : IsList heap cache.list ((1, 10) ∷ [])
unfolding Chain
cache-IsList = record {
  chain = (record { ne_null = ground arith; holds = refl }, tt);
  distinct = (refl, tt);
  head = refl;
  tail = refl;
  len = refl;
  fits = omega arith;
}

table_of : (k : Bool) → slot cache.hash_table k ≡ (if same k true then 1 else null)
table_of true = refl
table_of false = refl

cache-IsCache : IsCache same heap cache (entry ∷ [])
cache-IsCache = record {
  list = cache-IsList;
  frees = refl;
  stored = (refl, tt);
  apart = (refl, tt);
  keys = (refl, tt);
  table = table_of;
  size = refl;
}

not_null : (n : ℕ) → suc n ≢ null
not_null n = ground arith

cache_get-Got_example :
    ((has_key same true (entry ∷ []) ≡ false)
      × (cache_get true (pos 5) cache heap ≡ ok ((none, cache), heap)))
    ⊎ ((xs : List (Entry Bool ℕ)) × (e : Entry Bool ℕ) × (ys : List (Entry Bool ℕ)) × ((entry ∷ [])
          ≡ xs ++ e ∷ ys)
        × (true ≡ e.contents.key)
        × Returns
            (λ (r, c') g.
              (r ≡ some e.contents.value)
              × IsCache same g c' (used (pos 5) e ∷ (xs ++ ys))
              × (c'.max_size ≡ cache.max_size))
            (cache_get true (pos 5) cache heap))
cache_get-Got_example = cache_get-Got table-Laws (entry ∷ []) true (pos 5) cache-IsCache

cache_set-IsCache_example :
    Returns
      (λ c' g.
        IsCache same g c' (new_entry 2 20 false 9 ∷ newest 0 (entry ∷ []))
        × (c'.max_size ≡ cache.max_size))
      (cache_set 20 2 false 9 cache heap)
cache_set-IsCache_example =
    cache_set-IsCache table-Laws 2 20 (not_null 1) false 9 (entry ∷ []) cache-IsCache refl
      (omega arith) (omega arith) (omega arith) (not_null 19) refl refl

cache_set_max_size-Kept_example :
    Returns
      (λ c' g.
        IsCache same g c' (newest (length (entry ∷ []) - turns (cache.max_size - 0)) (entry ∷ []))
        × (c'.max_size ≡ 0))
      (cache_set_max_size cache 0 heap)
cache_set_max_size-Kept_example = cache_set_max_size-Kept table-Laws (entry ∷ []) 0 cache-IsCache

-- the same with room for two entries
abbrev roomy : Cache table ℕ
roomy = record cache { max_size = 2 }

roomy-IsCache : IsCache same heap roomy (entry ∷ [])
roomy-IsCache =
    let is = cache-IsCache in
    record {
      list = is.list;
      frees = is.frees;
      stored = is.stored;
      apart = is.apart;
      keys = is.keys;
      table = is.table;
      size = is.size;
    }

cache_set-Doubled_example :
    Returns
      (Doubled table-Laws 2 20 (not_null 1) true 9 (entry ∷ []))
      (cache_set 20 2 true 9 roomy heap)
cache_set-Doubled_example =
    cache_set-Doubled table-Laws 2 20 (not_null 1) true 9 (entry ∷ []) roomy-IsCache (not_null 0)
      (omega arith) (omega arith) (not_null 19) refl
