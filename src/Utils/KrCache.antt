-- ===== src/Utils/KrCache.antt =====
-- krutils/kr_cache.c: a cache of bounded size. A `T_KRCache` lives outside the heap of list nodes, as
-- does a `T_KRCacheNode`, which the value of a list node points to. A key and a value are what the
-- pointers to them point to, so that a duplicate is the same. The hash table is a parameter.
pub mod Entries
pub mod Evict
pub mod Use
pub mod Set
use krproject.Base.{
  ℕ, zero, suc, ◌+◌, ◌-◌, ◌%◌, ◌^◌, Bool, Option, none, some, ◌==◌, ltb, leb, if◌then◌else◌, Run,
  ok, fault, freed_read, is_some,
}
use krproject.Base.Int.{ℤ, pos}
use krproject.Utils.Heap.{Ptr, null, Heap, Cmd, pure, ◌>>=◌, load}
use krproject.Utils.KrList.{
  KrList, Callbacks, no_callbacks, list_new, list_delete, list_move_head, list_add_head,
  list_destroy,
}

-- The functions of the hash table, whose values are list nodes.
pub record KeyTable (K : Type 0) : Type 1 where
  pub T : Type 0
  pub empty : T
  pub lookup : T → K → Ptr
  pub replace : T → K → Ptr → T
  pub remove : T → K → T
  pub size : T → ℕ

-- `T_KRCacheNode`; its `cache` is the one it is in
pub record CacheNode (K V : Type 0) : Type 0 where
  pub key : K
  pub value : V
  pub hits : ℕ
  pub last_hit_time : ℤ

-- the list after `kr_list_add_head`, which changes nothing where it returns NULL
abbrev pub or_list : Option KrList → KrList → KrList
or_list none list = list
or_list (some l) list = l

-- `T_KRCache` without its callbacks, with the cache nodes that are allocated
pub record Cache {K : Type 0} (H : KeyTable K) (V : Type 0) : Type 0 where
  pub max_size : ℕ
  pub list : KrList
  pub hash_table : H.T
  pub objects : Ptr → Option (CacheNode K V)

-- The difference of two `unsigned int`s is converted to an `int`, which is negative from 2^31 on, so
-- that the loop has no turn.
abbrev pub turns : ℕ → ℕ
turns n = if ltb n (2 ^ 31) then n else 0

module _ {K V : Type 0} where
  abbrev pub put_object :
      Ptr → Option (CacheNode K V) → (Ptr → Option (CacheNode K V)) → Ptr → Option (CacheNode K V)
  put_object p contents objects a = if a == p then contents else objects a

  -- the members of the cache node at this address
  abbrev pub read_object : Option (CacheNode K V) → Cmd (CacheNode K V)
  read_object none = λ _. fault freed_read
  read_object (some contents) = pure contents

  abbrev pub hit : ℤ → CacheNode K V → CacheNode K V
  hit now cachenode = record cachenode { hits = cachenode.hits + 1; last_hit_time = now }

module _ {K V : Type 0} {H : KeyTable K} where
  -- `kr_cache_node_free`, which the list calls where it is set
  abbrev pub free_object : Cache H V → Ptr → Ptr → Option (CacheNode K V)
  free_object cache p =
      if cache.list.calls.free then put_object p none cache.objects else cache.objects

  -- `kr_cache_new`, when the memory was granted
  unfoldable pub cache_new : ℕ → Option (Cache H V)
  cache_new cache_size =
      if leb cache_size 0
      then none
      else some (record {
        max_size = cache_size;
        list = record list_new { calls = record no_callbacks { free = Bool.true } };
        hash_table = H.empty;
        objects = λ p. none;
      })

  -- the body of the loop of `kr_cache_evict_n_oldest`, with the oldest list node
  unfoldable pub evict_at : Cache H V → Ptr → Cmd (Cache H V)
  evict_at cache oldest = do
    n ← load oldest
    cachenode ← read_object (cache.objects n.value)
    l ← list_delete cache.list oldest
    pure (record {
      max_size = cache.max_size;
      list = l;
      hash_table = H.remove cache.hash_table cachenode.key;
      objects = free_object cache n.value;
    })

  -- `kr_cache_evict_n_oldest`
  unfoldable pub evict_n_oldest : ℕ → Cache H V → Cmd (Cache H V)
  evict_n_oldest zero cache = pure cache
  evict_n_oldest (suc n) cache =
      if cache.list.tail == null
      then pure cache
      else (evict_at cache cache.list.tail >>= evict_n_oldest n)

  -- `kr_cache_set_max_size`
  unfoldable pub cache_set_max_size : Cache H V → ℕ → Cmd (Cache H V)
  cache_set_max_size cache max_size =
      if ltb max_size cache.max_size
      then evict_n_oldest (turns (cache.max_size - max_size)) (record cache { max_size = max_size })
      else pure (record cache { max_size = max_size })

  abbrev pub cache_get_size : Cache H V → ℕ
  cache_get_size cache = H.size cache.hash_table

  -- `kr_cache_get` with the list node of the key
  unfoldable pub get_at : Ptr → ℤ → Cache H V → Cmd (Option V × Cache H V)
  get_at listnode now cache = do
    l ← list_move_head cache.list listnode
    n ← load listnode
    cachenode ← read_object (cache.objects n.value)
    pure (
      some cachenode.value,
      record cache {
        list = l;
        objects = put_object n.value (some (hit now cachenode)) cache.objects;
      },
    )

  -- `kr_cache_get`; `now` is what `time` gives
  unfoldable pub cache_get : K → ℤ → Cache H V → Cmd (Option V × Cache H V)
  cache_get key now cache =
      if H.lookup cache.hash_table key == null
      then pure (none, cache)
      else get_at (H.lookup cache.hash_table key) now cache

  -- what `kr_cache_set` does with a new cache node, at `object`; `fresh` is what `kr_malloc` gives
  -- for the list node
  unfoldable pub set_at : (object fresh : Ptr) → K → V → Cache H V → Cmd (Cache H V)
  set_at object fresh key value cache = do
    added ← list_add_head fresh cache.list object
    let l = or_list added cache.list
    pure (record {
      max_size = cache.max_size;
      list = l;
      hash_table = H.replace cache.hash_table key l.head;
      objects =
          put_object object
            (some (record { key = key; value = value; hits = 0; last_hit_time = pos 0 }))
            cache.objects;
    })

  -- `kr_cache_set`: the difference is one of unsigned numbers, read as an `int`; `object` is what
  -- `kr_malloc` gives for the cache node
  unfoldable pub cache_set : (object fresh : Ptr) → K → V → Cache H V → Cmd (Cache H V)
  cache_set object fresh key value cache = do
    let n = (H.size cache.hash_table + 2 ^ 32 - cache.max_size) % 2 ^ 32
    room ← if ltb n (2 ^ 31) then evict_n_oldest (n + 1) cache else pure cache
    if object == null then pure room else set_at object fresh key value room

  -- `kr_cache_free`, which gives the memory of the list back
  cache_free : Cache H V → Cmd (Unit {0})
  cache_free cache = list_destroy cache.list
