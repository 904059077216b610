-- ===== src/Utils/KrCache/Set.antt =====
-- Setting a key: `kr_cache_set` of krutils/kr_cache.c.
use mathlib.Core.Path.{subst}
use krproject.Base.{
  ℕ, zero, suc, ◌+◌, ◌-◌, ◌%◌, ◌^◌, ◌<◌, ◌≤◌, ◌≡◌, ◌≢◌, inl, inr, refl, sym, ap, ◌∙◌, Bool, false,
  Option, none, some, List, [], ◌∷◌, ◌==◌, ltb, if◌then◌else◌, ok, length, length-map, arith,
  Bool-cases,
}
use krproject.Base.Int.{pos}
use krproject.Utils.Heap.{Ptr, null, Heap, pure}
use krproject.Utils.KrList.{KrList}
use krproject.Utils.KrList.Link.{Returns, returns, Returns-bind, Returns-mono, IsList}
use krproject.Utils.KrList.Insert.{Inserted}
use krproject.Utils.KrList.Ends.{Gives, list_add-Inserted}
use krproject.Utils.KrCache.{KeyTable, CacheNode, Cache, put_object, set_at, cache_set, or_list}
use krproject.Utils.KrCache.Entries.{
  Entry, Laws, cells, IsCache, Stored, Stored-put, has_object, has_key, node_of-absent, same_refl,
  newest, newest-all,
}
use krproject.Utils.KrCache.Evict.{Kept, Kept-refl, evict_n_oldest-Kept}

module _ {K V : Type 0} where
  -- the entry of a new key
  abbrev pub new_entry : (fresh object : Ptr) → K → V → Entry K V
  new_entry fresh object key value = record {
    at = fresh;
    object = object;
    contents = record { key = key; value = value; hits = 0; last_hit_time = pos 0 };
  }

  unused_object :
      (objects : Ptr → Option (CacheNode K V)) (p : Ptr) (es : List (Entry K V))
      → objects p ≡ none
      → Stored objects es
      → has_object p es ≡ false
  unused_object objects p [] u s = refl
  unused_object objects p (e ∷ es) u s = ground (arith, u, s.0, unused_object objects p es u s.1)

  has_key-newest :
      (same : K → K → Bool) (k : K) (n : ℕ) (es : List (Entry K V))
      → has_key same k es ≡ false
      → has_key same k (newest n es) ≡ false
  unfolding newest
  has_key-newest same k zero es h = refl
  has_key-newest same k (suc n) [] h = refl
  has_key-newest same k (suc n) (e ∷ es) h =
      ground (arith, h, has_key-newest same k n es (ground (arith, h)))

  length-newest : (n : ℕ) (es : List (Entry K V)) → length (newest n es) ≤ n
  unfolding newest
  length-newest zero es = omega arith
  length-newest (suc n) [] = omega arith
  length-newest (suc n) (e ∷ es) = omega (arith, length-newest n es)

module _ {K V : Type 0} {H : KeyTable K} {same : K → K → Bool} (laws : Laws H same) where
  -- the unsigned difference, read as an `int`, is negative
  not_full :
      {h : Heap} {c : Cache H V} (es : List (Entry K V))
      → IsCache same h c es
      → length es < c.max_size
      → c.max_size < 2 ^ 31
      → ltb ((H.size c.hash_table + 2 ^ 32 - c.max_size) % 2 ^ 32) (2 ^ 31) ≡ false
  not_full {h} {c} es is less small =
      let n = is.size in
      let q : 2 ^ 31 ≤ (H.size c.hash_table + 2 ^ 32 - c.max_size) % 2 ^ 32 =
        omega (arith, n, less, small) in
      ground (arith, q)

  module _ (fresh object : Ptr) (ne : fresh ≢ null) (key : K) (value : V) where
    -- the cache after the list node was added
    abbrev with_list : Cache H V → KrList → Cache H V
    with_list c l = record {
      max_size = c.max_size;
      list = l;
      hash_table = H.replace c.hash_table key l.head;
      objects = put_object object (some (new_entry fresh object key value).contents) c.objects;
    }

    module _ {h : Heap} {c : Cache H V} (es : List (Entry K V)) (is : IsCache same h c es)
        (out : has_key same key es ≡ false) (unused : c.objects object ≡ none) where
      with_list-IsCache :
          (l : KrList) (g : Heap)
          → Inserted h c.list [] fresh object (cells es) l g
          → IsCache same g (with_list c l) (new_entry fresh object key value ∷ es)
      with_list-IsCache l g i =
          let gone = unused_object c.objects object es unused is.stored in
          record {
            list = i.list;
            frees = ap (λ k. k.free) i.calls ∙ is.frees;
            stored = (ground arith, Stored-put c.objects object _ es gone is.stored);
            apart = (gone, is.apart);
            keys = (out, is.keys);
            table = λ k.
                laws.lookup-replace c.hash_table key l.head k
                ∙ ap (λ p. if same k key then p else H.lookup c.hash_table k) i.list.head
                ∙ ap (λ p. if same k key then fresh else p) (is.table k);
            size =
                laws.size-replace c.hash_table key l.head (λ z. ne (sym i.list.head ∙ z))
                  (is.table key ∙ node_of-absent laws key es out)
                ∙ ap suc is.size;
          }

      after_add :
          (o : Option KrList) (g : Heap)
          → Gives (Inserted h c.list [] fresh object (cells es)) o g
          → Returns
              (λ c' f.
                IsCache same f c' (new_entry fresh object key value ∷ es)
                × (c'.max_size ≡ c.max_size))
              (ok (with_list c (or_list o c.list), g))
      after_add none g i = absurd i
      after_add (some l) g i = returns (with_list-IsCache l g i, refl)

      set_at-IsCache :
          length es + 1 < 2 ^ 32
          → h.cell fresh ≡ none
          → Returns
              (λ c' g.
                IsCache same g c' (new_entry fresh object key value ∷ es)
                × (c'.max_size ≡ c.max_size))
              (set_at object fresh key value c h)
      unfolding set_at
      set_at-IsCache room free =
          let m = length-map {B = Ptr × Ptr} (λ d. (d.at, d.object)) es in
          Returns-bind
            (list_add-Inserted fresh object ne free (cells es) is.list (omega (arith, m, room))).0
            λ o g i. after_add o g i

    finish_set :
        {h : Heap} {c : Cache H V} (es : List (Entry K V))
        → has_key same key es ≡ false
        → c.max_size < 2 ^ 31
        → object ≢ null
        → h.cell fresh ≡ none
        → c.objects object ≡ none
        → (c₁ : Cache H V) (g : Heap) → Kept laws h c (newest (c.max_size - 1) es) c₁ g
        → Returns
            (λ c' f.
              IsCache same f c' (new_entry fresh object key value ∷ newest (c.max_size - 1) es)
              × (c'.max_size ≡ c.max_size))
            ((if object == null then pure c₁ else set_at object fresh key value c₁) g)
    finish_set {c} es out small there free unused c₁ g kept =
        let t : (object == null) ≡ false = ground (arith, there) in
        rw t (
          Returns-mono
            (set_at-IsCache (newest (c.max_size - 1) es) kept.cache
              (has_key-newest same key (c.max_size - 1) es out) (kept.object object unused)
              (omega (arith, small, length-newest (c.max_size - 1) es)) (kept.cell fresh free))
            λ c' f (is, bound). (is, bound ∙ kept.max_size))

    -- Setting a key that no entry has, with memory for it at addresses that were unused, puts its entry
    -- before the others. If the cache was full, the oldest entry goes; else all others stay. The bound
    -- is positive and fits an `int`.
    pub cache_set-IsCache :
        {h : Heap} {c : Cache H V} (es : List (Entry K V))
        → IsCache same h c es
        → has_key same key es ≡ false
        → length es ≤ c.max_size
        → 0 < c.max_size
        → c.max_size < 2 ^ 31
        → object ≢ null
        → h.cell fresh ≡ none
        → c.objects object ≡ none
        → Returns
            (λ c' g.
              IsCache same g c' (new_entry fresh object key value ∷ newest (c.max_size - 1) es)
              × (c'.max_size ≡ c.max_size))
            (cache_set object fresh key value c h)
    unfolding cache_set
    cache_set-IsCache {h} {c} es is out fits some_room small there free unused =
        let n = is.size in
        let m : suc (c.max_size - 1) ≡ c.max_size = omega (arith, some_room) in
        elim (Bool-cases (length es == c.max_size)) [
          | inl full ↦
              let z : (H.size c.hash_table + 2 ^ 32 - c.max_size) % 2 ^ 32 ≡ 0 =
                (let q : length es ≡ c.max_size = ground (arith, full) in
                  omega (arith, n, q, small)) in
              let k : length es - 1 ≡ c.max_size - 1 = ground (arith, full) in
              rw z (
                Returns-bind (evict_n_oldest-Kept laws 1 es is) λ c₁ g kept.
                  finish_set es out small there free unused c₁ g
                    (subst (λ j. Kept laws h c (newest j es) c₁ g) k kept))
          | inr less ↦
              let f : length es < c.max_size = ground (arith, less, fits) in
              let all = newest-all (c.max_size - 1) es (omega (arith, f)) in
              rw (not_full es is f small) (
                finish_set es out small there free unused c h
                  (subst (λ zs. Kept laws h c zs c h) (sym all) (Kept-refl laws is)))
        ]

    -- what is left of the invariant when the key was there before
    unfoldable pub Doubled : List (Entry K V) → Cache H V → Heap → Type 0
    Doubled es c g =
        IsList g c.list ((fresh, object) ∷ cells es)
        × (H.lookup c.hash_table key ≡ fresh)
        × (H.size c.hash_table ≡ length es)

    after_again :
        {h : Heap} {c : Cache H V} (es : List (Entry K V))
        → IsCache same h c es
        → H.lookup c.hash_table key ≢ null
        → (o : Option KrList) (g : Heap) → Gives (Inserted h c.list [] fresh object (cells es)) o g
        → Returns (Doubled es) (ok (with_list c (or_list o c.list), g))
    unfolding Doubled
    after_again es is old none g i = absurd i
    after_again {h} {c} es is old (some l) g i = returns (
      i.list,
      laws.lookup-replace c.hash_table key l.head key ∙ rw (same_refl laws key) i.list.head,
      laws.size-replace_again c.hash_table key l.head (λ z. ne (sym i.list.head ∙ z)) old ∙ is.size,
    )

    -- Setting a key that an entry has, in a cache that is not full, leaves the old list node where it
    -- is: the list has one node more than before, and the hash table has as many keys as before, of
    -- which this one finds the new node. Memory is granted at addresses that were unused.
    pub cache_set-Doubled :
        {h : Heap} {c : Cache H V} (es : List (Entry K V))
        → IsCache same h c es
        → H.lookup c.hash_table key ≢ null
        → length es < c.max_size
        → c.max_size < 2 ^ 31
        → object ≢ null
        → h.cell fresh ≡ none
        → Returns (Doubled es) (cache_set object fresh key value c h)
    unfolding cache_set set_at
    cache_set-Doubled {h} {c} es is old less small there free =
        let t : (object == null) ≡ false = ground (arith, there) in
        let m = length-map {B = Ptr × Ptr} (λ d. (d.at, d.object)) es in
        rw (not_full es is less small, t)
          (Returns-bind
            (list_add-Inserted fresh object ne free (cells es) is.list
              (omega (arith, m, less, small))).0
            λ o g i. after_again es is old o g i)
