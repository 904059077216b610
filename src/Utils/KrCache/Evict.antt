-- ===== src/Utils/KrCache/Evict.antt =====
-- Evicting entries: `kr_cache_evict_n_oldest` and `kr_cache_set_max_size` of krutils/kr_cache.c.
use mathlib.Core.List.{append-nil}
use mathlib.Core.Path.{subst}
use krproject.Base.{
  ℕ, zero, suc, ◌-◌, ◌≡◌, ◌≢◌, refl, sym, ap, ◌∙◌, Bool, true, false, none, some, List, [], ◌∷◌,
  ◌++◌, ◌==◌, ltb, if◌then◌else◌, ok, length, length-append, arith, Bool-cases, inl, inr,
}
use krproject.Utils.Heap.{Ptr, null, Heap, load-ok}
use krproject.Utils.KrList.Chain.{last-append, has, has-append}
use krproject.Utils.KrList.Link.{Returns, returns, Returns-bind, Returns-mono, IsList}
use krproject.Utils.KrList.Around.{IsList-Points}
use krproject.Utils.KrList.Insert.{unused-has}
use krproject.Utils.KrList.Delete.{list_delete-Deleted}
use krproject.Utils.KrCache.{
  turns, KeyTable, Cache, put_object, evict_at, evict_n_oldest, cache_set_max_size,
}
use krproject.Utils.KrCache.Entries.{
  Entry, Laws, cells, IsCache, cells-append, Stored, Stored-put, Stored-append, append-Stored,
  ApartObjects-without, DistinctKeys-without, node_of-front, node_of-without, same_refl, newest,
  newest-append, newest-all, snoc,
}

module _ {K V : Type 0} {H : KeyTable K} {same : K → K → Bool} (laws : Laws H same) where
  -- What stays when entries are taken out.
  pub record Kept (h : Heap) (c : Cache H V) (es : List (Entry K V)) (c' : Cache H V) (g : Heap)
      : Type 0 where
    pub cache : IsCache same g c' es
    pub max_size : c'.max_size ≡ c.max_size
    -- what was not in use is not in use
    pub cell : (p : Ptr) → h.cell p ≡ none → g.cell p ≡ none
    pub object : (p : Ptr) → c.objects p ≡ none → c'.objects p ≡ none

  module _ {h : Heap} {c : Cache H V} (xs : List (Entry K V)) (e : Entry K V)
      (ys : List (Entry K V)) (is : IsCache same h c (xs ++ e ∷ ys)) where
    pub entry-IsList : IsList h c.list (cells xs ++ (e.at, e.object) ∷ cells ys)
    entry-IsList = subst (IsList h c.list) (cells-append xs (e ∷ ys)) is.list

    pub entry-Stored : Stored c.objects (xs ++ ys) × (c.objects e.object ≡ some e.contents)
    entry-Stored =
        let (s, t) = Stored-append c.objects xs (e ∷ ys) is.stored in
        (append-Stored c.objects xs ys s t.1, t.0)

    pub entry-table : H.lookup c.hash_table e.contents.key ≡ e.at
    entry-table =
        is.table e.contents.key
        ∙ node_of-front laws e.contents.key xs e ys is.keys
        ∙ rw (same_refl laws e.contents.key) refl

    entry_size : e.at ≢ null → H.size (H.remove c.hash_table e.contents.key) ≡ length (xs ++ ys)
    entry_size ne =
        let one = laws.size-remove c.hash_table e.contents.key (λ z. ne (sym entry-table ∙ z)) in
        let all = is.size in
        let m = length-append xs ys in
        let m' = length-append xs (e ∷ ys) in omega (arith, one, all, m, m')

    entry_unused :
        (g : Heap) (p : Ptr)
        → h.cell p ≡ none
        → (has p (cells xs) ≡ false
            → has p (cells ys) ≡ false
            → (p == e.at) ≡ false
            → g.cell p ≡ h.cell p)
        → g.cell p ≡ none
    entry_unused g p unused same_cell =
        let out = unused-has h.cell null _ null p unused entry-IsList.chain in
        let m = has-append p (cells xs) ((e.at, e.object) ∷ cells ys) in
        same_cell (ground (arith, out, m)) (ground (arith, out, m)) (ground (arith, out, m))
        ∙ unused

    evict_at-Kept : Returns (Kept h c (xs ++ ys)) (evict_at c e.at h)
    unfolding evict_at
    evict_at-Kept =
        let point = IsList-Points (cells xs) e.at e.object (cells ys) entry-IsList in
        let (kept, here) = entry-Stored in
        let gone = (ApartObjects-without xs e ys is.apart).1 in
        rw (load-ok h point, here)
          (Returns-bind
            (list_delete-Deleted h c.list (cells xs) e.at e.object (cells ys) entry-IsList)
            λ l g d. returns record {
              cache = record {
                list = subst (IsList g l) (sym (cells-append xs ys)) d.list;
                frees = ap (λ k. k.free) d.calls ∙ is.frees;
                stored =
                    subst
                      (λ b.
                        Stored (if b then put_object e.object none c.objects else c.objects)
                          (xs ++ ys))
                      (sym is.frees) (Stored-put c.objects e.object none (xs ++ ys) gone kept);
                apart = (ApartObjects-without xs e ys is.apart).0;
                keys = (DistinctKeys-without laws xs e ys is.keys).0;
                table = λ k.
                    laws.lookup-remove c.hash_table e.contents.key k
                    ∙ ap (λ q. if same k e.contents.key then null else q) (is.table k)
                    ∙ node_of-without laws k xs e ys is.keys;
                size = entry_size point.ne_null;
              };
              max_size = refl;
              cell = λ p unused. entry_unused g p unused (d.outside p);
              object = λ p unused. ground (arith, unused);
            })

  Kept-trans :
      {h g f : Heap} {c c₁ c₂ : Cache H V} {es es' : List (Entry K V)}
      → Kept h c es c₁ g
      → Kept g c₁ es' c₂ f
      → Kept h c es' c₂ f
  Kept-trans a b = record {
    cache = b.cache;
    max_size = b.max_size ∙ a.max_size;
    cell = λ p unused. b.cell p (a.cell p unused);
    object = λ p unused. b.object p (a.object p unused);
  }

  pub Kept-refl :
      {h : Heap} {c : Cache H V} {es : List (Entry K V)} → IsCache same h c es → Kept h c es c h
  Kept-refl is = record { cache = is; max_size = refl; cell = λ p u. u; object = λ p u. u }

  -- the tail of the list is the node of the last entry
  evict_last-Kept :
      {h : Heap} {c : Cache H V} (xs : List (Entry K V)) (e : Entry K V)
      → IsCache same h c (xs ++ e ∷ [])
      → (c.list.tail ≢ null) × Returns (Kept h c xs) (evict_at c c.list.tail h)
  evict_last-Kept {h} {c} xs e is =
      let here = entry-IsList xs e [] is in
      let at_tail : c.list.tail ≡ e.at =
        here.tail ∙ last-append null (cells xs) ((e.at, e.object) ∷ []) in
      let point = IsList-Points (cells xs) e.at e.object [] here in
      (
        λ z. point.ne_null (sym at_tail ∙ z),
        subst (λ p. Returns (Kept h c xs) (evict_at c p h)) (sym at_tail)
            (subst (λ ys. Returns (Kept h c ys) (evict_at c e.at h)) (append-nil xs)
              (evict_at-Kept xs e [] is)),
      )

  newest_last :
      (n : ℕ) (xs : List (Entry K V)) (e : Entry K V)
      → newest (length (xs ++ e ∷ []) - suc n) (xs ++ e ∷ []) ≡ newest (length xs - n) xs
  newest_last n xs e =
      let m = length-append xs (e ∷ []) in
      let k : length (xs ++ e ∷ []) - suc n ≡ length xs - n = omega (arith, m) in
      rw k (newest-append (length xs - n) xs (e ∷ []) (omega arith))

  -- The `n` oldest entries go, or all if there are fewer.
  pub evict_n_oldest-Kept :
      (n : ℕ) {h : Heap} {c : Cache H V} (es : List (Entry K V))
      → IsCache same h c es
      → Returns (Kept h c (newest (length es - n) es)) (evict_n_oldest n c h)
  unfolding evict_n_oldest newest
  evict_n_oldest-Kept zero {h} {c} es is =
      subst (λ xs. Returns (Kept h c xs) (ok (c, h)))
        (sym (newest-all (length es - 0) es (omega arith))) (returns (Kept-refl is))
  evict_n_oldest-Kept (suc n) {h} {c} [] is =
      let z : (c.list.tail == null) ≡ true = (let t = is.list.tail in ground (arith, t)) in
      let k : 0 - suc n ≡ 0 = omega arith in rw (z, k) (returns (Kept-refl is))
  evict_n_oldest-Kept (suc n) {h} {c} (x ∷ es) is =
      let (xs, e, eq) = snoc x es in
      let (ne, gone) = evict_last-Kept xs e (subst (IsCache same h c) eq is) in
      let more : (c.list.tail == null) ≡ false = ground (arith, ne) in
      subst (λ zs. Returns (Kept h c (newest (length zs - suc n) zs)) (evict_n_oldest (suc n) c h))
        (sym eq)
        (subst (λ zs. Returns (Kept h c zs) (evict_n_oldest (suc n) c h)) (sym (newest_last n xs e))
          (rw more (
            Returns-bind gone λ c₁ g kept.
              Returns-mono (evict_n_oldest-Kept n xs kept.cache)
                λ c₂ f rest. Kept-trans kept rest)))

  -- After its bound is lowered by less than 2^31, a cache has lost as many of its oldest entries as the
  -- bound was lowered by, whether or not they would still fit; a bound that is lowered by more or not at
  -- all evicts nothing.
  pub cache_set_max_size-Kept :
      {h : Heap} {c : Cache H V} (es : List (Entry K V)) (max_size : ℕ)
      → IsCache same h c es
      → Returns
          (λ c' g.
            IsCache same g c' (newest (length es - (turns (c.max_size - max_size))) es)
            × (c'.max_size ≡ max_size))
          (cache_set_max_size c max_size h)
  unfolding cache_set_max_size
  cache_set_max_size-Kept {h} {c} es max_size is =
      let is' : IsCache same h (record c { max_size = max_size }) es = record {
        list = is.list;
        frees = is.frees;
        stored = is.stored;
        apart = is.apart;
        keys = is.keys;
        table = is.table;
        size = is.size;
      } in
      elim (Bool-cases (ltb max_size c.max_size)) [
        | inl lower ↦ rw lower (
            Returns-mono (evict_n_oldest-Kept (turns (c.max_size - max_size)) es is')
              λ c' g kept. (kept.cache, kept.max_size))
        | inr same_bound ↦
            let z : turns (c.max_size - max_size) ≡ 0 = ground (arith, same_bound) in
            rw (same_bound, z)
              (returns (
                subst (IsCache same h (record c { max_size = max_size }))
                    (sym (newest-all (length es - 0) es (omega arith))) is',
                refl,
              ))
      ]
