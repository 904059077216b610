-- ===== src/Utils/KrCache/Entries.antt =====
-- What a cache of krutils/kr_cache.c holds: its entries, the last one used first.
use krproject.Base.{
  ℕ, zero, suc, ◌≤◌, ◌≡◌, ◌≢◌, refl, ap, ◌∙◌, sym, Bool, true, false, ◌||◌, ◌↔◌, Option, some, List,
  [], ◌∷◌, ◌++◌, ◌==◌, if◌then◌else◌, length, map, arith, Bool-cases, inl, inr,
}
use krproject.Utils.Heap.{Ptr, null, Heap}
use krproject.Utils.KrList.Chain.{Cells}
use krproject.Utils.KrList.Link.{IsList}
use krproject.Utils.KrCache.{KeyTable, CacheNode, Cache, put_object}

-- the addresses of the list node and of the cache node, and what the cache node holds
pub record Entry (K V : Type 0) : Type 0 where
  pub at : Ptr
  pub object : Ptr
  pub contents : CacheNode K V

-- What the code relies on in the hash table; `same` is its comparison of keys.
pub record Laws {K : Type 0} (H : KeyTable K) (same : K → K → Bool) : Type 0 where
  pub same_iff : (a b : K) → (same a b ≡ true) ↔ (a ≡ b)
  pub lookup-replace :
      (t : H.T) (k : K) (p : Ptr) (j : K)
      → H.lookup (H.replace t k p) j ≡ (if same j k then p else H.lookup t j)
  pub lookup-remove :
      (t : H.T) (k j : K) → H.lookup (H.remove t k) j ≡ (if same j k then null else H.lookup t j)
  pub size-replace :
      (t : H.T) (k : K) (p : Ptr)
      → p ≢ null
      → H.lookup t k ≡ null
      → H.size (H.replace t k p) ≡ suc (H.size t)
  pub size-replace_again :
      (t : H.T) (k : K) (p : Ptr)
      → p ≢ null
      → H.lookup t k ≢ null
      → H.size (H.replace t k p) ≡ H.size t
  pub size-remove : (t : H.T) (k : K) → H.lookup t k ≢ null → suc (H.size (H.remove t k)) ≡ H.size t

module _ {K V : Type 0} where
  abbrev pub cells : List (Entry K V) → Cells
  cells es = map (λ e. (e.at, e.object)) es

  abbrev pub Stored : (Ptr → Option (CacheNode K V)) → List (Entry K V) → Type 0
  Stored objects [] = Unit
  Stored objects (e ∷ es) = (objects e.object ≡ some e.contents) × Stored objects es

  abbrev pub has_object : Ptr → List (Entry K V) → Bool
  has_object p [] = false
  has_object p (e ∷ es) = (p == e.object) || has_object p es

  -- no cache node is in two list nodes
  abbrev pub ApartObjects : List (Entry K V) → Type 0
  ApartObjects [] = Unit
  ApartObjects (e ∷ es) = (has_object e.object es ≡ false) × ApartObjects es

  module _ (same : K → K → Bool) where
    abbrev pub has_key : K → List (Entry K V) → Bool
    has_key k [] = false
    has_key k (e ∷ es) = same k e.contents.key || has_key k es

    abbrev pub DistinctKeys : List (Entry K V) → Type 0
    DistinctKeys [] = Unit
    DistinctKeys (e ∷ es) = (has_key e.contents.key es ≡ false) × DistinctKeys es

    -- the list node with this key
    abbrev pub node_of : K → List (Entry K V) → Ptr
    node_of k [] = null
    node_of k (e ∷ es) = if same k e.contents.key then e.at else node_of k es

  -- The cache is well-formed and holds these entries.
  pub record IsCache {H : KeyTable K} (same : K → K → Bool) (h : Heap) (c : Cache H V)
      (es : List (Entry K V)) : Type 0 where
    pub list : IsList h c.list (cells es)
    pub frees : c.list.calls.free ≡ true
    pub stored : Stored c.objects es
    pub apart : ApartObjects es
    pub keys : DistinctKeys same es
    pub table : (k : K) → H.lookup c.hash_table k ≡ node_of same k es
    pub size : H.size c.hash_table ≡ length es

  pub cells-append : (xs ys : List (Entry K V)) → cells (xs ++ ys) ≡ cells xs ++ cells ys
  cells-append [] ys = refl
  cells-append (x ∷ xs) ys = ap (◌∷◌ (x.at, x.object)) (cells-append xs ys)

  pub has_object-append :
      (p : Ptr) (xs ys : List (Entry K V))
      → has_object p (xs ++ ys) ≡ (has_object p xs || has_object p ys)
  has_object-append p [] ys = refl
  has_object-append p (x ∷ xs) ys = ground (arith, has_object-append p xs ys)

  -- an object that is not among the entries does not matter
  pub Stored-put :
      (objects : Ptr → Option (CacheNode K V)) (p : Ptr) (contents : Option (CacheNode K V))
      (es : List (Entry K V))
      → has_object p es ≡ false
      → Stored objects es
      → Stored (put_object p contents objects) es
  Stored-put objects p contents [] out s = tt
  Stored-put objects p contents (e ∷ es) out s =
      (ground (arith, out, s.0), Stored-put objects p contents es (ground (arith, out)) s.1)

  pub Stored-append :
      (objects : Ptr → Option (CacheNode K V)) (xs ys : List (Entry K V))
      → Stored objects (xs ++ ys)
      → Stored objects xs × Stored objects ys
  Stored-append objects [] ys s = (tt, s)
  Stored-append objects (x ∷ xs) ys s = let r = Stored-append objects xs ys s.1 in ((s.0, r.0), r.1)

  pub append-Stored :
      (objects : Ptr → Option (CacheNode K V)) (xs ys : List (Entry K V))
      → Stored objects xs
      → Stored objects ys
      → Stored objects (xs ++ ys)
  append-Stored objects [] ys s u = u
  append-Stored objects (x ∷ xs) ys s u = (s.0, append-Stored objects xs ys s.1 u)

  -- an entry is taken out, or put in front
  pub ApartObjects-without :
      (xs : List (Entry K V)) (e : Entry K V) (ys : List (Entry K V))
      → ApartObjects (xs ++ e ∷ ys)
      → ApartObjects (xs ++ ys) × (has_object e.object (xs ++ ys) ≡ false)
  ApartObjects-without [] e ys a = (a.1, a.0)
  ApartObjects-without (x ∷ xs) e ys a =
      let r = ApartObjects-without xs e ys a.1 in
      let m = has_object-append x.object xs ys in
      let m' = has_object-append x.object xs (e ∷ ys) in
      let out = a.0 in
      let r1 = r.1 in ((ground (arith, m, m', out), r.0), ground (arith, m', out, r1))

module _ {K : Type 0} {H : KeyTable K} {same : K → K → Bool} (laws : Laws H same) where
  pub same_refl : (k : K) → same k k ≡ true
  same_refl k = (laws.same_iff k k).1 refl

  same_sym : (a b : K) → same a b ≡ false → same b a ≡ false
  same_sym a b h = elim (Bool-cases (same b a)) [
    | inl t ↦ absurd (ground (arith, h, t, (laws.same_iff b a).0 t, same_refl a))
    | inr f ↦ f
  ]

  module _ {V : Type 0} where
    has_key-append :
        (k : K) (xs ys : List (Entry K V))
        → has_key same k (xs ++ ys) ≡ (has_key same k xs || has_key same k ys)
    has_key-append k [] ys = refl
    has_key-append k (x ∷ xs) ys = ground (arith, has_key-append k xs ys)

    pub DistinctKeys-without :
        (xs : List (Entry K V)) (e : Entry K V) (ys : List (Entry K V))
        → DistinctKeys same (xs ++ e ∷ ys)
        → DistinctKeys same (xs ++ ys) × (has_key same e.contents.key (xs ++ ys) ≡ false)
    DistinctKeys-without [] e ys d = (d.1, d.0)
    DistinctKeys-without (x ∷ xs) e ys d =
        let r = DistinctKeys-without xs e ys d.1 in
        let m = has_key-append x.contents.key xs ys in
        let m' = has_key-append x.contents.key xs (e ∷ ys) in
        let out = d.0 in
        let r1 = r.1 in
        (
          (ground (arith, m, m', out), r.0),
          ground (arith, r1, same_sym x.contents.key e.contents.key (ground (arith, m', out))),
        )

    -- where a key is found, when an entry is put in front of the others
    pub node_of-front :
        (k : K) (xs : List (Entry K V)) (e : Entry K V) (ys : List (Entry K V))
        → DistinctKeys same (xs ++ e ∷ ys)
        → node_of same k (xs ++ e ∷ ys)
          ≡ (if same k e.contents.key then e.at else node_of same k (xs ++ ys))
    node_of-front k [] e ys d = refl
    node_of-front k (x ∷ xs) e ys d = elim (Bool-cases (same k x.contents.key)) [
      | inl t ↦
          let q = (laws.same_iff k x.contents.key).0 t in
          let m = has_key-append x.contents.key xs (e ∷ ys) in
          let out = d.0 in
          let f : same x.contents.key e.contents.key ≡ false = ground (arith, m, out) in
          let g : same k e.contents.key ≡ false = ap (λ j. same j e.contents.key) q ∙ f in
          rw (t, g) refl
      | inr f ↦ rw f (node_of-front k xs e ys d.1)
    ]

    pub node_of-absent :
        (k : K) (es : List (Entry K V)) → has_key same k es ≡ false → node_of same k es ≡ null
    node_of-absent k [] h = refl
    node_of-absent k (e ∷ es) h = ground (arith, node_of-absent k es (ground (arith, h)))

    pub node_of-without :
        (k : K) (xs : List (Entry K V)) (e : Entry K V) (ys : List (Entry K V))
        → DistinctKeys same (xs ++ e ∷ ys)
        → (if same k e.contents.key then null else node_of same k (xs ++ e ∷ ys))
          ≡ node_of same k (xs ++ ys)
    node_of-without k xs e ys d = elim (Bool-cases (same k e.contents.key)) [
      | inl t ↦
          let q = (laws.same_iff k e.contents.key).0 t in
          let out = (DistinctKeys-without xs e ys d).1 in
          rw t (sym (node_of-absent k (xs ++ ys) (ap (λ j. has_key same j (xs ++ ys)) q ∙ out)))
      | inr f ↦ rw (f, node_of-front k xs e ys d, f) refl
    ]

-- the first entries, which were used last
unfoldable pub newest {ℓ} : {A : Type ℓ} → ℕ → List A → List A
newest zero es = []
newest (suc n) [] = []
newest (suc n) (e ∷ es) = e ∷ newest n es

module _ {ℓ} {A : Type ℓ} where
  pub newest-append : (n : ℕ) (xs ys : List A) → n ≤ length xs → newest n (xs ++ ys) ≡ newest n xs
  unfolding newest
  newest-append zero xs ys h = refl
  newest-append (suc n) [] ys h = absurd (omega arith)
  newest-append (suc n) (x ∷ xs) ys h = ap (◌∷◌ x) (newest-append n xs ys (omega (arith, h)))

  pub newest-all : (n : ℕ) (xs : List A) → length xs ≤ n → newest n xs ≡ xs
  unfolding newest
  newest-all zero [] h = refl
  newest-all zero (x ∷ xs) h = absurd (omega arith)
  newest-all (suc n) [] h = refl
  newest-all (suc n) (x ∷ xs) h = ap (◌∷◌ x) (newest-all n xs (omega (arith, h)))

  -- the last entry of some
  pub snoc : (x : A) (xs : List A) → (ys : List A) × (y : A) × ((x ∷ xs) ≡ ys ++ y ∷ [])
  snoc x [] = ([], x, refl)
  snoc x (x' ∷ xs) = let (ys, y, e) = snoc x' xs in (x ∷ ys, y, ap (◌∷◌ x) e)
