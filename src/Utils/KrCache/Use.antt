-- ===== src/Utils/KrCache/Use.antt =====
-- Looking up a key: `kr_cache_get` of krutils/kr_cache.c.
use mathlib.Core.Path.{subst}
use krproject.Base.{
  ◌≡◌, ◌⊎◌, inl, inr, refl, sym, ap, ◌∙◌, Bool, true, false, none, some, List, [], ◌∷◌, ◌++◌, ◌==◌,
  ok, length-append, arith, Bool-cases,
}
use krproject.Base.Int.{ℤ}
use krproject.Utils.Heap.{null, Heap, load-ok}
use krproject.Utils.KrList.Link.{Returns, returns, Returns-bind, IsList}
use krproject.Utils.KrList.Around.{IsList-Points}
use krproject.Utils.KrList.MoveHead.{list_move_head-Moved}
use krproject.Utils.KrCache.{KeyTable, Cache, hit, get_at, cache_get}
use krproject.Utils.KrCache.Entries.{
  Entry, Laws, cells, IsCache, cells-append, Stored-put, ApartObjects-without, has_key,
  DistinctKeys-without, node_of-front, node_of-absent,
}
use krproject.Utils.KrCache.Evict.{entry-IsList, entry-Stored, entry-table}

module _ {K V : Type 0} where
  -- an entry after it was found
  abbrev pub used : ℤ → Entry K V → Entry K V
  used now e = record e { contents = hit now e.contents }

module _ {K V : Type 0} {H : KeyTable K} {same : K → K → Bool} (laws : Laws H same) where
  -- the entry with a key, or there is none
  Seek : K → List (Entry K V) → Type 0
  Seek k es =
      (has_key same k es ≡ false)
      ⊎ ((xs : List (Entry K V)) × (e : Entry K V) × (ys : List (Entry K V)) × (es ≡ xs ++ e ∷ ys)
          × (k ≡ e.contents.key))

  seek : (k : K) (es : List (Entry K V)) → Seek k es
  unfolding Seek
  seek k [] = inl refl
  seek k (e ∷ es) = elim (Bool-cases (same k e.contents.key)) [
    | inl t ↦ inr ([], e, es, refl, (laws.same_iff k e.contents.key).0 t)
    | inr f ↦ elim (seek k es) [
      | inl out ↦ inl (rw (f, out) refl)
      | inr (xs, d, ys, q, found) ↦ inr (e ∷ xs, d, ys, ap (◌∷◌ e) q, found)
    ]
  ]

  module _ {h : Heap} {c : Cache H V} (xs : List (Entry K V)) (e : Entry K V)
      (ys : List (Entry K V)) (is : IsCache same h c (xs ++ e ∷ ys)) (now : ℤ) where
    get_at-Got :
        Returns
          (λ (r, c') g.
            (r ≡ some e.contents.value)
            × IsCache same g c' (used now e ∷ (xs ++ ys))
            × (c'.max_size ≡ c.max_size))
          (get_at e.at now c h)
    unfolding get_at
    get_at-Got =
        Returns-bind
          (list_move_head-Moved (cells xs) e.at e.object (cells ys) (entry-IsList laws xs e ys is))
          λ l g m.
            let point = IsList-Points [] e.at e.object (cells xs ++ cells ys) m.list in
            let (kept, here) = entry-Stored laws xs e ys is in
            let (apart, gone) = ApartObjects-without xs e ys is.apart in
            let (keys, absent) = DistinctKeys-without laws xs e ys is.keys in
            rw (load-ok g point, here)
              (returns (
                refl,
                record {
                  list =
                      subst (λ zs. IsList g l ((e.at, e.object) ∷ zs)) (sym (cells-append xs ys))
                        m.list;
                  frees = ap (λ k. k.free) m.calls ∙ is.frees;
                  stored = (
                    ground arith,
                    Stored-put c.objects e.object (some (hit now e.contents)) (xs ++ ys) gone kept,
                  );
                  apart = (gone, apart);
                  keys = (absent, keys);
                  table = λ k. is.table k ∙ node_of-front laws k xs e ys is.keys;
                  size =
                      let n = is.size in
                      let a = length-append xs ys in
                      let b = length-append xs (e ∷ ys) in omega (arith, n, a, b);
                },
                refl,
              ))

    found-Got :
        Returns
          (λ (r, c') g.
            (r ≡ some e.contents.value)
            × IsCache same g c' (used now e ∷ (xs ++ ys))
            × (c'.max_size ≡ c.max_size))
          (cache_get e.contents.key now c h)
    unfolding cache_get
    found-Got =
        let point =
          IsList-Points (cells xs) e.at e.object (cells ys) (entry-IsList laws xs e ys is) in
        let ne = point.ne_null in
        let t : (e.at == null) ≡ false = ground (arith, ne) in
        rw (entry-table laws xs e ys is, t) get_at-Got

  -- Looking up a key that no entry has gives `NULL` and changes nothing. Looking up a key that one has
  -- gives its value; the entry comes before the others, with one hit more and the time, and the others
  -- stay in order.
  pub cache_get-Got :
      {h : Heap} {c : Cache H V} (es : List (Entry K V)) (k : K) (now : ℤ)
      → IsCache same h c es
      → ((has_key same k es ≡ false) × (cache_get k now c h ≡ ok ((none, c), h)))
        ⊎ ((xs : List (Entry K V)) × (e : Entry K V) × (ys : List (Entry K V)) × (es ≡ xs ++ e ∷ ys)
            × (k ≡ e.contents.key)
            × Returns
                (λ (r, c') g.
                  (r ≡ some e.contents.value)
                  × IsCache same g c' (used now e ∷ (xs ++ ys))
                  × (c'.max_size ≡ c.max_size))
                (cache_get k now c h))
  unfolding cache_get Seek
  cache_get-Got {h} {c} es k now is = elim (seek k es) [
    | inl out ↦
        let t : (H.lookup c.hash_table k == null) ≡ true =
          (let q = is.table k ∙ node_of-absent laws k es out in ground (arith, q)) in
        inl (out, rw t refl)
    | inr (xs, e, ys, q, found) ↦ inr (
      xs,
      e,
      ys,
      q,
      found,
      subst
          (λ j.
            Returns
              (λ (r, c') g.
                (r ≡ some e.contents.value)
                × IsCache same g c' (used now e ∷ (xs ++ ys))
                × (c'.max_size ≡ c.max_size))
              (cache_get j now c h))
          (sym found) (found-Got xs e ys (subst (IsCache same h c) q is) now),
    )
  ]
