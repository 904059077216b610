-- ===== src/Data/History/Cached.antt =====
-- What the cache of krdata/kr_hdi_cache.c holds after a value is written, and what `kr_hdi_get_value`
-- of krdata/kr_hdi.c takes from it.
use krproject.Base.{
  ◌≡◌, refl, ap, ◌∙◌, true, false, ◌&&◌, Option, none, some, [], ◌∷◌, ok, is_some, Bool-cases,
  Option-cases, inl, inr, ◌>>=◌,
}
use krproject.Base.Int.{ℤ, eqb_ℤ, eqb_ℤ_refl}
use krproject.Platform.{Platform, Val}
use krproject.Message.{Bytes}
use krproject.Data.Access.{address_of, same_address, get_value}
use krproject.Data.History.{
  Hdi, CacheValue, HdiCacheNode, Caches, Outside, Indexes, KeyScope, not_less, copy_value,
  node_lookup, node_replace, write_in, at_value, at_node, hdi_cache_get, hdi_cache_write,
}
use krproject.Data.History.Compute.{get_value_from_cache, fresh_value, stamped, hdi_get_value}

-- What the code relies on in the cache: a node that was entered or changed is at_value, and looking up
-- a node does not change it.
pub record Laws {p : Platform} (caches : Caches p) : Type 0 where
  pub set_get :
      (c : caches.C) (k : Val p) (n : HdiCacheNode p) → (caches.get (caches.set c k n) k).0 ≡ some n
  pub get_get :
      (c : caches.C) (k : Val p) → (caches.get (caches.get c k).1 k).0 ≡ (caches.get c k).0
  pub poke_get :
      (c : caches.C) (k : Val p) (n : HdiCacheNode p)
      → is_some (caches.get c k).0 ≡ true
      → (caches.get (caches.poke c k n) k).0 ≡ some n

module _ {p : Platform} where
  node_lookup-node_replace :
      (node : HdiCacheNode p) (v : CacheValue p)
      → node_lookup (node_replace node v) v.hdi_id ≡ some v
  node_lookup-node_replace [] v = rw (eqb_ℤ_refl v.hdi_id) refl
  node_lookup-node_replace (w ∷ ws) v = elim (Bool-cases (eqb_ℤ w.hdi_id v.hdi_id)) [
    | inl e ↦ rw (e, eqb_ℤ_refl v.hdi_id) refl
    | inr e ↦ rw (e, e) (node_lookup-node_replace ws v)
  ]

module _ {p : Platform} {caches : Caches p} (laws : Laws caches) where
  at_value-present :
      (c : caches.C) (k : Val p) (hid : ℤ) (node : HdiCacheNode p) (o : Option (CacheValue p))
      → is_some (caches.get c k).0 ≡ true
      → is_some (caches.get (at_value caches c k hid node o).1 k).0 ≡ true
  unfolding at_value
  at_value-present c k hid node (some v) h = h
  at_value-present c k hid node none h = ap is_some (laws.poke_get c k _ h)

  at_node-present :
      (c : caches.C) (k : Val p) (hid : ℤ) (o : Option (HdiCacheNode p))
      → (caches.get c k).0 ≡ o
      → is_some (caches.get (at_node caches c k hid o).1 k).0 ≡ true
  unfolding at_node
  at_node-present c k hid (some node) e =
      at_value-present c k hid node (node_lookup node hid) (ap is_some e)
  at_node-present c k hid none e =
      at_value-present (caches.set c k []) k hid [] none (ap is_some (laws.set_get c k []))

  hdi_cache_get-present :
      (c : caches.C) (k : Val p) (hid : ℤ)
      → is_some (caches.get (hdi_cache_get caches c k hid).1 k).0 ≡ true
  unfolding hdi_cache_get
  hdi_cache_get-present c k hid =
      at_node-present (caches.get c k).1 k hid (caches.get c k).0 (laws.get_get c k)

  at_node-lookup :
      (c : caches.C) (k : Val p) (v : CacheValue p) (o : Option (HdiCacheNode p))
      (node : HdiCacheNode p)
      → o ≡ some node
      → node_lookup node v.hdi_id ≡ some v
      → (at_node caches c k v.hdi_id o).0 ≡ v
  unfolding at_node at_value
  at_node-lookup c k v o node e h =
      ap (λ q. (at_node caches c k v.hdi_id q).0) e
      ∙ ap (λ q. (at_value caches c k v.hdi_id node q).0) h

  write-get :
      (c : caches.C) (k : Val p) (v : CacheValue p)
      → is_some (caches.get c k).0 ≡ true
      → (hdi_cache_get caches (hdi_cache_write caches c k v) k v.hdi_id).0 ≡ v
  unfolding hdi_cache_get hdi_cache_write write_in
  write-get c k v h = elim (Option-cases (caches.get c k).0) [
    | inl e ↦ cc
    | inr (node, e) ↦
        let run : Option (HdiCacheNode p) → CacheValue p =
          λ o. (hdi_cache_get caches (write_in caches c k v o) k v.hdi_id).0 in
        ap run e
        ∙ at_node-lookup _ k v _ (node_replace node v) (laws.poke_get c k (node_replace node v) h)
            (node_lookup-node_replace node v)
  ]

  -- A value that is written into the cache for a key, through the pointer that the look-up of its item
  -- gave, is what the next look-up of the item for the key gives, whether the cache had the key and the
  -- item before or not.
  hdi_cache_get-hdi_cache_write :
      (c : caches.C) (k : Val p) (v : CacheValue p)
      → (hdi_cache_get caches
          (hdi_cache_write caches (hdi_cache_get caches c k v.hdi_id).1 k v)
          k
          v.hdi_id).0
        ≡ v
  hdi_cache_get-hdi_cache_write c k v =
      write-get (hdi_cache_get caches c k v.hdi_id).1 k v (hdi_cache_get-present c k v.hdi_id)

abbrev pub no_date : Bytes
no_date = b'0' ∷ b'0' ∷ b'0' ∷ b'0' ∷ b'0' ∷ b'0' ∷ b'0' ∷ b'0' ∷ []

module _ {p : Platform} {E : Type 0} (caches : Caches p) (out : Outside p) (indexes : Indexes p)
    (c : caches.C) (key u : Val p) (v : CacheValue p) (krhdi : Hdi p) where
  from_cache-hit :
      (x : KeyScope p E caches.C)
      → (hdi_cache_get caches c key krhdi.hdi_id).0 ≡ v
      → (v.e_value_ind && not_less v.date no_date) ≡ true
      → copy_value p krhdi.e_value_type v.u_value krhdi.u_value ≡ ok u
      → get_value_from_cache out indexes caches c key krhdi x
        ≡ ok (
          record krhdi { u_value = u; e_value_ind = true },
          record x { hdi_cache = some (hdi_cache_get caches c key krhdi.hdi_id).1 },
          true,
        )
  unfolding get_value_from_cache
  from_cache-hit x e valid copied = rw (e, valid, copied) refl

  get_value-hit :
      (x : KeyScope p E caches.C)
      → same_address krhdi.pt_curr_rec (address_of x.scope.pt_curr_rec) ≡ false
      → (hdi_cache_get caches c key krhdi.hdi_id).0 ≡ v
      → (v.e_value_ind && not_less v.date no_date) ≡ true
      → copy_value p krhdi.e_value_type v.u_value krhdi.u_value ≡ ok u
      → hdi_get_value out indexes caches
          (some krhdi)
          (record x { p_key_value = some key; hdi_cache = some c })
        ≡ ok (
          some (record krhdi {
            u_value = u;
            e_value_ind = true;
            pt_curr_rec = address_of x.scope.pt_curr_rec;
          }),
          record x {
            p_key_value = some key;
            hdi_cache = some (hdi_cache_get caches c key krhdi.hdi_id).1;
          },
          get_value krhdi.e_value_type u,
        )
  unfolding hdi_get_value fresh_value stamped
  get_value-hit x other e valid copied = rw other (
      ap (λ m. m >>= stamped)
        (from_cache-hit (record x { p_key_value = some key; hdi_cache = some c }) e valid copied))

module _ {p : Platform} {E : Type 0} {caches : Caches p} (laws : Laws caches) where
  -- A look-up of an item takes the value that was last written into the cache for the key that the
  -- context has from an item before, if it is set and its date is not below "00000000", as a value of
  -- the type of the item. It does so whatever the current record is, if its address is another one than
  -- that of the last look-up, and whatever the database, the indexes and the date are.
  pub hdi_get_value-hdi_cache_write :
      (out : Outside p) (indexes : Indexes p) (c : caches.C) (key u : Val p) (v : CacheValue p)
      (krhdi : Hdi p) (x : KeyScope p E caches.C)
      → krhdi.hdi_id ≡ v.hdi_id
      → same_address krhdi.pt_curr_rec (address_of x.scope.pt_curr_rec) ≡ false
      → (v.e_value_ind && not_less v.date no_date) ≡ true
      → copy_value p krhdi.e_value_type v.u_value krhdi.u_value ≡ ok u
      → let c' = hdi_cache_write caches (hdi_cache_get caches c key v.hdi_id).1 key v in
        hdi_get_value out indexes caches
          (some krhdi)
          (record x { p_key_value = some key; hdi_cache = some c' })
        ≡ ok (
          some (record krhdi {
            u_value = u;
            e_value_ind = true;
            pt_curr_rec = address_of x.scope.pt_curr_rec;
          }),
          record x {
            p_key_value = some key;
            hdi_cache = some (hdi_cache_get caches c' key krhdi.hdi_id).1;
          },
          get_value krhdi.e_value_type u,
        )
  hdi_get_value-hdi_cache_write out indexes c key u v krhdi x same other valid copied =
      let c' = hdi_cache_write caches (hdi_cache_get caches c key v.hdi_id).1 key v in
      get_value-hit caches out indexes c' key u v krhdi x other
        (ap (λ n. (hdi_cache_get caches c' key n).0) same
          ∙ hdi_cache_get-hdi_cache_write laws c key v)
        valid copied
