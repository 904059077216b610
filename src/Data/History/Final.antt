-- ===== src/Data/History/Final.antt =====
-- When `kr_hdi_get_value` of krdata/kr_hdi.c computes again, and when it does not.
use mathlib.Core.Path.{subst}
use krproject.Base.{
  ◌≡◌, refl, sym, ap, Bool, true, false, Option, some, Run, ok, fault, Bool-cases, inl, inr,
  if◌then◌else◌, ◌>>=◌,
}
use krproject.Platform.{Platform, Val}
use krproject.Data.Access.{address_of, same_address}
use krproject.Data.Cached.{same_address_refl}
use krproject.Data.History.{
  Hdi, CacheValue, Caches, Outside, Indexes, KeyScope, copy_value, hdi_cache_get,
}
use krproject.Data.History.Compute.{
  HdiRun, pointee, hdi_compute, cache_computed, get_value_from_cache, known_value, stamped,
  fresh_value, hdi_get_value,
}

module _ {p : Platform} {E C : Type 0} where
  -- a run that does not end with -1
  abbrev AllGood : HdiRun p E C → Type 0
  AllGood (ok (d, x, good)) = good ≡ true
  AllGood (fault f) = Unit

  AllGood-bind :
      {A : Type 0} (m : Run A) (f : A → HdiRun p E C)
      → ((a : A) → AllGood (f a))
      → AllGood (m >>= f)
  AllGood-bind (ok a) f h = h a
  AllGood-bind (fault e) f h = tt

  AllGood-if :
      (b : Bool) (m n : HdiRun p E C) → AllGood m → AllGood n → AllGood (if b then m else n)
  AllGood-if true m n h k = h
  AllGood-if false m n h k = k

  -- a result whose item is settled for the current record, with this value or without one
  abbrev Final : Run (Option (Hdi p) × KeyScope p E C × Option (Val p)) → Type 0
  Final (ok (some d, x, o)) =
      (same_address d.pt_curr_rec (address_of x.scope.pt_curr_rec) ≡ true) × (known_value d ≡ o)
  Final _ = Unit

  stamped-Final : (m : HdiRun p E C) → AllGood m → Final (m >>= stamped)
  unfolding stamped
  stamped-Final (fault f) h = tt
  stamped-Final (ok (d, x, true)) h = (same_address_refl (address_of x.scope.pt_curr_rec), refl)
  stamped-Final (ok (d, x, false)) h = cc

module _ {p : Platform} {E : Type 0} (out : Outside p) (indexes : Indexes p)
    (caches : Caches p) where
  cache_computed-AllGood :
      (key : Val p) (v : CacheValue p) (r : Hdi p × KeyScope p E caches.C × Bool)
      → AllGood (cache_computed out indexes caches key v r)
  unfolding cache_computed
  cache_computed-AllGood key v (d, x, good) =
      AllGood-if d.e_value_ind _ _
        (AllGood-bind (pointee x.scope.pt_curr_rec) _
          (λ r. AllGood-bind (copy_value p d.e_value_type d.u_value v.u_value) _ (λ u. refl)))
        refl

  from_cache-AllGood :
      (c : caches.C) (key : Val p) (d : Hdi p) (x : KeyScope p E caches.C)
      → AllGood (get_value_from_cache out indexes caches c key d x)
  unfolding get_value_from_cache
  from_cache-AllGood c key d x =
      AllGood-if _ _ _
        (AllGood-bind
          (copy_value p d.e_value_type (hdi_cache_get caches c key d.hdi_id).0.u_value d.u_value) _
          (λ u. refl))
        (AllGood-bind
          (hdi_compute out indexes d
            (record x { hdi_cache = some (hdi_cache_get caches c key d.hdi_id).1 }))
          _ (cache_computed-AllGood key (hdi_cache_get caches c key d.hdi_id).0))

  get_value-Final :
      (d : Hdi p) (x : KeyScope p E caches.C) (c : caches.C)
      → x.hdi_cache ≡ some c
      → Final (hdi_get_value out indexes caches (some d) x)
  unfolding hdi_get_value fresh_value
  get_value-Final d x c h =
      elim (Bool-cases (same_address d.pt_curr_rec (address_of x.scope.pt_curr_rec))) [
        | inl e ↦ rw e (e, refl)
        | inr e ↦
            let run : Option caches.C → Type 0 =
              λ o. Final (fresh_value out indexes caches o d x >>= stamped) in
            rw e (
              subst run (sym h) (
                stamped-Final _
                  (AllGood-bind (pointee x.p_key_value) _ (λ key. from_cache-AllGood c key d x))))
      ]

  -- With a cache, the first look-up of an item for a record is final. If it gave no value, be it
  -- because a statement on the database failed, looking the item up again for a record at the same
  -- address gives none, whatever the database, the indexes and the cache are by then; if it gave one,
  -- the same. Nothing is computed and nothing changes.
  pub hdi_get_value_again :
      (out' : Outside p) (indexes' : Indexes p) (krhdi d : Hdi p) (x x' y : KeyScope p E caches.C)
      (c : caches.C) (o : Option (Val p))
      → x.hdi_cache ≡ some c
      → hdi_get_value out indexes caches (some krhdi) x ≡ ok (some d, x', o)
      → address_of y.scope.pt_curr_rec ≡ address_of x'.scope.pt_curr_rec
      → hdi_get_value out' indexes' caches (some d) y ≡ ok (some d, y, o)
  unfolding hdi_get_value
  hdi_get_value_again out' indexes' krhdi d x x' y c o cached first same =
      let (at, is) = subst Final first (get_value-Final krhdi x c cached) in
      let at' : same_address d.pt_curr_rec (address_of y.scope.pt_curr_rec) ≡ true = rw same at in
      rw at' (ap (λ q. ok (some d, y, q)) is)
