-- ===== src/Data/Cached.antt =====
-- When `kr_ddi_get_value` of krdata/kr_ddi.c computes the value of an item, and when it does not.
use krproject.Base.{
  ℕ, ◌≡◌, refl, ap, Bool, true, false, Option, none, some, Run, ok, fault, arith, Bool-cases, inl,
  inr, if◌then◌else◌, ◌>>=◌,
}
use mathlib.Core.Path.{subst}
use krproject.Platform.{Platform, Val}
use krproject.Data.{Scope}
use krproject.Data.Dynamic.{Ddi, DdiRun, ddi_init}
use krproject.Data.Access.{
  RecordLists, same_address, address_of, get_value, ddi_compute, ddi_get_value,
}

pub same_address_refl : (a : Option ℕ) → same_address a a ≡ true
same_address_refl none = refl
same_address_refl (some n) = ground arith

module _ {p : Platform} {E : Type 0} where
  -- the item has this value for the record with this address
  abbrev Settled : Ddi p E → Option ℕ → Option (Val p) → Type 0
  Settled d a o =
      (same_address d.pt_curr_rec a ≡ true)
      × ((if d.e_value_ind then get_value d.e_value_type d.u_value else none) ≡ o)

  -- a result that gives a value settles its item
  abbrev Settles : Run (Option (Ddi p E) × Scope p E × Option (Val p)) → Type 0
  Settles (ok (some d, x, some v)) = Settled d (address_of x.pt_curr_rec) (some v)
  Settles _ = Unit

  settle_as :
      (d : Ddi p E) (x : Scope p E) (o : Option (Val p))
      → get_value d.e_value_type d.u_value ≡ o
      → d.e_value_ind ≡ true
      → Settles (ok (some (record d { pt_curr_rec = address_of x.pt_curr_rec }), x, o))
  settle_as d x none g e = tt
  settle_as d x (some v) g e = (same_address_refl (address_of x.pt_curr_rec), rw e g)

  pick :
      (b : Bool) (r q : Option (Ddi p E) × Scope p E × Option (Val p))
      → (b ≡ true → Settles (ok r))
      → Settles (ok q)
      → Settles (ok (if b then r else q))
  pick true r q h g = h refl
  pick false r q h g = g

  computed :
      (run : DdiRun p E)
      → Settles (
          run >>= (λ (d, x', good). ok (
            if d.e_value_ind
            then (
              some (record d { pt_curr_rec = address_of x'.pt_curr_rec }),
              x',
              get_value d.e_value_type d.u_value,
            )
            else (some d, x', none))))
  computed (fault f) = tt
  computed (ok (d, x, good)) =
      pick d.e_value_ind _ _ (settle_as d x (get_value d.e_value_type d.u_value) refl) tt

  cached :
      (d : Ddi p E) (x : Scope p E) (o : Option (Val p))
      → same_address d.pt_curr_rec (address_of x.pt_curr_rec) ≡ true
      → (if d.e_value_ind then get_value d.e_value_type d.u_value else none) ≡ o
      → Settles (ok (some d, x, o))
  cached d x none s e = tt
  cached d x (some v) s e = (s, e)

  module _ (lists : RecordLists p) (own : Option (Ddi p E → Scope p E → DdiRun p E)) where
    ddi_get_value-Settles :
        (krddi : Ddi p E) (x : Scope p E) → Settles (ddi_get_value lists own (some krddi) x)
    unfolding ddi_get_value
    ddi_get_value-Settles krddi x =
        elim (Bool-cases (same_address krddi.pt_curr_rec (address_of x.pt_curr_rec))) [
          | inl e ↦ rw e (cached krddi x _ e refl)
          | inr e ↦ rw e (computed (ddi_compute lists own krddi x))
        ]

    -- Once a look-up gave a value, looking the item up again for a record at the same address gives
    -- the same value, in whatever state the rest of the context is; nothing is computed and nothing
    -- changes.
    ddi_get_value_again :
        (krddi d : Ddi p E) (x x' y : Scope p E) (v : Val p)
        → ddi_get_value lists own (some krddi) x ≡ ok (some d, x', some v)
        → address_of y.pt_curr_rec ≡ address_of x'.pt_curr_rec
        → ddi_get_value lists own (some d) y ≡ ok (some d, y, some v)
    unfolding ddi_get_value
    ddi_get_value_again krddi d x x' y v h a =
        let settled : Settled d (address_of x'.pt_curr_rec) (some v) =
          subst Settles h (ddi_get_value-Settles krddi x) in
        let hit : same_address d.pt_curr_rec (address_of y.pt_curr_rec) ≡ true = rw a settled.0 in
        rw hit (ap (λ o. ok (some d, y, o)) settled.1)

    -- After a look-up gave a value, the next message initialises the item. If its record has the
    -- address of the one before, the item has no value for it, and none is computed.
    pub ddi_get_value_stale :
        (krddi d : Ddi p E) (x x' y : Scope p E) (v : Val p)
        → ddi_get_value lists own (some krddi) x ≡ ok (some d, x', some v)
        → address_of y.pt_curr_rec ≡ address_of x'.pt_curr_rec
        → ddi_get_value lists own (some (ddi_init d)) y ≡ ok (some (ddi_init d), y, none)
    unfolding ddi_get_value
    ddi_get_value_stale krddi d x x' y v h a =
        let settled : Settled d (address_of x'.pt_curr_rec) (some v) =
          subst Settles h (ddi_get_value-Settles krddi x) in
        let hit : same_address d.pt_curr_rec (address_of y.pt_curr_rec) ≡ true = rw a settled.0 in
        rw hit refl
