-- ===== src/Data/Place.antt =====
-- Which record `kr_sdi_aggr_func` of krdata/kr_sdi_func.c should take its value from.
use krproject.Base.{
  ◌≡◌, refl, ℕ, zero, suc, ◌<◌, ◌+◌, Bool, true, false, not, ◌&&◌, Option, none, some, List, [],
  ◌∷◌, if◌then◌else◌, arith, get_elem?,
}
use krproject.Base.Int.{ℤ, pos, negsuc, eqb_ℤ}
use krproject.Platform.{Platform}
use krproject.Data.{Record}
use krproject.Data.Static.{LocProp, absolute, relative, other_location, SdiDef, relative_skip}

pub place_of : (l : ℤ) (j : ℕ) (b : Bool) → relative_skip relative l j ≡ b → eqb_ℤ l (pos j) ≡ not b
place_of l j b s = ground (arith, s)

module _ {p : Platform} where
  -- the record number `l` of a list that starts at number `i`
  abbrev pub at_from : ℕ → ℤ → List (Record p) → Option (Record p)
  at_from i l [] = none
  at_from i l (r ∷ rs) = if eqb_ℤ l (pos i) then some r else at_from (suc i) l rs

  pub at_from_past :
      (i j : ℕ) (l : ℤ) (rs : List (Record p)) → l ≡ pos i → i < j → at_from j l rs ≡ none
  at_from_past i j l [] e h = refl
  at_from_past i j l (r ∷ rs) e h =
      let other : eqb_ℤ l (pos j) ≡ false = rw e (ground (arith, h)) in
      rw other (at_from_past i (suc j) l rs e (omega (arith, h)))

  abbrev pub keep : (Record p → Bool) → Option (Record p) → Option (Record p)
  keep f none = none
  keep f (some r) = if f r then some r else none

  -- the records of the table that the filter accepts
  abbrev pub accepts : SdiDef → (Record p → Bool) → Record p → Bool
  accepts def decide r = eqb_ℤ r.table_id def.statistics_datasrc && decide r

  abbrev pub accepted : SdiDef → (Record p → Bool) → List (Record p) → List (Record p)
  accepted def decide [] = []
  accepted def decide (r ∷ rs) =
      if accepts def decide r then r ∷ accepted def decide rs else accepted def decide rs

  -- the record at a place, counted from 0
  abbrev pub nth : ℤ → List (Record p) → Option (Record p)
  nth (pos n) rs = get_elem? rs n
  nth (negsuc n) rs = none

  -- The record that a static item is about: for an absolute location the record at that place, if it
  -- is accepted; for a relative one the accepted record of that number; otherwise the first accepted.
  abbrev pub sought : LocProp → SdiDef → (Record p → Bool) → List (Record p) → Option (Record p)
  sought absolute def decide rs = keep (accepts def decide) (nth def.statistics_location rs)
  sought relative def decide rs = nth def.statistics_location (accepted def decide rs)
  sought other_location def decide rs = get_elem? (accepted def decide rs) 0

  at_from-get_elem :
      (i d n : ℕ) (rs : List (Record p)) → n ≡ i + d → at_from i (pos n) rs ≡ get_elem? rs d
  at_from-get_elem i d n [] e = refl
  at_from-get_elem i zero n (r ∷ rs) e =
      let here : eqb_ℤ (pos n) (pos i) ≡ true = ground (arith, e) in rw here refl
  at_from-get_elem i (suc d) n (r ∷ rs) e =
      let there : eqb_ℤ (pos n) (pos i) ≡ false = ground (arith, e) in
      rw there (at_from-get_elem (suc i) d n rs (omega (arith, e)))

  at_from-none : (i n : ℕ) (rs : List (Record p)) → at_from i (negsuc n) rs ≡ none
  at_from-none i n [] = refl
  at_from-none i n (r ∷ rs) =
      let there : eqb_ℤ (negsuc n) (pos i) ≡ false = ground arith in
      rw there (at_from-none (suc i) n rs)

  pub at_from-nth : (l : ℤ) (rs : List (Record p)) → at_from 0 l rs ≡ nth l rs
  at_from-nth (pos n) rs = at_from-get_elem 0 n n rs (omega arith)
  at_from-nth (negsuc n) rs = at_from-none 0 n rs

  -- the record that is sought from the place `i` on, after `j` accepted records
  abbrev pub sought_from :
      LocProp → SdiDef → (Record p → Bool) → ℕ → ℕ → List (Record p) → Option (Record p)
  sought_from absolute def decide i j rs =
      keep (accepts def decide) (at_from i def.statistics_location rs)
  sought_from relative def decide i j rs =
      at_from j def.statistics_location (accepted def decide rs)
  sought_from other_location def decide i j rs = at_from j (pos j) (accepted def decide rs)
