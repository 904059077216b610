-- ===== src/Data/Methods.antt =====
-- What the methods of a dynamic data item of ints come to (krdata/kr_ddi_func.c).
use mathlib.Core.Path.{subst}
use krproject.Base.{◌≡◌, refl, ap, ◌∙◌, Bool, true, some, List, map, ok, fault}
use krproject.Base.Int.{ℤ}
use krproject.Platform.{Platform, KrType, Value, Val}
use krproject.Calc.Outcome.{value}
use krproject.Calc.Members.{as_int}
use krproject.Calc.Object.{Calculator}
use krproject.Data.{Record, Scope}
use krproject.Data.Aggregate.{Method}
use krproject.Data.Dynamic.{Ddi, DdiRun, ddi_init, ddi_aggr_func}
use krproject.Data.Window.{window, Near, folded, Decider, Aggregated, ddi_aggr_func-folded}
use krproject.Data.Totals.{IsTotal, Fits, AreInts, fold_total}

module _ {p : Platform} {E : Type 0} where
  -- The run returns 0 and sets the item, to what the method makes of the values.
  abbrev pub Computed : Method → List ℤ → DdiRun p E → Type 0
  Computed m xs (ok (krddi, x, good)) =
      (good ≡ true)
      × (krddi.e_value_ind ≡ true)
      × (z : ℤ) × (as_int krddi.u_value ≡ value z)
      × IsTotal m xs z
  Computed m xs (fault f) = ⊥

  Aggregated-Computed :
      (m : Method) (xs : List ℤ) (u : Val p) (z : ℤ) (run : DdiRun p E)
      → Aggregated (value u) run
      → as_int u ≡ value z
      → IsTotal m xs z
      → Computed m xs run
  Aggregated-Computed m xs u z (ok (krddi, x, good)) h e total =
      (h.0, h.2, z, ap as_int h.1 ∙ e, total)
  Aggregated-Computed m xs u z (fault f) h e total = absurd h

  module _ (curr : Record p) (decide : Record p → Bool) (K : Calculator p (Scope p E) → Type 0)
      (d : Decider curr decide K) where
    -- Let the filter decide every record when it is evaluated, and keep the current record and the
    -- record that is looked at. Then the aggregation of an item of type int succeeds and sets the item,
    -- if the fields of the records in the window that the filter accepts are ints and nothing
    -- overflows. A record is in the window if it is of the table of the item, not older than the item
    -- allows, and not the current one where that is excluded. SUM gives the sum of the fields and COUNT
    -- their number; MIN gives the least and MAX the greatest of the fields and of 0, which the item
    -- starts from.
    pub ddi_aggr_func-Computed :
        (krddi : Ddi p E) (x : Scope p E) (v : Record p → ℤ)
        → K krddi.calc
        → x.pt_curr_rec ≡ some curr
        → krddi.e_value_type ≡ KrType.int
        → Near curr x.pt_rec_list
        → AreInts krddi.def v (window krddi.def curr decide x.pt_rec_list)
        → Fits krddi.def.method (map v (window krddi.def curr decide x.pt_rec_list))
        → Computed krddi.def.method
            (map v (window krddi.def curr decide x.pt_rec_list))
            (ddi_aggr_func (ddi_init krddi) x)
    ddi_aggr_func-Computed krddi x v k current typed near ints fit =
        let rs = window krddi.def curr decide x.pt_rec_list in
        let run = ddi_aggr_func (ddi_init krddi) x in
        let (u, z, fold, read, total) = fold_total krddi.def krddi.def.method v rs refl ints fit in
        Aggregated-Computed krddi.def.method (map v rs) u z run
          (subst (λ m. Aggregated m run) (ap (λ t. folded krddi.def t Value.zeroed rs) typed ∙ fold)
            (ddi_aggr_func-folded curr decide K d krddi x k current near))
          read total
