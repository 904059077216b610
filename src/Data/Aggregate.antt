-- ===== src/Data/Aggregate.antt =====
-- The switch on the method in `kr_ddi_aggr_func` of krdata/kr_ddi_func.c.
use krproject.Base.{Bool, signed_overflow, if◌then◌else◌}
use krproject.Base.Int.{ℤ, pos, ltb_ℤ, ◌+ℤ◌, fits_int, fits_long}
use krproject.Platform.{Platform, KrType, Value, Val}
use krproject.Calc.Outcome.{Exec, value, missing, crash, ◌>>=◌}
use krproject.Calc.Members.{as_int, as_l, as_d}

-- `E_KRDDIMethod`; `bad` is any other letter.
pub data Method : Type 0 where
  sum min max count con_inc con_dec cnt_dis bad : Method

unfoldable pub checked : (ℤ → Bool) → ℤ → Exec ℤ
checked fits a = if fits a then value a else crash signed_overflow

-- the macros MIN and MAX
unfoldable pub min_ℤ : ℤ → ℤ → ℤ
min_ℤ a b = if ltb_ℤ a b then a else b

unfoldable pub max_ℤ : ℤ → ℤ → ℤ
max_ℤ a b = if ltb_ℤ b a then a else b

module _ (p : Platform) where
  -- A binary operation on `uValue` and `stValue` in the type of the item; any other type is the -1 of
  -- "Bad FieldType".
  unfoldable pub combine :
      KrType
      → (ℤ → ℤ → Exec ℤ)
      → (ℤ → ℤ → Exec ℤ)
      → (p.Double → p.Double → p.Double)
      → Val p
      → Val p
      → Exec (Val p)
  combine KrType.int f g h u v = (do x ← as_int u; y ← as_int v; z ← f x y; value (Value.i z))
  combine KrType.long f g h u v = (do x ← as_l u; y ← as_l v; z ← g x y; value (Value.l z))
  combine KrType.double f g h u v = (do x ← as_d p u; y ← as_d p v; value (Value.d (h x y)))
  combine _ f g h u v = missing

  -- the switch on the method: the new `uValue`
  unfoldable pub aggregate : Method → KrType → Val p → Val p → Exec (Val p)
  unfolding combine checked min_ℤ max_ℤ
  aggregate sum t u v =
      combine t (λ x y. checked fits_int (x +ℤ y)) (λ x y. checked fits_long (x +ℤ y)) p.add u v
  aggregate min t u v =
      combine t (λ x y. value (min_ℤ x y)) (λ x y. value (min_ℤ x y))
        (λ x y. if p.lt x y then x else y) u v
  aggregate max t u v =
      combine t (λ x y. value (max_ℤ x y)) (λ x y. value (max_ℤ x y))
        (λ x y. if p.lt y x then x else y) u v
  aggregate count t u v = elim t [
    | KrType.int ↦ (do x ← as_int u; z ← checked fits_int (x +ℤ pos 1); value (Value.i z))
    | KrType.long ↦ (do x ← as_l u; z ← checked fits_long (x +ℤ pos 1); value (Value.l z))
    | KrType.double ↦ (do x ← as_d p u; value (Value.d (p.add x (p.of_int (pos 1)))))
    | _ ↦ missing
  ]
  aggregate con_inc t u v = value u
  aggregate con_dec t u v = value u
  aggregate cnt_dis t u v = value u
  aggregate bad t u v = missing
