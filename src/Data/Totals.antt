-- ===== src/Data/Totals.antt =====
-- The methods of krdata/kr_ddi_func.c, folded over ints, against what they are meant to be.
use krproject.Base.{
  ◌≡◌, refl, ap, ◌∙◌, ◌⊎◌, inl, inr, ℕ, suc, ◌+◌, ◌≤◌, true, List, [], ◌∷◌, length, map, length-map,
  arith, Bool-cases,
}
use krproject.Base.Int.{ℤ, pos, ltb_ℤ, ◌+ℤ◌, ◌≤ℤ◌, fits_int}
use krproject.Platform.{Platform, KrType, Value, Val}
use krproject.Calc.Outcome.{value}
use krproject.Calc.Members.{as_int}
use krproject.Data.{Record}
use krproject.Data.Aggregate.{
  Method, sum, count, min, max, checked, min_ℤ, max_ℤ, combine, aggregate,
}
use krproject.Data.Dynamic.{DdiDef}
use krproject.Data.Window.{folded}

abbrev pub summed : ℤ → List ℤ → ℤ
summed a [] = a
summed a (x ∷ xs) = summed (a +ℤ x) xs

-- all sums on the way fit an `int`
abbrev pub SumsFit : ℤ → List ℤ → Type 0
SumsFit a [] = Unit
SumsFit a (x ∷ xs) = (fits_int (a +ℤ x) ≡ true) × SumsFit (a +ℤ x) xs

abbrev pub Among : ℤ → List ℤ → Type 0
Among z [] = ⊥
Among z (x ∷ xs) = (z ≡ x) ⊎ Among z xs

abbrev pub AllAbove : ℤ → List ℤ → Type 0
AllAbove z [] = Unit
AllAbove z (x ∷ xs) = z ≤ℤ x × AllAbove z xs

abbrev pub AllBelow : ℤ → List ℤ → Type 0
AllBelow z [] = Unit
AllBelow z (x ∷ xs) = x ≤ℤ z × AllBelow z xs

-- the least of `a` and the list, and the greatest
abbrev pub Least : ℤ → List ℤ → ℤ → Type 0
Least a xs z = z ≤ℤ a × AllAbove z xs × ((z ≡ a) ⊎ Among z xs)

abbrev pub Greatest : ℤ → List ℤ → ℤ → Type 0
Greatest a xs z = a ≤ℤ z × AllBelow z xs × ((z ≡ a) ⊎ Among z xs)

-- What a method makes of ints: the sum, the number, the least of 0 and them, the greatest of 0 and
-- them.
abbrev pub IsTotal : Method → List ℤ → ℤ → Type 0
IsTotal sum xs z = z ≡ summed (pos 0) xs
IsTotal count xs z = z ≡ pos (length xs)
IsTotal min xs z = Least (pos 0) xs z
IsTotal max xs z = Greatest (pos 0) xs z
IsTotal _ xs z = ⊥

-- one of these four methods, without an overflow
abbrev pub Fits : Method → List ℤ → Type 0
Fits sum xs = SumsFit (pos 0) xs
Fits count xs = length xs ≤ 0x7fff_ffff
Fits min xs = Unit
Fits max xs = Unit
Fits _ xs = ⊥

checked-suc :
    (n : ℕ) → suc n ≤ 0x7fff_ffff → checked fits_int (pos n +ℤ pos 1) ≡ value (pos (suc n))
unfolding checked ◌+ℤ◌
checked-suc n h = ground arith

checked-fits : (a : ℤ) → fits_int a ≡ true → checked fits_int a ≡ value a
unfolding checked
checked-fits a h = rw h refl

≤ℤ_refl : (a : ℤ) → a ≤ℤ a
≤ℤ_refl a = omega arith

min_ℤ-below : (z a x : ℤ) → z ≤ℤ min_ℤ a x → (z ≤ℤ a) × (z ≤ℤ x)
unfolding min_ℤ
min_ℤ-below z a x h = ground (arith, h)

max_ℤ-above : (z a x : ℤ) → max_ℤ a x ≤ℤ z → (a ≤ℤ z) × (x ≤ℤ z)
unfolding max_ℤ
max_ℤ-above z a x h = ground (arith, h)

min_ℤ-either : (a x : ℤ) → (min_ℤ a x ≡ a) ⊎ (min_ℤ a x ≡ x)
unfolding min_ℤ
min_ℤ-either a x = elim (Bool-cases (ltb_ℤ a x)) [
  | inl e ↦ inl (rw e refl)
  | inr e ↦ inr (rw e refl)
]

max_ℤ-either : (a x : ℤ) → (max_ℤ a x ≡ a) ⊎ (max_ℤ a x ≡ x)
unfolding max_ℤ
max_ℤ-either a x = elim (Bool-cases (ltb_ℤ x a)) [
  | inl e ↦ inl (rw e refl)
  | inr e ↦ inr (rw e refl)
]

-- one of the accumulator, the next value and the rest
chosen :
    (z m a x : ℤ) (xs : List ℤ)
    → (m ≡ a) ⊎ (m ≡ x)
    → (z ≡ m) ⊎ Among z xs
    → (z ≡ a) ⊎ Among z (x ∷ xs)
chosen z m a x xs (inl e) (inl q) = inl (q ∙ e)
chosen z m a x xs (inr e) (inl q) = inr (inl (q ∙ e))
chosen z m a x xs e (inr q) = inr (inr q)

module _ {p : Platform} (def : DdiDef) where
  -- the field of every record is an int, with the value that `v` gives
  abbrev pub AreInts : (Record p → ℤ) → List (Record p) → Type 0
  AreInts v [] = Unit
  AreInts v (r ∷ rs) =
      (r.field_type def.statistics_field ≡ KrType.int)
      × (r.field_value def.statistics_field ≡ Value.i (v r))
      × AreInts v rs

  count_from :
      (v : Record p → ℤ) (n k : ℕ) (rs : List (Record p))
      → def.method ≡ count
      → AreInts v rs
      → k ≤ 0x7fff_ffff
      → k ≡ n + length rs
      → folded def KrType.int (Value.i (pos n)) rs ≡ value (Value.i (pos k))
  unfolding aggregate
  count_from v n k [] m h b e = ap (λ j. value (Value.i (pos j))) (omega (arith, e))
  count_from v n k (r ∷ rs) m h b e =
      let next = checked-suc n (omega (arith, b, e)) in
      rw (m, h.0, next) (count_from v (suc n) k rs m h.2 b (omega (arith, e)))

  sum_from :
      (v : Record p → ℤ) (a : ℤ) (rs : List (Record p))
      → def.method ≡ sum
      → AreInts v rs
      → SumsFit a (map v rs)
      → folded def KrType.int (Value.i a) rs ≡ value (Value.i (summed a (map v rs)))
  unfolding aggregate combine
  sum_from v a [] m h b = refl
  sum_from v a (r ∷ rs) m h b =
      rw (m, h.0, h.1, checked-fits (a +ℤ v r) b.0) (sum_from v (a +ℤ v r) rs m h.2 b.1)

  min_from :
      (v : Record p → ℤ) (a : ℤ) (rs : List (Record p))
      → def.method ≡ min
      → AreInts v rs
      → (z : ℤ) × (folded def KrType.int (Value.i a) rs ≡ value (Value.i z)) × Least a (map v rs) z
  unfolding aggregate combine
  min_from v a [] m h = (a, refl, (≤ℤ_refl a, tt, inl refl))
  min_from v a (r ∷ rs) m h =
      let (z, run, (low, all, one)) = min_from v (min_ℤ a (v r)) rs m h.2 in
      let (low_a, low_r) = min_ℤ-below z a (v r) low in
      (
        z,
        rw (m, h.0, h.1) run,
        (low_a, (low_r, all), chosen z _ a (v r) (map v rs) (min_ℤ-either a (v r)) one),
      )

  max_from :
      (v : Record p → ℤ) (a : ℤ) (rs : List (Record p))
      → def.method ≡ max
      → AreInts v rs
      → (z : ℤ) × (folded def KrType.int (Value.i a) rs ≡ value (Value.i z))
        × Greatest a (map v rs) z
  unfolding aggregate combine
  max_from v a [] m h = (a, refl, (≤ℤ_refl a, tt, inl refl))
  max_from v a (r ∷ rs) m h =
      let (z, run, (high, all, one)) = max_from v (max_ℤ a (v r)) rs m h.2 in
      let (high_a, high_r) = max_ℤ-above z a (v r) high in
      (
        z,
        rw (m, h.0, h.1) run,
        (high_a, (high_r, all), chosen z _ a (v r) (map v rs) (max_ℤ-either a (v r)) one),
      )

  zero_sum :
      (v : Record p → ℤ) (r : Record p) (rs : List (Record p))
      → def.method ≡ sum
      → AreInts v (r ∷ rs)
      → folded def KrType.int Value.zeroed (r ∷ rs)
        ≡ folded def KrType.int (Value.i (pos 0)) (r ∷ rs)
  unfolding aggregate combine
  zero_sum v r rs m h = rw (m, h.0) refl

  zero_count :
      (v : Record p → ℤ) (r : Record p) (rs : List (Record p))
      → def.method ≡ count
      → AreInts v (r ∷ rs)
      → folded def KrType.int Value.zeroed (r ∷ rs)
        ≡ folded def KrType.int (Value.i (pos 0)) (r ∷ rs)
  unfolding aggregate combine
  zero_count v r rs m h = rw (m, h.0) refl

  zero_min :
      (v : Record p → ℤ) (r : Record p) (rs : List (Record p))
      → def.method ≡ min
      → AreInts v (r ∷ rs)
      → folded def KrType.int Value.zeroed (r ∷ rs)
        ≡ folded def KrType.int (Value.i (pos 0)) (r ∷ rs)
  unfolding aggregate combine
  zero_min v r rs m h = rw (m, h.0) refl

  zero_max :
      (v : Record p → ℤ) (r : Record p) (rs : List (Record p))
      → def.method ≡ max
      → AreInts v (r ∷ rs)
      → folded def KrType.int Value.zeroed (r ∷ rs)
        ≡ folded def KrType.int (Value.i (pos 0)) (r ∷ rs)
  unfolding aggregate combine
  zero_max v r rs m h = rw (m, h.0) refl

  -- a value that the fold gives, read as an int
  abbrev pub FoldTotal : Method → (Record p → ℤ) → List (Record p) → Type 0
  FoldTotal m v rs =
      (u : Val p) × (z : ℤ) × (folded def KrType.int Value.zeroed rs ≡ value u)
      × (as_int u ≡ value z)
      × IsTotal m (map v rs) z

  pub fold_total :
      (m : Method) (v : Record p → ℤ) (rs : List (Record p))
      → def.method ≡ m
      → AreInts v rs
      → Fits m (map v rs)
      → FoldTotal m v rs
  fold_total sum v [] m h b = (Value.zeroed, pos 0, refl, refl, refl)
  fold_total sum v (r ∷ rs) m h b =
      (_, _, zero_sum v r rs m h ∙ sum_from v (pos 0) (r ∷ rs) m h b, refl, refl)
  fold_total count v [] m h b = (Value.zeroed, pos 0, refl, refl, refl)
  fold_total count v (r ∷ rs) m h b =
      let e = length-map v rs in
      (
        _,
        _,
        zero_count v r rs m h
            ∙ count_from v 0 (length (map v (r ∷ rs))) (r ∷ rs) m h b (omega (arith, e)),
        refl,
        refl,
      )
  fold_total min v [] m h b = (Value.zeroed, pos 0, refl, refl, (≤ℤ_refl (pos 0), tt, inl refl))
  fold_total min v (r ∷ rs) m h b =
      let (z, run, least) = min_from v (pos 0) (r ∷ rs) m h in
      (Value.i z, z, zero_min v r rs m h ∙ run, refl, least)
  fold_total max v [] m h b = (Value.zeroed, pos 0, refl, refl, (≤ℤ_refl (pos 0), tt, inl refl))
  fold_total max v (r ∷ rs) m h b =
      let (z, run, greatest) = max_from v (pos 0) (r ∷ rs) m h in
      (Value.i z, z, zero_max v r rs m h ∙ run, refl, greatest)
  fold_total _ v rs m h b = absurd b
