-- ===== src/Db/Ring.antt =====
-- The buffer of a table as a ring: the slots of the live records lead up to `uiRecordLoc`.
use native.Mathlib.Nat.{mod_self, mod-eq_of_lt}
use krproject.Base.{
  ℕ, suc, ◌+◌, ◌%◌, ◌^◌, ◌<◌, ◌≡◌, ◌⊎◌, refl, Bool, false, ◌||◌, List, [], ◌∷◌, ◌++◌, ◌==◌,
  Bool-cases, arith, inl, inr, length, length-append,
}

-- so many steps before `loc`, modulo `keep`
abbrev pub Before : (keep loc x n : ℕ) → Type 0
Before keep loc x n = (x + n ≡ loc) ⊎ (x + n ≡ loc + keep)

-- the slot after `loc`
abbrev pub Next : (keep loc next : ℕ) → Type 0
Next keep loc next = ((next ≡ loc + 1) × (loc + 1 < keep)) ⊎ ((next ≡ 0) × (loc + 1 ≡ keep))

pub loc-Next :
    (keep loc : ℕ) → loc < keep → keep < 2 ^ 32 → Next keep loc ((loc + 1) % 2 ^ 32 % keep)
loc-Next keep loc h m =
    let small : (loc + 1) % 2 ^ 32 ≡ loc + 1 = omega (arith, h, m) in
    rw small (elim (Bool-cases (loc + 1 == keep)) [
      | inl e ↦ let e' : loc + 1 ≡ keep = ground (arith, e) in inr (rw e' (mod_self keep), e')
      | inr ne ↦ let lt : loc + 1 < keep = ground (arith, ne, h) in inl (mod-eq_of_lt lt, lt)
    ])

step-Before :
    (keep loc next x n : ℕ)
    → x < keep
    → n < keep
    → Next keep loc next
    → Before keep loc x n
    → Before keep next x (suc n)
step-Before keep loc next x n h m step before = grind arith

last-Before : (keep loc next : ℕ) → loc < keep → Next keep loc next → Before keep next loc 1
last-Before keep loc next h step = grind arith

module _ {V : Type 0} where
  abbrev pub in_live : ℕ → List (ℕ × V) → Bool
  in_live x [] = false
  in_live x ((y, f) ∷ live) = (x == y) || in_live x live

  -- Each record is so many steps before `loc` as there are records from it on.
  abbrev pub Ring : ℕ → ℕ → List (ℕ × V) → Type 0
  Ring keep loc [] = Unit
  Ring keep loc ((x, f) ∷ live) =
      (x < keep) × Before keep loc x (suc (length live)) × Ring keep loc live

  pub Ring-free :
      (keep loc : ℕ) (live : List (ℕ × V))
      → length live < keep
      → Ring keep loc live
      → in_live loc live ≡ false
  Ring-free keep loc [] room ring = refl
  Ring-free keep loc ((x, f) ∷ live) room (lt, before, ring) =
      let rest = Ring-free keep loc live (omega (arith, room)) ring in
      let other : (loc == x) ≡ false = elim before [
        | inl e ↦ ground (arith, e)
        | inr e ↦ ground (arith, e, room)
      ] in
      rw (other, rest) refl

  -- The oldest record of a full table is in the slot `loc`.
  pub Ring-full :
      (keep loc x : ℕ) (f : V) (live : List (ℕ × V))
      → loc < keep
      → suc (length live) ≡ keep
      → Ring keep loc ((x, f) ∷ live)
      → x ≡ loc
  Ring-full keep loc x f live h full (lt, before, ring) = elim before [
    | inl e ↦ omega (arith, e, full, h)
    | inr e ↦ omega (arith, e, full)
  ]

  -- A record in the slot `loc` goes with the others.
  pub Ring-push :
      (keep loc next : ℕ) (f : V) (live : List (ℕ × V))
      → loc < keep
      → length live < keep
      → Next keep loc next
      → Ring keep loc live
      → Ring keep next (live ++ (loc, f) ∷ [])
  Ring-push keep loc next f [] h room step ring = (h, last-Before keep loc next h step, tt)
  Ring-push keep loc next f ((x, g) ∷ live) h room step (lt, before, ring) =
      let longer : length (live ++ (loc, f) ∷ []) ≡ suc (length live) =
        let m = length-append live ((loc, f) ∷ []) in omega (arith, m) in
      (
        lt,
        rw longer (step-Before keep loc next x (suc (length live)) lt room step before),
        Ring-push keep loc next f live h (omega (arith, room)) step ring,
      )
