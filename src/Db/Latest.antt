-- ===== src/Db/Latest.antt =====
-- The last values of a list, as the ring of krdb/kr_db_kernel.c keeps them.
use krproject.Base.{
  ℕ, zero, suc, ◌-◌, ◌≤◌, ◌<◌, ◌≡◌, ◌≢◌, refl, sym, ap, ◌∙◌, List, [], ◌∷◌, ◌++◌, ◌==◌, Bool-cases,
  arith, inl, inr, length, length-append, length-map, map, ∷-eq,
}
use krproject.Db.Holds.{push}

module _ {ℓ} {A : Type ℓ} where
  abbrev pub drop : ℕ → List A → List A
  drop zero xs = xs
  drop (suc n) [] = []
  drop (suc n) (x ∷ xs) = drop n xs

  -- the last ones, at most `keep`
  abbrev pub latest : ℕ → List A → List A
  latest keep xs = drop (length xs - keep) xs

  drop-append : (n : ℕ) (xs ys : List A) → n ≤ length xs → drop n (xs ++ ys) ≡ drop n xs ++ ys
  drop-append zero xs ys h = refl
  drop-append (suc n) [] ys h = absurd (omega (arith, h))
  drop-append (suc n) (x ∷ xs) ys h = drop-append n xs ys (omega (arith, h))

  drop-suc : (n : ℕ) (xs : List A) (y : A) (ys : List A) → drop n xs ≡ y ∷ ys → drop (suc n) xs ≡ ys
  drop-suc zero [] y ys e = ground (arith, e)
  drop-suc zero (x ∷ xs) y ys e = cc
  drop-suc (suc n) [] y ys e = ground (arith, e)
  drop-suc (suc n) (x ∷ xs) y ys e = drop-suc n xs y ys e

  length-drop : (n : ℕ) (xs : List A) → length (drop n xs) ≡ length xs - n
  length-drop zero xs = omega arith
  length-drop (suc n) [] = omega arith
  length-drop (suc n) (x ∷ xs) = omega (arith, length-drop n xs)

  latest-room :
      (keep : ℕ) (xs : List A) (y : A)
      → length (latest keep xs) < keep
      → latest keep (xs ++ y ∷ []) ≡ latest keep xs ++ y ∷ []
  latest-room keep xs y h =
      let m = length-append xs (y ∷ []) in
      let l = length-drop (length xs - keep) xs in
      let e : length (xs ++ y ∷ []) - keep ≡ 0 = omega (arith, m, l, h) in
      let e' : length xs - keep ≡ 0 = omega (arith, l, h) in
      ap (λ n. drop n (xs ++ y ∷ [])) e ∙ ap (λ n. drop n xs ++ y ∷ []) (sym e')

  latest-full :
      (keep : ℕ) (xs : List A) (z : A) (zs : List A) (y : A)
      → latest keep xs ≡ z ∷ zs
      → suc (length zs) ≡ keep
      → latest keep (xs ++ y ∷ []) ≡ zs ++ y ∷ []
  latest-full keep xs z zs y e h =
      let m = length-append xs (y ∷ []) in
      let l = length-drop (length xs - keep) xs in
      let k : length (latest keep xs) ≡ suc (length zs) = ap length e in
      let n : length (xs ++ y ∷ []) - keep ≡ suc (length xs - keep) = omega (arith, m, l, k, h) in
      ap (λ i. drop i (xs ++ y ∷ [])) n
      ∙ drop-append (suc (length xs - keep)) xs (y ∷ []) (omega (arith, l, k))
      ∙ ap (λ ys. ys ++ y ∷ []) (drop-suc (length xs - keep) xs z zs e)

pub snoc-append :
    {A : Type 0} (xs : List A) (y : A) (ys : List A) → ((xs ++ y ∷ []) ++ ys) ≡ (xs ++ y ∷ ys)
snoc-append [] y ys = refl
snoc-append (x ∷ xs) y ys = ∷-eq refl (snoc-append xs y ys)

pub drop_nil : {A : Type 0} (n : ℕ) → [] ≡ drop {A = A} n []
drop_nil zero = refl
drop_nil (suc n) = refl

abbrev pub contents : {V : Type 0} → List (ℕ × V) → List V
contents live = map (λ e. e.1) live

pub contents-append :
    {V : Type 0} (xs : List (ℕ × V)) (x : ℕ) (f : V)
    → contents (xs ++ (x, f) ∷ []) ≡ contents xs ++ f ∷ []
contents-append [] x f = refl
contents-append (y ∷ xs) x f = ∷-eq refl (contents-append xs x f)

pub push-latest :
    {V : Type 0} (keep : ℕ) (live : List (ℕ × V)) (fs : List V) (x : ℕ) (f : V)
    → 0 < keep
    → contents live ≡ latest keep fs
    → contents (push keep live x f) ≡ latest keep (fs ++ f ∷ [])
push-latest keep [] fs x f h e =
    let l : 0 ≡ length (latest keep fs) = ap length e in
    ap (λ ys. ys ++ f ∷ []) e ∙ sym (latest-room keep fs f (omega (arith, l, h)))
push-latest keep ((y, g) ∷ live) fs x f h e =
    let l : suc (length (contents live)) ≡ length (latest keep fs) = ap length e in
    let m = length-map (λ (c : ℕ × _). c.1) live in
    elim (Bool-cases (suc (length live) == keep)) [
      | inl full ↦
          let k : suc (length live) ≡ keep = ground (arith, full) in
          rw full (
            contents-append live x f
            ∙ sym (latest-full keep fs g (contents live) f (sym e) (omega (arith, m, k))))
      | inr less ↦
          let ne : suc (length live) ≢ keep = ground (arith, less) in
          let k = length-drop (length fs - keep) fs in
          rw less (
            contents-append ((y, g) ∷ live) x f
            ∙ ap (λ ys. ys ++ f ∷ []) e
            ∙ sym (latest-room keep fs f (omega (arith, l, m, k, ne))))
    ]
