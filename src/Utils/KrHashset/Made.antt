-- ===== src/Utils/KrHashset/Made.antt =====
-- What is found in a set that krutils/kr_hashset.c makes from a text.
use mathlib.Core.Path.{subst}
use krproject.Base.{
  ℕ, ◌≡◌, refl, sym, ap, ◌∙◌, Bool, true, false, not, ◌||◌, List, [], ◌∷◌, ◌++◌, ◌==◌, map, any,
  all, is_some, arith,
}
use krproject.Base.Int.{ℤ, pos, eqb_ℤ, fits_int}
use krproject.Platform.{Platform, KrType, Value, Val}
use krproject.Calc.Members.{truth_of}
use krproject.Calc.Logic.{hashset_search}
use krproject.Message.{Bytes, print_int}
use krproject.Message.Decimal.{atoi-int, print_int-comma}
use krproject.Utils.KrString.Env.{Lacks}
use krproject.Utils.KrHashset.{Reader, drop_last, add_token, add_tokens, hashset_make}
use krproject.Utils.KrHashset.Tokens.{join, IsWord, AllWords, tokens-join}

-- What the code relies on in the hash table: a new one has no key, and an insertion adds one.
pub record Laws {p : Platform} (reader : Reader p) : Type 0 where
  pub new : (v : Val p) → is_some (p.table_lookup reader.new_table v) ≡ false
  pub inserted_int :
      (t : p.Table) (m n : ℤ)
      → is_some (p.table_lookup (p.table_insert t (Value.i m)) (Value.i n))
        ≡ (eqb_ℤ n m || is_some (p.table_lookup t (Value.i n)))
  pub inserted_string :
      (t : p.Table) (a b : p.Str)
      → is_some (p.table_lookup (p.table_insert t (Value.s a)) (Value.s b))
        ≡ (eqb_ℤ (p.strcmp b a) (pos 0) || is_some (p.table_lookup t (Value.s b)))

abbrev pub AllInts : List ℤ → Type 0
AllInts ns = all fits_int ns ≡ true

-- a word between two bytes, such as quotes
abbrev pub quoted : ℕ → Bytes → Bytes
quoted q w = q ∷ (w ++ q ∷ [])

abbrev pub AllLack : List Bytes → Type 0
AllLack ws = all (λ w. all (λ x. not (x == b',')) w) ws ≡ true

printed-IsWord : (n : ℤ) → fits_int n ≡ true → IsWord (print_int n)
printed-IsWord n h =
    let (x, xs, e, lacks) = print_int-comma n h in
    subst IsWord (sym e) (subst (λ u. Lacks b',' u) e lacks)

printed-AllWords : (ns : List ℤ) → AllInts ns → AllWords (map print_int ns)
printed-AllWords [] h = tt
printed-AllWords (n ∷ ns) h =
    (printed-IsWord n (ground (arith, h)), printed-AllWords ns (ground (arith, h)))

quoted-Lacks : (q : ℕ) (w : Bytes) → (q == b',') ≡ false → Lacks b',' w → Lacks b',' (w ++ q ∷ [])
quoted-Lacks q [] e h = ground (arith, e)
quoted-Lacks q (x ∷ w) e h = ground (arith, h, quoted-Lacks q w e (ground (arith, h)))

quoted-AllWords :
    (q : ℕ) (ws : List Bytes) → (q == b',') ≡ false → AllLack ws → AllWords (map (quoted q) ws)
quoted-AllWords q [] e h = tt
quoted-AllWords q (w ∷ ws) e h = (
  ground (arith, e, quoted-Lacks q w e (ground (arith, h))),
  quoted-AllWords q ws e (ground (arith, h)),
)

drop_last-append : (w : Bytes) (q : ℕ) → drop_last (w ++ q ∷ []) ≡ w
drop_last-append [] q = refl
drop_last-append (x ∷ []) q = refl
drop_last-append (x ∷ y ∷ w) q = ap (◌∷◌ x) (drop_last-append (y ∷ w) q)

module _ {p : Platform} {reader : Reader p} (laws : Laws reader) where
  ints_added :
      (t : p.Table) (ns : List ℤ) (n : ℤ)
      → AllInts ns
      → is_some (
          p.table_lookup
            (add_tokens reader (record { type = KrType.int; set = t }) (map print_int ns)).set
            (Value.i n))
        ≡ (any (λ m. eqb_ℤ n m) ns || is_some (p.table_lookup t (Value.i n)))
  unfolding add_tokens add_token
  ints_added t [] n h = refl
  ints_added t (m ∷ ns) n h =
      let e = atoi-int m (ground (arith, h)) in
      let later = ints_added (p.table_insert t (Value.i m)) ns n (ground (arith, h)) in
      let run : ℤ → Bool = λ k. is_some (
        p.table_lookup
          (add_tokens reader (record { type = KrType.int; set = p.table_insert t (Value.i k) })
            (map print_int ns)).set
          (Value.i n)) in
      ap run e ∙ (later ∙ ground (arith, laws.inserted_int t m n))

  strings_added :
      (t : p.Table) (q : ℕ) (ws : List Bytes) (b : p.Str)
      → is_some (
          p.table_lookup
            (add_tokens reader (record { type = KrType.string; set = t }) (map (quoted q) ws)).set
            (Value.s b))
        ≡ (any (λ w. eqb_ℤ (p.strcmp b (reader.to_str w)) (pos 0)) ws
            || is_some (p.table_lookup t (Value.s b)))
  unfolding add_tokens add_token
  strings_added t q [] b = refl
  strings_added t q (w ∷ ws) b =
      let e = drop_last-append w q in
      let later = strings_added (p.table_insert t (Value.s (reader.to_str w))) q ws b in
      let run : Bytes → Bool = λ u. is_some (
        p.table_lookup
          (add_tokens reader
            (record { type = KrType.string; set = p.table_insert t (Value.s (reader.to_str u)) })
            (map (quoted q) ws)).set
          (Value.s b)) in
      ap run e ∙ (later ∙ ground (arith, laws.inserted_string t (reader.to_str w) b))

  -- In the set that is made from ints, printed with commas between them, the search finds exactly
  -- these.
  pub hashset_search-ints :
      (ns : List ℤ) (n : ℤ)
      → AllInts ns
      → hashset_search p (hashset_make reader KrType.int (join (map print_int ns))) (Value.i n)
        ≡ truth_of (any (λ m. eqb_ℤ n m) ns)
  unfolding hashset_search hashset_make
  hashset_search-ints ns n h =
      rw (tokens-join (map print_int ns) (printed-AllWords ns h))
        (ap truth_of (ints_added reader.new_table ns n h ∙ ground (arith, laws.new (Value.i n))))

  -- In the set that is made from quoted strings without commas, with commas between them, the search
  -- finds exactly the strings that compare equal to one of these, without its quotes.
  pub hashset_search-strings :
      (q : ℕ) (ws : List Bytes) (b : p.Str)
      → (q == b',') ≡ false
      → AllLack ws
      → hashset_search p (hashset_make reader KrType.string (join (map (quoted q) ws))) (Value.s b)
        ≡ truth_of (any (λ w. eqb_ℤ (p.strcmp b (reader.to_str w)) (pos 0)) ws)
  unfolding hashset_search hashset_make
  hashset_search-strings q ws b e h =
      rw (tokens-join (map (quoted q) ws) (quoted-AllWords q ws e h))
        (ap truth_of (strings_added reader.new_table q ws b ∙ ground (arith, laws.new (Value.s b))))
