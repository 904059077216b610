-- ===== src/Calc/Sound.antt =====
-- Trees that hold what their kinds and types promise, and callbacks that serve them
-- (krcalc/kr_calc_tree.c).
pub mod Nodes
pub mod Trees
pub mod Whole
use krproject.Base.{◌≡◌, Bool, true, false, ◌⊎◌, ◌≤◌, ℕ, suc, Option, some, ok, bad_division}
use krproject.Base.Int.{ℤ}
use krproject.Platform.{Platform, KrType, Value, Val}
use krproject.Calc.{
  Kind, rel, arith', logic, mint, mfloat, mstring, regex, set, cid, fid, sid, did, hid, Node,
  Forest, nil, cons, Calc,
}
use krproject.Calc.Outcome.{Exec, value, missing, error, crash}

module _ {D S R T : Type 0} where
  -- the union holds the member of this type; `b` and `i` are both `int`
  abbrev pub fits : KrType → Value D S R T → Bool
  fits KrType.bool (Value.b n) = true
  fits KrType.bool (Value.i n) = true
  fits KrType.int (Value.b n) = true
  fits KrType.int (Value.i n) = true
  fits KrType.long (Value.l n) = true
  fits KrType.double (Value.d x) = true
  fits KrType.string (Value.s a) = true
  fits KrType.pointer (Value.set h) = true
  fits KrType.pointer (Value.regex r) = true
  fits KrType.pointer (Value.other a) = true
  fits _ _ = false

  abbrev pub holds_set : Value D S R T → Bool
  holds_set (Value.set h) = true
  holds_set _ = false

  abbrev pub holds_regex : Value D S R T → Bool
  holds_regex (Value.regex r) = true
  holds_regex _ = false

  -- what the value of a node of this kind must be
  abbrev pub suits : Kind → Value D S R T → Bool
  suits mint v = holds_set v
  suits mfloat v = holds_set v
  suits mstring v = holds_set v
  suits set v = holds_set v
  suits regex v = holds_regex v
  suits _ v = true

-- External items have the type that is declared for them, once it is known.
abbrev pub TypeOk : (Kind → ℤ → KrType) → Kind → ℤ → KrType → Type 0
TypeOk declared rel id t = t ≡ KrType.bool
TypeOk declared logic id t = t ≡ KrType.bool
TypeOk declared cid id t = (t ≡ KrType.unknown) ⊎ (t ≡ declared cid id)
TypeOk declared fid id t = (t ≡ KrType.unknown) ⊎ (t ≡ declared fid id)
TypeOk declared sid id t = (t ≡ KrType.unknown) ⊎ (t ≡ declared sid id)
TypeOk declared did id t = (t ≡ KrType.unknown) ⊎ (t ≡ declared did id)
TypeOk declared hid id t = (t ≡ KrType.unknown) ⊎ (t ≡ declared hid id)
TypeOk declared _ id t = Unit

-- Binary operations have two operands.
abbrev pub ArityOk : Kind → ℕ → Type 0
ArityOk arith' n = 2 ≤ n
ArityOk logic n = 2 ≤ n
ArityOk _ n = Unit

module _ {p : Platform} (declared : Kind → ℤ → KrType) where
  pub record NodeOk (n : Node p) : Type 0 where
    pub held : n.ind ≡ true → fits n.type n.value ≡ true
    pub suited : n.ind ≡ true → suits n.kind n.value ≡ true
    pub typed : TypeOk declared n.kind n.id n.type

  -- What the callbacks promise: the type of an item is fixed, reading an item is defined, and its
  -- value is of that type; a set is a hash set.
  pub record Serves {C : Type 0} (k : Calc p C) : Type 0 where
    pub types : (a : Kind) (id : ℤ) (c : C) → k.get_type_cb a id c ≡ declared a id
    pub reads :
        (a : Kind) (id : ℤ) (c : C) → (r : Option (Val p) × C) × (k.get_value_cb a id c ≡ ok r)
    pub values :
        (a : Kind) (id : ℤ) (c c' : C) (v : Val p)
        → k.get_value_cb a id c ≡ ok (some v, c')
        → (fits (declared a id) v ≡ true) × (suits a v ≡ true)

module _ {p : Platform} where
  abbrev pub count : Forest p → ℕ
  count nil = 0
  count (cons t ts) = suc (count ts)

-- A computation that ends without a fault but a bad division, in a value with the property `Q`.
abbrev pub Safe : {A : Type 0} → (A → Type 0) → Exec A → Type 0
Safe Q (value a) = Q a
Safe Q missing = Unit
Safe Q (error e) = Unit
Safe Q (crash bad_division) = Unit
Safe Q (crash _) = ⊥
