-- ===== src/Platform.antt =====
-- krutils/kr_types.h: type tags and the value union. `Platform` is what the C library and the
-- hash table (a copy of GLib's) provide: floating point, strings, regular expressions, look-ups.
use krproject.Base.{ℕ, Bool, Option, ◌==◌}
use krproject.Base.Int.{ℤ}

-- `E_KRType`
pub data KrType : Type 0 where
  bool char int long double string pointer unknown : KrType

-- The enumeration's values are these letters.
abbrev pub letter : KrType → ℕ
letter bool = b'B'
letter char = b'C'
letter int = b'I'
letter long = b'L'
letter double = b'D'
letter string = b'S'
letter pointer = b'P'
letter unknown = b'U'

abbrev pub type_eq : KrType → KrType → Bool
type_eq a b = letter a == letter b

-- `E_KRValueInd`: `false` is KR_VALUE_UNSET, `true` is KR_VALUE_SETED.
abbrev pub ValueInd : Type 0
ValueInd = Bool

-- `T_KRHashSet` without its name, over the type of hash tables.
pub record HashSet (T : Type 0) : Type 0 where
  pub type : KrType
  pub set : T

-- `U_KRValue`, by the member that was written last. The member `p` points to a hash set, to a
-- compiled regular expression or to something else; `zeroed` is the union after `calloc`.
pub data Value (D S R T : Type 0) : Type 0 where
  zeroed : Value D S R T
  b : ℤ → Value D S R T
  c : ℤ → Value D S R T
  i : ℤ → Value D S R T
  l : ℤ → Value D S R T
  d : D → Value D S R T
  s : S → Value D S R T
  set : HashSet T → Value D S R T
  regex : R → Value D S R T
  other : ℕ → Value D S R T

pub record Platform : Type 1 where
  pub Double : Type 0
  pub zero_double : Double
  pub of_int : ℤ → Double
  pub add : Double → Double → Double
  pub sub : Double → Double → Double
  pub mul : Double → Double → Double
  pub div : Double → Double → Double
  pub lt : Double → Double → Bool
  pub le : Double → Double → Bool
  pub eq : Double → Double → Bool
  pub to_int : Double → ℤ
  pub to_long : Double → ℤ
  pub Str : Type 0
  pub strcmp : Str → Str → ℤ
  pub Regex : Type 0
  pub regexec : Regex → Str → ℤ
  pub Table : Type 0
  pub table_remove_all : Table → Table
  -- the key and the value are the same
  pub table_insert : Table → Value Double Str Regex Table → Table
  pub table_lookup : Table → Value Double Str Regex Table → Option (Value Double Str Regex Table)

abbrev pub Val : Platform → Type 0
Val p = Value p.Double p.Str p.Regex p.Table
