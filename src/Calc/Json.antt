-- ===== src/Calc/Json.antt =====
-- Expressions as JSON: krcalc/kr_calc_parser_json.c and krcalc/kr_calc_dumper_json.c. What the code
-- calls of cJSON (a copy of another project's library), of krutils/kr_hashset.c and of
-- krutils/kr_regex.c is a parameter.
pub mod Parser
pub mod Dumper
pub mod Fresh
pub mod Members
pub mod RoundTrip
pub mod Reads
pub mod OnlyReads
use krproject.Base.{
  ℕ, zero, suc, ◌-◌, Option, none, some, List, [], ◌∷◌, get_elem?, ltb, if◌then◌else◌,
}
use krproject.Base.Int.{ℤ, pos, negsuc}
use krproject.Platform.{Platform, KrType, HashSet}
use krproject.Calc.{
  Op, no_op, plus, sub, mut, div, mod', lt, le, gt, ge, eq, neq, bl, nbl, match, not', and, or,
  Kind, rel, arith', logic, int, float, string, mint, mfloat, mstring, regex, set, cid, fid, sid,
  did, hid,
}

-- The members of an object that the code names.
pub data Member : Type 0 where
  m_op m_child m_kind m_value : Member

-- The functions of cJSON; a pointer that may be NULL is an option. `items` are the elements that
-- `cJSON_GetArraySize` counts and `cJSON_GetArrayItem` gives.
pub record CJson (p : Platform) : Type 1 where
  pub Json : Type 0
  pub parse : p.Str → Option Json
  pub get_object_item : Member → Json → Option Json
  pub items : Json → List Json
  pub valuedouble : Json → p.Double
  pub valuestring : Json → Option p.Str
  pub create_object : Json
  pub create_array : Json
  pub create_number : p.Double → Json
  pub create_string : p.Str → Json
  pub add_item_to_object : Json → Member → Json → Json
  pub add_item_to_array : Json → Json → Json
  pub hashset_make : KrType → p.Str → HashSet p.Table
  pub hashset_name : HashSet p.Table → p.Str
  pub regex_compile : p.Str → Option p.Regex
  pub regex_pattern : p.Regex → p.Str

abbrev pub ops : List Op
ops =
    plus ∷ sub ∷ mut ∷ div ∷ mod' ∷ lt ∷ le ∷ gt ∷ ge ∷ eq ∷ neq ∷ bl ∷ nbl ∷ match ∷ not' ∷ and
    ∷ or ∷ []

abbrev pub kinds : List Kind
kinds =
    rel ∷ arith' ∷ logic ∷ int ∷ float ∷ string ∷ mint ∷ mfloat ∷ mstring ∷ regex ∷ set ∷ cid ∷ fid
    ∷ sid ∷ did ∷ hid ∷ []

-- The numbers of `E_KRCalcOp`
abbrev pub op_code : Op → ℕ
op_code no_op = 0
op_code plus = 1
op_code sub = 2
op_code mut = 3
op_code div = 4
op_code mod' = 5
op_code lt = 6
op_code le = 7
op_code gt = 8
op_code ge = 9
op_code eq = 10
op_code neq = 11
op_code bl = 12
op_code nbl = 13
op_code match = 14
op_code not' = 15
op_code and = 16
op_code or = 17

-- The numbers of `E_KRCalcKind`
abbrev pub kind_code : Kind → ℕ
kind_code rel = 0
kind_code arith' = 1
kind_code logic = 2
kind_code int = 3
kind_code float = 4
kind_code string = 5
kind_code mint = 6
kind_code mfloat = 7
kind_code mstring = 8
kind_code regex = 9
kind_code set = 10
kind_code cid = 11
kind_code fid = 12
kind_code sid = 13
kind_code did = 14
kind_code hid = 15

-- the cases of `switch(op)` and of `switch(kind)`
unfoldable pub op_of : ℤ → Option Op
op_of (pos (suc n)) = get_elem? ops n
op_of _ = none

unfoldable pub kind_of : ℤ → Option Kind
kind_of (pos n) = get_elem? kinds n
kind_of (negsuc n) = none
