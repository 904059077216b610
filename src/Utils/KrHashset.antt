-- ===== src/Utils/KrHashset.antt =====
-- krutils/kr_hashset.c: sets that are made from a text with commas. The search is with the evaluation
-- of expressions, Calc/Logic.
pub mod Tokens
pub mod Made
use krproject.Base.{ℕ, List, [], ◌∷◌, ◌++◌, ◌==◌, if◌then◌else◌}
use krproject.Platform.{Platform, KrType, HashSet, Value, Val}
use krproject.Message.{Bytes, atoi}

-- A new hash table, and what C reads a text as: a double, and the string itself.
pub record Reader (p : Platform) : Type 0 where
  pub new_table : p.Table
  pub atof : Bytes → p.Double
  pub to_str : Bytes → p.Str

-- a piece between commas, which `strtok_r` skips if it is empty
abbrev pub emit : Bytes → List Bytes → List Bytes
emit [] ts = ts
emit (x ∷ xs) ts = (x ∷ xs) ∷ ts

-- what the calls of `strtok_r(…, ",", …)` give; `piece` is what was read of the next token
unfoldable pub tokens_loop : Bytes → Bytes → List Bytes
tokens_loop piece [] = emit piece []
tokens_loop piece (x ∷ xs) =
    let more = tokens_loop (piece ++ x ∷ []) xs in
    let done = emit piece (tokens_loop [] xs) in if x == b',' then done else more

-- `p[strlen(p)-1] = '\0'`
abbrev pub drop_last : Bytes → Bytes
drop_last [] = []
drop_last (x ∷ []) = []
drop_last (x ∷ y ∷ ys) = x ∷ drop_last (y ∷ ys)

-- The token without its first byte and its last one. A token of one byte becomes empty, as the zero is
-- written before it.
abbrev pub unquoted : Bytes → Bytes
unquoted [] = []
unquoted (x ∷ xs) = drop_last xs

module _ {p : Platform} (reader : Reader p) where
  open reader use {new_table, atof, to_str}

  -- `kr_hashset_create`, without the name
  abbrev pub hashset_create : KrType → HashSet p.Table
  hashset_create key_type = record { type = key_type; set = new_table }

  -- `kr_hashset_add`
  abbrev pub hashset_add : HashSet p.Table → Val p → HashSet p.Table
  hashset_add krset element = record krset { set = p.table_insert krset.set element }

  -- the switch in the loop
  unfoldable pub add_token : KrType → HashSet p.Table → Bytes → HashSet p.Table
  add_token KrType.int krset t = hashset_add krset (Value.i (atoi t))
  add_token KrType.double krset t = hashset_add krset (Value.d (atof t))
  add_token KrType.string krset t = hashset_add krset (Value.s (to_str (unquoted t)))
  add_token _ krset t = krset

  unfoldable pub add_tokens : HashSet p.Table → List Bytes → HashSet p.Table
  add_tokens krset [] = krset
  add_tokens krset (t ∷ ts) = add_tokens (add_token krset.type krset t) ts

  -- `kr_hashset_make`
  unfoldable pub hashset_make : KrType → Bytes → HashSet p.Table
  hashset_make key_type multi_string =
      add_tokens (hashset_create key_type) (tokens_loop [] multi_string)
