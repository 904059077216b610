-- ===== src/Data.antt =====
-- Data items: what krdata/kr_data.c, kr_sdi.c and kr_ddi.c read and write of a context.
pub mod Aggregate
pub mod Dynamic
pub mod Window
pub mod Totals
pub mod Methods
pub mod Static
pub mod Access
pub mod Cached
pub mod Place
pub mod Locate
pub mod History
use krproject.Base.{ℕ, Bool, Option, List, ◌==◌}
use krproject.Base.Int.{ℤ}
use krproject.Platform.{Platform, KrType, Val}

-- `T_KRRecord` with what `kr_get_transtime`, `kr_get_field_type` and `kr_get_field_value` of
-- krdb/kr_db.c give; `address` tells records apart.
pub record Record (p : Platform) : Type 0 where
  pub address : ℕ
  pub table_id : ℤ
  pub transtime : ℤ
  pub field_type : ℤ → KrType
  pub field_value : ℤ → Val p

-- `T_KRContext` as far as the data items use it: the current record, the record that is looked at,
-- the records of the key with the last one first, and the rest. No record is the null pointer.
pub record Scope (p : Platform) (E : Type 0) : Type 0 where
  pub pt_curr_rec : Option (Record p)
  pub pt_record : Option (Record p)
  pub pt_rec_list : List (Record p)
  pub rest : E

module _ {p : Platform} where
  abbrev pub same_record : Record p → Record p → Bool
  same_record r q = r.address == q.address
