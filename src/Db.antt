-- ===== src/Db.antt =====
-- The in-memory database: krdb/kr_db_kernel.c, with the insertion and the selection of krdb/kr_db.c.
-- A record is known by its slot in the buffer of its table. The lists of records and of indexes are
-- sequences, as Utils/KrList shows them to be; the hash table is a parameter.
pub mod Indexed
pub mod Holds
pub mod Room
pub mod Ring
pub mod Latest
pub mod Load
pub mod Insert
use krproject.Base.{
  ℕ, ◌+◌, ◌-◌, ◌%◌, ◌^◌, Bool, ◌&&◌, Option, none, some, List, [], ◌∷◌, ◌++◌, ◌==◌, ltb, leb,
  if◌then◌else◌, is_some, Run, ok, fault, null_read, bad_division, signed_overflow, foreign_member,
  ◌>>=◌,
}
use krproject.Base.Int.{ℤ, pos, negsuc, pos_part, neg_part, ◌-ℤ◌, eqb_ℤ, ltb_ℤ, fits_int, fits_long}
use krproject.Platform.{Platform, KrType, Value, Val}

-- What the code uses of a `T_KRHashTable` from keys to lists of records.
pub record HashTable (p : Platform) : Type 1 where
  pub Table : Type 0
  pub new : Table
  pub lookup : Table → Val p → Option (List ℕ)
  pub replace : Table → Val p → List ℕ → Table
  pub remove : Table → Val p → Table

-- `T_KRIndex`
pub record Index (p : Platform) (H : HashTable p) : Type 0 where
  pub index_id : ℤ
  pub index_field_id : ℤ
  pub sort_field_id : ℤ
  pub hash_table : H.Table

abbrev pub Fields : Platform → Type 0
Fields p = ℤ → Val p

-- `T_KRTable`: the slots of `pRecordBuff` hold the fields of a record, or nothing where `ptTable` is
-- null.
pub record Table (p : Platform) (H : HashTable p) : Type 0 where
  pub table_id : ℤ
  pub field_type : ℤ → KrType
  pub field_cnt : ℕ
  pub size_keep_value : ℕ
  pub record_loc : ℕ
  pub record_num : ℕ
  pub slots : ℕ → Option (Fields p)
  pub indexes : List (Index p H)

-- `(int)` of a `long`
abbrev pub to_int : ℤ → ℤ
to_int n = signed ((pos_part n + (2 ^ 32 - neg_part n % 2 ^ 32)) % 2 ^ 32)
  where
    signed : ℕ → ℤ
    signed w = if ltb w (2 ^ 31) then pos w else negsuc (2 ^ 32 - w - 1)

module _ {D S R T : Type 0} where
  abbrev pub int_field : Value D S R T → Run ℤ
  int_field (Value.i n) = ok n
  int_field Value.zeroed = ok (pos 0)
  int_field _ = fault foreign_member

  abbrev pub long_field : Value D S R T → Run ℤ
  long_field (Value.l n) = ok n
  long_field Value.zeroed = ok (pos 0)
  long_field _ = fault foreign_member

  abbrev pub string_field : Value D S R T → Run S
  string_field (Value.s t) = ok t
  string_field _ = fault foreign_member

abbrev pub double_field : (p : Platform) → Val p → Run p.Double
double_field p (Value.d x) = ok x
double_field p Value.zeroed = ok p.zero_double
double_field p _ = fault foreign_member

-- `kr_db_field_compare` of two values of a field, whose type is that of the field. The int that a
-- pointer is read as is that of `Value.i`.
unfoldable pub db_field_compare : (p : Platform) → KrType → Val p → Val p → Run ℤ
db_field_compare p KrType.int v w = int_field v >>= λ a.
    int_field w >>= λ b. if fits_int (a -ℤ b) then ok (a -ℤ b) else fault signed_overflow
db_field_compare p KrType.long v w = long_field v >>= λ a.
    long_field w >>= λ b. if fits_long (a -ℤ b) then ok (to_int (a -ℤ b)) else fault signed_overflow
db_field_compare p KrType.double v w =
    double_field p v >>= λ a. double_field p w >>= λ b. ok (p.to_int (p.sub a b))
db_field_compare p KrType.string v w =
    string_field v >>= λ a. string_field w >>= λ b. ok (p.strcmp a b)
db_field_compare p KrType.pointer v w = int_field v >>= λ a.
    int_field w >>= λ b. if fits_int (a -ℤ b) then ok (a -ℤ b) else fault signed_overflow
db_field_compare p _ v w = ok (pos 0)

-- `kr_list_remove` by the address of a record
unfoldable pub erase : ℕ → List ℕ → List ℕ
erase s [] = []
erase s (x ∷ xs) = if s == x then xs else x ∷ erase s xs

-- `kr_list_add_sorted`: from the tail, behind the first record that does not come after; `none` if
-- there is no such record
unfoldable pub add_behind : (ℕ → ℕ → Run ℤ) → ℕ → List ℕ → Run (Option (List ℕ))
add_behind compare s [] = ok none
add_behind compare s (x ∷ xs) = add_behind compare s xs >>= λ found. elim found [
  | some ys ↦ ok (some (x ∷ ys))
  | none ↦ compare s x >>= λ c. ok (if ltb_ℤ c (pos 0) then none else some (x ∷ s ∷ xs))
]

unfoldable pub add_sorted : (ℕ → ℕ → Run ℤ) → ℕ → List ℕ → Run (List ℕ)
add_sorted compare s xs =
    add_behind compare s xs >>= λ found. elim found [ none ↦ ok (s ∷ xs) | some ys ↦ ok ys ]

-- the list that was looked up, or a new one
abbrev pub list_of : Option (List ℕ) → List ℕ
list_of none = []
list_of (some xs) = xs

abbrev pub last_of : ℕ → List ℕ → ℕ
last_of x [] = x
last_of x (y ∷ ys) = last_of y ys

-- the fields of a record are read through its `ptTable`
abbrev pub value_of : {V : Type 0} → Option (ℤ → V) → ℤ → Run V
value_of none id = fault null_read
value_of (some fields) id = ok (fields id)

-- `kr_assign_field_value`, for the message that `pMapFuncPre` gives; the other fields are zero
abbrev pub assign_field_value :
    {D S R T M : Type 0} → (ℤ → M → Value D S R T) → ℕ → M → ℤ → Value D S R T
assign_field_value map_func field_cnt msg (pos id) =
    if ltb id field_cnt then map_func (pos id) msg else Value.zeroed
assign_field_value map_func field_cnt msg (negsuc id) = Value.zeroed

module _ {p : Platform} {H : HashTable p} where
  -- `kr_get_field_value` of the record in a slot, which reads through its `ptTable`
  unfoldable pub field_value : Table p H → ℕ → ℤ → Run (Val p)
  field_value t s id = value_of (t.slots s) id

  abbrev pub compare_records : Table p H → ℤ → ℕ → ℕ → Run ℤ
  compare_records t id s s' = field_value t s id >>= λ a.
      field_value t s' id >>= λ b. db_field_compare p (t.field_type id) a b

  unfoldable pub rebuild_index_ins : Table p H → ℕ → Index p H → Run (Index p H)
  rebuild_index_ins t s ix = field_value t s ix.index_field_id >>= λ key.
      let old : List ℕ = list_of (H.lookup ix.hash_table key) in
      (if ltb_ℤ ix.sort_field_id (pos 0)
        then ok (old ++ s ∷ [])
        else add_sorted (compare_records t ix.sort_field_id) s old)
      >>= λ l. ok (record ix { hash_table = H.replace ix.hash_table key l })

  -- the end of `kr_rebuild_index_del`, for what is left of the list; all records of an index
  -- belong to one table
  unfoldable pub reindex : Table p H → Index p H → Val p → List ℕ → Run (Index p H)
  reindex t ix key [] = ok (record ix { hash_table = H.remove ix.hash_table key })
  reindex t ix key (x ∷ xs) = field_value t (last_of x xs) ix.index_field_id >>= λ key'.
      ok (record ix { hash_table = H.replace ix.hash_table key' (x ∷ xs) })

  abbrev pub del_from : Table p H → ℕ → Index p H → Val p → Option (List ℕ) → Run (Index p H)
  del_from t s ix key none = fault null_read
  del_from t s ix key (some l) = reindex t ix key (erase s l)

  unfoldable pub rebuild_index_del : Table p H → ℕ → Index p H → Run (Index p H)
  rebuild_index_del t s ix =
      field_value t s ix.index_field_id >>= λ key. del_from t s ix key (H.lookup ix.hash_table key)

  -- `kr_list_foreach` over the indexes
  unfoldable pub each_index :
      (Index p H → Run (Index p H)) → List (Index p H) → Run (List (Index p H))
  each_index f [] = ok []
  each_index f (ix ∷ ixs) = f ix >>= λ ix'. each_index f ixs >>= λ ixs'. ok (ix' ∷ ixs')

  -- `uiRecordNum` and `uiRecordLoc` are `unsigned int`
  unfoldable pub insert_record : ℕ → Table p H → Run (Table p H)
  insert_record s t = each_index (rebuild_index_ins t s) t.indexes >>= λ ixs.
      let num : ℕ = (t.record_num + 1) % 2 ^ 32 in
      if t.size_keep_value == 0
      then fault bad_division
      else ok (record t {
        indexes = ixs;
        record_num = if ltb t.size_keep_value num then t.size_keep_value % 2 ^ 32 else num;
        record_loc = (t.record_loc + 1) % 2 ^ 32 % t.size_keep_value;
      })

  -- An `unsigned int` is never below 0, so the test after `--krtable->uiRecordNum` never holds.
  unfoldable pub delete_record : ℕ → Table p H → Run (Table p H)
  delete_record s t = each_index (rebuild_index_del t s) t.indexes >>= λ ixs.
      ok (record t { indexes = ixs; record_num = (t.record_num + 2 ^ 32 - 1) % 2 ^ 32 })

  module _ {M : Type 0} (map_func : ℤ → M → Val p) where
    -- The record is in the slot `record_loc`.
    unfoldable pub create_record_from_data : Table p H → M → Run (Table p H)
    create_record_from_data t msg =
        (if is_some (t.slots t.record_loc) then delete_record t.record_loc t else ok t) >>= λ t'.
        ok (record t' {
          slots = λ s.
              if s == t.record_loc
              then some (assign_field_value map_func t'.field_cnt msg)
              else t'.slots s;
        })

    -- `kr_db_insert`, for a table that was found
    unfoldable pub table_insert : Table p H → M → Run (Table p H)
    table_insert t msg = create_record_from_data t msg >>= λ t'. insert_record t.record_loc t'

  -- `kr_get_table_index`
  unfoldable pub get_table_index : List (Index p H) → ℤ → Option (Index p H)
  get_table_index [] id = none
  get_table_index (ix ∷ ixs) id = if eqb_ℤ ix.index_id id then some ix else get_table_index ixs id

  abbrev pub select_from : Option (Index p H) → Val p → Option (List ℕ)
  select_from none key = none
  select_from (some ix) key = H.lookup ix.hash_table key

  -- `kr_db_select`, for a table that was found
  unfoldable pub table_select : Table p H → ℤ → Val p → Option (List ℕ)
  table_select t id key = select_from (get_table_index t.indexes id) key

  -- `kr_create_table`, when the memory was granted
  abbrev pub create_table : ℤ → (ℤ → KrType) → (field_cnt size_keep_value : ℕ) → Table p H
  create_table id types field_cnt size_keep_value = record {
    table_id = id;
    field_type = types;
    field_cnt = field_cnt;
    size_keep_value = size_keep_value;
    record_loc = 0;
    record_num = 0;
    slots = λ s. none;
    indexes = [];
  }

  -- `kr_create_index` of an index of one table (`KR_INDEXTYPE_TABLE`)
  abbrev pub create_index : Table p H → (index_id field_id sort_id : ℤ) → Table p H
  create_index t index_id field_id sort_id = record t {
    indexes =
        t.indexes
        ++ record {
          index_id = index_id;
          index_field_id = field_id;
          sort_field_id = sort_id;
          hash_table = H.new;
        }
          ∷ [];
  }
