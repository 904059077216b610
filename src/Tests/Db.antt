-- ===== src/Tests/Db.antt =====
-- A table of two records with an index, messages that are ints, and uses of the theorems there.
use krproject.Base.{
  ℕ, ◌≡◌, refl, Bool, true, Option, none, some, List, [], ◌∷◌, if◌then◌else◌, arith, map, ok,
}
use krproject.Base.Int.{ℤ, pos, negsuc, eqb_ℤ, eqb_ℤ→eq, eqb_ℤ_refl}
use krproject.Platform.{KrType, Value, Val}
use krproject.Db.{HashTable, Table, create_table, create_index, table_insert, table_select}
use krproject.Db.Indexed.{Live, Laws, with_key, as_entry}
use krproject.Db.Holds.{Holds}
use krproject.Db.Insert.{Extended, fields_of, table_insert-Extended}
use krproject.Db.Latest.{latest, contents}
use krproject.Db.Load.{load, load-select, create_table-Holds, create_index-Holds}
use krproject.Tests.Sample.{small}

-- keys are told apart as ints
abbrev code : Val small → ℤ
code (Value.i n) = n
code _ = pos 0

abbrev same_code : Val small → Val small → Bool
same_code v w = eqb_ℤ (code v) (code w)

abbrev hash : HashTable small
hash = record {
  Table = Val small → Option (List ℕ);
  new = λ k. none;
  lookup = λ t k. t k;
  replace = λ t k xs k'. if same_code k k' then some xs else t k';
  remove = λ t k k'. if same_code k k' then none else t k';
}

same_code_trans : (x y z : Val small) → same_code x y ≡ true → same_code x z ≡ same_code y z
same_code_trans x y z e = let e' = eqb_ℤ→eq (code x) (code y) e in rw e' refl

same_code_sym : (x y : Val small) → same_code x y ≡ same_code y x
same_code_sym x y = ground arith

abbrev hash_laws : Laws hash
hash_laws = record {
  same = same_code;
  same_refl = λ k. eqb_ℤ_refl (code k);
  same_sym = same_code_sym;
  same_trans = same_code_trans;
  lookup-new = λ k. refl;
  lookup-replace = λ t k xs k'. refl;
  lookup-remove = λ t k k'. refl;
}

-- index 7 on field 0
abbrev empty : Table small hash
empty = create_index (create_table (pos 1) (λ id. KrType.int) 1 2) (pos 7) (pos 0) (negsuc 0)

-- a message is the value of each field
abbrev map_int : ℤ → ℕ → Val small
map_int id msg = Value.i (pos msg)

empty-Holds : Holds hash_laws empty []
empty-Holds =
    create_index-Holds hash_laws (create_table (pos 1) (λ id. KrType.int) 1 2) (pos 7) (pos 0)
      (negsuc 0)
      (create_table-Holds hash_laws (pos 1) (λ id. KrType.int) 1 2 (omega arith) (omega arith)) refl

table_insert-Extended_example :
    (t' : Table small hash) × (table_insert map_int empty 5 ≡ ok t')
    × Extended hash_laws empty [] (fields_of hash_laws map_int empty 5) t'
table_insert-Extended_example = table_insert-Extended hash_laws map_int empty [] 5 empty-Holds

load-select_example :
    (t' : Table small hash) × (live : Live small) × (load hash_laws map_int empty (5 ∷ 6 ∷ 5 ∷ [])
      ≡ ok t')
    × Holds hash_laws t' live
    × (contents live ≡ latest 2 (map (fields_of hash_laws map_int empty) (5 ∷ 6 ∷ 5 ∷ [])))
    × (table_select t' (pos 7) (Value.i (pos 5))
        ≡ as_entry (with_key hash_laws (pos 0) (Value.i (pos 5)) live))
load-select_example =
    load-select hash_laws map_int empty (5 ∷ 6 ∷ 5 ∷ []) (pos 7) (pos 0) (Value.i (pos 5))
      empty-Holds refl
