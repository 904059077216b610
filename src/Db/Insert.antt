-- ===== src/Db/Insert.antt =====
-- Inserting a record, krdb/kr_db.c's `kr_db_insert` on a table: the table keeps its last records,
-- and its indexes find them.
use krproject.Base.{
  ℕ, ◌+◌, ◌%◌, ◌^◌, ◌<◌, ◌≡◌, refl, ◌∙◌, false, some, List, [], ◌∷◌, ◌++◌, ◌==◌, ltb, if◌then◌else◌,
  arith, length, length-append, ok,
}
use native.Mathlib.Nat.{mod-lt}
use krproject.Base.Int.{ℤ}
use krproject.Platform.{Platform, Val}
use krproject.Db.{
  HashTable, Index, Fields, Table, rebuild_index_ins, insert_record, create_record_from_data,
  assign_field_value, table_insert,
}
use krproject.Db.Indexed.{Live, Laws, rebuild_index_ins-Rebuilt}
use krproject.Db.Ring.{loc-Next, Ring-free, Ring-push}
use krproject.Db.Holds.{
  keys_of, make_room, push, AllIndex, Holds, each_index-AllIndex, Present-other, Present-push,
  in_live-push,
}
use krproject.Db.Room.{Room, make_room-Roomy}

module _ {p : Platform} {H : HashTable p} (laws : Laws H) where
  -- What inserting a message's record makes of a table.
  pub record Extended (t : Table p H) (live : Live p) (f : Fields p) (t' : Table p H) : Type 0 where
    pub holds : Holds laws t' (push t.size_keep_value live t.record_loc f)
    pub keys : keys_of t'.indexes ≡ keys_of t.indexes
    pub size_keep_value : t'.size_keep_value ≡ t.size_keep_value
    pub field_cnt : t'.field_cnt ≡ t.field_cnt

  extend-Holds :
      (t : Table p H) (live : Live p) (f : Fields p) (ixs : List (Index p H)) (num : ℕ)
      → Room laws t live
      → t.record_loc < t.size_keep_value
      → t.size_keep_value < 2 ^ 32
      → num ≡ length live
      → AllIndex laws (live ++ (t.record_loc, f) ∷ []) ixs
      → Holds laws
          (record t {
            slots = λ s. if s == t.record_loc then some f else t.slots s;
            indexes = ixs;
            record_num =
                if ltb t.size_keep_value ((num + 1) % 2 ^ 32)
                then t.size_keep_value % 2 ^ 32
                else (num + 1) % 2 ^ 32;
            record_loc = (t.record_loc + 1) % 2 ^ 32 % t.size_keep_value;
          })
          (live ++ (t.record_loc, f) ∷ [])
  extend-Holds t live f ixs num room loc fits counted all =
      let keep = t.size_keep_value in
      let step = loc-Next keep t.record_loc loc fits in
      let free = Ring-free keep t.record_loc live room.less room.ring in
      let m = length-append live ((t.record_loc, f) ∷ []) in
      let less = room.less in
      let small : (num + 1) % 2 ^ 32 ≡ num + 1 = omega (arith, counted, less, fits) in
      let below : ltb keep (num + 1) ≡ false = ground (arith, counted, less) in
      record {
        ring = Ring-push keep t.record_loc _ f live loc less step room.ring;
        present =
            Present-push laws _ live t.record_loc f (ground arith)
              (Present-other laws t.slots t.record_loc f live free room.present);
        absent = λ y o.
            let e = in_live-push laws y t.record_loc f live in
            let far : (y == t.record_loc) ≡ false = ground (arith, e, o) in
            rw far (room.absent y (ground (arith, e, o)) far);
        num = rw (small, below) (omega (arith, counted, m));
        bound = omega (arith, m, less);
        loc = mod-lt _ (let h = loc in omega (arith, h));
        fits = fits;
        indexed = all;
      }

  module _ {M : Type 0} (map_func : ℤ → M → Val p) where
    abbrev pub fields_of : Table p H → M → Fields p
    fields_of t msg = assign_field_value map_func t.field_cnt msg

    -- Inserting a message into a table always succeeds: the table then holds its record, as the last
    -- one, and the records before less the oldest where the table was full.
    pub table_insert-Extended :
        (t : Table p H) (live : Live p) (msg : M)
        → Holds laws t live
        → (t' : Table p H) × (table_insert map_func t msg ≡ ok t')
          × Extended t live (fields_of t msg) t'
    unfolding table_insert create_record_from_data insert_record
    table_insert-Extended t live msg h =
        let f = fields_of t msg in
        let keep = t.size_keep_value in
        let (roomy, room) = make_room-Roomy laws t live h in
        let t₂ : Table p H = record t {
          indexes = roomy.indexes;
          record_num = roomy.num;
          slots = λ s. if s == t.record_loc then some f else t.slots s;
        } in
        let (ixs, run, all, keys) =
          each_index-AllIndex laws (rebuild_index_ins t₂ t.record_loc) (make_room keep live)
            (make_room keep live ++ (t.record_loc, f) ∷ [])
            (λ ix is.
              rebuild_index_ins-Rebuilt laws t₂ t.record_loc f (make_room keep live) ix
                (ground arith) is)
            roomy.indexes roomy.indexed in
        let loc = h.loc in
        let some_kept : (keep == 0) ≡ false = ground (arith, loc) in
        (
          _,
          rw (roomy.run, run, some_kept) refl,
          record {
            holds =
                extend-Holds t (make_room keep live) f ixs roomy.num room h.loc h.fits roomy.counted
                  all;
            keys = keys ∙ roomy.keys;
            size_keep_value = refl;
            field_cnt = refl;
          },
        )
