-- ===== src/Db/Room.antt =====
-- The first part of `kr_insert_record` of krdb/kr_db_kernel.c: a full table loses its oldest record.
use krproject.Base.{
  ℕ, suc, ◌+◌, ◌-◌, ◌%◌, ◌^◌, ◌<◌, ◌≡◌, refl, sym, ap, ◌∙◌, false, none, some, List, [], ◌∷◌, ◌==◌,
  if◌then◌else◌, is_some, Bool-cases, arith, inl, inr, length, Run, ok,
}
use mathlib.Core.Path.{subst}
use krproject.Platform.{Platform}
use krproject.Db.{HashTable, Index, Fields, Table, rebuild_index_del, delete_record}
use krproject.Db.Indexed.{Live, Laws, IsIndex, Present, rebuild_index_del-Rebuilt}
use krproject.Db.Ring.{in_live, Ring, Ring-free, Ring-full}
use krproject.Db.Holds.{keys_of, make_room, AllIndex, Holds, each_index-AllIndex}

module _ {p : Platform} {H : HashTable p} (laws : Laws H) where
  -- room was made: the table is as before but for its indexes and its count
  pub record Roomy (t : Table p H) (live : Live p) (r : Run (Table p H)) : Type 0 where
    pub indexes : List (Index p H)
    pub num : ℕ
    pub run : r ≡ ok (record t { indexes = indexes; record_num = num })
    pub counted : num ≡ length live
    pub indexed : AllIndex laws live indexes
    pub keys : keys_of indexes ≡ keys_of t.indexes

  -- what `make_room` leaves of the invariant
  pub record Room (t : Table p H) (live : Live p) : Type 0 where
    pub ring : Ring t.size_keep_value t.record_loc live
    pub present : Present laws t.slots live
    pub absent : (x : ℕ) → in_live x live ≡ false → (x == t.record_loc) ≡ false → t.slots x ≡ none
    pub less : length live < t.size_keep_value

  keep-Room :
      (t : Table p H) (live : Live p)
      → Holds laws t live
      → length live < t.size_keep_value
      → (is_some (t.slots t.record_loc) ≡ false) × Room t live
  keep-Room t live h less =
      let free = Ring-free t.size_keep_value t.record_loc live less h.ring in
      (
        ap is_some (h.absent t.record_loc free),
        record { ring = h.ring; present = h.present; absent = λ x o _. h.absent x o; less = less },
      )

  drop-Room :
      (t : Table p H) (x : ℕ) (f : Fields p) (live : Live p)
      → Holds laws t ((x, f) ∷ live)
      → suc (length live) ≡ t.size_keep_value
      → (x ≡ t.record_loc) × Room t live
  drop-Room t x f live h full =
      let loc = h.loc in
      let here = Ring-full t.size_keep_value t.record_loc x f live loc full h.ring in
      (
        here,
        record {
          ring = h.ring.2;
          present = h.present.1;
          absent = λ y o far. h.absent y (ground (arith, o, far, here));
          less = omega (arith, full);
        },
      )

  drop-Roomy :
      (t : Table p H) (x : ℕ) (f : Fields p) (live : Live p)
      → Holds laws t ((x, f) ∷ live)
      → x ≡ t.record_loc
      → suc (length live) ≡ t.size_keep_value
      → Roomy t live (if is_some (t.slots t.record_loc) then delete_record t.record_loc t else ok t)
  unfolding delete_record
  drop-Roomy t x f live h here full =
      let there : t.slots t.record_loc ≡ some f = ap t.slots (sym here) ∙ h.present.0 in
      let (ixs, run, all, keys) =
        each_index-AllIndex laws (rebuild_index_del t t.record_loc) ((x, f) ∷ live) live
          (λ ix is.
            rebuild_index_del-Rebuilt laws t t.record_loc f live ix there h.present.1
              (subst (λ y. IsIndex laws ((y, f) ∷ live) ix) here is))
          t.indexes h.indexed in
      let num = h.num in
      let bound = h.bound in
      let fits = h.fits in
      rw (ap is_some there, run)
        record {
          indexes = ixs;
          num = (t.record_num + 2 ^ 32 - 1) % 2 ^ 32;
          run = refl;
          counted = omega (arith, num, bound, fits);
          indexed = all;
          keys = keys;
        }

  pub make_room-Roomy :
      (t : Table p H) (live : Live p)
      → Holds laws t live
      → Roomy t
          (make_room t.size_keep_value live)
          (if is_some (t.slots t.record_loc) then delete_record t.record_loc t else ok t)
        × Room t (make_room t.size_keep_value live)
  unfolding delete_record
  make_room-Roomy t [] h =
      let loc = h.loc in
      let (free, room) = keep-Room t [] h (omega (arith, loc)) in
      (
        rw free (record {
          indexes = t.indexes;
          num = t.record_num;
          run = refl;
          counted = h.num;
          indexed = h.indexed;
          keys = refl;
        }),
        room,
      )
  make_room-Roomy t ((x, f) ∷ live) h = elim (Bool-cases (suc (length live) == t.size_keep_value)) [
    | inl full ↦
        let e : suc (length live) ≡ t.size_keep_value = ground (arith, full) in
        let (here, room) = drop-Room t x f live h e in
        rw full (drop-Roomy t x f live h here e, room)
    | inr less ↦
        let bound = h.bound in
        let e : suc (length live) < t.size_keep_value = ground (arith, less, bound) in
        let (free, room) = keep-Room t ((x, f) ∷ live) h e in
        rw (less, free)
          (
            record {
              indexes = t.indexes;
              num = t.record_num;
              run = refl;
              counted = h.num;
              indexed = h.indexed;
              keys = refl;
            },
            room,
          )
  ]
