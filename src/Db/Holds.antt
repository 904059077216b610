-- ===== src/Db/Holds.antt =====
-- Which records a table holds, in krdb/kr_db_kernel.c: the live records, in its slots and its indexes.
use krproject.Base.{
  ℕ, suc, ◌^◌, ◌≤◌, ◌<◌, ◌≡◌, refl, false, ◌||◌, Option, none, some, List, [], ◌∷◌, ◌++◌, ◌==◌,
  if◌then◌else◌, arith, length, map, ∷-eq, Run, ok,
}
use krproject.Base.Int.{ℤ}
use krproject.Platform.{Platform}
use krproject.Db.{HashTable, Index, Fields, Table, each_index}
use krproject.Db.Indexed.{Live, Laws, IsIndex, Rebuilt, Present}
use krproject.Db.Ring.{in_live, Ring}

module _ {p : Platform} {H : HashTable p} where
  -- identifier and field of each index
  abbrev pub keys_of : List (Index p H) → List (ℤ × ℤ)
  keys_of ixs = map (λ ix. (ix.index_id, ix.index_field_id)) ixs

module _ {V : Type 0} where
  -- The oldest record goes when the table is full.
  abbrev pub make_room : ℕ → List (ℕ × V) → List (ℕ × V)
  make_room keep [] = []
  make_room keep (e ∷ live) = if suc (length live) == keep then live else e ∷ live

  -- what the live records are after one more
  abbrev pub push : ℕ → List (ℕ × V) → ℕ → V → List (ℕ × V)
  push keep live x f = make_room keep live ++ (x, f) ∷ []

module _ {p : Platform} {H : HashTable p} (laws : Laws H) where
  abbrev pub AllIndex : Live p → List (Index p H) → Type 0
  AllIndex live [] = Unit
  AllIndex live (ix ∷ ixs) = IsIndex laws live ix × AllIndex live ixs

  -- The table holds the live records: in the slots that lead up to `record_loc`, as many as
  -- `record_num` says, and in each index.
  pub record Holds (t : Table p H) (live : Live p) : Type 0 where
    pub ring : Ring t.size_keep_value t.record_loc live
    pub present : Present laws t.slots live
    pub absent : (x : ℕ) → in_live x live ≡ false → t.slots x ≡ none
    pub num : t.record_num ≡ length live
    pub bound : length live ≤ t.size_keep_value
    pub loc : t.record_loc < t.size_keep_value
    pub fits : t.size_keep_value < 2 ^ 32
    pub indexed : AllIndex live t.indexes

  pub each_index-AllIndex :
      (f : Index p H → Run (Index p H)) (live live' : Live p)
      → ((ix : Index p H)
          → IsIndex laws live ix
          → (ix' : Index p H) × (f ix ≡ ok ix') × Rebuilt laws live' ix ix')
      → (ixs : List (Index p H)) → AllIndex live ixs
      → (ixs' : List (Index p H)) × (each_index f ixs ≡ ok ixs')
        × AllIndex live' ixs'
        × (keys_of ixs' ≡ keys_of ixs)
  unfolding each_index
  each_index-AllIndex f live live' step [] h = ([], refl, tt, refl)
  each_index-AllIndex f live live' step (ix ∷ ixs) h =
      let (ix', run, rebuilt) = step ix h.0 in
      let (ixs', runs, all, keys) = each_index-AllIndex f live live' step ixs h.1 in
      (
        ix' ∷ ixs',
        rw (run, runs) refl,
        (rebuilt.is_index, all),
        ∷-eq (rw (rebuilt.index_id, rebuilt.index_field_id) refl) keys,
      )

  -- a change of a slot that holds none of the records
  pub Present-other :
      (slots : ℕ → Option (Fields p)) (x : ℕ) (f : Fields p) (live : Live p)
      → in_live x live ≡ false
      → Present laws slots live
      → Present laws (λ y. if y == x then some f else slots y) live
  Present-other slots x f [] out h = tt
  Present-other slots x f ((y, g) ∷ live) out h =
      (ground (arith, out, h.0), Present-other slots x f live (ground (arith, out)) h.1)

  pub Present-push :
      (slots : ℕ → Option (Fields p)) (live : Live p) (x : ℕ) (f : Fields p)
      → slots x ≡ some f
      → Present laws slots live
      → Present laws slots (live ++ (x, f) ∷ [])
  Present-push slots [] x f here h = (here, tt)
  Present-push slots ((y, g) ∷ live) x f here h = (h.0, Present-push slots live x f here h.1)

  pub in_live-push :
      (y x : ℕ) (f : Fields p) (live : Live p)
      → in_live y (live ++ (x, f) ∷ []) ≡ (in_live y live || (y == x))
  in_live-push y x f [] = ground arith
  in_live-push y x f ((z, g) ∷ live) = ground (arith, in_live-push y x f live)
