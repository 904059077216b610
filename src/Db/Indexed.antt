-- ===== src/Db/Indexed.antt =====
-- The indexes of a table: what they hold before and after `kr_rebuild_index_ins` and
-- `kr_rebuild_index_del` of krdb/kr_db_kernel.c.
use krproject.Base.{
  ℕ, ◌≡◌, refl, ap, ◌∙◌, Bool, true, Option, none, some, List, [], ◌∷◌, ◌++◌, if◌then◌else◌, ok,
  arith, Bool-cases, inl, inr,
}
use krproject.Base.Int.{ℤ, pos, ltb_ℤ}
use krproject.Platform.{Platform, Val}
use krproject.Db.{
  HashTable, Index, Fields, Table, erase, last_of, list_of, value_of, field_value,
  rebuild_index_ins, rebuild_index_del, reindex,
}

-- The live records with their slots, the oldest first.
abbrev pub Live : Platform → Type 0
Live p = List (ℕ × Fields p)

-- What is documented of hash tables: `same` is the function that compares keys, an equivalence.
pub record Laws {p : Platform} (H : HashTable p) : Type 0 where
  pub same : Val p → Val p → Bool
  pub same_refl : (k : Val p) → same k k ≡ true
  pub same_sym : (a b : Val p) → same a b ≡ same b a
  pub same_trans : (a b c : Val p) → same a b ≡ true → same a c ≡ same b c
  pub lookup-new : (k : Val p) → H.lookup H.new k ≡ none
  pub lookup-replace :
      (t : H.Table) (k : Val p) (l : List ℕ) (k' : Val p)
      → H.lookup (H.replace t k l) k' ≡ (if same k k' then some l else H.lookup t k')
  pub lookup-remove :
      (t : H.Table) (k k' : Val p)
      → H.lookup (H.remove t k) k' ≡ (if same k k' then none else H.lookup t k')

-- a list of records is in the hash table unless it is empty
abbrev pub as_entry : List ℕ → Option (List ℕ)
as_entry [] = none
as_entry (x ∷ xs) = some (x ∷ xs)

module _ {p : Platform} {H : HashTable p} (laws : Laws H) where
  -- the slots of the records with a key in a field, the oldest first
  abbrev pub with_key : ℤ → Val p → Live p → List ℕ
  with_key id k [] = []
  with_key id k ((s, f) ∷ live) =
      if laws.same (f id) k then s ∷ with_key id k live else with_key id k live

  -- An index without a sort field holds, for each key, the records with the key in their order.
  pub record IsIndex (live : Live p) (ix : Index p H) : Type 0 where
    pub unsorted : ltb_ℤ ix.sort_field_id (pos 0) ≡ true
    pub entries :
        (k : Val p) → H.lookup ix.hash_table k ≡ as_entry (with_key ix.index_field_id k live)

  -- What a rebuilt index is.
  pub record Rebuilt (live : Live p) (ix : Index p H) (ix' : Index p H) : Type 0 where
    pub is_index : IsIndex live ix'
    pub index_id : ix'.index_id ≡ ix.index_id
    pub index_field_id : ix'.index_field_id ≡ ix.index_field_id

  with_key-append :
      (id : ℤ) (k : Val p) (live : Live p) (s : ℕ) (f : Fields p)
      → with_key id k (live ++ (s, f) ∷ [])
        ≡ (if laws.same (f id) k then with_key id k live ++ s ∷ [] else with_key id k live)
  with_key-append id k [] s f = refl
  with_key-append id k ((s', f') ∷ live) s f = ground (arith, with_key-append id k live s f)

  with_key-same :
      (id : ℤ) (j k : Val p) (live : Live p)
      → laws.same j k ≡ true
      → with_key id j live ≡ with_key id k live
  with_key-same id j k [] e = refl
  with_key-same id j k ((x, f) ∷ live) e =
      let v = f id in
      let swap : laws.same v j ≡ laws.same v k =
        laws.same_sym v j ∙ laws.same_trans j k v e ∙ laws.same_sym k v in
      rw (swap, with_key-same id j k live e) refl

  -- the slots of the live records hold their fields
  abbrev pub Present : (ℕ → Option (Fields p)) → Live p → Type 0
  Present slots [] = Unit
  Present slots ((x, f) ∷ live) = (slots x ≡ some f) × Present slots live

  -- a record of the list has the key
  abbrev Keyed : (ℕ → Option (Fields p)) → ℤ → Val p → ℕ → Type 0
  Keyed slots id k x = (f : Fields p) × (slots x ≡ some f) × (laws.same (f id) k ≡ true)

  abbrev AllKeyed : (ℕ → Option (Fields p)) → ℤ → Val p → List ℕ → Type 0
  AllKeyed slots id k [] = Unit
  AllKeyed slots id k (x ∷ xs) = Keyed slots id k x × AllKeyed slots id k xs

  last_of-Keyed :
      (slots : ℕ → Option (Fields p)) (id : ℤ) (k : Val p) (x : ℕ) (xs : List ℕ)
      → Keyed slots id k x
      → AllKeyed slots id k xs
      → Keyed slots id k (last_of x xs)
  last_of-Keyed slots id k x [] h hs = h
  last_of-Keyed slots id k x (y ∷ ys) h hs = last_of-Keyed slots id k y ys hs.0 hs.1

  with_key-AllKeyed :
      (slots : ℕ → Option (Fields p)) (id : ℤ) (k : Val p) (live : Live p)
      → Present slots live
      → AllKeyed slots id k (with_key id k live)
  with_key-AllKeyed slots id k [] h = tt
  with_key-AllKeyed slots id k ((x, f) ∷ live) h = elim (Bool-cases (laws.same (f id) k)) [
    | inl e ↦ rw e ((f, h.0, e), with_key-AllKeyed slots id k live h.1)
    | inr e ↦ rw e (with_key-AllKeyed slots id k live h.1)
  ]

  append_entry :
      (m : List ℕ) (x : ℕ) → some (list_of (as_entry m) ++ x ∷ []) ≡ as_entry (m ++ x ∷ [])
  append_entry [] x = refl
  append_entry (y ∷ ys) x = refl

  -- Inserting the record of a slot into an index adds it behind the others with its key.
  pub rebuild_index_ins-Rebuilt :
      (t : Table p H) (x : ℕ) (f : Fields p) (live : Live p) (ix : Index p H)
      → t.slots x ≡ some f
      → IsIndex live ix
      → (ix' : Index p H) × (rebuild_index_ins t x ix ≡ ok ix')
        × Rebuilt (live ++ (x, f) ∷ []) ix ix'
  unfolding rebuild_index_ins field_value
  rebuild_index_ins-Rebuilt t x f live ix here is =
      let id = ix.index_field_id in
      let key = f id in
      let old : List ℕ = list_of (H.lookup ix.hash_table key) in
      let read : field_value t x id ≡ ok key = ap (λ o. value_of o id) here in
      (
        record ix { hash_table = H.replace ix.hash_table key (old ++ x ∷ []) },
        rw (read, is.unsorted) refl,
        record {
          is_index = record {
            unsorted = is.unsorted;
            entries = λ k.
                laws.lookup-replace ix.hash_table key (old ++ x ∷ []) k
                ∙ elim (Bool-cases (laws.same key k)) [
                  | inl e ↦
                      rw
                        (
                          e,
                          with_key-append id k live x f,
                          e,
                          ← with_key-same id key k live e,
                          is.entries key,
                        )
                        (append_entry (with_key id key live) x)
                  | inr e ↦ rw (e, with_key-append id k live x f, e) (is.entries k)
                ];
          };
          index_id = refl;
          index_field_id = refl;
        },
      )

  -- an index after its entry for the key of the oldest record was set to the records that are left
  left-IsIndex :
      (x : ℕ) (f : Fields p) (rest : Live p) (ix : Index p H) (hash_table : H.Table)
      → IsIndex ((x, f) ∷ rest) ix
      → ((k : Val p)
          → H.lookup hash_table k ≡ (
              if laws.same (f ix.index_field_id) k
              then as_entry (with_key ix.index_field_id (f ix.index_field_id) rest)
              else H.lookup ix.hash_table k))
      → Rebuilt rest ix (record ix { hash_table = hash_table })
  left-IsIndex x f rest ix hash_table is set =
      let id = ix.index_field_id in
      record {
        is_index = record {
          unsorted = is.unsorted;
          entries = λ k. set k ∙ elim (Bool-cases (laws.same (f id) k)) [
            | inl e ↦ rw (e, with_key-same id (f id) k rest e) refl
            | inr e ↦ let old = is.entries k in rw e (old ∙ rw e refl)
          ];
        };
        index_id = refl;
        index_field_id = refl;
      }

  reindex-Rebuilt :
      (t : Table p H) (x : ℕ) (f : Fields p) (rest : Live p) (ix : Index p H) (xs : List ℕ)
      → with_key ix.index_field_id (f ix.index_field_id) rest ≡ xs
      → AllKeyed t.slots ix.index_field_id (f ix.index_field_id) xs
      → IsIndex ((x, f) ∷ rest) ix
      → (ix' : Index p H) × (reindex t ix (f ix.index_field_id) xs ≡ ok ix') × Rebuilt rest ix ix'
  unfolding reindex field_value
  reindex-Rebuilt t x f rest ix [] e h is = (
    _,
    refl,
    left-IsIndex x f rest ix _ is
        λ k. laws.lookup-remove ix.hash_table (f ix.index_field_id) k ∙ rw e refl,
  )
  reindex-Rebuilt t x f rest ix (y ∷ ys) e h is =
      let id = ix.index_field_id in
      let (g, here, same) = last_of-Keyed t.slots id (f id) y ys h.0 h.1 in
      let read : field_value t (last_of y ys) id ≡ ok (g id) = ap (λ o. value_of o id) here in
      (
        record ix { hash_table = H.replace ix.hash_table (g id) (y ∷ ys) },
        rw read refl,
        left-IsIndex x f rest ix _ is λ k.
            laws.lookup-replace ix.hash_table (g id) (y ∷ ys) k
            ∙ rw (e, laws.same_trans (f id) (g id) k (laws.same_sym (f id) (g id) ∙ same)) refl,
      )

  -- Deleting the oldest record from an index takes it from the records with its key.
  pub rebuild_index_del-Rebuilt :
      (t : Table p H) (x : ℕ) (f : Fields p) (rest : Live p) (ix : Index p H)
      → t.slots x ≡ some f
      → Present t.slots rest
      → IsIndex ((x, f) ∷ rest) ix
      → (ix' : Index p H) × (rebuild_index_del t x ix ≡ ok ix') × Rebuilt rest ix ix'
  unfolding rebuild_index_del field_value erase
  rebuild_index_del-Rebuilt t x f rest ix here present is =
      let id = ix.index_field_id in
      let key = f id in
      let xs : List ℕ = with_key id key rest in
      let read : field_value t x id ≡ ok key = ap (λ o. value_of o id) here in
      let found : H.lookup ix.hash_table key ≡ some (x ∷ xs) =
        is.entries key ∙ rw (laws.same_refl key) refl in
      let first : erase x (x ∷ xs) ≡ xs = ground arith in
      let (ix', run, rebuilt) =
        reindex-Rebuilt t x f rest ix xs refl (with_key-AllKeyed t.slots id key rest present) is in
      (ix', rw (read, found, first) run, rebuilt)
