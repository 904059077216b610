-- ===== src/Db/Load.antt =====
-- Tables from their creation on: what `kr_db_select` of krdb/kr_db.c finds after insertions.
use krproject.Base.{
  ℕ, ◌-◌, ◌^◌, ◌<◌, ◌≡◌, refl, sym, ap, ◌∙◌, Bool, true, Option, none, some, List, [], ◌∷◌, ◌++◌,
  if◌then◌else◌, Bool-cases, arith, inl, inr, map, Run, ok, ◌>>=◌,
}
use mathlib.Core.Path.{subst}
use mathlib.Core.List.{append-nil}
use krproject.Base.Int.{ℤ, pos, ltb_ℤ, eqb_ℤ}
use krproject.Platform.{Platform, KrType, Val}
use krproject.Db.{
  HashTable, Index, Fields, Table, table_insert, get_table_index, select_from, table_select,
  create_table, create_index, assign_field_value,
}
use krproject.Db.Indexed.{Live, Laws, with_key, as_entry}
use krproject.Db.Holds.{keys_of, push, AllIndex, Holds}
use krproject.Db.Insert.{fields_of, table_insert-Extended}
use krproject.Db.Latest.{latest, snoc-append, drop_nil, contents, push-latest}

module _ {p : Platform} {H : HashTable p} (laws : Laws H) where
  -- the field of the first index with an identifier
  abbrev pub field_at : List (ℤ × ℤ) → ℤ → Option ℤ
  field_at [] id = none
  field_at ((index_id, field_id) ∷ keys) id =
      if eqb_ℤ index_id id then some field_id else field_at keys id

  select_from-with_key :
      (live : Live p) (ixs : List (Index p H)) (id field_id : ℤ) (key : Val p)
      → AllIndex laws live ixs
      → field_at (keys_of ixs) id ≡ some field_id
      → select_from (get_table_index ixs id) key ≡ as_entry (with_key laws field_id key live)
  unfolding get_table_index
  select_from-with_key live [] id field_id key h e = ground (arith, e)
  select_from-with_key live (ix ∷ ixs) id field_id key h e =
      let here_or : Bool → Option ℤ =
        λ b'. if b' then some ix.index_field_id else field_at (keys_of ixs) id in
      elim (Bool-cases (eqb_ℤ ix.index_id id)) [
        | inl here ↦
            let e' = subst (λ b'. here_or b' ≡ some field_id) here e in
            let found = ap (λ o. elim o [ none ↦ field_id | some z ↦ z ]) e' in
            rw here (h.0.entries key ∙ ap (λ z. as_entry (with_key laws z key live)) found)
        | inr there ↦
            let e' = subst (λ b'. here_or b' ≡ some field_id) there e in
            rw there (select_from-with_key live ixs id field_id key h.1 e')
      ]

  module _ {M : Type 0} (map_func : ℤ → M → Val p) where
    -- messages that arrive one after the other
    abbrev pub load : Table p H → List M → Run (Table p H)
    load t [] = ok t
    load t (msg ∷ msgs) = table_insert map_func t msg >>= λ t'. load t' msgs

    -- What a table holds after the messages whose records are `fs`.
    pub record Loaded (t t' : Table p H) (fs : List (Fields p)) : Type 0 where
      pub live : Live p
      pub holds : Holds laws t' live
      pub newest : contents live ≡ latest t.size_keep_value fs
      pub keys : keys_of t'.indexes ≡ keys_of t.indexes

    load-Loaded :
        (t₀ t : Table p H) (fs : List (Fields p)) (msgs : List M)
        → Loaded t₀ t fs
        → t.size_keep_value ≡ t₀.size_keep_value
        → t.field_cnt ≡ t₀.field_cnt
        → (t' : Table p H) × (load t msgs ≡ ok t')
          × Loaded t₀ t' (fs ++ map (fields_of laws map_func t₀) msgs)
    load-Loaded t₀ t fs [] l k n = (t, refl, subst (Loaded t₀ t) (sym (append-nil fs)) l)
    load-Loaded t₀ t fs (msg ∷ msgs) l k n =
        let loc = l.holds.loc in
        let (t', run, ext) = table_insert-Extended laws map_func t l.live msg l.holds in
        let f = fields_of laws map_func t₀ msg in
        let same : fields_of laws map_func t msg ≡ f =
          ap (λ c'. assign_field_value map_func c' msg) n in
        let newest =
          push-latest t.size_keep_value l.live fs t.record_loc (fields_of laws map_func t msg)
            (omega (arith, loc)) (l.newest ∙ ap (λ c'. latest c' fs) (sym k)) in
        let (t'', runs, loaded) =
          load-Loaded t₀ t' (fs ++ f ∷ []) msgs
            (record {
              live = push t.size_keep_value l.live t.record_loc (fields_of laws map_func t msg);
              holds = ext.holds;
              newest =
                  newest
                  ∙ ap (λ c'. latest c' (fs ++ fields_of laws map_func t msg ∷ [])) k
                  ∙ ap (λ g. latest t₀.size_keep_value (fs ++ g ∷ [])) same;
              keys = ext.keys ∙ l.keys;
            })
            (ext.size_keep_value ∙ k) (ext.field_cnt ∙ n) in
        (
          t'',
          rw run runs,
          subst (Loaded t₀ t'') (snoc-append fs f (map (fields_of laws map_func t₀) msgs)) loaded,
        )

    -- After any messages, inserted one after the other into an empty table, which all succeed, the
    -- table holds the records of the last ones, as many as it keeps, and a selection by an index
    -- gives the slots of those with the key, in the order of their arrival, or `NULL` if there is
    -- none.
    pub load-select :
        (t : Table p H) (msgs : List M) (id field_id : ℤ) (key : Val p)
        → Holds laws t []
        → field_at (keys_of t.indexes) id ≡ some field_id
        → (t' : Table p H) × (live : Live p) × (load t msgs ≡ ok t')
          × Holds laws t' live
          × (contents live ≡ latest t.size_keep_value (map (fields_of laws map_func t) msgs))
          × (table_select t' id key ≡ as_entry (with_key laws field_id key live))
    unfolding table_select
    load-select t msgs id field_id key empty e =
        let (t', run, loaded) =
          load-Loaded t t [] msgs
            (record {
              live = [];
              holds = empty;
              newest = drop_nil (0 - t.size_keep_value);
              keys = refl;
            })
            refl refl in
        (
          t',
          loaded.live,
          run,
          loaded.holds,
          loaded.newest,
          select_from-with_key loaded.live t'.indexes id field_id key loaded.holds.indexed
              (ap (λ ks. field_at ks id) loaded.keys ∙ e),
        )

  -- A created table is empty, and stays so when an index without a sort field is created.
  pub create_table-Holds :
      (id : ℤ) (types : ℤ → KrType) (field_cnt keep : ℕ)
      → 0 < keep
      → keep < 2 ^ 32
      → Holds laws (create_table id types field_cnt keep) []
  create_table-Holds id types field_cnt keep h m = record {
    ring = tt;
    present = tt;
    absent = λ x o. refl;
    num = refl;
    bound = omega arith;
    loc = h;
    fits = m;
    indexed = tt;
  }

  create_index-AllIndex :
      (index_id field_id sort_id : ℤ) (ixs : List (Index p H))
      → ltb_ℤ sort_id (pos 0) ≡ true
      → AllIndex laws [] ixs
      → AllIndex laws [] (
          ixs
          ++ record {
            index_id = index_id;
            index_field_id = field_id;
            sort_field_id = sort_id;
            hash_table = H.new;
          }
            ∷ [])
  create_index-AllIndex index_id field_id sort_id [] e h =
      (record { unsorted = e; entries = λ k. laws.lookup-new k }, tt)
  create_index-AllIndex index_id field_id sort_id (ix ∷ ixs) e h =
      (h.0, create_index-AllIndex index_id field_id sort_id ixs e h.1)

  pub create_index-Holds :
      (t : Table p H) (index_id field_id sort_id : ℤ)
      → Holds laws t []
      → ltb_ℤ sort_id (pos 0) ≡ true
      → Holds laws (create_index t index_id field_id sort_id) []
  create_index-Holds t index_id field_id sort_id h e = record {
    ring = tt;
    present = tt;
    absent = h.absent;
    num = h.num;
    bound = h.bound;
    loc = h.loc;
    fits = h.fits;
    indexed = create_index-AllIndex index_id field_id sort_id t.indexes e h.indexed;
  }
