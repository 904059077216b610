-- ===== src/Utils/KrList/Find.antt =====
-- Looking through a list of krutils/kr_list.c: `kr_list_search`, `kr_list_foreach`,
-- `kr_list_locate` and the removals by key.
use krproject.Base.{
  ℕ, zero, suc, ◌+◌, ◌<◌, ◌≡◌, refl, sym, ap, ◌∙◌, Bool, true, false, not, Option, none, some, [],
  ◌∷◌, ◌++◌, ◌==◌, ◌≢◌, arith, length, length-append, all, Run, ok, fault, freed_read,
  if◌then◌else◌, Bool-cases, inl, inr,
}
use mathlib.Core.Path.{subst}
use krproject.Utils.Heap.{Ptr, null, Node, Heap, Cmd, and_then, ◌>>=◌, load, load-ok, not_null}
use krproject.Utils.KrList.{
  KrList, matches, search_loop, list_search, remove_loop, list_remove, remove_all_loop,
  list_remove_all, list_delete, foreach_loop, list_foreach,
}
use krproject.Utils.KrList.Chain.{Cells, first, Chain}
use krproject.Utils.KrList.Link.{Returns, returns, Returns-mono, IsList}
use krproject.Utils.KrList.Delete.{Deleted, list_delete-Deleted}

-- the address of the first node whose value passes the test
abbrev pub find : (Ptr → Bool) → Cells → Ptr
find f [] = null
find f ((p, v) ∷ xs) = if f v then p else find f xs

-- the values of the nodes handed to a function, one after the other
abbrev pub feed : {U : Type 0} → Option (Ptr → U → U) → Cells → U → U
feed func [] u = u
feed func ((p, v) ∷ xs) u = feed func xs (elim func [ none ↦ u | some f ↦ f v u ])

-- no value of the nodes passes the test
abbrev pub NonePasses : (Ptr → Bool) → Cells → Type 0
NonePasses f xs = all (λ (x : Ptr × Ptr). not (f x.1)) xs ≡ true

read_freed :
    {A B : Type 0} (p : Ptr)
    → p ≢ null
    → (r : Run (A × Heap)) (k : A → Node → Cmd B) → Returns (λ a g. g.cell p ≡ none) r
    → and_then r (λ a. load p >>= k a) ≡ fault freed_read
unfolding load
read_freed p ne r k (returns {heap = h} gone) =
    let e : (p == null) ≡ false = ground (arith, ne) in rw (e, gone) refl

module _ (h : Heap) (l : KrList) (key : Ptr) where
  search_loop-find :
      (fuel : ℕ) (b : Ptr) (xs : Cells)
      → Chain h.cell b xs null
      → length xs < fuel
      → search_loop l key fuel (first xs null) h ≡ ok (find (matches l key) xs, h)
  unfolding search_loop Chain
  search_loop-find zero b xs c m = absurd (omega (arith, m))
  search_loop-find (suc fuel) b [] c m = refl
  search_loop-find (suc fuel) b ((p, v) ∷ xs) c m =
      rw (not_null c.0, load-ok h c.0)
        (elim (Bool-cases (matches l key v)) [
          | inl e ↦ rw e refl
          | inr e ↦ rw e (search_loop-find fuel p xs c.1 (omega (arith, m)))
        ])

  remove_loop-found :
      (fuel : ℕ) (b : Ptr) (xs : Cells) (p v : Ptr) (ys : Cells)
      → Chain h.cell b (xs ++ (p, v) ∷ ys) null
      → length xs < fuel
      → NonePasses (matches l key) xs
      → matches l key v ≡ true
      → remove_loop l key fuel (first (xs ++ (p, v) ∷ ys) null) h ≡ list_delete l p h
  unfolding remove_loop Chain
  remove_loop-found zero b xs p v ys c m none_before hit = absurd (omega (arith, m))
  remove_loop-found (suc fuel) b [] p v ys c m none_before hit =
      rw (not_null c.0, load-ok h c.0, hit) refl
  remove_loop-found (suc fuel) b ((q, w) ∷ xs) p v ys c m none_before hit =
      let miss : matches l key w ≡ false = ground (arith, none_before) in
      rw (not_null c.0, load-ok h c.0, miss)
        (remove_loop-found fuel q xs p v ys c.1 (omega (arith, m)) (ground (arith, none_before))
          hit)

  remove_loop-absent :
      (fuel : ℕ) (b : Ptr) (xs : Cells)
      → Chain h.cell b xs null
      → length xs < fuel
      → NonePasses (matches l key) xs
      → remove_loop l key fuel (first xs null) h ≡ ok (l, h)
  unfolding remove_loop Chain
  remove_loop-absent zero b xs c m e = absurd (omega (arith, m))
  remove_loop-absent (suc fuel) b [] c m e = refl
  remove_loop-absent (suc fuel) b ((q, w) ∷ xs) c m e =
      let miss : matches l key w ≡ false = ground (arith, e) in
      rw (not_null c.0, load-ok h c.0, miss)
        (remove_loop-absent fuel q xs c.1 (omega (arith, m)) (ground (arith, e)))

  -- the run after the deletion of the first node that matches reads that node
  remove_all_loop-found :
      (fuel : ℕ) (b : Ptr) (xs : Cells) (p v : Ptr) (ys : Cells)
      → Chain h.cell b (xs ++ (p, v) ∷ ys) null
      → length xs < fuel
      → NonePasses (matches l key) xs
      → matches l key v ≡ true
      → Returns (λ l' g. g.cell p ≡ none) (list_delete l p h)
      → remove_all_loop l key fuel (first (xs ++ (p, v) ∷ ys) null) h ≡ fault freed_read
  unfolding remove_all_loop Chain
  remove_all_loop-found zero b xs p v ys c m none_before hit gone = absurd (omega (arith, m))
  remove_all_loop-found (suc fuel) b [] p v ys c m none_before hit gone =
      rw (not_null c.0, load-ok h c.0, hit) (read_freed p c.0.ne_null _ _ gone)
  remove_all_loop-found (suc fuel) b ((q, w) ∷ xs) p v ys c m none_before hit gone =
      let miss : matches l key w ≡ false = ground (arith, none_before) in
      rw (not_null c.0, load-ok h c.0, miss, load-ok h c.0)
        (remove_all_loop-found fuel q xs p v ys c.1 (omega (arith, m)) (ground (arith, none_before))
          hit gone)

  foreach_loop-feed :
      {U : Type 0} (func : Option (Ptr → U → U)) (fuel : ℕ) (b : Ptr) (xs : Cells) (u : U)
      → Chain h.cell b xs null
      → length xs < fuel
      → foreach_loop func fuel (first xs null) u h ≡ ok (feed func xs u, h)
  unfolding foreach_loop Chain
  foreach_loop-feed func zero b xs u c m = absurd (omega (arith, m))
  foreach_loop-feed func (suc fuel) b [] u c m = refl
  foreach_loop-feed func (suc fuel) b ((p, v) ∷ xs) u c m =
      rw (not_null c.0, load-ok h c.0) (foreach_loop-feed func fuel p xs _ c.1 (omega (arith, m)))

module _ {h : Heap} {l : KrList} (key : Ptr) (xs : Cells) (is : IsList h l xs) where
  -- Searching a well-formed list gives the first node that matches, or `NULL`; nothing changes.
  list_search-find : list_search l key h ≡ ok (find (matches l key) xs, h)
  unfolding list_search
  list_search-find =
      let e = is.len in
      subst (λ q. search_loop l key (l.len + 1) q h ≡ ok (find (matches l key) xs, h)) (sym is.head)
        (search_loop-find h l key (l.len + 1) null xs is.chain (omega (arith, e)))

  pub list_remove-absent : NonePasses (matches l key) xs → list_remove l key h ≡ ok (l, h)
  unfolding list_remove
  list_remove-absent miss =
      let e = is.len in
      subst (λ q. remove_loop l key (l.len + 1) q h ≡ ok (l, h)) (sym is.head)
        (remove_loop-absent h l key (l.len + 1) null xs is.chain (omega (arith, e)) miss)

  -- Traversing a well-formed list hands the values to the function from the first to the last.
  list_foreach-feed :
      {U : Type 0} (func : Option (Ptr → U → U)) (u : U)
      → list_foreach l func u h ≡ ok (feed func xs u, h)
  unfolding list_foreach
  list_foreach-feed func u =
      let e = is.len in
      subst (λ q. foreach_loop func (l.len + 1) q u h ≡ ok (feed func xs u, h)) (sym is.head)
        (foreach_loop-feed h l key func (l.len + 1) null xs u is.chain (omega (arith, e)))

module _ {h : Heap} {l : KrList} (key : Ptr) (xs : Cells) (p v : Ptr) (ys : Cells)
    (is : IsList h l (xs ++ (p, v) ∷ ys)) (miss : NonePasses (matches l key) xs)
    (hit : matches l key v ≡ true) where
  enough : length xs < l.len + 1
  enough = let e = is.len in let m = length-append xs ((p, v) ∷ ys) in omega (arith, e, m)

  -- Removing by a key deletes the first node that matches, and no other.
  list_remove-Deleted : Returns (Deleted h l xs p v ys) (list_remove l key h)
  unfolding list_remove
  list_remove-Deleted =
      subst (Returns (Deleted h l xs p v ys))
        (sym (
          ap (λ q. remove_loop l key (l.len + 1) q h) is.head
          ∙ remove_loop-found h l key (l.len + 1) null xs p v ys is.chain enough miss hit))
        (list_delete-Deleted h l xs p v ys is)

  -- Removing all nodes with a key from a well-formed list that has such a node deletes the first
  -- one and reads its successor from the memory that was freed.
  pub list_remove_all-freed : list_remove_all l key h ≡ fault freed_read
  unfolding list_remove_all
  list_remove_all-freed =
      ap (λ q. remove_all_loop l key (l.len + 1) q h) is.head
      ∙ remove_all_loop-found h l key (l.len + 1) null xs p v ys is.chain enough miss hit
          (Returns-mono (list_delete-Deleted h l xs p v ys is) λ l' g d. d.freed)
