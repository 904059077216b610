-- ===== src/Utils/KrList/Sorted.antt =====
-- `kr_list_add_sorted` of krutils/kr_list.c: where the value goes, and that the order is kept.
use krproject.Base.{
  ℕ, zero, suc, ◌+◌, ◌^◌, ◌<◌, ◌≡◌, refl, sym, ap, ◌∙◌, true, false, not, Option, none, some, [],
  ◌∷◌, ◌++◌, ◌≢◌, ◌⊎◌, arith, length, length-append, all, Run, ok, Bool-cases, inl, inr, ∷-eq,
}
use mathlib.Core.Path.{subst}
use mathlib.Core.List.{append-nil}
use krproject.Utils.Heap.{Ptr, null, Heap, Cmd, pure, ◌>>=◌, Points, load, load-ok, not_null}
use krproject.Utils.KrList.{KrList, Callbacks, count_up, goes_after, sorted_loop, list_add_sorted}
use krproject.Utils.KrList.Chain.{Cells, first, last, Chain, Chain-back, last-append}
use krproject.Utils.KrList.Link.{Returns, returns, Returns-bind, Returns-mono, IsList, relink_next}
use krproject.Utils.KrList.Insert.{Inserted, insert_between, insert_between-Inserted}
use krproject.Utils.KrList.Ends.{Gives, ne_null_of, empty_len, full_len, first-Inserted}

snoc-cases :
    (xs : Cells) → (xs ≡ []) ⊎ ((ws : Cells) × (p : Ptr) × (w : Ptr) × (xs ≡ ws ++ (p, w) ∷ []))
snoc-cases [] = inl refl
snoc-cases ((p, v) ∷ xs) = elim (snoc-cases xs) [
  | inl e ↦ inr ([], p, v, ∷-eq refl e)
  | inr (ws, q, w, e) ↦ inr ((p, v) ∷ ws, q, w, ∷-eq refl e)
]

snoc-append : (ws : Cells) (x : Ptr × Ptr) (ys : Cells) → ((ws ++ x ∷ []) ++ ys) ≡ (ws ++ x ∷ ys)
snoc-append [] x ys = refl
snoc-append (w ∷ ws) x ys = ∷-eq refl (snoc-append ws x ys)

-- The value goes after the last one of these, if there is one.
abbrev pub EndsBefore : Callbacks → Ptr → Ptr → Cells → Type 0
EndsBefore k v u [] = Unit
EndsBefore k v u (x ∷ []) = goes_after k v u x.1 ≡ true
EndsBefore k v u (x ∷ y ∷ xs) = EndsBefore k v u (y ∷ xs)

snoc-EndsBefore :
    (k : Callbacks) (v u : Ptr) (ws : Cells) (p w : Ptr)
    → goes_after k v u w ≡ true
    → EndsBefore k v u (ws ++ (p, w) ∷ [])
snoc-EndsBefore k v u [] p w e = e
snoc-EndsBefore k v u (x ∷ []) p w e = e
snoc-EndsBefore k v u (x ∷ y ∷ ws) p w e = snoc-EndsBefore k v u (y ∷ ws) p w e

-- The value goes between `bs` and `cs`: it goes after no value of `cs`, and after the last one of
-- `bs` if there is one.
pub record IsPlace (l : KrList) (v u : Ptr) (xs bs cs : Cells) : Type 0 where
  pub split : xs ≡ bs ++ cs
  pub passed : all (λ (x : Ptr × Ptr). not (goes_after l.calls v u x.1)) cs ≡ true
  pub stopped : EndsBefore l.calls v u bs

-- what the loop of `kr_list_add_sorted` finds
record Found (h : Heap) (l : KrList) (v u : Ptr) (zs : Cells) (r : Run ((Ptr × Ptr) × Heap))
    : Type 0 where
  before : Cells
  after : Cells
  place : IsPlace l v u zs before after
  run : r ≡ ok ((last null before, first after null), h)

module _ (h : Heap) (l : KrList) (v u : Ptr) (zs : Cells) (chain : Chain h.cell null zs null) where
  abbrev Passed : Cells → Type 0
  Passed ys = all (λ (x : Ptr × Ptr). not (goes_after l.calls v u x.1)) ys ≡ true

  -- one round of the loop, at the last node that is left
  round-Found :
      (fuel : ℕ) (ws : Cells) (p w : Ptr) (ys : Cells)
      → zs ≡ ws ++ (p, w) ∷ ys
      → Passed ys
      → (Passed ((p, w) ∷ ys) → Found h l v u zs (sorted_loop l fuel v u (last null ws) p h))
      → Found h l v u zs (sorted_loop l (suc fuel) v u p (first ys null) h)
  unfolding sorted_loop Chain
  round-Found fuel ws p w ys e passed later =
      let point : Points h.cell p (last null ws) (first ys null) w =
        (Chain-back h.cell null ws ((p, w) ∷ ys) null
          (subst (λ q. Chain h.cell null q null) e chain)).0 in
      rw (not_null point, load-ok h point)
        (elim (Bool-cases (goes_after l.calls v u w)) [
          | inl stop ↦ rw stop record {
            before = ws ++ (p, w) ∷ [];
            after = ys;
            place = record {
              split = e ∙ sym (snoc-append ws (p, w) ys);
              passed = passed;
              stopped = snoc-EndsBefore l.calls v u ws p w stop;
            };
            run = ap (λ q. ok ((q, first ys null), h)) (sym (last-append null ws ((p, w) ∷ [])));
          }
          | inr go ↦ rw go (later (rw (go, passed) refl))
        ])

  sorted_loop-Found :
      (fuel : ℕ) (xs ys : Cells)
      → zs ≡ xs ++ ys
      → length xs < fuel
      → Passed ys
      → Found h l v u zs (sorted_loop l fuel v u (last null xs) (first ys null) h)
  unfolding sorted_loop
  sorted_loop-Found zero xs ys e m passed = absurd (omega (arith, m))
  sorted_loop-Found (suc fuel) xs ys e m passed = elim (snoc-cases xs) [
    | inl none_left ↦ rw none_left record {
      before = [];
      after = ys;
      place = record { split = e ∙ ap (λ q. q ++ ys) none_left; passed = passed; stopped = tt };
      run = refl;
    }
    | inr (ws, p, w, e') ↦
        let at : last null xs ≡ p = ap (last null) e' ∙ last-append null ws ((p, w) ∷ []) in
        let split = e ∙ ap (λ q. q ++ ys) e' ∙ snoc-append ws (p, w) ys in
        let n = length-append ws ((p, w) ∷ []) in
        let n' : length xs ≡ length (ws ++ (p, w) ∷ []) = ap length e' in
        subst (λ q. Found h l v u zs (sorted_loop l (suc fuel) v u q (first ys null) h)) (sym at)
          (round-Found fuel ws p w ys split passed
            (sorted_loop-Found fuel ws ((p, w) ∷ ys) split (omega (arith, m, n, n'))))
  ]

-- the branch of `kr_list_add_sorted` for a list that has nodes
abbrev add_among : KrList → (p v u t : Ptr) → Cmd KrList
add_among l p v u t = do
  n ← load t
  (curr, next) ← sorted_loop l (l.len + 1) v u t n.next
  insert_between l p curr next v

module _ {h : Heap} {l : KrList} (p v u : Ptr) (ne : p ≢ null) (unused : h.cell p ≡ none) where
  among-Inserted :
      (x : Ptr × Ptr) (xs bs cs : Cells)
      → IsList h l (x ∷ xs)
      → length (x ∷ xs) + 1 < 2 ^ 32
      → (x ∷ xs) ≡ bs ++ cs
      → sorted_loop l (l.len + 1) v u (last null (x ∷ xs)) null h
        ≡ ok ((last null bs, first cs null), h)
      → Returns (λ l' g. Inserted h l bs p v cs (count_up l') g) (add_among l p v u l.tail h)
  among-Inserted x xs bs cs is room split run =
      let (q, w, point, chain) = relink_next h.cell null null x xs null is.distinct is.chain in
      subst (λ t. Returns (λ l' g. Inserted h l bs p v cs (count_up l') g) (add_among l p v u t h))
        (sym is.tail)
        (rw (load-ok h point, run)
          (insert_between-Inserted bs p v cs (subst (IsList h l) split is) ne unused
            (subst (λ q. length q + 1 < 2 ^ 32) split room)))

  -- Adding a value to a well-formed list puts it, in an unused node, where the order wants it: it
  -- goes after no value behind it, and after the value before it.
  pub list_add_sorted-Inserted :
      (xs : Cells)
      → IsList h l xs
      → length xs + 1 < 2 ^ 32
      → (bs : Cells) × (cs : Cells) × IsPlace l v u xs bs cs
        × Returns (Gives (Inserted h l bs p v cs)) (list_add_sorted p l v u h)
  unfolding list_add_sorted insert_between
  list_add_sorted-Inserted [] is room = (
    [],
    [],
    record { split = refl; passed = refl; stopped = tt },
    rw (ne_null_of p ne, empty_len is)
        (Returns-bind {later = λ l'. pure (some (count_up l'))}
          (first-Inserted p v ne unused is room) λ l' g i. returns i),
  )
  list_add_sorted-Inserted (x ∷ xs) is room =
      let e = is.len in
      let found =
        sorted_loop-Found h l v u (x ∷ xs) is.chain (l.len + 1) (x ∷ xs) []
          (sym (append-nil (x ∷ xs))) (omega (arith, e)) refl in
      let done = among-Inserted x xs found.before found.after is room found.place.split found.run in
      (
        found.before,
        found.after,
        found.place,
        rw (ne_null_of p ne, full_len x xs is)
            (Returns-bind {later = λ l'. pure (some (count_up l'))} done λ l' g i. returns i),
      )

-- Each value goes after the one before it.
abbrev pub InOrder : Callbacks → Ptr → Cells → Type 0
InOrder k u [] = Unit
InOrder k u (x ∷ []) = Unit
InOrder k u (x ∷ y ∷ xs) = (goes_after k y.1 u x.1 ≡ true) × InOrder k u (y ∷ xs)

-- Of two values, one goes after the other.
abbrev pub IsTotal : Callbacks → Ptr → Type 0
IsTotal k u = (v w : Ptr) → goes_after k v u w ≡ false → goes_after k w u v ≡ true

insert-InOrder :
    (k : Callbacks) (p v u : Ptr) (bs cs : Cells)
    → IsTotal k u
    → EndsBefore k v u bs
    → all (λ (x : Ptr × Ptr). not (goes_after k v u x.1)) cs ≡ true
    → InOrder k u (bs ++ cs)
    → InOrder k u (bs ++ (p, v) ∷ cs)
insert-InOrder k p v u [] [] total stop passed ord = tt
insert-InOrder k p v u [] (c ∷ cs) total stop passed ord =
    (total v c.1 (ground (arith, passed)), ord)
insert-InOrder k p v u (b ∷ []) [] total stop passed ord = (stop, tt)
insert-InOrder k p v u (b ∷ []) (c ∷ cs) total stop passed ord =
    (stop, insert-InOrder k p v u [] (c ∷ cs) total tt passed ord.1)
insert-InOrder k p v u (b ∷ b' ∷ bs) cs total stop passed ord =
    (ord.0, insert-InOrder k p v u (b' ∷ bs) cs total stop passed ord.1)

-- The list is well formed and in order, and one node longer, for the value.
pub record Ordered (h : Heap) (l : KrList) (u : Ptr) (xs : Cells) (p v : Ptr) (l' : KrList)
    (g : Heap) : Type 0 where
  pub before : Cells
  pub after : Cells
  pub split : xs ≡ before ++ after
  pub inserted : Inserted h l before p v after l' g
  pub order : InOrder l'.calls u (before ++ (p, v) ∷ after)

module _ {h : Heap} {l : KrList} (p v u : Ptr) (xs : Cells) where
  -- Adding a value to a well-formed list that is in order, by a comparison that relates any two
  -- values, gives a well-formed list that is in order: the old one with the value, in an unused
  -- node, put in at some place.
  pub list_add_sorted-Ordered :
      p ≢ null
      → h.cell p ≡ none
      → IsList h l xs
      → length xs + 1 < 2 ^ 32
      → IsTotal l.calls u
      → InOrder l.calls u xs
      → Returns (Gives (Ordered h l u xs p v)) (list_add_sorted p l v u h)
  list_add_sorted-Ordered ne unused is room total ord =
      let (bs, cs, place, run) = list_add_sorted-Inserted p v u ne unused xs is room in
      Returns-mono run λ o g gives. give o g bs cs place gives
    where
      give :
          (o : Option KrList) (g : Heap) (bs cs : Cells)
          → IsPlace l v u xs bs cs
          → Gives (Inserted h l bs p v cs) o g
          → Gives (Ordered h l u xs p v) o g
      give none g bs cs place i = i
      give (some l') g bs cs place i = record {
        before = bs;
        after = cs;
        split = place.split;
        inserted = i;
        order =
            subst (λ k. InOrder k u (bs ++ (p, v) ∷ cs)) (sym i.calls)
              (insert-InOrder l.calls p v u bs cs total place.stopped place.passed
                (subst (InOrder l.calls u) place.split ord));
      }
