-- ===== src/Utils/KrList/Ends.antt =====
-- `kr_list_add_head` and `kr_list_add_tail` of krutils/kr_list.c.
use krproject.Base.{
  ◌+◌, ◌^◌, ◌<◌, ◌≡◌, refl, sym, ap, ◌∙◌, true, false, Option, none, some, [], ◌∷◌, ◌==◌, ◌≢◌,
  arith, length, length-append, Run, ok, fault,
}
use mathlib.Core.Path.{subst}
use mathlib.Core.List.{append-nil}
use krproject.Utils.Heap.{
  ◌>>=◌, ◌>>◌, Ptr, null, node, Heap, Cmd, pure, and_then, ◌>>=◌, store, not_null, set_prev,
  set_next,
}
use krproject.Utils.KrList.{
  KrList, count_up, link_after, link_before, add_first, list_add_head, list_add_tail,
}
use krproject.Utils.KrList.Chain.{Cells, Chain}
use krproject.Utils.KrList.Link.{Returns, returns, Returns-bind, IsList, relink_next}
use krproject.Utils.KrList.Insert.{Inserted, insert_between, insert_between-Inserted}

-- The function returned a list, and it is so.
abbrev pub Gives : (KrList → Heap → Type 0) → Option KrList → Heap → Type 0
Gives P none g = ⊥
Gives P (some l) g = P l g

pub ne_null_of : (p : Ptr) → p ≢ null → (p == null) ≡ false
ne_null_of p ne = ground arith

module _ {h : Heap} {l : KrList} where
  pub empty_len : IsList h l [] → (l.len == 0) ≡ true
  empty_len is = let e = is.len in ground (arith, e)

  pub full_len : (x : Ptr × Ptr) (xs : Cells) → IsList h l (x ∷ xs) → (l.len == 0) ≡ false
  full_len x xs is = let e = is.len in ground (arith, e)

  head_not_null : (x : Ptr × Ptr) (xs : Cells) → IsList h l (x ∷ xs) → (l.head == null) ≡ false
  unfolding Chain
  head_not_null (p, v) xs is = let e = is.head in let n = is.chain.0.ne_null in ground (arith, e, n)

  tail_not_null : (x : Ptr × Ptr) (xs : Cells) → IsList h l (x ∷ xs) → (l.tail == null) ≡ false
  tail_not_null x xs is =
      let (q, v, point, chain) = relink_next h.cell null null x xs null is.distinct is.chain in
      let e = is.tail in rw e (not_null point)

between_head :
    (l : KrList) (p q v : Ptr) (h : Heap)
    → (q == null) ≡ false
    → insert_between l p null q v h
      ≡ (do store p (some (node null q v)); set_prev q p; pure (record l { head = p })) h
unfolding insert_between link_after link_before
between_head l p q v h e = rw e refl

then_assoc :
    {A B C : Type 0} (r : Run (A × Heap)) (k : A → Cmd B) (j : B → Cmd C)
    → and_then (and_then r k) j ≡ and_then r (λ a. k a >>= j)
then_assoc (ok (a, h)) k j = refl
then_assoc (fault e) k j = refl

between_tail :
    (l : KrList) (p q v : Ptr) (h : Heap)
    → (q == null) ≡ false
    → insert_between l p q null v h
      ≡ (do store p (some (node q null v)); set_next q p; pure (record l { tail = p })) h
unfolding insert_between link_after link_before
between_tail l p q v h e = rw e (then_assoc (set_next q p _) _ _)

module _ {h : Heap} {l : KrList} (p v : Ptr) (ne : p ≢ null) (unused : h.cell p ≡ none) where
  pub first-Inserted :
      IsList h l []
      → 1 < 2 ^ 32
      → Returns (λ l' g. Inserted h l [] p v [] (count_up l') g) (add_first l p v h)
  unfolding add_first insert_between link_after link_before
  first-Inserted is room = insert_between-Inserted [] p v [] is ne unused room

  head-Inserted :
      (x : Ptr × Ptr) (xs : Cells)
      → IsList h l (x ∷ xs)
      → length (x ∷ xs) + 1 < 2 ^ 32
      → Returns
          (λ l' g. Inserted h l [] p v (x ∷ xs) (count_up l') g)
          ((do store p (some (node null l.head v)); set_prev l.head p; pure (record l { head = p }))
            h)
  head-Inserted x xs is room =
      subst (Returns _)
        (ap (λ q. insert_between l p null q v h) (sym is.head)
          ∙ between_head l p l.head v h (head_not_null x xs is))
        (insert_between-Inserted [] p v (x ∷ xs) is ne unused room)

  tail-Inserted :
      (x : Ptr × Ptr) (xs : Cells)
      → IsList h l (x ∷ xs)
      → length (x ∷ xs) + 1 < 2 ^ 32
      → Returns
          (λ l' g. Inserted h l (x ∷ xs) p v [] (count_up l') g)
          ((do store p (some (node l.tail null v)); set_next l.tail p; pure (record l { tail = p }))
            h)
  tail-Inserted x xs is room =
      subst (Returns _)
        (ap (λ q. insert_between l p q null v h) (sym is.tail)
          ∙ between_tail l p l.tail v h (tail_not_null x xs is))
        (insert_between-Inserted (x ∷ xs) p v [] (rw (append-nil (x ∷ xs)) is) ne unused
          (let m = length-append (x ∷ xs) [] in omega (arith, m, room)))

  list_add_head-Inserted :
      (xs : Cells)
      → IsList h l xs
      → length xs + 1 < 2 ^ 32
      → Returns (Gives (Inserted h l [] p v xs)) (list_add_head p l v h)
  unfolding list_add_head
  list_add_head-Inserted [] is room =
      rw (ne_null_of p ne, empty_len is)
        (Returns-bind {later = λ l'. pure (some (count_up l'))} (first-Inserted is room)
          λ l' g i. returns i)
  list_add_head-Inserted (x ∷ xs) is room =
      rw (ne_null_of p ne, full_len x xs is)
        (Returns-bind {later = λ l'. pure (some (count_up l'))} (head-Inserted x xs is room)
          λ l' g i. returns i)

  pub list_add_tail-Inserted :
      (xs : Cells)
      → IsList h l xs
      → length xs + 1 < 2 ^ 32
      → Returns (Gives (Inserted h l xs p v [])) (list_add_tail p l v h)
  unfolding list_add_tail
  list_add_tail-Inserted [] is room =
      rw (ne_null_of p ne, empty_len is)
        (Returns-bind {later = λ l'. pure (some (count_up l'))} (first-Inserted is room)
          λ l' g i. returns i)
  list_add_tail-Inserted (x ∷ xs) is room =
      rw (ne_null_of p ne, full_len x xs is)
        (Returns-bind {later = λ l'. pure (some (count_up l'))} (tail-Inserted x xs is room)
          λ l' g i. returns i)

  -- Adding a value to the head of a well-formed list puts it before the others, and adding it to the
  -- tail puts it after them, in an unused node, where the length stays below 2^32.
  pub list_add-Inserted :
      (xs : Cells)
      → IsList h l xs
      → length xs + 1 < 2 ^ 32
      → Returns (Gives (Inserted h l [] p v xs)) (list_add_head p l v h)
        × Returns (Gives (Inserted h l xs p v [])) (list_add_tail p l v h)
  list_add-Inserted xs is room =
      (list_add_head-Inserted xs is room, list_add_tail-Inserted xs is room)
