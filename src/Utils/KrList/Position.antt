-- ===== src/Utils/KrList/Position.antt =====
-- `kr_list_locate` of krutils/kr_list.c.
use krproject.Base.{ℕ, zero, suc, ◌+◌, ◌≡◌, refl, ap, ◌∙◌, [], ◌∷◌, ◌++◌, arith, length, ok}
use krproject.Base.Int.{pos, negsuc}
use krproject.Utils.Heap.{Ptr, null, Heap, Cmd, Points, load-ok, not_null}
use krproject.Utils.KrList.{KrList, walk, next_of, prev_of, list_locate}
use krproject.Utils.KrList.Chain.{
  Cells, first, last, Chain, Chain-front, Chain-back, first-append, last-append,
}
use krproject.Utils.KrList.Link.{IsList}

walk-null : (step : Ptr → Cmd Ptr) (i : ℕ) (h : Heap) → walk step i null h ≡ ok (null, h)
unfolding walk
walk-null step zero h = refl
walk-null step (suc i) h = refl

walk-next :
    (h : Heap) (i : ℕ) {p b a v : Ptr}
    → Points h.cell p b a v
    → walk next_of (suc i) p h ≡ walk next_of i a h
unfolding walk
walk-next h i e = rw (not_null e, load-ok h e) refl

walk-prev :
    (h : Heap) (i : ℕ) {p b a v : Ptr}
    → Points h.cell p b a v
    → walk prev_of (suc i) p h ≡ walk prev_of i b h
unfolding walk
walk-prev h i e = rw (not_null e, load-ok h e) refl

module _ (h : Heap) where
  walk-forward :
      (n i : ℕ) (b : Ptr) (xs : Cells) (a : Ptr)
      → n ≡ length xs + i
      → Chain h.cell b xs a
      → walk next_of n (first xs a) h ≡ walk next_of i a h
  unfolding Chain
  walk-forward n i b [] a e c = let e' : n ≡ i = omega (arith, e) in ap (λ k. walk next_of k a h) e'
  walk-forward n i b ((p, v) ∷ xs) a e c =
      let e' : n ≡ suc (length xs + i) = omega (arith, e) in
      ap (λ k. walk next_of k p h) e'
      ∙ walk-next h (length xs + i) c.0
      ∙ walk-forward (length xs + i) i p xs a refl c.1

  walk-backward :
      (n i : ℕ) (b : Ptr) (xs : Cells) (a : Ptr)
      → n ≡ length xs + i
      → Chain h.cell b xs a
      → walk prev_of n (last b xs) h ≡ walk prev_of i b h
  unfolding Chain
  walk-backward n i b [] a e c =
      let e' : n ≡ i = omega (arith, e) in ap (λ k. walk prev_of k b h) e'
  walk-backward n i b ((p, v) ∷ xs) a e c =
      walk-backward n (suc i) p xs a (omega (arith, e)) c.1 ∙ walk-prev h i c.0

module _ {h : Heap} {l : KrList} (xs : Cells) where
  -- Counted from the head, an index below the length gives the node that has so many nodes before
  -- it; counted from the tail, -1 - n gives the node that has n nodes after it.
  list_locate-inside :
      (p v : Ptr) (ys : Cells)
      → IsList h l (xs ++ (p, v) ∷ ys)
      → (list_locate l (pos (length xs)) h ≡ ok (p, h))
        × (list_locate l (negsuc (length ys)) h ≡ ok (p, h))
  unfolding list_locate walk Chain
  list_locate-inside p v ys is =
      let front = Chain-front h.cell null xs ((p, v) ∷ ys) null is.chain in
      let back = Chain-back h.cell null xs ((p, v) ∷ ys) null is.chain in
      (
        ap (λ q. walk next_of (length xs) q h) (is.head ∙ first-append xs ((p, v) ∷ ys) null)
            ∙ walk-forward h (length xs) 0 null xs p (omega arith) front,
        ap (λ q. walk prev_of (length ys) q h) (is.tail ∙ last-append null xs ((p, v) ∷ ys))
            ∙ walk-backward h (length ys) 0 p ys null (omega arith) back.1,
      )

  -- An index out of range gives `NULL`.
  pub list_locate-outside :
      (i : ℕ)
      → IsList h l xs
      → (list_locate l (pos (length xs + i)) h ≡ ok (null, h))
        × (list_locate l (negsuc (length xs + i)) h ≡ ok (null, h))
  unfolding list_locate
  list_locate-outside i is = (
    ap (λ q. walk next_of (length xs + i) q h) is.head
        ∙ walk-forward h (length xs + i) i null xs null refl is.chain
        ∙ walk-null next_of i h,
    ap (λ q. walk prev_of (length xs + i) q h) is.tail
        ∙ walk-backward h (length xs + i) i null xs null refl is.chain
        ∙ walk-null prev_of i h,
  )
