-- ===== src/Utils/KrList/Insert.antt =====
-- Inserting a node into a list: `kr_list_add_head`, `kr_list_add_tail` and the end of
-- `kr_list_add_sorted` of krutils/kr_list.c.
use krproject.Base.{
  ◌+◌, ◌^◌, ◌<◌, ◌≡◌, refl, sym, ◌∙◌, false, Option, none, some, [], ◌∷◌, ◌++◌, ◌==◌, ◌≢◌, arith,
  length, length-append,
}
use krproject.Utils.Heap.{Ptr, null, Node, node, Heap, Cmd, ◌>>=◌, ◌>>◌, store, Points}
use krproject.Utils.KrList.{KrList, count_up, link_after, link_before}
use krproject.Utils.KrList.Chain.{
  Cells, has, first, last, Distinct, Chain, Distinct-append-l, Distinct-append-r, Distinct-Apart,
  append-Distinct, Chain-append, Chain-front, Chain-back, last-append, first-append, has-append,
}
use krproject.Utils.KrList.Link.{
  Returns, Returns-bind, Returns-mono, IsList, IsCut, link_after-IsCut, link_before-IsCut,
  Points-here, has-ne,
}
use krproject.Utils.KrList.Around.{Around, Apart_sym, IsCut-spare, Points-same}

-- The node at `p`, with the value `v`, came between `xs` and `ys`.
pub record Inserted (h : Heap) (l : KrList) (xs : Cells) (p v : Ptr) (ys : Cells) (l' : KrList)
    (g : Heap) : Type 0 where
  pub list : IsList g l' (xs ++ (p, v) ∷ ys)
  pub calls : l'.calls ≡ l.calls
  pub outside :
      (q : Ptr) → has q xs ≡ false → has q ys ≡ false → (q == p) ≡ false → g.cell q ≡ h.cell q
  pub released : g.released ≡ h.released

-- an address that holds no node is none of a chain
pub unused-has :
    (c : Ptr → Option Node) (b : Ptr) (xs : Cells) (a p : Ptr)
    → c p ≡ none
    → Chain c b xs a
    → has p xs ≡ false
unfolding Chain
unused-has c b [] a p e h = refl
unused-has c b ((q, v) ∷ xs) a p e h = ground (arith, h.0.holds, e, unused-has c q xs a p e h.1)

pub list-IsCut :
    {h : Heap} {l : KrList} (xs ys : Cells)
    → IsList h l (xs ++ ys)
    → IsCut h l xs (first ys null) (last null xs) ys
list-IsCut {h} xs ys is = record {
  front = Chain-front h.cell null xs ys null is.chain;
  back = Chain-back h.cell null xs ys null is.chain;
  head = is.head ∙ first-append xs ys null;
  tail = is.tail ∙ last-append null xs ys;
}

-- What insertions write once the place is known; `kr_list_add_sorted` has it as it stands.
unfoldable pub insert_between : KrList → (fresh prev next value : Ptr) → Cmd KrList
insert_between list fresh prev next value = do
  store fresh (some (node prev next value))
  l ← link_after list prev fresh
  link_before l next fresh

insert-Distinct :
    (xs : Cells) (p v : Ptr) (ys : Cells) → Around xs p ys → Distinct (xs ++ (p, v) ∷ ys)
insert-Distinct xs p v ys a =
    append-Distinct xs ((p, v) ∷ ys) a.before (a.not_after, a.after)
      λ q i. ground (arith, has-ne p q xs a.not_before i, a.apart q i)

module _ {h : Heap} {l : KrList} (xs : Cells) (p v : Ptr) (ys : Cells) (is : IsList h l (xs ++ ys))
    (ne : p ≢ null) (unused : h.cell p ≡ none) (room : length (xs ++ ys) + 1 < 2 ^ 32) where
  not-has : has p (xs ++ ys) ≡ false
  not-has = unused-has h.cell null (xs ++ ys) null p unused is.chain

  fresh-Around : Around xs p ys
  fresh-Around = record {
    before = Distinct-append-l xs ys is.distinct;
    after = Distinct-append-r xs ys is.distinct;
    apart = Distinct-Apart xs ys is.distinct;
    not_before = ground (arith, has-append p xs ys, not-has);
    not_after = ground (arith, has-append p xs ys, not-has);
  }

  finish-Inserted :
      (l₁ : KrList) (h₁ : Heap)
      → IsCut h₁ l₁ xs p p ys
      → Points h₁.cell p (last null xs) (first ys null) v
      → l₁.calls ≡ l.calls
      → l₁.len ≡ l.len
      → ((q : Ptr) → has q xs ≡ false → has q ys ≡ false → (q == p) ≡ false → h₁.cell q ≡ h.cell q)
      → h₁.released ≡ h.released
      → Inserted h l xs p v ys (count_up l₁) h₁
  unfolding Chain
  finish-Inserted l₁ h₁ cut point calls len outside released =
      let m = length-append xs ys in
      let m' = length-append xs ((p, v) ∷ ys) in
      let e = is.len in
      record {
        list = record {
          chain = Chain-append h₁.cell null xs ((p, v) ∷ ys) null cut.front (point, cut.back);
          distinct = insert-Distinct xs p v ys fresh-Around;
          head = cut.head ∙ sym (first-append xs ((p, v) ∷ ys) null);
          tail = cut.tail ∙ sym (last-append null xs ((p, v) ∷ ys));
          len = omega (arith, m, m', e, len, room);
          fits = omega (arith, m, m', room);
        };
        calls = calls;
        outside = outside;
        released = released;
      }

  pub insert_between-Inserted :
      Returns
        (λ l' g. Inserted h l xs p v ys (count_up l') g)
        (insert_between l p (last null xs) (first ys null) v h)
  unfolding insert_between
  insert_between-Inserted =
      let a = fresh-Around in
      let cut₀ =
        IsCut-spare xs ys _ _ p (some (node (last null xs) (first ys null) v)) h.released
          a.not_before a.not_after (list-IsCut xs ys is) in
      Returns-bind (link_after-IsCut xs ys _ _ p a.before a.apart cut₀) λ l₁ h₁ (cut₁, linked₁).
        Returns-mono (link_before-IsCut xs ys p _ p a.after (Apart_sym xs ys a.apart) cut₁)
          λ l₂ h₂ (cut₂, linked₂).
            finish-Inserted l₂ h₂ cut₂
              (Points-same
                (linked₂.outside.same p a.not_after ∙ linked₁.outside.same p a.not_before)
                (Points-here h.cell ne))
              (linked₂.calls ∙ linked₁.calls) (linked₂.len ∙ linked₁.len)
              (λ q o o' far.
                linked₂.outside.same q o' ∙ linked₁.outside.same q o ∙ ground (arith, far))
              (linked₂.outside.released ∙ linked₁.outside.released)
