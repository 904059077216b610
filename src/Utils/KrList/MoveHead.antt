-- ===== src/Utils/KrList/MoveHead.antt =====
-- `kr_list_move_head` of krutils/kr_list.c.
use krproject.Base.{
  ◌≡◌, refl, sym, ◌∙◌, false, Option, some, [], ◌∷◌, ◌++◌, ◌==◌, ◌≢◌, arith, length-append, ok,
}
use mathlib.Core.Path.{subst}
use krproject.Utils.Heap.{
  ◌>>◌, Ptr, null, Node, node, Heap, pure, update, Points, load-ok, not_null, set_prev, set_next,
  set_prev-ok, set_next-ok,
}
use krproject.Utils.KrList.{KrList, link_after, list_move_head}
use krproject.Utils.KrList.Chain.{
  Cells, has, first, last, Distinct, Chain, has-append, last-append, Chain-spare, Chain-append,
}
use krproject.Utils.KrList.Link.{
  Returns, returns, Returns-bind, IsList, IsCut, link_after-IsCut, link_before-IsCut, relink_next,
  relink_prev, has-ne, Points-here, Points-other,
}
use krproject.Utils.KrList.Around.{
  Around, Distinct-Around, Apart_sym, Around-Distinct, IsList-Points, IsList-IsCut, Points-same,
}

-- The node at `p` came from between `xs` and `ys` to the front.
pub record Moved (h : Heap) (l : KrList) (xs : Cells) (p v : Ptr) (ys : Cells) (l' : KrList)
    (g : Heap) : Type 0 where
  pub list : IsList g l' ((p, v) ∷ xs ++ ys)
  pub calls : l'.calls ≡ l.calls
  pub outside :
      (q : Ptr) → has q xs ≡ false → has q ys ≡ false → (q == p) ≡ false → g.cell q ≡ h.cell q
  pub released : g.released ≡ h.released

Returns-ok : {A : Type 0} {P : A → Heap → Type 0} {a : A} {h : Heap} → Returns P (ok (a, h)) → P a h
Returns-ok (returns p) = p

-- the cells after the node was put to the front of `(q, w) ∷ zs`
abbrev fronted : (Ptr → Option Node) → (p v f q w r : Ptr) → Ptr → Option Node
fronted c p v f q w r =
    update (update (update c p (some (node null f v))) p (some (node null q v))) q
      (some (node p r w))

module _ (c : Ptr → Option Node) (p v f q w : Ptr) (zs : Cells) (ne : p ≢ null)
    (out : has p ((q, w) ∷ zs) ≡ false) (d : Distinct ((q, w) ∷ zs))
    (chain : Chain c null ((q, w) ∷ zs) null) where
  abbrev between : Ptr → Option Node
  between = update (update c p (some (node null f v))) p (some (node null q v))

  between-Chain : Chain between null ((q, w) ∷ zs) null
  between-Chain =
      Chain-spare _ null ((q, w) ∷ zs) null p _ out
        (Chain-spare c null ((q, w) ∷ zs) null p _ out chain)

  fronted-Points : Points between q null (first zs null) w
  fronted-Points = (relink_prev between p null q w zs null d between-Chain).0

  fronted-Chain : Chain (fronted c p v f q w (first zs null)) null ((p, v) ∷ (q, w) ∷ zs) null
  unfolding Chain
  fronted-Chain = (
    Points-other between q _ (has-ne p q ((q, w) ∷ zs) out (ground arith)) (Points-here _ ne),
    (relink_prev between p null q w zs null d between-Chain).1,
  )

module _ (h : Heap) (l : KrList) (p v b f q w : Ptr) (zs : Cells) (point : Points h.cell p b f v)
    (out : has p ((q, w) ∷ zs) ≡ false) (d : Distinct ((q, w) ∷ zs))
    (chain : Chain h.cell null ((q, w) ∷ zs) null) where
  -- the last three assignments
  to_front-run :
      (head : Ptr)
      → head ≡ q
      → (do set_prev p null; set_next p head; set_prev head p; pure (record l { head = p })) h
        ≡ ok (record l { head = p }, record h { cell = fronted h.cell p v f q w (first zs null) })
  to_front-run head e =
      let ne = point.ne_null in
      rw
        (
          e,
          set_prev-ok h point null,
          set_next-ok (record h { cell = update h.cell p (some (node null f v)) })
              (Points-here h.cell ne) q,
          set_prev-ok (record h { cell = between h.cell p v f q w zs ne out d chain })
              (fronted-Points h.cell p v f q w zs ne out d chain) p,
        )
        refl

module _ (h : Heap) (l : KrList) (q w : Ptr) (xs : Cells) (p v : Ptr) (ys : Cells)
    (is : IsList h l (((q, w) ∷ xs) ++ (p, v) ∷ ys)) where
  abbrev apart : Around ((q, w) ∷ xs) p ys
  apart = Distinct-Around ((q, w) ∷ xs) p v ys is.distinct

  off : has p ((q, w) ∷ xs ++ ys) ≡ false
  off = ground (arith, has-append p ((q, w) ∷ xs) ys, apart.not_before, apart.not_after)

  finish-Moved :
      (l₂ : KrList) (h₂ : Heap) (b : Ptr)
      → IsCut h₂ l₂ ((q, w) ∷ xs) (first ys null) (last q xs) ys
      → Points h₂.cell p b (first ys null) v
      → l₂.calls ≡ l.calls
      → l₂.len ≡ l.len
      → ((r : Ptr) → has r ((q, w) ∷ xs) ≡ false → has r ys ≡ false → h₂.cell r ≡ h.cell r)
      → h₂.released ≡ h.released
      → Returns (Moved h l ((q, w) ∷ xs) p v ys) (
          (do
            set_prev p null
            set_next p l₂.head
            set_prev l₂.head p
            pure (record l₂ { head = p }))
            h₂)
  finish-Moved l₂ h₂ b cut point calls len outside released =
      let zs : Cells = xs ++ ys in
      let d : Distinct ((q, w) ∷ zs) = Around-Distinct ((q, w) ∷ xs) p ys apart in
      let chain : Chain h₂.cell null ((q, w) ∷ zs) null =
        Chain-append h₂.cell null ((q, w) ∷ xs) ys null cut.front cut.back in
      let m = length-append xs ys in
      let m' = length-append xs ((p, v) ∷ ys) in
      let n = is.len in
      let fits = is.fits in
      rw (to_front-run h₂ l₂ p v b (first ys null) q w zs point off d chain l₂.head cut.head) (
        returns record {
          list = record {
            chain = fronted-Chain h₂.cell p v (first ys null) q w zs point.ne_null off d chain;
            distinct = (off, d);
            head = refl;
            tail = cut.tail ∙ sym (last-append q xs ys);
            len = omega (arith, m, m', n, len);
            fits = omega (arith, m, m', fits);
          };
          calls = calls;
          outside = λ r o o' ne. ground (arith, outside r o o', o, ne);
          released = released;
        })

  move-Moved : Returns (Moved h l ((q, w) ∷ xs) p v ys) (list_move_head l p h)
  unfolding list_move_head link_after
  move-Moved =
      let a = apart in
      let cut = IsList-IsCut ((q, w) ∷ xs) p v ys is in
      let point = IsList-Points ((q, w) ∷ xs) p v ys is in
      let (r, u, before, relinked) =
        relink_next h.cell (first ys null) null (q, w) xs p a.before cut.front in
      let h₁ : Heap = record h {
        cell = update h.cell (last q xs) (some (node r (first ys null) u));
      } in
      let run : link_after l (last q xs) (first ys null) h ≡ ok (l, h₁) =
        rw (not_null before, set_next-ok h before (first ys null)) refl in
      let (cut₁, linked₁) = Returns-ok (
        subst (Returns _) run
          (link_after-IsCut ((q, w) ∷ xs) ys p p (first ys null) a.before a.apart cut)) in
      rw (load-ok h point, not_null before, set_next-ok h before (first ys null))
        (Returns-bind
          (link_before-IsCut ((q, w) ∷ xs) ys (first ys null) p (last q xs) a.after
            (Apart_sym ((q, w) ∷ xs) ys a.apart) cut₁)
          λ l₂ h₂ (cut₂, linked₂).
            finish-Moved l₂ h₂ (last q xs) cut₂
              (Points-same
                (linked₂.outside.same p a.not_after ∙ linked₁.outside.same p a.not_before) point)
              linked₂.calls linked₂.len
              (λ s o o'. linked₂.outside.same s o' ∙ linked₁.outside.same s o)
              (linked₂.outside.released ∙ linked₁.outside.released))

-- Moving a node of a well-formed list to the head puts it before the others, which stay in order;
-- no other memory changes.
pub list_move_head-Moved :
    {h : Heap} {l : KrList} (xs : Cells) (p v : Ptr) (ys : Cells)
    → IsList h l (xs ++ (p, v) ∷ ys)
    → Returns (Moved h l xs p v ys) (list_move_head l p h)
unfolding list_move_head
list_move_head-Moved {h} {l} [] p v ys is =
    rw (load-ok h (IsList-Points [] p v ys is))
      (returns record { list = is; calls = refl; outside = λ q o o' ne. refl; released = refl })
list_move_head-Moved {h} {l} ((q, w) ∷ xs) p v ys is = move-Moved h l q w xs p v ys is
