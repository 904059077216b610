-- ===== src/Utils/KrList/Delete.antt =====
-- Deleting a node of a list: `kr_list_delete` of krutils/kr_list.c.
use krproject.Base.{
  ℕ, ◌^◌, ◌<◌, ◌≡◌, refl, ◌∙◌, false, none, ◌∷◌, ◌++◌, ◌==◌, arith, length, length-append,
}
use krproject.Utils.Heap.{Ptr, null, Heap, update, load-ok, free_node-ok}
use krproject.Utils.KrList.{KrList, len_pred, given, release, list_delete}
use krproject.Utils.KrList.Chain.{Cells, has, first, last}
use krproject.Utils.KrList.Link.{
  Returns, returns, Returns-bind, IsList, IsCut, link_after-IsCut, link_before-IsCut,
}
use krproject.Utils.KrList.Around.{
  Around, Distinct-Around, Apart_sym, Around-Distinct, IsCut-join, IsList-Points, IsList-IsCut,
  IsCut-spare, Points-same,
}

-- The node at `p`, with the value `v`, is gone from between `xs` and `ys`.
pub record Deleted (h : Heap) (l : KrList) (xs : Cells) (p v : Ptr) (ys : Cells) (l' : KrList)
    (g : Heap) : Type 0 where
  pub list : IsList g l' (xs ++ ys)
  pub calls : l'.calls ≡ l.calls
  pub freed : g.cell p ≡ none
  pub outside :
      (q : Ptr) → has q xs ≡ false → has q ys ≡ false → (q == p) ≡ false → g.cell q ≡ h.cell q
  pub released : g.released ≡ given l v h.released

len_pred_lem :
    (xs : Cells) (x : Ptr × Ptr) (ys : Cells) (n : ℕ)
    → n ≡ length (xs ++ x ∷ ys)
    → length (xs ++ x ∷ ys) < 2 ^ 32
    → (len_pred n ≡ length (xs ++ ys)) × (length (xs ++ ys) < 2 ^ 32)
len_pred_lem xs x ys n e fits =
    let m = length-append xs (x ∷ ys) in
    let m' = length-append xs ys in (omega (arith, m, m', e, fits), omega (arith, m, m', fits))

-- the end of `kr_list_delete`: the value is released and the node is freed
module _ (h : Heap) (l : KrList) (xs : Cells) (p v : Ptr) (ys : Cells)
    (is : IsList h l (xs ++ (p, v) ∷ ys)) where
  abbrev around : Around xs p ys
  around = Distinct-Around xs p v ys is.distinct

  finish-Deleted :
      (l₁ : KrList) (h₁ : Heap)
      → IsCut h₁ l₁ xs (first ys null) (last null xs) ys
      → l₁.calls ≡ l.calls
      → l₁.len ≡ l.len
      → ((q : Ptr) → has q xs ≡ false → has q ys ≡ false → h₁.cell q ≡ h.cell q)
      → h₁.released ≡ h.released
      → Deleted h l xs p v ys
          (record l₁ { len = len_pred l₁.len })
          (record { cell = update h₁.cell p none; released = given l₁ v h₁.released })
  finish-Deleted l₁ h₁ cut calls len outside released =
      let sizes = len_pred_lem xs (p, v) ys l₁.len (len ∙ is.len) is.fits in
      record {
        list =
            IsCut-join xs ys
              (record {
                front = spared.front;
                back = spared.back;
                head = spared.head;
                tail = spared.tail;
              })
              (Around-Distinct xs p ys around) sizes.0 sizes.1;
        calls = calls;
        freed = ground arith;
        outside = λ q o o' ne. rw ne (outside q o o');
        released = rw (calls, released) refl;
      }
    where
      spared :
          IsCut
            (record { cell = update h₁.cell p none; released = given l₁ v h₁.released })
            l₁
            xs
            (first ys null)
            (last null xs)
            ys
      spared = IsCut-spare xs ys _ _ p none _ around.not_before around.not_after cut

  -- Deleting a node of a well-formed list takes it out, with its value given to `free` where that
  -- is set and its memory freed; the other nodes stay in order, and no other memory changes.
  pub list_delete-Deleted : Returns (Deleted h l xs p v ys) (list_delete l p h)
  unfolding list_delete release
  list_delete-Deleted = rw (load-ok h (IsList-Points xs p v ys is)) (
      Returns-bind
        (link_after-IsCut xs ys p p (first ys null) around.before around.apart
          (IsList-IsCut xs p v ys is))
        λ l₁ h₁ (cut₁, linked₁).
          let point₁ =
            Points-same (linked₁.outside.same p around.not_before) (IsList-Points xs p v ys is) in
          rw (load-ok h₁ point₁) (
            Returns-bind
              (link_before-IsCut xs ys (first ys null) p (last null xs) around.after
                (Apart_sym xs ys around.apart) cut₁)
              λ l₂ h₂ (cut₂, linked₂).
                let point₂ = Points-same (linked₂.outside.same p around.not_after) point₁ in
                rw
                  (
                    load-ok h₂ point₂,
                    free_node-ok (record h₂ { released = given l₂ v h₂.released }) point₂,
                  )
                  (returns (
                    finish-Deleted l₂ h₂ cut₂ (linked₂.calls ∙ linked₁.calls)
                      (linked₂.len ∙ linked₁.len)
                      (λ q o o'. linked₂.outside.same q o' ∙ linked₁.outside.same q o)
                      (linked₂.outside.released ∙ linked₁.outside.released)))))
