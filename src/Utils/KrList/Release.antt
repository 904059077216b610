-- ===== src/Utils/KrList/Release.antt =====
-- `kr_list_destroy` of krutils/kr_list.c.
use krproject.Base.{◌≡◌, refl, sym, none, List, [], ◌∷◌, arith, length, if◌then◌else◌}
use mathlib.Core.Path.{subst}
use krproject.Utils.Heap.{Ptr, null, Heap, update, Points, load-ok, free_node-ok}
use krproject.Utils.KrList.{KrList, given, release, destroy_loop, list_destroy}
use krproject.Utils.KrList.Chain.{Cells, has, first, Distinct, Chain, Chain-spare}
use krproject.Utils.KrList.Link.{Returns, returns, Returns-mono, IsList}

-- the values that were handed to `free` so far, after those of the nodes
abbrev pub handed : KrList → Cells → List Ptr → List Ptr
handed l [] rs = rs
handed l ((p, v) ∷ xs) rs = handed l xs (given l v rs)

-- The nodes are freed and their values handed to `free`; no other memory changes.
pub record Freed (l : KrList) (xs : Cells) (h g : Heap) : Type 0 where
  pub cells : (q : Ptr) → g.cell q ≡ (if has q xs then none else h.cell q)
  pub released : g.released ≡ handed l xs h.released

module _ (l : KrList) where
  destroy_loop-Freed :
      (h : Heap) (b : Ptr) (xs : Cells)
      → Distinct xs
      → Chain h.cell b xs null
      → Returns (λ _. Freed l xs h) (destroy_loop l (length xs) (first xs null) h)
  unfolding destroy_loop release Chain
  destroy_loop-Freed h b [] d c = returns record { cells = λ q. refl; released = refl }
  destroy_loop-Freed h b ((p, v) ∷ xs) d c =
      let h₁ : Heap = record h { released = given l v h.released } in
      let h₂ : Heap = record { cell = update h.cell p none; released = given l v h.released } in
      let point : Points h₁.cell p b (first xs null) v = c.0 in
      rw (load-ok h c.0, free_node-ok h₁ point)
        (Returns-mono (destroy_loop-Freed h₂ p xs d.1 (Chain-spare h.cell p xs null p none d.0 c.1))
          λ _ g f. record {
            cells = λ q. let e = f.cells q in ground (arith, e);
            released = f.released;
          })

-- Destroying a well-formed list frees exactly its nodes, and hands its values to `free`, where that
-- is set, from the first to the last.
pub list_destroy-Freed :
    {h : Heap} {l : KrList} (xs : Cells)
    → IsList h l xs
    → Returns (λ _. Freed l xs h) (list_destroy l h)
unfolding list_destroy
list_destroy-Freed {h} {l} xs is =
    subst (λ n. Returns (λ _. Freed l xs h) (destroy_loop l n l.head h)) (sym is.len)
      (subst (λ q. Returns (λ _. Freed l xs h) (destroy_loop l (length xs) q h)) (sym is.head)
        (destroy_loop-Freed l h null xs is.distinct is.chain))
