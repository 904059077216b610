-- ===== src/Utils/KrList/Link.antt =====
-- Cutting a list of krutils/kr_list.c in two and mending it: `link_after` and `link_before`.
use krproject.Base.{
  ◌^◌, ◌<◌, ◌≡◌, refl, true, false, Option, some, [], ◌∷◌, ◌==◌, ◌≢◌, arith, length, Run, ok,
}
use krproject.Utils.Heap.{
  Ptr, null, Node, node, Heap, Cmd, and_then, update, Points, not_null, set_next-ok, set_prev-ok,
}
use krproject.Utils.KrList.{KrList, link_after, link_before}
use krproject.Utils.KrList.Chain.{
  Cells, has, first, last, Distinct, Chain, Apart, has-last, Chain-spare,
}

-- The run ends, without a fault, and its result and final heap have the property.
pub data Returns {A : Type 0} (P : A → Heap → Type 0) : Run (A × Heap) → Type 0 where
  returns : {result : A} {heap : Heap} → P result heap → Returns P (ok (result, heap))

pub Returns-bind :
    {A B : Type 0} {P : A → Heap → Type 0} {Q : B → Heap → Type 0} {m : Run (A × Heap)}
    {later : A → Cmd B}
    → Returns P m
    → ((a : A) (g : Heap) → P a g → Returns Q (later a g))
    → Returns Q (and_then m later)
Returns-bind (returns p) h = h _ _ p

pub Returns-mono :
    {A : Type 0} {P Q : A → Heap → Type 0} {m : Run (A × Heap)}
    → Returns P m
    → ((a : A) (g : Heap) → P a g → Q a g)
    → Returns Q m
Returns-mono (returns p) h = returns (h _ _ p)

-- The list has the nodes `xs`.
pub record IsList (h : Heap) (l : KrList) (xs : Cells) : Type 0 where
  pub chain : Chain h.cell null xs null
  pub distinct : Distinct xs
  pub head : l.head ≡ first xs null
  pub tail : l.tail ≡ last null xs
  pub len : l.len ≡ length xs
  pub fits : length xs < 2 ^ 32

-- The list is cut: the nodes `xs` end before `a`, and the nodes `ys` begin after `b`.
pub record IsCut (h : Heap) (l : KrList) (xs : Cells) (a b : Ptr) (ys : Cells) : Type 0 where
  pub front : Chain h.cell null xs a
  pub back : Chain h.cell b ys null
  pub head : l.head ≡ first xs a
  pub tail : l.tail ≡ last b ys

-- `g` differs from `h` at most at the nodes of `xs`, and no value was released
pub record SameOutside (xs : Cells) (h g : Heap) : Type 0 where
  pub same : (p : Ptr) → has p xs ≡ false → g.cell p ≡ h.cell p
  pub released : g.released ≡ h.released

-- What a step on the links of a list keeps.
pub record Linked (l l' : KrList) (xs : Cells) (h g : Heap) : Type 0 where
  pub calls : l'.calls ≡ l.calls
  pub len : l'.len ≡ l.len
  pub outside : SameOutside xs h g

pub has-ne : (p q : Ptr) (xs : Cells) → has p xs ≡ false → has q xs ≡ true → (p == q) ≡ false
has-ne p q [] o i = ground arith
has-ne p q ((r, v) ∷ xs) o i = ground (arith, has-ne p q xs)

module _ (c : Ptr → Option Node) {p q r v : Ptr} where
  pub Points-other :
      (s : Ptr) (n : Option Node)
      → (p == s) ≡ false
      → Points c p q r v
      → Points (update c s n) p q r v
  Points-other s n ne e = record { ne_null = e.ne_null; holds = rw (ne, e.holds) }

pub Points-here :
    (c : Ptr → Option Node) {p q r v : Ptr}
    → p ≢ null
    → Points (update c p (some (node q r v))) p q r v
Points-here c ne = record { ne_null = ne; holds = ground arith }

-- The last node of a chain can be given another successor, and the first one another predecessor.
pub relink_next :
    (c : Ptr → Option Node) (a b : Ptr) (x : Ptr × Ptr) (xs : Cells) (a₀ : Ptr)
    → Distinct (x ∷ xs)
    → Chain c b (x ∷ xs) a₀
    → (q : Ptr) × (v : Ptr) × Points c (last b (x ∷ xs)) q a₀ v
      × Chain (update c (last b (x ∷ xs)) (some (node q a v))) b (x ∷ xs) a
unfolding Chain
relink_next c a b (p, v) [] a₀ d e = (b, v, e.0, (Points-here c e.0.ne_null, tt))
relink_next c a b (p, v) (x ∷ xs) a₀ d e =
    let (q, w, point, chain) = relink_next c a p x xs a₀ d.1 e.1 in
    (q, w, point, (Points-other c _ _ (has-ne p _ (x ∷ xs) d.0 (has-last p x xs)) e.0, chain))

pub relink_prev :
    (c : Ptr → Option Node) (b b₀ p v : Ptr) (xs : Cells) (a : Ptr)
    → Distinct ((p, v) ∷ xs)
    → Chain c b₀ ((p, v) ∷ xs) a
    → Points c p b₀ (first xs a) v
      × Chain (update c p (some (node b (first xs a) v))) b ((p, v) ∷ xs) a
unfolding Chain
relink_prev c b b₀ p v xs a d e =
    (e.0, (Points-here c e.0.ne_null, Chain-spare c p xs a p _ d.0 e.1))

SameOutside-here :
    {h : Heap} (p : Ptr) (n : Option Node) (xs : Cells)
    → has p xs ≡ true
    → SameOutside xs h (record h { cell = update h.cell p n })
SameOutside-here p n xs i = record { same = λ q o. rw (has-ne q p xs o i) refl; released = refl }

module _ {h : Heap} {l : KrList} where
  pub link_after-IsCut :
      (xs ys : Cells) (a b q : Ptr)
      → Distinct xs
      → Apart xs ys
      → IsCut h l xs a b ys
      → Returns
          (λ l' g. IsCut g l' xs q b ys × Linked l l' xs h g)
          (link_after l (last null xs) q h)
  unfolding link_after Chain
  link_after-IsCut [] ys a b q d apart cut = returns (
    record { front = tt; back = cut.back; head = refl; tail = cut.tail },
    record { calls = refl; len = refl; outside = record { same = λ p o. refl; released = refl } },
  )
  link_after-IsCut (x ∷ xs) ys a b q d apart cut =
      let (r, w, point, chain) = relink_next h.cell q null x xs a d cut.front in
      let inside : has (last null (x ∷ xs)) (x ∷ xs) ≡ true = has-last null x xs in
      rw (not_null point, set_next-ok h point q)
        (returns (
          record {
            front = chain;
            back = Chain-spare h.cell b ys null (last null (x ∷ xs)) _ (apart _ inside) cut.back;
            head = cut.head;
            tail = cut.tail;
          },
          record { calls = refl; len = refl; outside = SameOutside-here _ _ (x ∷ xs) inside },
        ))

  pub link_before-IsCut :
      (xs ys : Cells) (a b q : Ptr)
      → Distinct ys
      → Apart ys xs
      → IsCut h l xs a b ys
      → Returns
          (λ l' g. IsCut g l' xs a q ys × Linked l l' ys h g)
          (link_before l (first ys null) q h)
  unfolding link_before Chain
  link_before-IsCut xs [] a b q d apart cut = returns (
    record { front = cut.front; back = tt; head = cut.head; tail = refl },
    record { calls = refl; len = refl; outside = record { same = λ p o. refl; released = refl } },
  )
  link_before-IsCut xs ((p, v) ∷ ys) a b q d apart cut =
      let (point, chain) = relink_prev h.cell q b p v ys null d cut.back in
      let inside : has p ((p, v) ∷ ys) ≡ true = ground arith in
      rw (not_null point, set_prev-ok h point q)
        (returns (
          record {
            front = Chain-spare h.cell null xs a p _ (apart p inside) cut.front;
            back = chain;
            head = cut.head;
            tail = cut.tail;
          },
          record { calls = refl; len = refl; outside = SameOutside-here _ _ ((p, v) ∷ ys) inside },
        ))
