-- ===== src/Utils/KrList/Around.antt =====
-- The nodes around a node of a list of krutils/kr_list.c, and a list that is put together again.
use krproject.Base.{
  ◌^◌, ◌<◌, ◌≡◌, sym, ◌∙◌, false, Option, List, ◌∷◌, ◌++◌, arith, length, Bool-cases, inl, inr,
}
use krproject.Utils.Heap.{Ptr, null, Node, Heap, update, Points}
use krproject.Utils.KrList.{KrList}
use krproject.Utils.KrList.Chain.{
  Cells, has, first, last, Distinct, Chain, Apart, Distinct-append-l, Distinct-append-r,
  Distinct-Apart, append-Distinct, Chain-append, Chain-front, Chain-back, Chain-spare, last-append,
  first-append,
}
use krproject.Utils.KrList.Link.{IsList, IsCut}

-- What is known of the nodes before and after a node.
pub record Around (xs : Cells) (p : Ptr) (ys : Cells) : Type 0 where
  pub before : Distinct xs
  pub after : Distinct ys
  pub apart : Apart xs ys
  pub not_before : has p xs ≡ false
  pub not_after : has p ys ≡ false

pub Distinct-Around :
    (xs : Cells) (p v : Ptr) (ys : Cells) → Distinct (xs ++ (p, v) ∷ ys) → Around xs p ys
Distinct-Around xs p v ys d =
    let apart : Apart xs ((p, v) ∷ ys) = Distinct-Apart xs ((p, v) ∷ ys) d in
    let after : Distinct ((p, v) ∷ ys) = Distinct-append-r xs ((p, v) ∷ ys) d in
    record {
      before = Distinct-append-l xs ((p, v) ∷ ys) d;
      after = after.1;
      apart = λ q i. ground (arith, apart q i);
      not_before = elim (Bool-cases (has p xs)) [ inl i ↦ ground (arith, apart p i) | inr o ↦ o ];
      not_after = after.0;
    }

pub Apart_sym : (xs ys : Cells) → Apart xs ys → Apart ys xs
Apart_sym xs ys f p i = elim (Bool-cases (has p xs)) [ inl j ↦ ground (arith, f p j) | inr o ↦ o ]

pub Around-Distinct : (xs : Cells) (p : Ptr) (ys : Cells) → Around xs p ys → Distinct (xs ++ ys)
Around-Distinct xs p ys a = append-Distinct xs ys a.before a.after a.apart

-- The two parts, mended, are a list.
pub IsCut-join :
    {h : Heap} {l : KrList} (xs ys : Cells)
    → IsCut h l xs (first ys null) (last null xs) ys
    → Distinct (xs ++ ys)
    → l.len ≡ length (xs ++ ys)
    → length (xs ++ ys) < 2 ^ 32
    → IsList h l (xs ++ ys)
IsCut-join {h} xs ys cut d len fits = record {
  chain = Chain-append h.cell null xs ys null cut.front cut.back;
  distinct = d;
  head = cut.head ∙ sym (first-append xs ys null);
  tail = cut.tail ∙ sym (last-append null xs ys);
  len = len;
  fits = fits;
}

module _ {h : Heap} {l : KrList} (xs : Cells) (p v : Ptr) (ys : Cells)
    (is : IsList h l (xs ++ (p, v) ∷ ys)) where
  pub IsList-Points : Points h.cell p (last null xs) (first ys null) v
  unfolding Chain
  IsList-Points = (Chain-back h.cell null xs ((p, v) ∷ ys) null is.chain).0

  pub IsList-IsCut : IsCut h l xs p p ys
  unfolding Chain
  IsList-IsCut = record {
    front = Chain-front h.cell null xs ((p, v) ∷ ys) null is.chain;
    back = (Chain-back h.cell null xs ((p, v) ∷ ys) null is.chain).1;
    head = is.head ∙ first-append xs ((p, v) ∷ ys) null;
    tail = is.tail ∙ last-append null xs ((p, v) ∷ ys);
  }

-- a node off both parts can be changed
pub IsCut-spare :
    {h : Heap} {l : KrList} (xs ys : Cells) (a b p : Ptr) (n : Option Node) (released : List Ptr)
    → has p xs ≡ false
    → has p ys ≡ false
    → IsCut h l xs a b ys
    → IsCut (record { cell = update h.cell p n; released = released }) l xs a b ys
IsCut-spare {h} xs ys a b p n released o o' cut = record {
  front = Chain-spare h.cell null xs a p n o cut.front;
  back = Chain-spare h.cell b ys null p n o' cut.back;
  head = cut.head;
  tail = cut.tail;
}

pub Points-same :
    {c d : Ptr → Option Node} {p q r v : Ptr} → d p ≡ c p → Points c p q r v → Points d p q r v
Points-same e point = record { ne_null = point.ne_null; holds = e ∙ point.holds }
