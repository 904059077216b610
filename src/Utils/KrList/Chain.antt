-- ===== src/Utils/KrList/Chain.antt =====
-- What a list of krutils/kr_list.c stands for: the sequence of its nodes.
use krproject.Base.{◌≡◌, refl, Bool, true, false, ◌||◌, Option, List, [], ◌∷◌, ◌++◌, ◌==◌, arith}
use krproject.Utils.Heap.{Ptr, Node, update, Points}

-- address and value of each node, in order
abbrev pub Cells : Type 0
Cells = List (Ptr × Ptr)

abbrev pub has : Ptr → Cells → Bool
has a [] = false
has a ((p, _) ∷ xs) = (a == p) || has a xs

-- the first address, and the last one, of the nodes; the default if there is none
abbrev pub first : Cells → Ptr → Ptr
first [] a = a
first ((p, _) ∷ xs) a = p

abbrev pub last : Ptr → Cells → Ptr
last b [] = b
last b ((p, _) ∷ xs) = last p xs

-- no address twice
abbrev pub Distinct : Cells → Type 0
Distinct [] = Unit
Distinct ((p, _) ∷ xs) = (has p xs ≡ false) × Distinct xs

-- The nodes `xs` are linked both ways; before them is `b` and after them `a`.
unfoldable pub Chain : (Ptr → Option Node) → Ptr → Cells → Ptr → Type 0
Chain c b [] a = Unit
Chain c b ((p, v) ∷ xs) a = Points c p b (first xs a) v × Chain c p xs a

abbrev pub Apart : Cells → Cells → Type 0
Apart xs ys = (p : Ptr) → has p xs ≡ true → has p ys ≡ false

pub has-append : (p : Ptr) (xs ys : Cells) → has p (xs ++ ys) ≡ (has p xs || has p ys)
has-append p [] ys = refl
has-append p ((q, v) ∷ xs) ys = ground (arith, has-append p xs ys)

pub first-append : (xs ys : Cells) (a : Ptr) → first (xs ++ ys) a ≡ first xs (first ys a)
first-append [] ys a = refl
first-append (x ∷ xs) ys a = refl

pub last-append : (b : Ptr) (xs ys : Cells) → last b (xs ++ ys) ≡ last (last b xs) ys
last-append b [] ys = refl
last-append b ((p, v) ∷ xs) ys = last-append p xs ys

pub has-last : (b : Ptr) (x : Ptr × Ptr) (xs : Cells) → has (last b (x ∷ xs)) (x ∷ xs) ≡ true
has-last b (p, v) [] = ground arith
has-last b (p, v) (x ∷ xs) = ground (arith, has-last p x xs)

pub Distinct-append-l : (xs ys : Cells) → Distinct (xs ++ ys) → Distinct xs
Distinct-append-l [] ys d = tt
Distinct-append-l ((p, v) ∷ xs) ys d =
    (ground (arith, has-append p xs ys, d.0), Distinct-append-l xs ys d.1)

pub Distinct-append-r : (xs ys : Cells) → Distinct (xs ++ ys) → Distinct ys
Distinct-append-r [] ys d = d
Distinct-append-r (x ∷ xs) ys d = Distinct-append-r xs ys d.1

pub Distinct-Apart : (xs ys : Cells) → Distinct (xs ++ ys) → Apart xs ys
Distinct-Apart [] ys d p i = ground (arith, i)
Distinct-Apart ((q, v) ∷ xs) ys d p i =
    ground (arith, has-append p xs ys, d.0, i, Distinct-Apart xs ys d.1 p)

pub append-Distinct :
    (xs ys : Cells) → Distinct xs → Distinct ys → Apart xs ys → Distinct (xs ++ ys)
append-Distinct [] ys d e f = e
append-Distinct ((p, v) ∷ xs) ys d e f = (
  ground (arith, has-append p xs ys, d.0, f p),
  append-Distinct xs ys d.1 e λ q i. f q (ground (arith, i)),
)

module _ (c : Ptr → Option Node) where
  pub Chain-append :
      (b : Ptr) (xs ys : Cells) (a : Ptr)
      → Chain c b xs (first ys a)
      → Chain c (last b xs) ys a
      → Chain c b (xs ++ ys) a
  unfolding Chain
  Chain-append b [] ys a f g = g
  Chain-append b ((p, v) ∷ xs) ys a f g =
      (rw (first-append xs ys a) f.0, Chain-append p xs ys a f.1 g)

  pub Chain-front :
      (b : Ptr) (xs ys : Cells) (a : Ptr) → Chain c b (xs ++ ys) a → Chain c b xs (first ys a)
  unfolding Chain
  Chain-front b [] ys a h = tt
  Chain-front b ((p, v) ∷ xs) ys a h = (rw (← first-append xs ys a) h.0, Chain-front p xs ys a h.1)

  pub Chain-back :
      (b : Ptr) (xs ys : Cells) (a : Ptr) → Chain c b (xs ++ ys) a → Chain c (last b xs) ys a
  unfolding Chain
  Chain-back b [] ys a h = h
  Chain-back b ((p, v) ∷ xs) ys a h = Chain-back p xs ys a h.1

  -- a chain survives any change that spares its nodes
  pub Chain-frame :
      {d : Ptr → Option Node} (b : Ptr) (xs : Cells) (a : Ptr)
      → ((p : Ptr) → has p xs ≡ true → d p ≡ c p)
      → Chain c b xs a
      → Chain d b xs a
  unfolding Chain
  Chain-frame b [] a same h = tt
  Chain-frame b ((p, v) ∷ xs) a same h = (
    record { ne_null = h.0.ne_null; holds = ground (arith, same p, h.0.holds) },
    Chain-frame p xs a (λ q i. same q (ground (arith, i))) h.1,
  )

  pub Chain-spare :
      (b : Ptr) (xs : Cells) (a p : Ptr) (n : Option Node)
      → has p xs ≡ false
      → Chain c b xs a
      → Chain (update c p n) b xs a
  unfolding Chain
  Chain-spare b xs a p n out = Chain-frame b xs a λ q i. ground (arith, out, i)
