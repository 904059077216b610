-- ===== src/Utils/KrQueue.antt =====
-- The functions of krutils/kr_queue.c: a bounded queue on a list. The pointers to the queue and to
-- its list are not null: `kr_queue_init` reports a failure, and its caller has no queue then.
use krproject.Base.{
  ℕ, ◌^◌, ◌≤◌, ◌<◌, ◌≡◌, ◌≢◌, refl, sym, Bool, true, false, Option, none, some, [], ◌∷◌, ◌++◌, ◌==◌,
  leb, arith, length, length-append, if◌then◌else◌, Bool-cases, inl, inr,
}
use mathlib.Core.Path.{subst}
use krproject.Utils.Heap.{Ptr, null, Heap, Cmd, pure, ◌>>=◌, load, load-ok}
use krproject.Utils.KrList.{KrList, list_new, list_add_tail, list_delete}
use krproject.Utils.KrList.Chain.{Cells}
use krproject.Utils.KrList.Link.{Returns, returns, Returns-bind, IsList}
use krproject.Utils.KrList.Insert.{Inserted}
use krproject.Utils.KrList.Ends.{Gives, list_add_tail-Inserted}
use krproject.Utils.KrList.Delete.{list_delete-Deleted}
use krproject.Utils.KrList.Around.{IsList-Points}

-- `kr_queue_t`
pub record KrQueue : Type 0 where
  pub list : KrList
  pub hwm : ℕ

-- `kr_queue_init`, when the memory was granted
abbrev pub queue_init : ℕ → KrQueue
queue_init hwm = record { list = list_new; hwm = hwm }

-- `fresh` is what `kr_malloc` returns in `kr_list_add_tail`, whose result is not looked at; `true`
-- is the result 0.
unfoldable pub queue_push : Ptr → KrQueue → Ptr → Cmd (Bool × KrQueue)
queue_push fresh q value = if leb q.hwm q.list.len then pure (false, q) else do
  added ← list_add_tail fresh q.list value
  pure (true, (elim added [ none ↦ q | some l ↦ record q { list = l } ]))

-- the end of `kr_queue_pop`, with the first node
abbrev pub pop_at : KrQueue → Ptr → Cmd (Ptr × KrQueue)
pop_at q p = do n ← load p; l ← list_delete q.list p; pure (n.value, record q { list = l })

unfoldable pub queue_pop : KrQueue → Cmd (Ptr × KrQueue)
queue_pop q =
    if leb q.list.len 0
    then pure (null, q)
    else if q.list.head == null
    then pure (null, q)
    else pop_at q q.list.head

abbrev pub queue_length : KrQueue → ℕ
queue_length q = q.list.len

abbrev pub queue_is_empty : KrQueue → Bool
queue_is_empty q = q.list.len == 0

-- The queue holds the values of the nodes, the oldest first, within its bound.
pub record IsQueue (h : Heap) (q : KrQueue) (xs : Cells) : Type 0 where
  pub list : IsList h q.list xs
  pub bound : length xs ≤ q.hwm
  pub fits : q.hwm < 2 ^ 32

-- What `kr_queue_push` promises.
abbrev pub Pushed : Heap → KrQueue → Cells → Ptr → Ptr → Bool × KrQueue → Heap → Type 0
Pushed h q xs p v (true, q') g =
    (length xs < q.hwm) × IsQueue g q' (xs ++ (p, v) ∷ []) × (q'.hwm ≡ q.hwm)
Pushed h q xs p v (false, q') g = (length xs ≡ q.hwm) × (q' ≡ q) × (g ≡ h)

-- What `kr_queue_pop` promises.
abbrev pub Popped : Heap → KrQueue → Cells → Ptr × KrQueue → Heap → Type 0
Popped h q [] (v, q') g = (v ≡ null) × (q' ≡ q) × (g ≡ h)
Popped h q ((p, w) ∷ xs) (v, q') g =
    (v ≡ w) × IsQueue g q' xs × (q'.hwm ≡ q.hwm) × (g.cell p ≡ none)

module _ {h : Heap} {q : KrQueue} (xs : Cells) (is : IsQueue h q xs) where
  -- Pushing a value, with memory for a node, adds it behind the others if there are fewer than the
  -- high watermark; if there are as many, it is refused and nothing changes.
  pub queue_push-Pushed :
      (p v : Ptr) → p ≢ null → h.cell p ≡ none → Returns (Pushed h q xs p v) (queue_push p q v h)
  unfolding queue_push
  queue_push-Pushed p v ne unused = elim (Bool-cases (leb q.hwm q.list.len)) [
    | inl full ↦ rw full (
        returns
          ((let e = is.list.len in let b = is.bound in ground (arith, full, e, b)), refl, refl))
    | inr room ↦
        let e = is.list.len in
        let f = is.fits in
        let below : length xs < q.hwm = ground (arith, room, e) in
        rw room (
          Returns-bind (list_add_tail-Inserted p v ne unused xs is.list (omega (arith, below, f)))
            λ o g i. grown p v below o g i)
  ]
    where
      grown :
          (p v : Ptr)
          → length xs < q.hwm
          → (o : Option KrList) (g : Heap) → Gives (Inserted h q.list xs p v []) o g
          → Returns
              (Pushed h q xs p v)
              (pure (true, (elim o [ none ↦ q | some l ↦ record q { list = l } ])) g)
      grown p v below none g i = absurd i
      grown p v below (some l) g i =
          let m = length-append xs ((p, v) ∷ []) in
          returns (
            below,
            (record { list = i.list; bound = omega (arith, m, below); fits = is.fits }),
            refl,
          )

-- Popping gives the value that was pushed first of those that are left, whose node is freed, and
-- keeps the others in their order; an empty queue gives `NULL` and stays as it is.
pub queue_pop-Popped :
    {h : Heap} {q : KrQueue} (xs : Cells) → IsQueue h q xs → Returns (Popped h q xs) (queue_pop q h)
unfolding queue_pop
queue_pop-Popped {q} [] is =
    let e = is.list.len in
    let none_left : leb q.list.len 0 ≡ true = ground (arith, e) in
    rw none_left (returns (refl, refl, refl))
queue_pop-Popped {h} {q} ((p, w) ∷ xs) is =
    let e = is.list.len in
    let at = is.list.head in
    let point = IsList-Points [] p w xs is.list in
    let n = point.ne_null in
    let some_left : leb q.list.len 0 ≡ false = ground (arith, e) in
    let there : (q.list.head == null) ≡ false = ground (arith, at, n) in
    rw (some_left, there)
      (subst (λ r. Returns (Popped h q ((p, w) ∷ xs)) (pop_at q r h)) (sym at)
        (rw (load-ok h point) (
          Returns-bind (list_delete-Deleted h q.list [] p w xs is.list) λ l g d.
            let b = is.bound in
            returns (
              refl,
              (record { list = d.list; bound = omega (arith, b); fits = is.fits }),
              refl,
              d.freed,
            ))))
