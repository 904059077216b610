-- ===== src/Utils/KrList.antt =====
-- The functions of krutils/kr_list.c. A `T_KRList` lives outside the heap of nodes, so a function
-- that updates one returns the new value. The callbacks are functions on the addresses they get.
pub mod Chain
pub mod Around
pub mod Delete
pub mod Insert
pub mod Find
pub mod Copy
pub mod Dup
pub mod Link
pub mod Position
pub mod Release
pub mod MoveHead
pub mod Sorted
pub mod Ends
use krproject.Base.{
  ℕ, zero, suc, ◌+◌, ◌-◌, ◌%◌, ◌^◌, Bool, false, not, Option, none, some, List, ◌∷◌, ◌==◌,
  if◌then◌else◌, ok, fault, unfinished,
}
use krproject.Base.Int.{ℤ, pos, negsuc, ltb_ℤ}
use krproject.Utils.Heap.{
  Ptr, null, node, Heap, Cmd, pure, ◌>>=◌, ◌>>◌, store, load, set_next, set_prev, free_node,
}

-- The members of `T_KRList` that are set once: whether `free` is set, and the other callbacks.
-- `compare` comes with the user data that it is called with.
pub record Callbacks : Type 0 where
  pub dup : Option (Ptr → Ptr)
  pub free : Bool
  pub match : Option (Ptr → Ptr → Bool)
  pub compare : Option (Ptr → Ptr → Ptr → ℤ)

-- `T_KRList`
pub record KrList : Type 0 where
  pub head : Ptr
  pub tail : Ptr
  pub calls : Callbacks
  pub len : ℕ

-- `len++` and `len--` of an `unsigned int`
abbrev pub len_suc : ℕ → ℕ
len_suc n = (n + 1) % 2 ^ 32

abbrev pub len_pred : ℕ → ℕ
len_pred n = (n + 2 ^ 32 - 1) % 2 ^ 32

abbrev pub no_callbacks : Callbacks
no_callbacks = record { dup = none; free = false; match = none; compare = none }

-- `kr_list_new`, when the memory for the list was granted
abbrev pub list_new : KrList
list_new = record { head = null; tail = null; calls = no_callbacks; len = 0 }

-- the values that were handed to `free` so far, after `if (list->free) list->free(value)`
abbrev pub given : KrList → Ptr → List Ptr → List Ptr
given list value rs = if list.calls.free then value ∷ rs else rs

unfoldable pub release : KrList → Ptr → Cmd (Unit {0})
release list value h = pure tt (record h { released = given list value h.released })

-- `while(len--)` of `kr_list_destroy`
unfoldable pub destroy_loop : KrList → ℕ → Ptr → Cmd (Unit {0})
destroy_loop list zero current = pure tt
destroy_loop list (suc len) current = do
  n ← load current
  release list n.value
  free_node current
  destroy_loop list len n.next

unfoldable pub list_destroy : KrList → Cmd (Unit {0})
list_destroy list = destroy_loop list list.len list.head

-- What both branches of an insertion into an empty list do.
unfoldable pub add_first : KrList → Ptr → Ptr → Cmd KrList
add_first list fresh value = do
  store fresh (some (node null null value))
  pure (record list { head = fresh; tail = fresh })

abbrev pub count_up : KrList → KrList
count_up list = record list { len = len_suc list.len }

-- `fresh` is what `kr_malloc` returns. The result is `none` for `NULL`.
unfoldable pub list_add_head : Ptr → KrList → Ptr → Cmd (Option KrList)
list_add_head fresh list value = if fresh == null then pure none else do
  l ← if list.len == 0 then add_first list fresh value else do
    store fresh (some (node null list.head value))
    set_prev list.head fresh
    pure (record list { head = fresh })
  pure (some (count_up l))

unfoldable pub list_add_tail : Ptr → KrList → Ptr → Cmd (Option KrList)
list_add_tail fresh list value = if fresh == null then pure none else do
  l ← if list.len == 0 then add_first list fresh value else do
    store fresh (some (node list.tail null value))
    set_next list.tail fresh
    pure (record list { tail = fresh })
  pure (some (count_up l))

-- `prev->next = q`, or `list->head = q` if there is no `prev`
unfoldable pub link_after : KrList → Ptr → Ptr → Cmd KrList
link_after list prev q =
    if prev == null then pure (record list { head = q }) else do set_next prev q; pure list

-- `next->prev = q`, or `list->tail = q` if there is no `next`
unfoldable pub link_before : KrList → Ptr → Ptr → Cmd KrList
link_before list next q =
    if next == null then pure (record list { tail = q }) else do set_prev next q; pure list

-- whether the loop of `kr_list_add_sorted` stops at a node with value `w`
unfoldable pub goes_after : Callbacks → Ptr → Ptr → Ptr → Bool
goes_after calls value user_data w = elim calls.compare [
  | none ↦ false
  | some f ↦ not (ltb_ℤ (f value w user_data) (pos 0))
]

-- The loop of `kr_list_add_sorted`, with `len` rounds and one to see the end.
unfoldable pub sorted_loop : KrList → ℕ → Ptr → Ptr → (curr next : Ptr) → Cmd (Ptr × Ptr)
sorted_loop list zero value user_data curr next = λ _. fault unfinished
sorted_loop list (suc fuel) value user_data curr next =
    if curr == null then pure (curr, next) else do
      n ← load curr
      if goes_after list.calls value user_data n.value
          then pure (curr, next)
          else sorted_loop list fuel value user_data n.prev curr

unfoldable pub list_add_sorted : Ptr → KrList → Ptr → Ptr → Cmd (Option KrList)
list_add_sorted fresh list value user_data = if fresh == null then pure none else do
  l ← if list.len == 0 then add_first list fresh value else do
    t ← load list.tail
    (curr, next) ← sorted_loop list (list.len + 1) value user_data list.tail t.next
    store fresh (some (node curr next value))
    l ← link_after list curr fresh
    link_before l next fresh
  pure (some (count_up l))

unfoldable pub list_delete : KrList → Ptr → Cmd KrList
list_delete list p = do
  n ← load p
  l ← link_after list n.prev n.next
  n ← load p
  l ← link_before l n.next n.prev
  n ← load p
  release l n.value
  free_node p
  pure (record l { len = len_pred l.len })

-- The test that `kr_list_search` and the removals share.
unfoldable pub matches : KrList → Ptr → Ptr → Bool
matches list key w = elim list.calls.match [ none ↦ key == w | some f ↦ f w key ]

-- The loops over the nodes have `len` rounds and one to see the end.
unfoldable pub search_loop : KrList → Ptr → ℕ → Ptr → Cmd Ptr
search_loop list key zero p = λ _. fault unfinished
search_loop list key (suc fuel) p = if p == null then pure null else do
  n ← load p
  if matches list key n.value then pure p else search_loop list key fuel n.next

unfoldable pub list_search : KrList → Ptr → Cmd Ptr
list_search list key = search_loop list key (list.len + 1) list.head

unfoldable pub remove_loop : KrList → Ptr → ℕ → Ptr → Cmd KrList
remove_loop list key zero p = λ _. fault unfinished
remove_loop list key (suc fuel) p = if p == null then pure list else do
  n ← load p
  if matches list key n.value then list_delete list p else remove_loop list key fuel n.next

unfoldable pub list_remove : KrList → Ptr → Cmd KrList
list_remove list key = remove_loop list key (list.len + 1) list.head

-- `kr_list_remove_all` reads `node->next` after the node was deleted.
unfoldable pub remove_all_loop : KrList → Ptr → ℕ → Ptr → Cmd KrList
remove_all_loop list key zero p = λ _. fault unfinished
remove_all_loop list key (suc fuel) p = if p == null then pure list else do
  n ← load p
  l ← if matches list key n.value then list_delete list p else pure list
  n ← load p
  remove_all_loop l key fuel n.next

unfoldable pub list_remove_all : KrList → Ptr → Cmd KrList
list_remove_all list key = remove_all_loop list key (list.len + 1) list.head

-- `kr_list_foreach`: `func`, if there is one, gets the value and the user data, which it may change;
-- the list and its nodes it leaves alone.
unfoldable pub foreach_loop : {U : Type 0} → Option (Ptr → U → U) → ℕ → Ptr → U → Cmd U
foreach_loop func zero p u = λ _. fault unfinished
foreach_loop func (suc fuel) p u = if p == null then pure u else do
  n ← load p
  foreach_loop func fuel n.next (elim func [ none ↦ u | some f ↦ f n.value u ])

unfoldable pub list_foreach : {U : Type 0} → KrList → Option (Ptr → U → U) → U → Cmd U
list_foreach list func u = foreach_loop func (list.len + 1) list.head u

-- `while(index-- && n)` with `step` for `n->next` or `n->prev`
unfoldable pub walk : (Ptr → Cmd Ptr) → ℕ → Ptr → Cmd Ptr
walk step zero p = pure p
walk step (suc index) p = if p == null then pure p else (step p >>= walk step index)

abbrev pub next_of : Ptr → Cmd Ptr
next_of p = do n ← load p; pure n.next

abbrev pub prev_of : Ptr → Cmd Ptr
prev_of p = do n ← load p; pure n.prev

-- For the least `int` the negation overflows; here it is the mathematical one.
unfoldable pub list_locate : KrList → ℤ → Cmd Ptr
list_locate list (pos index) = walk next_of index list.head
list_locate list (negsuc index) = walk prev_of index list.tail

unfoldable pub list_move_head : KrList → Ptr → Cmd KrList
list_move_head list p = do
  n ← load p
  if n.prev == null then pure list else do
    set_next n.prev n.next
    l ← link_before list n.next n.prev
    set_prev p null
    set_next p l.head
    set_prev l.head p
    pure (record l { head = p })

-- The value of a copied node: `none` stands for the `NULL` of a `dup` that failed.
unfoldable pub dup_value : Callbacks → Ptr → Option Ptr
dup_value calls w = elim calls.dup [
  | none ↦ some w
  | some f ↦ if f w == null then none else some (f w)
]

-- The copy so far is destroyed where there is a `NULL`.
unfoldable pub or_undo :
    {A : Type 0} → KrList → Option A → (A → Cmd (Option KrList)) → Cmd (Option KrList)
or_undo copy none later = do list_destroy copy; pure none
or_undo copy (some a) later = later a

-- `malloc` gives the address for the next node. The result is `none` for `NULL`.
module _ (malloc : Heap → Ptr) where
  unfoldable pub dup_loop : KrList → ℕ → Ptr → Cmd (Option KrList)
  dup_loop copy zero p = λ _. fault unfinished
  dup_loop copy (suc fuel) p = if p == null then pure (some copy) else do
    n ← load p
    or_undo copy (dup_value copy.calls n.value) λ value. do
      fresh ← λ h. ok (malloc h, h)
      added ← list_add_tail fresh copy value
      or_undo copy added λ copy'. dup_loop copy' fuel n.next

  -- `kr_list_dup`, when the memory for the list itself was granted
  unfoldable pub list_dup : KrList → Cmd (Option KrList)
  list_dup orig = dup_loop (record list_new { calls = orig.calls }) (orig.len + 1) orig.head
