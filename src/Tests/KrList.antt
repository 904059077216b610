-- ===== src/Tests/KrList.antt =====
-- Runs of the list functions on a heap with two nodes, and uses of their theorems there.
use krproject.Base.{
  ◌≡◌, ◌≢◌, refl, true, Option, none, some, [], ◌∷◌, arith, ◌==◌, fault, freed_read, if◌then◌else◌,
}
use krproject.Base.Int.{pos, ◌-ℤ◌}
use krproject.Utils.Heap.{Ptr, null, Node, node, Heap}
use krproject.Utils.KrList.{
  KrList, Callbacks, list_add_head, list_add_tail, list_add_sorted, list_delete, list_search,
  list_remove, list_remove_all, list_locate, list_move_head, list_destroy, list_foreach, goes_after,
}
use krproject.Utils.KrList.Chain.{Cells, Chain}
use krproject.Utils.KrList.Link.{Returns, IsList}
use krproject.Utils.KrList.Ends.{Gives}
use krproject.Utils.KrList.Sorted.{IsTotal, Ordered, list_add_sorted-Ordered}
use krproject.Utils.KrList.Delete.{Deleted, list_delete-Deleted}
use krproject.Utils.KrList.Find.{list_remove_all-freed}
use krproject.Utils.KrList.Release.{Freed, list_destroy-Freed}

-- 10 at address 1, 20 at address 2
abbrev pub cells : Ptr → Option Node
cells p = if p == 1 then some (node null 2 10) else if p == 2 then some (node 1 null 20) else none

abbrev pub heap : Heap
heap = record { cell = cells; released = [] }

-- the values are ordered as numbers, and freed with the list
abbrev pub calls : Callbacks
calls = record { dup = none; free = true; match = none; compare = some (λ v w u. pos v -ℤ pos w) }

abbrev pub two : KrList
two = record { head = 1; tail = 2; calls = calls; len = 2 }

abbrev pub nodes : Cells
nodes = (1, 10) ∷ (2, 20) ∷ []

pub two-IsList : IsList heap two nodes
unfolding Chain
two-IsList = record {
  chain = (
    record { ne_null = ground arith; holds = refl },
    (record { ne_null = ground arith; holds = refl }, tt),
  );
  distinct = (refl, (refl, tt));
  head = refl;
  tail = refl;
  len = refl;
  fits = omega arith;
}

pub three_not_null : 3 ≢ null
three_not_null = ground arith

calls-IsTotal : IsTotal calls 0
unfolding goes_after ◌-ℤ◌
calls-IsTotal v w e = ground (arith, e)

-- a heap with room for one more node
abbrev one_more : Heap → Ptr
one_more h = elim (h.cell 3) [ none ↦ 3 | some n ↦ null ]

list_add_sorted-Ordered_example :
    Returns (Gives (Ordered heap two 0 nodes 3 15)) (list_add_sorted 3 two 15 0 heap)
unfolding goes_after ◌-ℤ◌
list_add_sorted-Ordered_example =
    list_add_sorted-Ordered 3 15 0 nodes three_not_null refl two-IsList (omega arith) calls-IsTotal
      (refl, tt)

list_delete-Deleted_example :
    Returns (Deleted heap two [] 1 10 ((2, 20) ∷ [])) (list_delete two 1 heap)
list_delete-Deleted_example = list_delete-Deleted heap two [] 1 10 ((2, 20) ∷ []) two-IsList

list_remove_all-freed_example : list_remove_all two 20 heap ≡ fault freed_read
unfolding krproject.Utils.KrList.matches
list_remove_all-freed_example = list_remove_all-freed 20 ((1, 10) ∷ []) 2 20 [] two-IsList refl refl

list_destroy-Freed_example : Returns (λ _. Freed two nodes heap) (list_destroy two heap)
list_destroy-Freed_example = list_destroy-Freed nodes two-IsList
