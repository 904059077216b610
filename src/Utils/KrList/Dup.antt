-- ===== src/Utils/KrList/Dup.antt =====
-- `kr_list_dup` of krutils/kr_list.c.
use krproject.Base.{refl, Option, [], arith, ok}
use krproject.Utils.Heap.{Ptr, Heap, Cmd, ◌>>=◌}
use krproject.Utils.KrList.{KrList, Callbacks, or_undo, list_new, list_add_tail}
use krproject.Utils.KrList.Chain.{Chain}
use krproject.Utils.KrList.Link.{IsList}

-- the node for a value that was duplicated, and the rest of the loop
abbrev add_copy : (Heap → Ptr) → KrList → Ptr → (KrList → Cmd (Option KrList)) → Cmd (Option KrList)
add_copy malloc copy value later = do
  fresh ← λ h. ok (malloc h, h)
  added ← list_add_tail fresh copy value
  or_undo copy added later

pub list_new-IsList : (h : Heap) (k : Callbacks) → IsList h (record list_new { calls = k }) []
unfolding Chain
list_new-IsList h k = record {
  chain = tt;
  distinct = tt;
  head = refl;
  tail = refl;
  len = refl;
  fits = omega arith;
}
