-- ===== src/Tests/KrQueue.antt =====
-- Uses of the theorems on queues, at the list of two nodes.
use krproject.Base.{refl, arith}
use krproject.Utils.KrQueue.{
  KrQueue, IsQueue, Pushed, Popped, queue_push, queue_pop, queue_push-Pushed, queue_pop-Popped,
}
use krproject.Utils.KrList.Link.{Returns}
use krproject.Tests.KrList.{heap, two, nodes, two-IsList, three_not_null}

abbrev queue : KrQueue
queue = record { list = two; hwm = 3 }

queue-IsQueue : IsQueue heap queue nodes
queue-IsQueue = record { list = two-IsList; bound = omega arith; fits = omega arith }

queue_push-Pushed_example : Returns (Pushed heap queue nodes 3 30) (queue_push 3 queue 30 heap)
queue_push-Pushed_example = queue_push-Pushed nodes queue-IsQueue 3 30 three_not_null refl

queue_pop-Popped_example : Returns (Popped heap queue nodes) (queue_pop queue heap)
queue_pop-Popped_example = queue_pop-Popped nodes queue-IsQueue
