-- ===== src/Queue/Tests.antt =====
-- Runs of src/queue.c, and its theorems at concrete queues.
use os_to_read.Base.{◌≡◌, refl, some, none, List, [], ◌∷◌, replicate}
use os_to_read.Queue.{
  Queue, enqueue_front, dequeue, purgequeue, remove_at, shift_up, shift_down, find_from,
  purge_found, points_to,
}
use os_to_read.Queue.Refine.{Holds, push_back, push_front, head_of, tail_of}
use os_to_read.Queue.Purge.{erase, found}
use os_to_read.Queue.Runs.{
  Call, enqueues, enqueues_front, dequeues, purges, perform, perform_all, array_ops, list_ops,
  queue_refines,
}

abbrev three : Queue
three = record { proc = some 7 ∷ some 8 ∷ some 9 ∷ replicate 47 none; size = 3 }

abbrev three-Holds : Holds three (7 ∷ 8 ∷ 9 ∷ [])
three-Holds = record { rest = replicate 47 none; split = refl; count = refl; room = refl }

dequeue-three :
    dequeue three ≡ (some 7, record { proc = some 8 ∷ some 9 ∷ replicate 48 none; size = 2 })
unfolding dequeue remove_at shift_down
dequeue-three = refl

enqueue_front-three :
    enqueue_front three (some 5)
    ≡ record { proc = some 5 ∷ some 7 ∷ some 8 ∷ some 9 ∷ replicate 46 none; size = 4 }
unfolding enqueue_front shift_up
enqueue_front-three = refl

purge_three :
    purgequeue three (some 8)
    ≡ (some 8, record { proc = some 7 ∷ some 9 ∷ replicate 48 none; size = 2 })
unfolding purgequeue purge_found find_from points_to remove_at shift_down
purge_three = refl

-- An operation of each kind, and the queue is empty again.
abbrev calls : List Call
calls =
    enqueues 4
    ∷ enqueues_front 5
    ∷ purges 8
    ∷ purges 3
    ∷ dequeues
    ∷ dequeues
    ∷ dequeues
    ∷ dequeues
    ∷ dequeues
    ∷ []

answers :
    (perform_all list_ops calls (7 ∷ 8 ∷ 9 ∷ [])).0
    ≡ none ∷ none ∷ some 8 ∷ none ∷ some 5 ∷ some 7 ∷ some 9 ∷ some 4 ∷ none ∷ []
unfolding perform_all perform push_back push_front found erase head_of tail_of
answers = refl

queue_refines_example :
    ((perform_all array_ops calls three).0 ≡ (perform_all list_ops calls (7 ∷ 8 ∷ 9 ∷ [])).0)
    × Holds (perform_all array_ops calls three).1 (perform_all list_ops calls (7 ∷ 8 ∷ 9 ∷ [])).1
queue_refines_example = queue_refines calls three-Holds
