-- ===== src/ReapQueue/Tests.antt =====
-- Runs of the model of the reap queue of 1.6/src/queue.h with two enqueuing threads, and a queue of two
-- nodes in memory.
use os_5_sem.Base.{
  ℕ, ◌+◌, ◌%◌, ◌<◌, ◌≡◌, refl, false, none, some, List, [], ◌∷◌, ◌++◌, arith, zero, suc,
}
use os_5_sem.ReapQueue.{Choice, System, Reach, start, by_reaper, by_thread, init, reap, enqueue}
use os_5_sem.ReapQueue.Invariant.{in_hand}
use os_5_sem.ReapQueue.Delivery.{delivered_in_order, no_lost_wakeup, false_alarm, IsFinishing}
use os_5_sem.ReapQueue.Nodes.Laws.{append_node-IsQueue}
use os_5_sem.ReapQueue.Nodes.{Queue, Cells, IsQueue, append_node, write}

abbrev object : ℕ → Choice
object t = record { thread = t; no_memory = false; spurious = false }

-- 0 is a step of the reaper and 1 and 2 are steps of the two threads, the last of the list first.
abbrev play : List ℕ → System
play [] = init
play (zero ∷ is) = reap (object 50) (play is)
play (suc i ∷ is) = enqueue (object (50 + i)) (i % 2) (play is)

play-Reach : (is : List ℕ) → Reach 2 (play is)
play-Reach [] = start
play-Reach (zero ∷ is) = by_reaper (play-Reach is) (object 50)
play-Reach (suc i ∷ is) = by_thread (play-Reach is) (object (50 + i)) (i % 2) (omega arith)

-- The reaper goes to sleep, and the first thread links its node.
abbrev linked_run : List ℕ
linked_run = 1 ∷ 1 ∷ 1 ∷ 1 ∷ 0 ∷ 0 ∷ []

-- Both threads enqueue, and the reaper takes the queue.
abbrev taken_run : List ℕ
taken_run = 0 ∷ 0 ∷ 0 ∷ 0 ∷ 2 ∷ 2 ∷ 2 ∷ 2 ∷ 2 ∷ 2 ∷ 2 ∷ 1 ∷ 1 ∷ 1 ∷ 1 ∷ 1 ∷ 1 ∷ 1 ∷ []

delivered_in_order_example :
    (play taken_run).mem.linked
    ≡ (play taken_run).mem.delivered
      ++ (in_hand (play taken_run).reaper ++ (play taken_run).mem.queue)
delivered_in_order_example = delivered_in_order (play-Reach taken_run)

no_lost_wakeup_example : (i : ℕ) × (i < 2) × IsFinishing ((play linked_run).pc i)
unfolding reap enqueue
no_lost_wakeup_example = no_lost_wakeup (play-Reach linked_run) refl (cc)

false_alarm_example :
    (s : System) × Reach 2 s
    × (s.mem.errors ≡ 1)
    × (s.mem.linked ≡ 50 ∷ 51 ∷ [])
    × (s.mem.delivered ≡ 50 ∷ 51 ∷ [])
false_alarm_example = false_alarm 2 50 51 (omega arith)

-- Two nodes at 100 and 200 with the threads 50 and 51.
abbrev two_cells : Cells
two_cells = (100, 50) ∷ (200, 51) ∷ []

abbrev two_nodes : Queue
two_nodes = record {
  head = 100;
  tail = 200;
  memory =
      write (write (λ a. none) 100 (some (record { thread = 50; next = 200 }))) 200
        (some (record { thread = 51; next = 0 }));
}

two_nodes-IsQueue : IsQueue two_nodes two_cells
two_nodes-IsQueue = record {
  at_head = refl;
  at_tail = refl;
  linked = (omega arith, refl, refl, (omega arith, refl, refl, tt));
}

append_node-IsQueue_example :
    (q : Queue) × (append_node 300 52 two_nodes ≡ some q)
    × IsQueue q ((100, 50) ∷ (200, 51) ∷ (300, 52) ∷ [])
append_node-IsQueue_example = append_node-IsQueue 300 52 two_nodes-IsQueue (omega arith) refl
