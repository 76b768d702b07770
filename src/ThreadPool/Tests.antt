-- ===== src/ThreadPool/Tests.antt =====
-- Runs of the thread pool of IPC/socket/Newer/server.c.
use linux_coding.Common.{ℕ, ◌≡◌, refl, true, false, none, some, List, [], ◌∷◌}
use linux_coding.ThreadPool.{
  Task, Heap, write_node, ThreadPool, pool_init, pool_add_task, worker_thread, Round, handle_client,
  request_line, is_exit,
}
use linux_coding.ThreadPool.Queue.{Holds, pool_add_task-Holds, worker_thread-Holds}

abbrev no_nodes : Heap
no_nodes a = none

abbrev fresh_pool : ThreadPool
fresh_pool = record {
  heap = no_nodes;
  task_head = none;
  task_tail = none;
  task_count = 0;
  shutdown = false;
}

pool_init-fresh : pool_init no_nodes ≡ fresh_pool
unfolding pool_init
pool_init-fresh = refl

fresh_pool-Holds : Holds fresh_pool []
fresh_pool-Holds = record { chain = refl; tail = refl; count = refl }

abbrev greet : Task
greet = record { function = 1; arg = 4 }

pool_add_task-Holds_example :
    (q : ThreadPool) × (pool_add_task 64 greet fresh_pool ≡ some q)
    × Holds q ((64, greet) ∷ [])
    × (q.shutdown ≡ false)
pool_add_task-Holds_example = pool_add_task-Holds 64 greet fresh_pool [] fresh_pool-Holds refl

-- The pool with one task.
abbrev one_task : ThreadPool
one_task = record {
  heap = write_node 64 (some (record { task = greet; next = none })) no_nodes;
  task_head = some 64;
  task_tail = some 64;
  task_count = 1;
  shutdown = false;
}

worker_thread-Holds_example :
    (false ≡ true → worker_thread [] one_task ≡ some (Round.ends one_task))
    × ((a : ℕ) (k : Task) (ns : List (ℕ × Task))
        → Holds one_task ((a, k) ∷ ns)
        → false ≡ false
        → (q : ThreadPool) × (worker_thread [] one_task ≡ some (Round.runs k q))
          × Holds q ns
          × (q.heap a ≡ none))
    × (Holds one_task []
        → false ≡ false
        → (worker_thread [] one_task ≡ none)
          × ((w : ThreadPool → ThreadPool)
              → worker_thread (w ∷ []) one_task ≡ worker_thread [] (w one_task)))
worker_thread-Holds_example = worker_thread-Holds [] one_task

-- A client that says "hi\r\n", then "exit\r\n": one message is sent, and the rest is not read.
hi_exit :
    (more : List (List ℕ))
    → handle_client ((104 ∷ 105 ∷ 13 ∷ 10 ∷ []) ∷ (101 ∷ 120 ∷ 105 ∷ 116 ∷ 13 ∷ 10 ∷ []) ∷ more)
      ≡ some 1
unfolding handle_client request_line is_exit
hi_exit more = refl
