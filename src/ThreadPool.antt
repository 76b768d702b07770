-- ===== src/ThreadPool.antt =====
-- IPC/socket/Newer/server.c: the thread pool of the server, whose tasks are a linked list on the
-- heap. An address is a number, and `none` is NULL; the heap maps an address to the node there.
pub mod Chain
pub mod Queue
mod Tests
use mathlib.Core.Option
use linux_coding.Common.{
  ℕ, ◌+◌, ◌-◌, Bool, true, false, not, ◌&&◌, ◌||◌, Option, none, some, List, [], ◌∷◌, ◌==◌,
  if◌then◌else◌, wait_while,
}

-- `task_t`: the function and its argument.
pub record Task : Type 0 where
  pub function : ℕ
  pub arg : ℕ

-- `task_node_t`.
pub record TaskNode : Type 0 where
  pub task : Task
  pub next : Option ℕ

abbrev pub Heap : Type 0
Heap = ℕ → Option TaskNode

-- `thread_pool_t`, and the heap.
pub record ThreadPool : Type 0 where
  pub heap : Heap
  pub task_head : Option ℕ
  pub task_tail : Option ℕ
  pub task_count : ℕ
  pub shutdown : Bool

-- A write to the node at an address; `none` frees it.
abbrev pub write_node : ℕ → Option TaskNode → Heap → Heap
write_node a n h b = if b == a then n else h b

unfoldable pub pool_init : Heap → ThreadPool
pool_init h = record {
  heap = h;
  task_head = none;
  task_tail = none;
  task_count = 0;
  shutdown = false;
}

-- `malloc` gives the address `node`; the result `none` is a use of a node that is not there.
unfoldable pub pool_add_task : ℕ → Task → ThreadPool → Option ThreadPool
pool_add_task node task p =
    let h = write_node node (some (record { task = task; next = none })) p.heap in
    elim (p.task_tail) [
      | none ↦ some (record p {
        heap = h;
        task_head = some node;
        task_tail = some node;
        task_count = p.task_count + 1;
      })
      | some tail ↦ elim (h tail) [
        | none ↦ none
        | some last ↦ some (record p {
          heap = write_node tail (some (record last { next = some node })) h;
          task_tail = some node;
          task_count = p.task_count + 1;
        })
      ]
    ]

unfoldable pub must_wait_task : ThreadPool → Bool
must_wait_task p = (p.task_count == 0) && not p.shutdown

-- What a round of `worker_thread` comes to: the thread ends, it runs a task, or it uses a node that
-- is not there.
pub data Round : Type 0 where
  ends : ThreadPool → Round
  runs : Task → ThreadPool → Round
  faults : Round

-- A round behind its wait; the node is freed at its end.
unfoldable pub take_task : ThreadPool → Round
take_task p = if p.shutdown then Round.ends p else elim (p.task_head) [
  | none ↦ Round.faults
  | some head ↦ elim (p.heap head) [
    | none ↦ Round.faults
    | some node ↦ Round.runs (node.task) (record p {
      heap = write_node head none p.heap;
      task_head = node.next;
      task_tail = elim (node.next) [ none ↦ none | some n ↦ p.task_tail ];
      task_count = p.task_count - 1;
    })
  ]
]

unfoldable pub worker_thread : List (ThreadPool → ThreadPool) → ThreadPool → Option Round
worker_thread wakes p = Option.map take_task (wait_while must_wait_task wakes p)

-- `buf[strcspn(buf, "\r\n")] = '\0'`, and the text that `buf` then holds.
unfoldable pub request_line : List ℕ → List ℕ
request_line [] = []
request_line (c ∷ cs) =
    let rest = request_line cs in if (c == 0) || (c == 10) || (c == 13) then [] else c ∷ rest

-- `strcmp(buf, "exit") == 0`.
unfoldable pub is_exit : List ℕ → Bool
is_exit (a ∷ b ∷ c ∷ d ∷ []) = (a == 101) && (b == 120) && (c == 105) && (d == 116)
is_exit _ = false

-- `handle_client`: `reads` are the bytes that each `read` gives, none where `size <= 0`. The result is
-- the number of messages sent when the descriptor is closed; `none` is a call that still reads.
unfoldable pub handle_client : List (List ℕ) → Option ℕ
handle_client [] = none
handle_client ([] ∷ reads) = some 0
handle_client ((c ∷ cs) ∷ reads) =
    let rest = handle_client reads in
    if is_exit (request_line (c ∷ cs)) then some 0 else Option.map (λ n. n + 1) rest
