-- ===== src/StatPool/Fifo.antt =====
-- homework/statistic_file_with_thread_pool.c: the circular queue is a bounded first-in-first-out
-- queue.
use linux_coding.Common.{
  ◌<◌, ◌≡◌, refl, ap, ◌∙◌, true, false, none, some, List, [], ◌∷◌, ◌++◌, arith, length,
  wait_while-of_false, wait_while-nil, wait_while-of_true,
}
use linux_coding.StatPool.{
  PathName, queue_max, Queue, must_wait_not_full, store_task, enqueue_task, must_wait_not_empty,
  fetch_task, dequeue_task,
}
use linux_coding.StatPool.Circle.{
  Holds, stored, store_task_eq, stored-Holds, fetched, fetch_task_eq, fetched-Holds,
}

-- The outcomes of the two waits.
not_full : (q : Queue) → q.queue_count < queue_max → must_wait_not_full q ≡ false
unfolding must_wait_not_full
not_full q h = ground arith

all_done : (q : Queue) → q.done_flag ≡ true → must_wait_not_full q ≡ false
unfolding must_wait_not_full
all_done q h = ground arith

full : (q : Queue) → q.queue_count ≡ queue_max → q.done_flag ≡ false → must_wait_not_full q ≡ true
unfolding must_wait_not_full
full q h d = ground arith

store_task_full :
    (path : PathName) (q : Queue) → q.queue_count ≡ queue_max → store_task path q ≡ (true, q)
unfolding store_task
store_task_full path q h = ground arith

not_empty : (q : Queue) → 0 < q.queue_count → must_wait_not_empty q ≡ false
unfolding must_wait_not_empty
not_empty q h = ground arith

none_left : (q : Queue) → q.done_flag ≡ true → must_wait_not_empty q ≡ false
unfolding must_wait_not_empty
none_left q h = ground arith

empty : (q : Queue) → q.queue_count ≡ 0 → q.done_flag ≡ false → must_wait_not_empty q ≡ true
unfolding must_wait_not_empty
empty q h d = ground arith

fetch_task_empty : (q : Queue) → q.queue_count ≡ 0 → fetch_task q ≡ (none, q)
unfolding fetch_task
fetch_task_empty q h = ground arith

-- The queue holds the paths `ps`, the oldest first. Where it is not full, `enqueue_task` returns
-- without a wait, keeps the path and puts it behind the others. Where it is full and `done_flag` is
-- set, it returns without a wait, and frees the path, and nothing changes. Where it is full and
-- `done_flag` is not set, it waits, and goes on from what a wake left.
pub enqueue_task-Holds :
    (wakes : List (Queue → Queue)) (path : PathName) {q : Queue} {ps : List PathName}
    → Holds q ps
    → (length ps < queue_max
        → (q' : Queue) × (enqueue_task wakes path q ≡ some (false, q'))
          × Holds q' (ps ++ path ∷ [])
          × (q'.done_flag ≡ q.done_flag))
      × (length ps ≡ queue_max → q.done_flag ≡ true → enqueue_task wakes path q ≡ some (true, q))
      × (length ps ≡ queue_max
          → q.done_flag ≡ false
          → (enqueue_task [] path q ≡ none)
            × ((w : Queue → Queue)
                → enqueue_task (w ∷ wakes) path q ≡ enqueue_task wakes path (w q)))
unfolding enqueue_task
enqueue_task-Holds wakes path {q} {ps} h =
    let hz = h.size in
    (
      λ lt. (
        stored path q,
        rw (wait_while-of_false must_wait_not_full wakes q (not_full q (omega arith)))
            (ap some (store_task_eq path q (omega arith))),
        stored-Holds path h lt,
        refl,
      ),
      λ eq d.
          rw (wait_while-of_false must_wait_not_full wakes q (all_done q d))
            (ap some (store_task_full path q (omega arith))),
      λ eq d. (
        rw (wait_while-nil must_wait_not_full q (full q (omega arith) d)) refl,
        λ w. rw (wait_while-of_true must_wait_not_full w wakes q (full q (omega arith) d)) refl,
      ),
    )

-- The queue holds the paths `ps`, the oldest first. Where there is one, `dequeue_task` returns the
-- oldest without a wait, and the queue holds the others. Where there is none and `done_flag` is set,
-- it returns NULL without a wait, and nothing changes. Where there is none and `done_flag` is not
-- set, it waits, and goes on from what a wake left.
pub dequeue_task-Holds :
    (wakes : List (Queue → Queue)) {q : Queue}
    → ((path : PathName) (ps : List PathName)
        → Holds q (path ∷ ps)
        → (q' : Queue) × (dequeue_task wakes q ≡ some (some path, q'))
          × Holds q' ps
          × (q'.done_flag ≡ q.done_flag))
      × (Holds q [] → q.done_flag ≡ true → dequeue_task wakes q ≡ some (none, q))
      × (Holds q []
          → q.done_flag ≡ false
          → (dequeue_task [] q ≡ none)
            × ((w : Queue → Queue) → dequeue_task (w ∷ wakes) q ≡ dequeue_task wakes (w q)))
unfolding dequeue_task
dequeue_task-Holds wakes {q} = (
  λ path ps h.
      let hz = h.size in
      let c = fetched-Holds h in
      (
        fetched q,
        rw (wait_while-of_false must_wait_not_empty wakes q (not_empty q (omega arith)))
            (ap some (fetch_task_eq q (omega arith) ∙ ap (λ x. (x, fetched q)) c.0)),
        c.1,
        refl,
      ),
  λ h d.
      let hz = h.size in
      rw (wait_while-of_false must_wait_not_empty wakes q (none_left q d))
        (ap some (fetch_task_empty q (omega arith))),
  λ h d.
      let hz = h.size in
      (
        rw (wait_while-nil must_wait_not_empty q (empty q (omega arith) d)) refl,
        λ w. rw (wait_while-of_true must_wait_not_empty w wakes q (empty q (omega arith) d)) refl,
      ),
)
