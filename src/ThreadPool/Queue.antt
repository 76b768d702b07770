-- ===== src/ThreadPool/Queue.antt =====
-- IPC/socket/Newer/server.c: the pool is a first-in-first-out queue of tasks.
use linux_coding.Common.{
  ℕ, ◌+◌, ◌-◌, ◌<◌, ◌≡◌, ◌≢◌, refl, sym, ap, ◌∙◌, true, false, Option, none, some, List, [], ◌∷◌,
  ◌++◌, arith, length, length-append, All, wait_while-of_false, wait_while-nil, wait_while-of_true,
}
use linux_coding.ThreadPool.{
  Task, TaskNode, Heap, ThreadPool, write_node, pool_add_task, must_wait_task, take_task,
  worker_thread, Round,
}
use linux_coding.ThreadPool.Chain.{
  Chain, last_node, Chain-write, Chain-fresh, Chain-append, write_self,
}

-- The pool holds the tasks of the nodes `ns`, the oldest first.
pub record Holds (p : ThreadPool) (ns : List (ℕ × Task)) : Type 0 where
  pub chain : Chain p.heap p.task_head ns
  pub tail : p.task_tail ≡ last_node ns
  pub count : p.task_count ≡ length ns

last_node-append : (ns : List (ℕ × Task)) (n : ℕ × Task) → last_node (ns ++ n ∷ []) ≡ some n.0
last_node-append [] n = refl
last_node-append (m ∷ []) n = refl
last_node-append (m ∷ o ∷ ns) n = last_node-append (o ∷ ns) n

last_node-some : (n : ℕ × Task) (ns : List (ℕ × Task)) → (t : ℕ) × (last_node (n ∷ ns) ≡ some t)
last_node-some n [] = (n.0, refl)
last_node-some n (m ∷ ns) = last_node-some m ns

none_ne : {t : ℕ} → none ≢ some t
none_ne e = cc

-- The last node of a chain is on the heap.
Chain-last :
    (h : Heap) (o : Option ℕ) (ns : List (ℕ × Task)) {t : ℕ}
    → Chain h o ns
    → last_node ns ≡ some t
    → (x : TaskNode) × (h t ≡ some x)
Chain-last h o [] c e = absurd (none_ne e)
Chain-last h o ((a, k) ∷ []) {t} (e, f, next, at, c) el =
    let same : a ≡ t = cc in (record { task = k; next = next }, ap h (sym same) ∙ at)
Chain-last h o ((a, k) ∷ m ∷ ns) (e, f, next, at, c) el = Chain-last h next (m ∷ ns) c el

-- The pool holds the tasks of the nodes `ns`, and `a` is an address that malloc gave. Then
-- `pool_add_task` uses no node that is not there, and the pool holds the new task behind the others.
pub pool_add_task-Holds :
    (a : ℕ) (k : Task) (p : ThreadPool) (ns : List (ℕ × Task))
    → Holds p ns
    → p.heap a ≡ none
    → (q : ThreadPool) × (pool_add_task a k p ≡ some q)
      × Holds q (ns ++ (a, k) ∷ [])
      × (q.shutdown ≡ p.shutdown)
unfolding pool_add_task
pool_add_task-Holds a k p [] v f =
    let x = some (record { task = k; next = none }) in
    let z = v.count in
    (
      record p {
        heap = write_node a x p.heap;
        task_head = some a;
        task_tail = some a;
        task_count = p.task_count + 1;
      },
      rw (v.tail, pool_add_task) refl,
      record {
        chain = (refl, tt, none, write_self a x p.heap, refl);
        tail = refl;
        count = omega arith;
      },
      refl,
    )
pool_add_task-Holds a k p (n ∷ ns) v f =
    let x = some (record { task = k; next = none }) in
    let h = write_node a x p.heap in
    let fresh = Chain-fresh p.heap a p.task_head (n ∷ ns) f v.chain in
    let c = Chain-write p.heap a x p.task_head (n ∷ ns) fresh v.chain in
    let (t, el) = last_node-some n ns in
    let (last, at) = Chain-last h p.task_head (n ∷ ns) c el in
    let z = v.count in
    let l = length-append (n ∷ ns) ((a, k) ∷ []) in
    (
      record p {
        heap = write_node t (some (record last { next = some a })) h;
        task_tail = some a;
        task_count = p.task_count + 1;
      },
      rw (v.tail ∙ el, at, pool_add_task) refl,
      record {
        chain = Chain-append h a t k last p.task_head n ns c fresh el at (write_self a x p.heap);
        tail = sym (last_node-append (n ∷ ns) (a, k));
        count = omega arith;
      },
      refl,
    )

-- The outcomes of the wait.
goes_on : (p : ThreadPool) → p.shutdown ≡ true → must_wait_task p ≡ false
unfolding must_wait_task
goes_on p h = ground arith

has_task : (p : ThreadPool) → 0 < p.task_count → must_wait_task p ≡ false
unfolding must_wait_task
has_task p h = ground arith

waits : (p : ThreadPool) → p.task_count ≡ 0 → p.shutdown ≡ false → must_wait_task p ≡ true
unfolding must_wait_task
waits p h s = ground arith

take_shutdown : (p : ThreadPool) → p.shutdown ≡ true → take_task p ≡ Round.ends p
unfolding take_task
take_shutdown p h = rw (h, take_task) refl

-- The pool that a round leaves which takes the node at `a`.
abbrev left_by : ℕ → Option ℕ → ThreadPool → ThreadPool
left_by a next p = record p {
  heap = write_node a none p.heap;
  task_head = next;
  task_tail = elim next [ none ↦ none | some n ↦ p.task_tail ];
  task_count = p.task_count - 1;
}

take_task_eq :
    (p : ThreadPool) (a : ℕ) (k : Task) (next : Option ℕ)
    → p.shutdown ≡ false
    → p.task_head ≡ some a
    → p.heap a ≡ some (record { task = k; next = next })
    → take_task p ≡ Round.runs k (left_by a next p)
unfolding take_task
take_task_eq p a k next s e at = ground arith

left_by-Holds :
    (p : ThreadPool) (a : ℕ) (k : Task) (ns : List (ℕ × Task)) (next : Option ℕ)
    → Holds p ((a, k) ∷ ns)
    → All (λ n. n.0 ≢ a) ns
    → Chain p.heap next ns
    → Holds (left_by a next p) ns
left_by-Holds p a k [] next v fresh c =
    let z = v.count in record { chain = c; tail = rw c refl; count = omega arith }
left_by-Holds p a k ((b, j) ∷ ns) next v fresh c =
    let z = v.count in
    record {
      chain = Chain-write p.heap a none next ((b, j) ∷ ns) fresh c;
      tail = rw (c.0) (v.tail);
      count = omega arith;
    }

-- The pool holds the tasks of the nodes `ns`. A worker whose pool is shut down ends, whatever tasks
-- are left. Otherwise, where there is a task, it takes the oldest without a wait, uses no node that
-- is not there, frees its node, and the pool holds the others; and where there is none, it waits,
-- and goes on from what a wake left.
pub worker_thread-Holds :
    (wakes : List (ThreadPool → ThreadPool)) (p : ThreadPool)
    → (p.shutdown ≡ true → worker_thread wakes p ≡ some (Round.ends p))
      × ((a : ℕ) (k : Task) (ns : List (ℕ × Task))
          → Holds p ((a, k) ∷ ns)
          → p.shutdown ≡ false
          → (q : ThreadPool) × (worker_thread wakes p ≡ some (Round.runs k q))
            × Holds q ns
            × (q.heap a ≡ none))
      × (Holds p []
          → p.shutdown ≡ false
          → (worker_thread [] p ≡ none)
            × ((w : ThreadPool → ThreadPool)
                → worker_thread (w ∷ wakes) p ≡ worker_thread wakes (w p)))
unfolding worker_thread
worker_thread-Holds wakes p = (
  λ s. rw (wait_while-of_false must_wait_task wakes p (goes_on p s)) (ap some (take_shutdown p s)),
  λ a k ns v s.
      let z = v.count in
      let (e, fresh, next, at, c) = v.chain in
      (
        left_by a next p,
        rw (wait_while-of_false must_wait_task wakes p (has_task p (omega arith)))
            (ap some (take_task_eq p a k next s e at)),
        left_by-Holds p a k ns next v fresh c,
        write_self a none p.heap,
      ),
  λ v s.
      let z = v.count in
      (
        rw (wait_while-nil must_wait_task p (waits p z s)) refl,
        λ w. rw (wait_while-of_true must_wait_task w wakes p (waits p z s)) refl,
      ),
)
