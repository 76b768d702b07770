-- ===== src/StatPool/Calls.antt =====
-- homework/statistic_file_with_thread_pool.c: what a call on the queue that came back has done.
use linux_coding.Common.{
  ◌≡◌, ◌⊎◌, inl, inr, ap, sym, ◌≢◌, Option, subst, Bool, true, false, none, some, List, [], ◌∷◌,
  ◌++◌, arith, length, Bool-cases, ltb,
}
use linux_coding.StatPool.{PathName, queue_max, Queue, enqueue_task, dequeue_task, set_done}
use linux_coding.StatPool.Circle.{Holds}
use linux_coding.StatPool.Fifo.{enqueue_task-Holds, dequeue_task-Holds}

-- Two outcomes of one call are the same.
same_out :
    {A : Type 0} {o : Option (A × Queue)} {a b : A} {q q' : Queue}
    → o ≡ some (a, q)
    → o ≡ some (b, q')
    → (a ≡ b) × (q ≡ q')
same_out e f = (cc, cc)

no_out : {A : Type 0} {o : Option A} {a : A} → o ≡ none → o ≢ some a
no_out e f = cc

some_ne : {A : Type 0} {a : A} → none ≢ some a
some_ne e = cc

pub dequeue_task_inv :
    {q q' : Queue} {path : PathName} (ps : List PathName)
    → Holds q ps
    → dequeue_task [] q ≡ some (some path, q')
    → (rest : List PathName) × (ps ≡ path ∷ rest) × Holds q' rest
dequeue_task_inv {q} {q'} {path} [] h e = elim (Bool-cases q.done_flag) [
  | inl d ↦ absurd (some_ne (same_out ((dequeue_task-Holds [] {q = q}).1 h d) e).0)
  | inr d ↦ absurd (no_out ((dequeue_task-Holds [] {q = q}).2 h d).0 e)
]
dequeue_task_inv {q} {q'} {path} (p ∷ ps) h e =
    let (q'', f, k, d) = (dequeue_task-Holds [] {q = q}).0 p ps h in
    let (g, z) = same_out f e in
    let same : p ≡ path = cc in (ps, ap (λ x. x ∷ ps) same, subst (λ x. Holds x ps) z k)

pub enqueue_task_inv :
    {q q' : Queue} (path : PathName) {freed : Bool} (ps : List PathName)
    → Holds q ps
    → enqueue_task [] path q ≡ some (freed, q')
    → ((freed ≡ false) × Holds q' (ps ++ path ∷ [])) ⊎ ((freed ≡ true) × (q' ≡ q))
enqueue_task_inv {q} {q'} path {freed} ps h e = elim (Bool-cases (ltb (length ps) queue_max)) [
  | inl lt ↦
      let (q'', f, k, d) = (enqueue_task-Holds [] path {q = q} h).0 (ground arith) in
      let (g, z) = same_out f e in inl (sym g, subst (λ x. Holds x (ps ++ path ∷ [])) z k)
  | inr ge ↦
      let le = h.fits in
      let eq : length ps ≡ queue_max = ground arith in
      elim (Bool-cases q.done_flag) [
        | inl d ↦
            let (g, z) = same_out ((enqueue_task-Holds [] path {q = q} h).1 eq d) e in
            inr (sym g, sym z)
        | inr d ↦ absurd (no_out ((enqueue_task-Holds [] path {q = q} h).2 eq d).0 e)
      ]
]

pub set_done-Holds : {q : Queue} {ps : List PathName} → Holds q ps → Holds (set_done q) ps
unfolding set_done
set_done-Holds h = record {
  storage = h.storage;
  front = h.front;
  rear = h.rear;
  size = h.size;
  fits = h.fits;
  content = h.content;
}
