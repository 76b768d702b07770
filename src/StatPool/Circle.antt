-- ===== src/StatPool/Circle.antt =====
-- homework/statistic_file_with_thread_pool.c: the circular array of the queue, and what a write and
-- a read of it do.
use linux_coding.Common.{
  ℕ, zero, suc, ◌+◌, ◌-◌, ◌%◌, ◌≤◌, ◌<◌, ◌≡◌, refl, sym, ap, ap₂, ◌∙◌, subst, false, Option, none,
  some, List, [], ◌∷◌, ◌++◌, map, arith, length, get_or, set, length-append, length-set,
  get_or-set_self, get_or-set_ne,
}
use linux_coding.StatPool.{PathName, queue_max, Queue, store_task, fetch_task}

-- `n` slots from slot `f` on, around the end.
abbrev pub items : ℕ → ℕ → List (Option PathName) → List (Option PathName)
items zero f q = []
items (suc n) f q = get_or q f none ∷ items n ((f + 1) % queue_max) q

length-items : (n f : ℕ) (q : List (Option PathName)) → length (items n f q) ≡ n
length-items zero f q = refl
length-items (suc n) f q = ap suc (length-items n ((f + 1) % queue_max) q)

items-suc :
    (n f : ℕ) (q : List (Option PathName))
    → f < queue_max
    → items (suc n) f q ≡ items n f q ++ get_or q ((f + n) % queue_max) none ∷ []
items-suc zero f q h =
    let e : (f + 0) % queue_max ≡ f = omega arith in ap (λ k. get_or q k none ∷ []) (sym e)
items-suc (suc n) f q h =
    let e : ((f + 1) % queue_max + n) % queue_max ≡ (f + suc n) % queue_max = omega arith in
    ap (λ l. get_or q f none ∷ l)
      (items-suc n ((f + 1) % queue_max) q (omega arith)
        ∙ ap (λ k. items n ((f + 1) % queue_max) q ++ get_or q k none ∷ []) e)

-- A write to a slot outside of them.
items-set :
    (n f k : ℕ) (q : List (Option PathName)) (x : Option PathName)
    → f < queue_max
    → n + k < queue_max
    → items n f (set q ((f + n + k) % queue_max) x) ≡ items n f q
items-set zero f k q x h g = refl
items-set (suc n) f k q x h g =
    let e : ((f + 1) % queue_max + n + k) % queue_max ≡ (f + suc n + k) % queue_max = omega arith in
    let rest =
      subst (λ r. items n ((f + 1) % queue_max) (set q r x) ≡ items n ((f + 1) % queue_max) q) e
        (items-set n ((f + 1) % queue_max) k q x (omega arith) (omega arith)) in
    ap₂ ◌∷◌ (get_or-set_ne q ((f + suc n + k) % queue_max) f x none (omega arith)) rest

-- The queue holds the paths `ps`, the oldest first.
pub record Holds (q : Queue) (ps : List PathName) : Type 0 where
  pub storage : length q.task_queue ≡ queue_max
  pub front : q.queue_front < queue_max
  pub rear : q.queue_rear ≡ (q.queue_front + q.queue_count) % queue_max
  pub size : q.queue_count ≡ length ps
  pub fits : length ps ≤ queue_max
  pub content : items q.queue_count q.queue_front q.task_queue ≡ map some ps

map-append : (ps qs : List PathName) → map some (ps ++ qs) ≡ map some ps ++ map some qs
map-append [] qs = refl
map-append (p ∷ ps) qs = ap (λ l. some p ∷ l) (map-append ps qs)

-- The queue that `store_task` leaves where there is room.
abbrev pub stored : PathName → Queue → Queue
stored path q = record q {
  task_queue = set q.task_queue q.queue_rear (some path);
  queue_rear = (q.queue_rear + 1) % queue_max;
  queue_count = q.queue_count + 1;
}

stored-content :
    (path : PathName) (n f r : ℕ) (slots : List (Option PathName)) (ps : List PathName)
    → length slots ≡ queue_max
    → f < queue_max
    → n < queue_max
    → r ≡ (f + n) % queue_max
    → items n f slots ≡ map some ps
    → items (n + 1) f (set slots r (some path)) ≡ map some (ps ++ path ∷ [])
stored-content path n f r slots ps hs hf hn hr hc =
    let e : n + 1 ≡ suc n = omega arith in
    let z : (f + n + 0) % queue_max ≡ r = omega arith in
    let same =
      subst (λ k. items n f (set slots k (some path)) ≡ items n f slots) z
        (items-set n f 0 slots (some path) hf (omega arith)) in
    let new : get_or (set slots r (some path)) ((f + n) % queue_max) none ≡ some path =
      subst (λ k. get_or (set slots r (some path)) k none ≡ some path) hr
        (get_or-set_self slots r (some path) none (omega arith)) in
    ap (λ k. items k f (set slots r (some path))) e
    ∙ items-suc n f (set slots r (some path)) hf
    ∙ ap₂ (λ l x. l ++ x ∷ []) (same ∙ hc) new
    ∙ sym (map-append ps (path ∷ []))

pub store_task_eq :
    (path : PathName) (q : Queue)
    → q.queue_count < queue_max
    → store_task path q ≡ (false, stored path q)
unfolding store_task
store_task_eq path q h = ground arith

pub stored-Holds :
    (path : PathName) {q : Queue} {ps : List PathName}
    → Holds q ps
    → length ps < queue_max
    → Holds (stored path q) (ps ++ path ∷ [])
stored-Holds path {q} {ps} h lt =
    let hs = h.storage in
    let hf = h.front in
    let hr = h.rear in
    let hz = h.size in
    let la = length-append ps (path ∷ []) in
    record {
      storage = length-set q.task_queue q.queue_rear (some path) ∙ hs;
      front = hf;
      rear = omega arith;
      size = omega arith;
      fits = omega arith;
      content =
          stored-content path q.queue_count q.queue_front q.queue_rear q.task_queue ps hs hf
            (omega arith) hr h.content;
    }

-- The queue that `fetch_task` leaves where there is a task.
abbrev pub fetched : Queue → Queue
fetched q = record q {
  queue_front = (q.queue_front + 1) % queue_max;
  queue_count = q.queue_count - 1;
}

pub fetch_task_eq :
    (q : Queue)
    → 0 < q.queue_count
    → fetch_task q ≡ (get_or q.task_queue q.queue_front none, fetched q)
unfolding fetch_task
fetch_task_eq q h = ground arith

items_cons :
    (n f : ℕ) (slots : List (Option PathName)) (x : Option PathName) (xs : List (Option PathName))
    → 0 < n
    → items n f slots ≡ x ∷ xs
    → (get_or slots f none ≡ x) × (items (n - 1) ((f + 1) % queue_max) slots ≡ xs)
items_cons zero f slots x xs h e = absurd (omega arith)
items_cons (suc n) f slots x xs h e =
    let k : suc n - 1 ≡ n = omega arith in
    (cc, rw k (let t : items n ((f + 1) % queue_max) slots ≡ xs = cc in t))

pub fetched-Holds :
    {q : Queue} {path : PathName} {ps : List PathName}
    → Holds q (path ∷ ps)
    → (get_or q.task_queue q.queue_front none ≡ some path) × Holds (fetched q) ps
fetched-Holds {q} {path} {ps} h =
    let hf = h.front in
    let hr = h.rear in
    let hz = h.size in
    let hp = h.fits in
    let c =
      items_cons q.queue_count q.queue_front q.task_queue (some path) (map some ps) (omega arith)
        h.content in
    (
      c.0,
      record {
        storage = h.storage;
        front = omega arith;
        rear = omega arith;
        size = omega arith;
        fits = omega arith;
        content = c.1;
      },
    )
