-- ===== src/StatPool/Counted.antt =====
-- homework/statistic_file_with_thread_pool.c: the counts that `main` prints.
use linux_coding.Common.{
  ℕ, zero, suc, ◌+◌, ◌≤◌, ◌≡◌, refl, sym, ap, subst, false, Option, none, List, [], ◌∷◌, arith,
  length, length-replicate, replicate, All,
}
use linux_coding.StatPool.{
  PathName, queue_max, Queue, FileSystem, Counts, store_task, code_lines, visit_path,
}
use linux_coding.StatPool.Circle.{Holds, store_task_eq, stored-Holds}
use linux_coding.StatPool.Scan.{
  Worker, waiting, System, Runs, sum_paths, entry_total, entries_total, IsTotal,
}
use linux_coding.StatPool.Sum.{Sum, Runs-Sum, workers_total}

-- The static variables before any call.
abbrev pub empty_queue : Queue
empty_queue = record {
  task_queue = replicate queue_max none;
  queue_front = 0;
  queue_rear = 0;
  queue_count = 0;
  done_flag = false;
}

pub empty_queue-Holds : Holds empty_queue []
empty_queue-Holds = record {
  storage = length-replicate {A = Option PathName} queue_max none;
  front = omega arith;
  rear = refl;
  size = refl;
  fits = omega arith;
  content = refl;
}

-- `main` behind its first `enqueue_task`, with `n` workers.
abbrev pub begun : PathName → ℕ → System
begun root n = record {
  queue = (store_task root empty_queue).1;
  workers = replicate n waiting;
  counts = record { file_count = 0; code_count = 0; dir_count = 0 };
  lost = [];
}

begun-Holds : (root : PathName) (n : ℕ) → Holds (begun root n).queue (root ∷ [])
begun-Holds root n =
    subst (λ x. Holds x.1 (root ∷ [])) (sym (store_task_eq root empty_queue (omega arith)))
      (stored-Holds root empty_queue-Holds (omega arith))

no_paths : {n : ℕ} (ps : List PathName) → n ≡ length ps → n ≡ 0 → ps ≡ []
no_paths [] e z = refl
no_paths (p ∷ ps) e z = absurd (omega arith)

-- A worker between two directories, or whose directory has no entry left.
abbrev pub IsFree : Worker → Type 0
IsFree w = (w.entries ≡ []) × (w.copies ≡ [])

module _ (fs : FileSystem) (value W : PathName → ℕ) (counted : Counts → ℕ) where
  free_total : (ws : List Worker) → All IsFree ws → workers_total fs value W counted ws ≡ 0
  free_total [] h = refl
  free_total (w ∷ ws) ((e, c), h) =
      let a = ap (entries_total fs value W w.dir_name) e in
      let b = ap (sum_paths W) c in let rest = free_total ws h in omega arith

  waiting_total : (n : ℕ) → workers_total fs value W counted (replicate n waiting) ≡ 0
  waiting_total zero = refl
  waiting_total (suc n) = let rest = waiting_total n in omega arith

  begun-Sum :
      (root : PathName) (n : ℕ)
      → counted (record { file_count = 0; code_count = 0; dir_count = 0 }) ≡ 0
      → Sum fs value W counted (W root) (begun root n)
  begun-Sum root n z =
      let w = waiting_total n in
      record { queued = root ∷ []; holds = begun-Holds root n; adds = omega arith }

  -- The count is at most the total, and equal to it where nothing is queued, in hand or lost.
  Sum-counted :
      {all : ℕ} {s : System}
      → Sum fs value W counted all s
      → (counted s.counts ≤ all)
        × (s.queue.queue_count ≡ 0 → All IsFree s.workers → s.lost ≡ [] → counted s.counts ≡ all)
  Sum-counted {all} {s} k =
      let a = k.adds in
      (
        omega arith,
        λ q f l.
            let w = free_total s.workers f in
            let e = ap (sum_paths W) l in
            let h = k.holds in
            let n = no_paths k.queued (h.size) q in let z = ap (sum_paths W) n in omega arith,
      )

file_law :
    (fs : FileSystem) (W : PathName → ℕ) (path : PathName) (c : Counts)
    → let (c', copies) = visit_path fs path c in
      c'.file_count + sum_paths W copies ≡ c.file_count + entry_total fs (λ p. 1) W path
unfolding visit_path
file_law fs W path c = ground arith

code_law :
    (fs : FileSystem) (W : PathName → ℕ) (path : PathName) (c : Counts)
    → let (c', copies) = visit_path fs path c in
      c'.code_count + sum_paths W copies ≡ c.code_count + entry_total fs (code_lines fs) W path
unfolding visit_path
code_law fs W path c = ground arith

-- `files path` and `lines path` are the number of files below the directory `path` and of their
-- lines of code: the sums over its entries that the file system lists. Then, in every interleaving
-- of `n` workers that `main` starts on `root`, the program has counted at most all files and all
-- lines of code below `root`; and it has counted all of them where the queue is empty, no worker
-- has a directory in hand, and no path was freed because the queue was full and `done_flag` set.
pub worker_counts :
    (fs : FileSystem) (files lines : PathName → ℕ) (root : PathName) (n : ℕ) {s : System}
    → IsTotal fs (λ p. 1) files
    → IsTotal fs (code_lines fs) lines
    → Runs fs (begun root n) s
    → (s.counts.file_count ≤ files root)
      × (s.counts.code_count ≤ lines root)
      × (s.queue.queue_count ≡ 0
          → All IsFree s.workers
          → s.lost ≡ []
          → (s.counts.file_count ≡ files root) × (s.counts.code_count ≡ lines root))
worker_counts fs files lines root n {s} tf tl r =
    let f =
      Sum-counted fs (λ p. 1) files (λ c. c.file_count)
        (Runs-Sum fs (λ p. 1) files (λ c. c.file_count) tf (file_law fs files)
          (begun-Sum fs (λ p. 1) files (λ c. c.file_count) root n refl) r) in
    let l =
      Sum-counted fs (code_lines fs) lines (λ c. c.code_count)
        (Runs-Sum fs (code_lines fs) lines (λ c. c.code_count) tl (code_law fs lines)
          (begun-Sum fs (code_lines fs) lines (λ c. c.code_count) root n refl) r) in
    (f.0, l.0, λ q w e. (f.1 q w e, l.1 q w e))
