-- ===== src/StatPool/Tests.antt =====
-- A run of homework/statistic_file_with_thread_pool.c on a directory with one source file.
use linux_coding.Common.{
  ℕ, ◌≤◌, ◌<◌, ◌≡◌, refl, Bool, true, false, none, some, List, [], ◌∷◌, length, if◌then◌else◌, ◌==◌,
  wait_while, All, Bool-cases, inl, inr,
}
use linux_coding.StatPool.{
  PathName, queue_max, Queue, Mode, FileSystem, Counts, enqueue_task, dequeue_task, fetch_task,
  store_task, code_lines, is_code, code_counter, full_path, must_wait_not_empty, visit, visit_path,
}
use linux_coding.StatPool.Circle.{Holds}
use linux_coding.StatPool.Fifo.{enqueue_task-Holds, dequeue_task-Holds}
use linux_coding.StatPool.Scan.{Worker, waiting, System, Step, Moves, Runs, IsTotal}
use linux_coding.StatPool.Counted.{empty_queue, empty_queue-Holds, begun, IsFree, worker_counts}

-- The directory `r`.
abbrev pub root : PathName
root = 114 ∷ []

abbrev pub is_root : PathName → Bool
is_root [] = false
is_root (c ∷ []) = c == 114
is_root (c ∷ d ∷ cs) = false

-- It lists itself and `a.c`, which has two lines.
abbrev pub names : List PathName
names = (46 ∷ []) ∷ (97 ∷ 46 ∷ 99 ∷ []) ∷ []

abbrev pub disk : FileSystem
disk = record {
  opendir = λ p. if is_root p then some names else none;
  stat = λ p. some Mode.regular;
  text = λ p. some (120 ∷ 10 ∷ []);
  strdup = λ p. true;
}

abbrev pub files : PathName → ℕ
files p = if is_root p then 1 else 0

abbrev pub lines : PathName → ℕ
lines p = if is_root p then 2 else 0

pub files-IsTotal : IsTotal disk (λ p. 1) files
files-IsTotal [] = refl
files-IsTotal (c ∷ []) = elim (Bool-cases (c == 114)) [ inl e ↦ rw e refl | inr e ↦ rw e refl ]
files-IsTotal (c ∷ d ∷ cs) = refl

pub lines-IsTotal : IsTotal disk (code_lines disk) lines
unfolding code_lines full_path is_code code_counter
lines-IsTotal [] = refl
lines-IsTotal (c ∷ []) = elim (Bool-cases (c == 114)) [ inl e ↦ rw e refl | inr e ↦ rw e refl ]
lines-IsTotal (c ∷ d ∷ cs) = refl

-- The worker has taken the directory, passed `.`, counted `a.c` and closed the directory.
abbrev pub work : List PathName → Worker
work left = record { dir_name = root; entries = left; copies = [] }

abbrev pub none_yet : Counts
none_yet = record { file_count = 0; code_count = 0; dir_count = 0 }

abbrev pub at : Worker → Counts → System
at w c = record {
  queue = (fetch_task (begun root 1).queue).1;
  workers = w ∷ [];
  counts = c;
  lost = [];
}

abbrev pub one_file : Counts
one_file = record { file_count = 1; code_count = 2; dir_count = 0 }

pub whole_run : Runs disk (begun root 1) (at waiting one_file)
unfolding dequeue_task fetch_task store_task visit visit_path code_lines full_path is_code
    code_counter wait_while must_wait_not_empty
whole_run =
    Runs.more {s = at (work []) one_file}
      (Runs.more {s = at (work ((97 ∷ 46 ∷ 99 ∷ []) ∷ [])) none_yet}
        (Runs.more {s = at (work names) none_yet}
          (Runs.more Runs.here (Step.take root refl (Moves.first (refl, refl)) refl refl))
          (Step.entry root (46 ∷ []) ((97 ∷ 46 ∷ 99 ∷ []) ∷ []) (Moves.first (refl, refl)) refl refl
            refl))
        (Step.entry root (97 ∷ 46 ∷ 99 ∷ []) [] (Moves.first (refl, refl)) refl refl refl))
      (Step.closedir root (Moves.first (refl, refl)) refl refl refl)

worker_counts_example :
    (1 ≤ 1)
    × (2 ≤ 2)
    × ((at waiting one_file).queue.queue_count ≡ 0
        → All IsFree (waiting ∷ [])
        → ◌≡◌ {A = List PathName} [] []
        → (1 ≡ files root) × (2 ≡ lines root))
worker_counts_example = worker_counts disk files lines root 1 files-IsTotal lines-IsTotal whole_run

enqueue_task-Holds_example :
    (length {A = PathName} [] < queue_max
      → (q' : Queue) × (enqueue_task [] root empty_queue ≡ some (false, q'))
        × Holds q' (root ∷ [])
        × (q'.done_flag ≡ false))
    × (length {A = PathName} [] ≡ queue_max
        → false ≡ true
        → enqueue_task [] root empty_queue ≡ some (true, empty_queue))
    × (length {A = PathName} [] ≡ queue_max
        → false ≡ false
        → (enqueue_task [] root empty_queue ≡ none)
          × ((w : Queue → Queue)
              → enqueue_task (w ∷ []) root empty_queue ≡ enqueue_task [] root (w empty_queue)))
enqueue_task-Holds_example = enqueue_task-Holds [] root empty_queue-Holds

dequeue_task-Holds_example :
    ((path : PathName) (ps : List PathName)
      → Holds empty_queue (path ∷ ps)
      → (q' : Queue) × (dequeue_task [] empty_queue ≡ some (some path, q'))
        × Holds q' ps
        × (q'.done_flag ≡ false))
    × (Holds empty_queue [] → false ≡ true → dequeue_task [] empty_queue ≡ some (none, empty_queue))
    × (Holds empty_queue []
        → false ≡ false
        → (dequeue_task [] empty_queue ≡ none)
          × ((w : Queue → Queue)
              → dequeue_task (w ∷ []) empty_queue ≡ dequeue_task [] (w empty_queue)))
dequeue_task-Holds_example = dequeue_task-Holds [] {q = empty_queue}
