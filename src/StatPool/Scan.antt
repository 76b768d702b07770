-- ===== src/StatPool/Scan.antt =====
-- homework/statistic_file_with_thread_pool.c: what the workers count, in any interleaving.
use linux_coding.Common.{
  ℕ, ◌+◌, ◌≡◌, true, false, Option, none, some, List, [], ◌∷◌, ◌++◌, arith, if◌then◌else◌,
}
use linux_coding.StatPool.{
  PathName, Queue, Mode, FileSystem, Counts, enqueue_task, dequeue_task, set_done, is_dot,
  full_path, visit,
}

-- A worker: the directory it scans, the entries left, and the copy it has to put into the queue.
pub record Worker : Type 0 where
  pub dir_name : PathName
  pub entries : List PathName
  pub copies : List PathName

abbrev pub waiting : Worker
waiting = record { dir_name = []; entries = []; copies = [] }

-- `lost` lists the paths that `enqueue_task` freed.
pub record System : Type 0 where
  pub queue : Queue
  pub workers : List Worker
  pub counts : Counts
  pub lost : List PathName

-- One worker of the list moves.
pub data Moves (P : Worker → Worker → Type 0) : List Worker → List Worker → Type 0 where
  first : {v w : Worker} {ws : List Worker} → P v w → Moves P (v ∷ ws) (w ∷ ws)
  later : {v : Worker} {ws ws' : List Worker} → Moves P ws ws' → Moves P (v ∷ ws) (v ∷ ws')

-- The entries that `worker` goes through: none where `opendir` fails.
abbrev pub listed : Option (List PathName) → List PathName
listed none = []
listed (some names) = names

pub data Step (fs : FileSystem) (s t : System) : Type 0 where
  take :
      (path : PathName)
      → dequeue_task [] s.queue ≡ some (some path, t.queue)
      → Moves
          (λ v w.
            (v ≡ waiting)
            × (w ≡ record { dir_name = path; entries = listed (fs.opendir path); copies = [] }))
          s.workers
          t.workers
      → t.counts ≡ s.counts
      → t.lost ≡ s.lost
      → Step fs s t
  entry :
      (dir d_name : PathName) (names : List PathName)
      → Moves
          (λ v w.
            (v ≡ record { dir_name = dir; entries = d_name ∷ names; copies = [] })
            × (w ≡ record {
              dir_name = dir;
              entries = names;
              copies = (visit fs dir d_name s.counts).1;
            }))
          s.workers
          t.workers
      → t.counts ≡ (visit fs dir d_name s.counts).0
      → t.queue ≡ s.queue
      → t.lost ≡ s.lost
      → Step fs s t
  put :
      (dir path : PathName) (names : List PathName)
      → enqueue_task [] path s.queue ≡ some (false, t.queue)
      → Moves
          (λ v w.
            (v ≡ record { dir_name = dir; entries = names; copies = path ∷ [] })
            × (w ≡ record { dir_name = dir; entries = names; copies = [] }))
          s.workers
          t.workers
      → t.counts ≡ s.counts
      → t.lost ≡ s.lost
      → Step fs s t
  drop :
      (dir path : PathName) (names : List PathName)
      → enqueue_task [] path s.queue ≡ some (true, t.queue)
      → Moves
          (λ v w.
            (v ≡ record { dir_name = dir; entries = names; copies = path ∷ [] })
            × (w ≡ record { dir_name = dir; entries = names; copies = [] }))
          s.workers
          t.workers
      → t.counts ≡ s.counts
      → t.lost ≡ path ∷ s.lost
      → Step fs s t
  closedir :
      (dir : PathName)
      → Moves
          (λ v w. (v ≡ record { dir_name = dir; entries = []; copies = [] }) × (w ≡ waiting))
          s.workers
          t.workers
      → t.queue ≡ s.queue
      → t.counts ≡ s.counts
      → t.lost ≡ s.lost
      → Step fs s t
  done :
      t.queue ≡ set_done s.queue
      → t.workers ≡ s.workers
      → t.counts ≡ s.counts
      → t.lost ≡ s.lost
      → Step fs s t

pub data Runs (fs : FileSystem) (start : System) : System → Type 0 where
  here : Runs fs start start
  more : {s t : System} → Runs fs start s → Step fs s t → Runs fs start t

module _ (W : PathName → ℕ) where
  abbrev pub sum_paths : List PathName → ℕ
  sum_paths [] = 0
  sum_paths (p ∷ ps) = W p + sum_paths ps

  pub sum_paths-append :
      (ps qs : List PathName) → sum_paths (ps ++ qs) ≡ sum_paths ps + sum_paths qs
  sum_paths-append [] qs = omega arith
  sum_paths-append (p ∷ ps) qs = omega (arith, sum_paths-append ps qs)

-- What a path that is no dot entry adds to a total: a file its value, a directory all below it.
abbrev pub entry_total : FileSystem → (PathName → ℕ) → (PathName → ℕ) → PathName → ℕ
entry_total fs value W path = elim (fs.stat path) [
  | none ↦ 0
  | some Mode.regular ↦ value path
  | some Mode.directory ↦ if fs.strdup path then W path else 0
  | some Mode.link ↦ 0
  | some Mode.other ↦ 0
]

abbrev pub entries_total :
    FileSystem → (PathName → ℕ) → (PathName → ℕ) → PathName → List PathName → ℕ
entries_total fs value W dir [] = 0
entries_total fs value W dir (d_name ∷ names) =
    let rest = entries_total fs value W dir names in
    if is_dot d_name then rest else entry_total fs value W (full_path dir d_name) + rest

-- `W path` is the sum of the values of all files below the directory `path`.
abbrev pub IsTotal : FileSystem → (PathName → ℕ) → (PathName → ℕ) → Type 0
IsTotal fs value W =
    (path : PathName) → W path ≡ entries_total fs value W path (listed (fs.opendir path))
