-- ===== src/StatPool.antt =====
-- homework/statistic_file_with_thread_pool.c: a bounded circular queue of directory paths, the pool
-- of workers that scan them, and the counts. Text is a list of character codes; the file system and
-- strdup are arguments.
pub mod Circle
pub mod Fifo
pub mod Calls
pub mod Scan
pub mod Sum
pub mod Counted
pub mod Tests
use mathlib.Core.Option
use linux_coding.Common.{
  ℕ, zero, suc, ◌+◌, ◌-◌, ◌%◌, Bool, true, false, not, ◌&&◌, ◌||◌, Option, none, some, List, [],
  ◌∷◌, ◌++◌, ◌==◌, leb, ltb, if◌then◌else◌, length, get_or, set, take, wait_while,
}

abbrev pub PathName : Type 0
PathName = List ℕ

-- `QUEUE_MAX`.
abbrev pub queue_max : ℕ
queue_max = 1024

-- The static variables of the queue; a slot that was never written is `none` (NULL).
pub record Queue : Type 0 where
  pub task_queue : List (Option PathName)
  pub queue_front : ℕ
  pub queue_rear : ℕ
  pub queue_count : ℕ
  pub done_flag : Bool

unfoldable pub must_wait_not_full : Queue → Bool
must_wait_not_full q = leb queue_max q.queue_count && not q.done_flag

-- Behind the wait: `true` where the path is freed and not stored.
unfoldable pub store_task : PathName → Queue → Bool × Queue
store_task path q =
    if ltb q.queue_count queue_max
    then (
      false,
      record q {
        task_queue = set q.task_queue q.queue_rear (some path);
        queue_rear = (q.queue_rear + 1) % queue_max;
        queue_count = q.queue_count + 1;
      },
    )
    else (true, q)

unfoldable pub enqueue_task : List (Queue → Queue) → PathName → Queue → Option (Bool × Queue)
enqueue_task wakes path q = Option.map (store_task path) (wait_while must_wait_not_full wakes q)

unfoldable pub must_wait_not_empty : Queue → Bool
must_wait_not_empty q = (q.queue_count == 0) && not q.done_flag

-- Behind the wait: the path, `none` for NULL.
unfoldable pub fetch_task : Queue → Option PathName × Queue
fetch_task q =
    if ltb 0 q.queue_count
    then (
      get_or q.task_queue q.queue_front none,
      record q { queue_front = (q.queue_front + 1) % queue_max; queue_count = q.queue_count - 1 },
    )
    else (none, q)

unfoldable pub dequeue_task : List (Queue → Queue) → Queue → Option (Option PathName × Queue)
dequeue_task wakes q = Option.map fetch_task (wait_while must_wait_not_empty wakes q)

unfoldable pub set_done : Queue → Queue
set_done q = record q { done_flag = true }

-- `code_counter`: the lines of a file, from what `fopen` and `fgetc` give (`none` where it cannot be
-- opened).
abbrev pub newlines : List ℕ → ℕ
newlines [] = 0
newlines (ch ∷ cs) = let rest = newlines cs in if ch == 10 then rest + 1 else rest

unfoldable pub code_counter : Option (List ℕ) → ℕ
code_counter none = 0
code_counter (some text) = newlines text + 1

-- What `stat` says an entry is.
pub data Mode : Type 0 where
  regular : Mode
  directory : Mode
  link : Mode
  other : Mode

-- `opendir` and `readdir`, `stat`, the text of a file, and whether `strdup` has memory.
pub record FileSystem : Type 0 where
  pub opendir : PathName → Option (List PathName)
  pub stat : PathName → Option Mode
  pub text : PathName → Option (List ℕ)
  pub strdup : PathName → Bool

pub record Counts : Type 0 where
  pub file_count : ℕ
  pub code_count : ℕ
  pub dir_count : ℕ

-- `strcmp(d_name, ".") == 0 || strcmp(d_name, "..") == 0`.
abbrev pub is_dot : PathName → Bool
is_dot [] = false
is_dot (c ∷ []) = c == 46
is_dot (c ∷ d ∷ []) = (c == 46) && (d == 46)
is_dot (c ∷ d ∷ e ∷ cs) = false

-- `snprintf(full_path, sizeof(full_path), "%s/%s", dir_name, dirent->d_name)`.
unfoldable pub full_path : PathName → PathName → PathName
full_path dir_name d_name = take 1023 (dir_name ++ 47 ∷ d_name)

-- More than two characters, the last two `.c` or `.h`.
unfoldable pub is_code : PathName → Bool
is_code path =
    let len = length path in
    let ch = get_or path (len - 1) 0 in
    ltb 2 len && (get_or path (len - 2) 0 == 46) && ((ch == 99) || (ch == 104))

unfoldable pub code_lines : FileSystem → PathName → ℕ
code_lines fs path = if is_code path then code_counter (fs.text path) else 0

-- One entry of a directory: the counts, and the path to be put into the queue, if any.
unfoldable pub visit_path : FileSystem → PathName → Counts → Counts × List PathName
visit_path fs path c = elim (fs.stat path) [
  | none ↦ (c, [])
  | some Mode.regular ↦ (
    record c { file_count = c.file_count + 1; code_count = c.code_count + code_lines fs path },
    [],
  )
  | some Mode.directory ↦
      (record c { dir_count = c.dir_count + 1 }, if fs.strdup path then path ∷ [] else [])
  | some Mode.link ↦ (c, [])
  | some Mode.other ↦ (c, [])
]

unfoldable pub visit : FileSystem → PathName → PathName → Counts → Counts × List PathName
visit fs dir_name d_name c =
    if is_dot d_name then (c, []) else visit_path fs (full_path dir_name d_name) c
