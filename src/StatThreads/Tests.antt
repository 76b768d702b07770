-- ===== src/StatThreads/Tests.antt =====
-- The threads on the directory of the tests of the pool.
use linux_coding.Common.{◌≡◌, ◌≢◌, refl, Option, none, some, List, [], ◌∷◌, All, false}
use linux_coding.StatPool.{PathName, fetch_task, store_task, Mode, is_dot, full_path}
use linux_coding.StatPool.Scan.{waiting}
use linux_coding.StatPool.Counted.{IsFree}
use linux_coding.StatPool.Tests.{
  root, disk, files, lines, files-IsTotal, lines-IsTotal, whole_run, at, one_file,
}
use linux_coding.StatThreads.{
  Count, show_dir, show_entries, show_entry, show_mode, join_children, has_suffix, code_counter,
  count_lines,
}
use linux_coding.StatThreads.Agree.{Levels, files_of, lines_of, show_dir-worker_counts}

one_thread :
    show_dir disk 1 root ≡ some (some (record { dir_count = 0; file_count = 1; code_count = 2 }))
unfolding show_dir show_entries show_entry show_mode join_children full_path has_suffix code_counter
    count_lines
one_thread = refl

-- All entries of the test's directory are files.
root-Levels : Levels disk 1 root
root-Levels listing e = all_files listing
  where
    all_files :
        (listing : List PathName)
        → All
            (λ d_name.
              (is_dot d_name ≡ false
                → disk.stat (full_path root d_name) ≡ some Mode.directory
                → disk.opendir (full_path root d_name) ≡ none))
            listing
    all_files [] = tt
    all_files (d_name ∷ listing) = (
      (λ dot f. absurd (let no : some Mode.regular ≢ some Mode.directory = λ g. cc in no f)),
      all_files listing,
    )

queue_empty : (at waiting one_file).queue.queue_count ≡ 0
unfolding fetch_task store_task
queue_empty = refl

workers-IsFree : All IsFree (waiting ∷ [])
workers-IsFree = ((refl, refl), tt)

show_dir-worker_counts_example :
    (o : Option Count) × (show_dir disk 2 root ≡ some o) × (files_of o ≡ 1) × (lines_of o ≡ 2)
show_dir-worker_counts_example =
    show_dir-worker_counts disk files lines root 1 1 {s = at waiting one_file} files-IsTotal
      lines-IsTotal root-Levels whole_run queue_empty workers-IsFree refl
