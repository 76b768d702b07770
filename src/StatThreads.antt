-- ===== src/StatThreads.antt =====
-- homework/statistic_file.c: the counts of the files below a directory, by a thread for each directory,
-- which joins the threads of its subdirectories. The threads share nothing, so that a thread is the
-- function of its path that it computes. What the file system answers is the record that the program
-- with a pool takes as well; pthread_create and pthread_join succeed.
pub mod Entries
pub mod Agree
mod Tests
use linux_coding.Common.{
  ℕ, zero, suc, ◌+◌, ◌-◌, ◌*◌, Bool, true, false, ◌&&◌, Option, some, none, List, [], ◌∷◌, ◌++◌,
  length, get_or, ◌==◌, ltb, if◌then◌else◌,
}
use linux_coding.StatPool.{PathName, FileSystem, Mode, is_dot, full_path}

-- `struct Count`
pub record Count : Type 0 where
  dir_count : ℕ
  file_count : ℕ
  code_count : ℕ

-- `while ((ch = fgetc(fp)) != EOF)`
unfoldable pub count_lines : List ℕ → ℕ → ℕ
count_lines [] code_count = code_count
count_lines (ch ∷ text) code_count =
    count_lines text (if ch == 10 then code_count + 1 else code_count)

unfoldable pub code_counter : Option (List ℕ) → ℕ
code_counter none = 0
code_counter (some text) = count_lines text 0 + 1

-- `len > 2 && full_path[len - 1] == 'c' && full_path[len - 2] == '.'`, for `c` and for `h`.
unfoldable pub has_suffix : ℕ → PathName → Bool
has_suffix letter path =
    let len = length path in
    ltb 2 len && (get_or path (len - 1) 0 == letter) && (get_or path (len - 2) 0 == 46)

-- The loop over the directory's entries for one that stat answers for: the counts and the paths of the
-- new threads.
unfoldable pub show_mode :
    FileSystem → PathName → Mode → Count → List PathName → Count × List PathName
show_mode fs path Mode.regular c tids = (
  record c {
    file_count = c.file_count + 1;
    code_count =
        if has_suffix 99 path
        then c.code_count + code_counter (fs.text path)
        else if has_suffix 104 path
        then c.code_count + code_counter (fs.text path)
        else c.code_count;
  },
  tids,
)
show_mode fs path Mode.directory c tids =
    (record c { dir_count = c.dir_count + 1 }, if fs.strdup path then tids ++ (path ∷ []) else tids)
show_mode fs path Mode.link c tids = (c, tids)
show_mode fs path Mode.other c tids = (c, tids)

unfoldable pub show_entry :
    FileSystem → PathName → PathName → Count → List PathName → Count × List PathName
show_entry fs dir_name d_name c tids =
    if is_dot d_name then (c, tids) else elim (fs.stat (full_path dir_name d_name)) [
      | none ↦ (c, tids)
      | some mode ↦ show_mode fs (full_path dir_name d_name) mode c tids
    ]

unfoldable pub show_entries :
    FileSystem → PathName → List PathName → Count → List PathName → Count × List PathName
show_entries fs dir_name [] c tids = (c, tids)
show_entries fs dir_name (d_name ∷ names) c tids =
    let shown = show_entry fs dir_name d_name c tids in
    show_entries fs dir_name names shown.0 shown.1

-- The loop of pthread_join; `child` is what the thread of a path returns, NULL inside of `some` is
-- `none`, and `none` outside is out of fuel.
unfoldable pub join_children :
    (PathName → Option (Option Count)) → List PathName → Count → Option Count
join_children child [] c = some c
join_children child (path ∷ tids) c = elim (child path) [
  | none ↦ none
  | some none ↦ join_children child tids c
  | some (some rtval_child) ↦ join_children child tids (record {
    dir_count = c.dir_count + rtval_child.dir_count;
    file_count = c.file_count + rtval_child.file_count;
    code_count = c.code_count + rtval_child.code_count;
  })
]

abbrev pub no_count : Count
no_count = record { dir_count = 0; file_count = 0; code_count = 0 }

-- `show_dir`; the fuel bounds the depth of the directories.
unfoldable pub show_dir : FileSystem → ℕ → PathName → Option (Option Count)
show_dir fs zero dir_name = none
show_dir fs (suc fuel) dir_name = elim (fs.opendir dir_name) [
  | none ↦ some none
  | some names ↦
      let shown = show_entries fs dir_name names no_count [] in
      elim (join_children (show_dir fs fuel) shown.1 shown.0) [
        | none ↦ none
        | some c ↦ some (some c)
      ]
]
