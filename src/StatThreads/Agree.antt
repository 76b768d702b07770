-- ===== src/StatThreads/Agree.antt =====
-- The counts of the threads, and those of the program with a pool.
use linux_coding.Common.{
  ℕ, zero, suc, ◌+◌, ◌≡◌, inl, inr, refl, sym, ap, ◌∙◌, arith, false, Bool-cases, Option, some,
  none, Option-cases, List, [], ◌∷◌, ◌++◌, All,
}
use linux_coding.StatPool.{PathName, FileSystem, Mode, is_dot, full_path, code_lines}
use linux_coding.StatPool.Scan.{sum_paths, entries_total, IsTotal, listed, System, Runs}
use linux_coding.StatPool.Counted.{begun, IsFree, worker_counts}
use linux_coding.StatThreads.{
  Count, show_mode, show_entry, show_entries, join_children, no_count, show_dir,
}
use linux_coding.StatThreads.Entries.{entries_counted, file_law, code_law}

-- Below the directory are at most `n` levels of directories.
abbrev pub Levels : FileSystem → ℕ → PathName → Type 0
Levels fs zero dir = fs.opendir dir ≡ none
Levels fs (suc n) dir =
    (names : List PathName)
    → fs.opendir dir ≡ some names
    → All
        (λ d_name.
          (is_dot d_name ≡ false
            → fs.stat (full_path dir d_name) ≡ some Mode.directory
            → Levels fs n (full_path dir d_name)))
        names

module _ (fs : FileSystem) (files lines : PathName → ℕ) where
  -- What a thread returns for a path; NULL adds nothing.
  abbrev pub Returned : Option Count → PathName → Type 0
  Returned none path = (files path ≡ 0) × (lines path ≡ 0)
  Returned (some c) path = (c.file_count ≡ files path) × (c.code_count ≡ lines path)

  abbrev Joins : (PathName → Option (Option Count)) → PathName → Type 0
  Joins child path = (o : Option Count) × (child path ≡ some o) × Returned o path

  children_joined :
      (child : PathName → Option (Option Count)) (tids : List PathName) (c : Count)
      → All (Joins child) tids
      → (d : Count) × (join_children child tids c ≡ some d)
        × (d.file_count ≡ c.file_count + sum_paths files tids)
        × (d.code_count ≡ c.code_count + sum_paths lines tids)
  unfolding join_children
  children_joined child [] c all = (c, refl, omega arith, omega arith)
  children_joined child (path ∷ tids) c ((none, e, h), all) =
      let rest = children_joined child tids c all in
      (rest.0, rw (e, join_children) rest.1, omega (arith, rest.2, h), omega (arith, rest.3, h))
  children_joined child (path ∷ tids) c ((some r, e, h), all) =
      let added : Count = record {
        dir_count = c.dir_count + r.dir_count;
        file_count = c.file_count + r.file_count;
        code_count = c.code_count + r.code_count;
      } in
      let rest = children_joined child tids added all in
      (rest.0, rw (e, join_children) rest.1, omega (arith, rest.2, h), omega (arith, rest.3, h))

  All-snoc :
      (P : PathName → Type 0) (tids : List PathName) (path : PathName)
      → All P tids
      → P path
      → All P (tids ++ (path ∷ []))
  All-snoc P [] path all h = (h, tt)
  All-snoc P (t ∷ tids) path (k, all) h = (k, All-snoc P tids path all h)

  mode_spawn :
      (P : PathName → Type 0) (path : PathName) (mode : Mode) (c : Count) (tids : List PathName)
      → (mode ≡ Mode.directory → P path)
      → All P tids
      → All P ((show_mode fs path mode c tids).1)
  unfolding show_mode
  mode_spawn P path Mode.regular c tids h before = before
  mode_spawn P path Mode.directory c tids h before = elim (Bool-cases (fs.strdup path)) [
    | inl has ↦ rw has (All-snoc P tids path before (h refl))
    | inr hasnt ↦ rw hasnt before
  ]
  mode_spawn P path Mode.link c tids h before = before
  mode_spawn P path Mode.other c tids h before = before

  entry_spawn :
      (P : PathName → Type 0) (dir d_name : PathName) (c : Count) (tids : List PathName)
      → (is_dot d_name ≡ false
          → fs.stat (full_path dir d_name) ≡ some Mode.directory
          → P (full_path dir d_name))
      → All P tids
      → All P ((show_entry fs dir d_name c tids).1)
  unfolding show_entry
  entry_spawn P dir d_name c tids h before = elim (Bool-cases (is_dot d_name)) [
    | inl dot ↦ rw (dot, show_entry) before
    | inr entry ↦ elim (Option-cases (fs.stat (full_path dir d_name))) [
      | inl unknown ↦ rw (entry, show_entry, unknown) before
      | inr (mode, e) ↦
          let shown : show_entry fs dir d_name c tids
              ≡ show_mode fs (full_path dir d_name) mode c tids =
            rw (entry, show_entry, e) refl in
          rw shown
            (mode_spawn P (full_path dir d_name) mode c tids (λ m. h entry (e ∙ ap some m)) before)
    ]
  ]

  -- The new threads are for directories of the listing.
  entries_spawn :
      (P : PathName → Type 0) (dir : PathName) (names : List PathName) (c : Count)
      (tids : List PathName)
      → All
          (λ d_name.
            (is_dot d_name ≡ false
              → fs.stat (full_path dir d_name) ≡ some Mode.directory
              → P (full_path dir d_name)))
          names
      → All P tids
      → All P ((show_entries fs dir names c tids).1)
  unfolding show_entries
  entries_spawn P dir [] c tids all before = before
  entries_spawn P dir (d_name ∷ names) c tids (h, all) before =
      entries_spawn P dir names _ _ all (entry_spawn P dir d_name c tids h before)

  nothing_below :
      (W value : PathName → ℕ) (dir : PathName)
      → IsTotal fs value W
      → fs.opendir dir ≡ none
      → W dir ≡ 0
  nothing_below W value dir total e =
      total dir ∙ ap (λ o. entries_total fs value W dir (listed o)) e

  All-map :
      {P Q : PathName → Type 0} (names : List PathName)
      → ((d_name : PathName) → P d_name → Q d_name)
      → All P names
      → All Q names
  All-map [] f all = tt
  All-map (d_name ∷ names) f (h, all) = (f d_name h, All-map names f all)

  -- With the fuel for the levels of directories below it, the thread of a directory returns, and what it
  -- returns are the number of all files below the directory and of their lines of code.
  pub show_dir-Returned :
      (n : ℕ) (dir : PathName)
      → IsTotal fs (λ p. 1) files
      → IsTotal fs (code_lines fs) lines
      → Levels fs n dir
      → (o : Option Count) × (show_dir fs (suc n) dir ≡ some o) × Returned o dir
  unfolding show_dir
  show_dir-Returned zero dir tf tl deep = (
    none,
    rw (deep, show_dir) refl,
    (nothing_below files (λ p. 1) dir tf deep, nothing_below lines (code_lines fs) dir tl deep),
  )
  show_dir-Returned (suc n) dir tf tl deep = elim (Option-cases (fs.opendir dir)) [
    | inl closed ↦ (
      none,
      rw (closed, show_dir) refl,
      (
        nothing_below files (λ p. 1) dir tf closed,
        nothing_below lines (code_lines fs) dir tl closed,
      ),
    )
    | inr (names, e) ↦
        let shown = show_entries fs dir names no_count [] in
        let below =
          All-map names
            (λ d_name h dot st. show_dir-Returned n (full_path dir d_name) tf tl (h dot st))
            (deep names e) in
        let all = entries_spawn (Joins (show_dir fs (suc n))) dir names no_count [] below tt in
        let joined = children_joined (show_dir fs (suc n)) shown.1 shown.0 all in
        let files_here =
          entries_counted fs (λ p. 1) files (λ c. c.file_count) (file_law fs files) dir names
            no_count [] in
        let lines_here =
          entries_counted fs (code_lines fs) lines (λ c. c.code_count) (code_law fs lines) dir names
            no_count [] in
        let files_all = tf dir ∙ ap (λ o. entries_total fs (λ p. 1) files dir (listed o)) e in
        let lines_all =
          tl dir ∙ ap (λ o. entries_total fs (code_lines fs) lines dir (listed o)) e in
        (
          some joined.0,
          rw (e, show_dir, joined.1) refl,
          (
            omega (arith, joined.2, files_here, files_all),
            omega (arith, joined.3, lines_here, lines_all),
          ),
        )
  ]

abbrev pub files_of : Option Count → ℕ
files_of none = 0
files_of (some c) = c.file_count

abbrev pub lines_of : Option Count → ℕ
lines_of none = 0
lines_of (some c) = c.code_count

Returned-counts :
    (fs : FileSystem) (files lines : PathName → ℕ) (o : Option Count) (path : PathName)
    → Returned fs files lines o path
    → (files_of o ≡ files path) × (lines_of o ≡ lines path)
Returned-counts fs files lines none path (f, l) = (sym f, sym l)
Returned-counts fs files lines (some c) path h = h

-- With at most `n` levels of directories below `root`, the thread of `root` returns, and it has the
-- counts that the program with a pool ends with, in every interleaving of its workers that loses no
-- path: the same files, the same lines of code.
pub show_dir-worker_counts :
    (fs : FileSystem) (files lines : PathName → ℕ) (root : PathName) (n workers : ℕ) {s : System}
    → IsTotal fs (λ p. 1) files
    → IsTotal fs (code_lines fs) lines
    → Levels fs n root
    → Runs fs (begun root workers) s
    → s.queue.queue_count ≡ 0
    → All IsFree s.workers
    → s.lost ≡ []
    → (o : Option Count) × (show_dir fs (suc n) root ≡ some o)
      × (files_of o ≡ s.counts.file_count)
      × (lines_of o ≡ s.counts.code_count)
show_dir-worker_counts fs files lines root n workers tf tl deep runs empty free kept =
    let own = show_dir-Returned fs files lines n root tf tl deep in
    let counts = Returned-counts fs files lines own.0 root own.2 in
    let pool = (worker_counts fs files lines root workers tf tl runs).2 empty free kept in
    (own.0, own.1, counts.0 ∙ sym pool.0, counts.1 ∙ sym pool.1)
