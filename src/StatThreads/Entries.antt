-- ===== src/StatThreads/Entries.antt =====
-- homework/statistic_file.c: what the loop over a directory's entries counts, and what it leaves to new
-- threads.
use linux_coding.Common.{
  ℕ, ◌+◌, ◌≡◌, inl, inr, refl, ap, ◌∙◌, arith, Bool-cases, Option, some, none, Option-cases, List,
  [], ◌∷◌, if◌then◌else◌,
}
use linux_coding.StatPool.{
  PathName, FileSystem, Mode, is_dot, full_path, code_lines, is_code, newlines,
}
use linux_coding.StatPool
use linux_coding.StatPool.Scan.{sum_paths, sum_paths-append, entry_total, entries_total}
use linux_coding.StatThreads.{
  Count, count_lines, code_counter, has_suffix, show_mode, show_entry, show_entries,
}

count_lines-newlines : (text : List ℕ) (n : ℕ) → count_lines text n ≡ newlines text + n
unfolding count_lines
count_lines-newlines [] n = omega arith
count_lines-newlines (ch ∷ text) n =
    let stays = count_lines-newlines text n in
    let grows = count_lines-newlines text (n + 1) in ground (arith, stays, grows)

same_counter : (o : Option (List ℕ)) → code_counter o ≡ StatPool.code_counter o
unfolding code_counter StatPool.code_counter
same_counter none = refl
same_counter (some text) = let same = count_lines-newlines text 0 in omega arith

-- One program writes the test of the suffix as one condition, the other as two.
code_counted :
    (fs : FileSystem) (path : PathName) (n : ℕ)
    → (if has_suffix 99 path
        then n + code_counter (fs.text path)
        else if has_suffix 104 path
        then n + code_counter (fs.text path)
        else n)
      ≡ n + code_lines fs path
unfolding has_suffix code_lines is_code
code_counted fs path n = let same = same_counter (fs.text path) in ground (arith, same)

module _ (fs : FileSystem) (value W : PathName → ℕ) (counted : Count → ℕ) where
  -- What one entry adds, in the counts and below the paths of the new threads.
  abbrev pub Law : Type 0
  Law =
      (path : PathName) (mode : Mode) (c : Count) (tids : List PathName)
      → fs.stat path ≡ some mode
      → counted ((show_mode fs path mode c tids).0)
          + sum_paths W ((show_mode fs path mode c tids).1)
        ≡ counted c + sum_paths W tids + entry_total fs value W path

  abbrev entry_part : PathName → PathName → ℕ
  entry_part dir d_name = if is_dot d_name then 0 else entry_total fs value W (full_path dir d_name)

  entry_counted :
      Law
      → (dir d_name : PathName) (c : Count) (tids : List PathName)
      → counted ((show_entry fs dir d_name c tids).0)
          + sum_paths W ((show_entry fs dir d_name c tids).1)
        ≡ counted c + sum_paths W tids + entry_part dir d_name
  unfolding show_entry
  entry_counted law dir d_name c tids = elim (Bool-cases (is_dot d_name)) [
    | inl dot ↦ rw (dot, show_entry) (omega arith)
    | inr entry ↦ elim (Option-cases (fs.stat (full_path dir d_name))) [
      | inl unknown ↦ rw (entry, show_entry, unknown, entry_total) (omega arith)
      | inr (mode, e) ↦
          let adds = law (full_path dir d_name) mode c tids e in
          let shown : show_entry fs dir d_name c tids
              ≡ show_mode fs (full_path dir d_name) mode c tids =
            rw (entry, show_entry, e) refl in
          rw (shown, entry) adds
    ]
  ]

  entries_total-cons :
      (dir d_name : PathName) (names : List PathName)
      → entries_total fs value W dir (d_name ∷ names)
        ≡ entry_part dir d_name + entries_total fs value W dir names
  entries_total-cons dir d_name names = elim (Bool-cases (is_dot d_name)) [
    | inl dot ↦ rw dot (omega arith)
    | inr entry ↦ rw entry refl
  ]

  pub entries_counted :
      Law
      → (dir : PathName) (names : List PathName) (c : Count) (tids : List PathName)
      → counted ((show_entries fs dir names c tids).0)
          + sum_paths W ((show_entries fs dir names c tids).1)
        ≡ counted c + sum_paths W tids + entries_total fs value W dir names
  unfolding show_entries
  entries_counted law dir [] c tids = omega arith
  entries_counted law dir (d_name ∷ names) c tids =
      let shown = show_entry fs dir d_name c tids in
      let here = entry_counted law dir d_name c tids in
      let rest = entries_counted law dir names shown.0 shown.1 in
      let total = entries_total-cons dir d_name names in
      rest ∙ ap (λ n. n + entries_total fs value W dir names) here ∙ omega (arith, total)

pub file_law : (fs : FileSystem) (W : PathName → ℕ) → Law fs (λ p. 1) W (λ c. c.file_count)
unfolding show_mode
file_law fs W path Mode.regular c tids e = rw (e, entry_total) (omega arith)
file_law fs W path Mode.directory c tids e = elim (Bool-cases (fs.strdup path)) [
  | inl has ↦ rw (e, entry_total, has) (omega (arith, sum_paths-append W tids (path ∷ [])))
  | inr hasnt ↦ rw (e, entry_total, hasnt) (omega arith)
]
file_law fs W path Mode.link c tids e = rw (e, entry_total) (omega arith)
file_law fs W path Mode.other c tids e = rw (e, entry_total) (omega arith)

pub code_law : (fs : FileSystem) (W : PathName → ℕ) → Law fs (code_lines fs) W (λ c. c.code_count)
unfolding show_mode
code_law fs W path Mode.regular c tids e =
    let counts = code_counted fs path c.code_count in rw (e, entry_total) (omega (arith, counts))
code_law fs W path Mode.directory c tids e = elim (Bool-cases (fs.strdup path)) [
  | inl has ↦ rw (e, entry_total, has) (omega (arith, sum_paths-append W tids (path ∷ [])))
  | inr hasnt ↦ rw (e, entry_total, hasnt) (omega arith)
]
code_law fs W path Mode.link c tids e = rw (e, entry_total) (omega arith)
code_law fs W path Mode.other c tids e = rw (e, entry_total) (omega arith)
