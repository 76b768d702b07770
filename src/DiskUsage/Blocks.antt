-- ===== src/DiskUsage/Blocks.antt =====
-- The sum of the blocks of a tree of files.
use linux_coding.Common.{
  ℕ, zero, suc, ◌+◌, ◌<◌, ◌≡◌, ◌≢◌, refl, ap, ◌∙◌, arith, max, true, false, not, Option, some, none,
  List, [], ◌∷◌, ◌++◌, All, ◌==◌, if◌then◌else◌,
}
use linux_coding.DiskUsage.{Files, behind_slash, is_dots, path_noloop, sum_paths, mydu}

-- A file that is no directory, or a directory with what stands in it.
mutual
  pub data Tree : Type 0 where
    file : ℕ → Tree
    directory : ℕ → Forest → Tree

  pub data Forest : Type 0 where
    no_more : Forest
    entry : Tree → Forest → Forest

unfoldable mutual
  pub blocks : Tree → ℕ
  blocks (file b) = b
  blocks (directory b f) = b + all_blocks f

  pub all_blocks : Forest → ℕ
  all_blocks no_more = 0
  all_blocks (entry t f) = blocks t + all_blocks f

unfoldable mutual
  pub height : Tree → ℕ
  height (file b) = 0
  height (directory b f) = suc (all_height f)

  pub all_height : Forest → ℕ
  all_height no_more = 0
  all_height (entry t f) = max (height t) (all_height f)

-- The tree that the system shows below a path: `.` and `..` are listed, and are no entries.
mutual
  pub data Shows (fs : Files) : List ℕ → Tree → Type 0 where
    shows_file : {path : List ℕ} {b : ℕ} → fs.lstat path ≡ some (false, b) → Shows fs path (file b)
    shows_directory :
        {path : List ℕ} {b : ℕ} {paths : List (List ℕ)} {f : Forest}
        → fs.lstat path ≡ some (true, b)
        → fs.glob path ≡ some paths
        → ShowsAll fs paths f
        → Shows fs path (directory b f)

  pub data ShowsAll (fs : Files) : List (List ℕ) → Forest → Type 0 where
    shows_none : ShowsAll fs [] no_more
    shows_dots :
        {path : List ℕ} {paths : List (List ℕ)} {f : Forest}
        → path_noloop path ≡ false
        → ShowsAll fs paths f
        → ShowsAll fs (path ∷ paths) f
    shows_entry :
        {path : List ℕ} {paths : List (List ℕ)} {t : Tree} {f : Forest}
        → path_noloop path ≡ true
        → Shows fs path t
        → ShowsAll fs paths f
        → ShowsAll fs (path ∷ paths) (entry t f)

mutual
  unfolding mydu sum_paths blocks all_blocks height all_height

  -- mydu returns the blocks of the tree, each entry's once.
  pub mydu-blocks :
      (fs : Files) (fuel : ℕ) {path : List ℕ} {t : Tree}
      → Shows fs path t
      → height t < fuel
      → mydu fs fuel path ≡ some (blocks t)
  mydu-blocks fs zero s h = absurd (omega arith)
  mydu-blocks fs (suc fuel) (shows_file e) h = rw (e, mydu) refl
  mydu-blocks fs (suc fuel) (shows_directory {b = b} e g all) h =
      rw (e, mydu, g) (sum_paths-all_blocks fs fuel b all (omega arith))

  sum_paths-all_blocks :
      (fs : Files) (fuel sum : ℕ) {paths : List (List ℕ)} {f : Forest}
      → ShowsAll fs paths f
      → all_height f < fuel
      → sum_paths (mydu fs fuel) paths sum ≡ some (sum + all_blocks f)
  sum_paths-all_blocks fs fuel sum shows_none h = ap some (omega arith)
  sum_paths-all_blocks fs fuel sum (shows_dots e all) h =
      rw (sum_paths, e) (sum_paths-all_blocks fs fuel sum all h)
  sum_paths-all_blocks fs fuel sum (shows_entry {t = t} e s all) h =
      rw (sum_paths, e, mydu-blocks fs fuel s (omega arith))
        (sum_paths-all_blocks fs fuel (sum + blocks t) all (omega arith) ∙ ap some (omega arith))

no_slash :
    (name : List ℕ) (found : Option (List ℕ))
    → All (λ ch. ch ≢ 47) name
    → behind_slash name found ≡ found
unfolding behind_slash
no_slash [] found plain = refl
no_slash (ch ∷ name) found (h, plain) = let rest = no_slash name found plain in ground (arith, rest)

last_name :
    (dir name : List ℕ) (found : Option (List ℕ))
    → All (λ ch. ch ≢ 47) name
    → behind_slash (dir ++ (47 ∷ name)) found ≡ some name
unfolding behind_slash
last_name [] name found plain = no_slash name (some name) plain
last_name (ch ∷ dir) name found plain =
    last_name dir name (if ch == 47 then some (dir ++ (47 ∷ name)) else found) plain

-- With more fuel than the height of the tree that the system shows below a path, mydu returns the blocks
-- of all files and directories of the tree; and an entry of a directory, whose name has no `/`, is passed
-- over exactly if the name is `.` or `..`.
pub mydu_total :
    (fs : Files) (fuel : ℕ) (path : List ℕ) (t : Tree) (dir name : List ℕ)
    → Shows fs path t
    → height t < fuel
    → All (λ ch. ch ≢ 47) name
    → (mydu fs fuel path ≡ some (blocks t))
      × (path_noloop (dir ++ (47 ∷ name)) ≡ not (is_dots name))
unfolding path_noloop
mydu_total fs fuel path t dir name s h plain =
    (mydu-blocks fs fuel s h, rw (path_noloop, last_name dir name none plain) refl)
