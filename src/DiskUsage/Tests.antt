-- ===== src/DiskUsage/Tests.antt =====
-- The directory `d` with itself as `d/.` and the file `d/f`, and the witness of the theorem.
use linux_coding.Common.{ℕ, ◌<◌, ◌≡◌, ◌≢◌, refl, arith, true, false, not, some, none, [], ◌∷◌, All}
use linux_coding.DiskUsage.{Files, path_noloop, behind_slash, is_dots, mydu, sum_paths}
use linux_coding.DiskUsage.Blocks.{
  Tree, Forest, Shows, ShowsAll, height, blocks, all_height, mydu_total,
}

-- A path of one character is a directory of 4 blocks, any other a file of 8.
abbrev disk : Files
disk = record {
  lstat = λ path. elim path [
    | [] ↦ none
    | c ∷ rest ↦ elim rest [ [] ↦ some (true, 4) | d ∷ more ↦ some (false, 8) ]
  ];
  glob = λ path. some ((100 ∷ 47 ∷ 102 ∷ []) ∷ (100 ∷ 47 ∷ 46 ∷ []) ∷ []);
}

abbrev tree : Tree
tree = Tree.directory 4 (Forest.entry (Tree.file 8) Forest.no_more)

twelve : mydu disk 2 (100 ∷ []) ≡ some 12
unfolding mydu sum_paths path_noloop behind_slash is_dots
twelve = refl

shown : Shows disk (100 ∷ []) tree
unfolding path_noloop behind_slash is_dots
shown = Shows.shows_directory refl refl (
    ShowsAll.shows_entry refl (Shows.shows_file refl)
      (ShowsAll.shows_dots refl ShowsAll.shows_none))

name_plain : All {A = ℕ} (λ ch. ch ≢ 47) (46 ∷ [])
name_plain = (omega arith, tt)

tree_low : height tree < 2
unfolding height all_height
tree_low = omega arith

mydu_total_example :
    (mydu disk 2 (100 ∷ []) ≡ some (blocks tree))
    × (path_noloop (100 ∷ 47 ∷ 46 ∷ []) ≡ not (is_dots (46 ∷ [])))
mydu_total_example =
    mydu_total disk 2 (100 ∷ []) tree (100 ∷ []) (46 ∷ []) shown tree_low name_plain
