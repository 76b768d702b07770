-- ===== src/DiskUsage.antt =====
-- mydu.c: the blocks of a file, or of a directory and all below it. lstat and glob are arguments; the two
-- calls of glob for a directory, for `/*` and for `/.*`, are one list.
pub mod Blocks
mod Tests
use linux_coding.Common.{
  ℕ, zero, suc, ◌+◌, ◌≡◌, Bool, true, false, not, ◌||◌, ◌&&◌, Option, some, none, List, [], ◌∷◌,
  ◌==◌, if◌then◌else◌,
}

-- What lstat says of a path, whether it is a directory and its blocks, and what glob finds for one;
-- `none` is an error.
pub record Files : Type 0 where
  lstat : List ℕ → Option (Bool × ℕ)
  glob : List ℕ → Option (List (List ℕ))

-- `strrchr(path, '/')`: what stands behind the last `/`, given what `found` holds for the part before.
unfoldable pub behind_slash : List ℕ → Option (List ℕ) → Option (List ℕ)
behind_slash [] found = found
behind_slash (ch ∷ path) found = behind_slash path (if ch == 47 then some path else found)

-- `strcmp(pos+1, ".") == 0 || strcmp(pos+1, "..") == 0`
unfoldable pub is_dots : List ℕ → Bool
is_dots [] = false
is_dots (c ∷ []) = c == 46
is_dots (c ∷ d ∷ []) = (c == 46) && (d == 46)
is_dots (c ∷ d ∷ e ∷ rest) = false

unfoldable pub path_noloop : List ℕ → Bool
path_noloop path = elim (behind_slash path none) [ none ↦ true | some name ↦ not (is_dots name) ]

-- The loop over globres, with the sum so far; `du` is mydu of a path.
unfoldable pub sum_paths : (List ℕ → Option ℕ) → List (List ℕ) → ℕ → Option ℕ
sum_paths du [] sum = some sum
sum_paths du (path ∷ paths) sum = elim (path_noloop path) [
  | true ↦ elim (du path) [ none ↦ none | some blocks ↦ sum_paths du paths (sum + blocks) ]
  | false ↦ sum_paths du paths sum
]

-- `mydu`; `none` is exit(1), or out of fuel, which bounds the depth of the directories.
unfoldable pub mydu : Files → ℕ → List ℕ → Option ℕ
mydu fs zero path = none
mydu fs (suc fuel) path = elim (fs.lstat path) [
  | none ↦ none
  | some (false, blocks) ↦ some blocks
  | some (true, blocks) ↦ elim (fs.glob path) [
    | none ↦ none
    | some paths ↦ sum_paths (mydu fs fuel) paths blocks
  ]
]
