-- ===== src/Primes/Tests.antt =====
-- The searches on small ranges, and the witnesses of the theorems.
use linux_coding.Common.{◌+◌, ◌-◌, ◌≡◌, refl, arith, [], ◌∷◌, some}
use linux_coding.Primes.{
  half_mark, root_mark, odd_mark, root_loop, odd_numbers, primer, pool_numbers, all_files,
  thread_files, merged,
}
use linux_coding.Primes.Merged.{marks_agree, primer-pool_numbers}

small_range : primer 2 12 ≡ some (2 ∷ 3 ∷ 5 ∷ 7 ∷ 11 ∷ [])
unfolding primer odd_numbers odd_mark root_loop
small_range = refl

-- The ranges of the tables start at 3; from 1 on, 1 is printed as well.
from_one : primer 1 5 ≡ some (2 ∷ 1 ∷ 3 ∷ 5 ∷ [])
unfolding primer odd_numbers odd_mark root_loop
from_one = refl

marks_agree_example : (root_mark 15 ≡ some (half_mark 15)) × (odd_mark 15 ≡ some (half_mark 15))
marks_agree_example = marks_agree 15 refl

primer-pool_numbers_example : primer 2 12 ≡ some (pool_numbers (12 + 1 - 2) 2)
primer-pool_numbers_example = primer-pool_numbers 2 12 (omega arith)

-- The files of two ranges, merged.
two_merged : all_files ((3, 7) ∷ (8, 12) ∷ []) ≡ some (3 ∷ 5 ∷ 7 ∷ 11 ∷ [])
unfolding all_files thread_files merged primer odd_numbers odd_mark root_loop
two_merged = refl
