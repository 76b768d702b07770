-- ===== src/Primes.antt =====
-- The searches for primes under thread/posix: the test of primer_pool_busy.c (a pool of threads that
-- share one number), Newer/second.c, Newer/primer_by_one.c, and Newer/primer_by_four.c with its versions
-- for more threads. A file that a thread writes is the list of the numbers in it.
pub mod Divisors
pub mod Tested
pub mod Odd
pub mod Searched
pub mod Merged
pub mod Tables
mod Tests
use linux_coding.Common.{
  ℕ, zero, suc, ◌+◌, ◌-◌, ◌*◌, ◌/◌, ◌%◌, Bool, true, false, ◌&&◌, Option, none, some, List, [], ◌∷◌,
  ◌++◌, ◌==◌, leb, if◌then◌else◌,
}

-- `for(j = 2; j <= i/2; j++) if(i % j == 0) …` from `j` on, with `rounds` values of `j` left: `mark`.
unfoldable pub half_loop : ℕ → ℕ → ℕ → Bool
half_loop zero j i = true
half_loop (suc rounds) j i =
    let rest = half_loop rounds (j + 1) i in if i % j == 0 then false else rest

unfoldable pub half_mark : ℕ → Bool
half_mark i = half_loop (i / 2 - 1) 2 i

-- `for (; i * i <= n; i += step) if (n % i == 0) …`: `is_primer`; `none` is out of fuel.
unfoldable pub root_loop : ℕ → ℕ → ℕ → ℕ → Option Bool
root_loop zero step i n = none
root_loop (suc fuel) step i n =
    let rest = root_loop fuel step (i + step) n in
    if leb (i * i) n then (if n % i == 0 then some false else rest) else some true

-- `is_primer` of second.c: all divisors from 2 on. The numbers are unbounded here; `i * i` fits C's int for
-- every `n` below 46340 * 46340, and the program's last number is far smaller.
unfoldable pub root_mark : ℕ → Option Bool
root_mark n = root_loop (n + 1) 1 2 n

-- `is_primer` of primer_by_four.c, of which the others have copies: odd divisors from 3 on.
unfoldable pub odd_mark : ℕ → Option Bool
odd_mark j = root_loop (j + 1) 2 3 j

-- `for (j = left; j <= right; j += 2)`: the numbers printed; `none` is out of fuel.
unfoldable pub odd_numbers : ℕ → ℕ → ℕ → Option (List ℕ)
odd_numbers zero j right = none
odd_numbers (suc fuel) j right =
    let rest = odd_numbers fuel (j + 2) right in
    if leb j right
    then elim (odd_mark j) [
      | none ↦ none
      | some is_primer ↦ elim rest [
        | none ↦ none
        | some more ↦ some (if is_primer then j ∷ more else more)
      ]
    ]
    else some []

-- `primer` of primer_by_four.c for one RANGE: what the thread writes into its file.
unfoldable pub primer : ℕ → ℕ → Option (List ℕ)
primer left right =
    elim (odd_numbers (right + 1) (if left % 2 == 0 then left + 1 else left) right) [
      | none ↦ none
      | some odd ↦ some (if leb left 2 && leb 2 right then 2 ∷ odd else odd)
    ]

-- `primer` of primer_by_one.c for `n2`.
unfoldable pub primer_upto : ℕ → Option (List ℕ)
primer_upto n2 = elim (odd_numbers (n2 + 1) 3 n2) [
  | none ↦ none
  | some odd ↦ some (if leb 2 n2 then 2 ∷ odd else odd)
]

-- `for(i = LEFT; i <= RIGHT; i++)` of the pool with the test of its threads: the numbers printed when
-- they take the numbers in turn.
unfoldable pub pool_numbers : ℕ → ℕ → List ℕ
pool_numbers zero i = []
pool_numbers (suc count) i =
    let rest = pool_numbers count (i + 1) in if half_mark i then i ∷ rest else rest

-- The files of the threads of `ranges`, in the order of the ranges; `none` is out of fuel.
unfoldable pub thread_files : List (ℕ × ℕ) → Option (List (List ℕ))
thread_files [] = some []
thread_files ((left, right) ∷ ranges) = elim (primer left right) [
  | none ↦ none
  | some file ↦ elim (thread_files ranges) [ none ↦ none | some files ↦ some (file ∷ files) ]
]

unfoldable pub merged : List (List ℕ) → List ℕ
merged [] = []
merged (file ∷ files) = file ++ merged files

-- `cat primes_*.txt > primes_all.txt` of primer_by_four.c after its threads. The names primes_1.txt to
-- primes_4.txt are in the order of the ranges; of ten files or more they would not be.
unfoldable pub all_files : List (ℕ × ℕ) → Option (List ℕ)
all_files ranges = elim (thread_files ranges) [ none ↦ none | some files ↦ some (merged files) ]

-- `ranges` of primer_by_four.c and of its versions.
unfoldable pub four_ranges : List (ℕ × ℕ)
four_ranges =
    (3, 25000000) ∷ (25000001, 50000000) ∷ (50000001, 75000000) ∷ (75000001, 100000000) ∷ []

unfoldable pub eight_ranges : List (ℕ × ℕ)
eight_ranges =
    (3, 12500000)
    ∷ (12500001, 25000000)
    ∷ (25000001, 37500000)
    ∷ (37500001, 50000000)
    ∷ (50000001, 62500000)
    ∷ (62500001, 75000000)
    ∷ (75000001, 87500000)
    ∷ (87500001, 100000000)
    ∷ []

unfoldable pub sixteen_ranges : List (ℕ × ℕ)
sixteen_ranges =
    (3, 6250000)
    ∷ (6250001, 12500000)
    ∷ (12500001, 18750000)
    ∷ (18750001, 25000000)
    ∷ (25000001, 31250000)
    ∷ (31250001, 37500000)
    ∷ (37500001, 43750000)
    ∷ (43750001, 50000000)
    ∷ (50000001, 56250000)
    ∷ (56250001, 62500000)
    ∷ (62500001, 68750000)
    ∷ (68750001, 75000000)
    ∷ (75000001, 81250000)
    ∷ (81250001, 87500000)
    ∷ (87500001, 93750000)
    ∷ (93750001, 100000000)
    ∷ []

unfoldable pub twenty_four_ranges : List (ℕ × ℕ)
twenty_four_ranges =
    (3, 4166666)
    ∷ (4166667, 8333333)
    ∷ (8333334, 12500000)
    ∷ (12500001, 16666666)
    ∷ (16666667, 20833333)
    ∷ (20833334, 25000000)
    ∷ (25000001, 29166666)
    ∷ (29166667, 33333333)
    ∷ (33333334, 37500000)
    ∷ (37500001, 41666666)
    ∷ (41666667, 45833333)
    ∷ (45833334, 50000000)
    ∷ (50000001, 54166666)
    ∷ (54166667, 58333333)
    ∷ (58333334, 62500000)
    ∷ (62500001, 66666666)
    ∷ (66666667, 70833333)
    ∷ (70833334, 75000000)
    ∷ (75000001, 79166666)
    ∷ (79166667, 83333333)
    ∷ (83333334, 87500000)
    ∷ (87500001, 91666666)
    ∷ (91666667, 95833333)
    ∷ (95833334, 100000000)
    ∷ []

unfoldable pub thirty_two_ranges : List (ℕ × ℕ)
thirty_two_ranges =
    (3, 3125000)
    ∷ (3125001, 6250000)
    ∷ (6250001, 9375000)
    ∷ (9375001, 12500000)
    ∷ (12500001, 15625000)
    ∷ (15625001, 18750000)
    ∷ (18750001, 21875000)
    ∷ (21875001, 25000000)
    ∷ (25000001, 28125000)
    ∷ (28125001, 31250000)
    ∷ (31250001, 34375000)
    ∷ (34375001, 37500000)
    ∷ (37500001, 40625000)
    ∷ (40625001, 43750000)
    ∷ (43750001, 46875000)
    ∷ (46875001, 50000000)
    ∷ (50000001, 53125000)
    ∷ (53125001, 56250000)
    ∷ (56250001, 59375000)
    ∷ (59375001, 62500000)
    ∷ (62500001, 65625000)
    ∷ (65625001, 68750000)
    ∷ (68750001, 71875000)
    ∷ (71875001, 75000000)
    ∷ (75000001, 78125000)
    ∷ (78125001, 81250000)
    ∷ (81250001, 84375000)
    ∷ (84375001, 87500000)
    ∷ (87500001, 90625000)
    ∷ (90625001, 93750000)
    ∷ (93750001, 96875000)
    ∷ (96875001, 100000000)
    ∷ []
