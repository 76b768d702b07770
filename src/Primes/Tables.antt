-- ===== src/Primes/Tables.antt =====
-- The ranges of primer_by_four.c and its versions: they follow each other, so that the files together
-- hold what one search holds.
use linux_coding.Common.{
  ℕ, ◌+◌, ◌-◌, ◌≤◌, ◌≡◌, refl, sym, subst, arith, Bool, true, ◌&&◌, some, List, [], ◌∷◌, ◌==◌,
  ==_iff, leb,
}
use linux_coding.Primes.{
  pool_numbers, thread_files, merged, all_files, four_ranges, eight_ranges, sixteen_ranges,
  twenty_four_ranges, thirty_two_ranges,
}
use linux_coding.Primes.Searched.{ArePrimes, pool_numbers-ArePrimes}
use linux_coding.Primes.Merged.{primer-pool_numbers, pool_numbers-append, pool_numbers-zero}

-- `ranges` follow each other from `left` to the one that ends before `end`; none is empty.
unfoldable pub contiguous : ℕ → List (ℕ × ℕ) → ℕ → Bool
contiguous left [] end = left == end
contiguous left ((l, r) ∷ ranges) end = l == left && (leb l r && contiguous (r + 1) ranges end)

-- The files of ranges that follow each other hold together what the pool prints from the first number
-- to the last.
thread_files-pool_numbers :
    (ranges : List (ℕ × ℕ)) (left end : ℕ)
    → 2 ≤ left
    → contiguous left ranges end ≡ true
    → (files : List (List ℕ)) × (thread_files ranges ≡ some files)
      × (merged files ≡ pool_numbers (end - left) left)
      × (left ≤ end)
unfolding thread_files contiguous merged
thread_files-pool_numbers [] left end low e =
    let same = (==_iff left end).0 e in
    let none_left : end - left ≡ 0 = omega arith in
    ([], refl, rw (none_left, pool_numbers-zero left) refl, omega arith)
thread_files-pool_numbers ((l, r) ∷ ranges) left end low e =
    let parts : (l ≡ left) × (l ≤ r) × (contiguous (r + 1) ranges end ≡ true) = ground arith in
    let file = primer-pool_numbers l r (omega (arith, parts.0)) in
    let (files, f, together, below) =
      thread_files-pool_numbers ranges (r + 1) end (omega arith) parts.2 in
    (
      pool_numbers (r + 1 - l) l ∷ files,
      rw (file, f, thread_files) refl,
      let first : r + 1 - l + (end - (r + 1)) ≡ end - left = omega (arith, parts.0, below) in
          let next : l + (r + 1 - l) ≡ r + 1 = omega arith in
          let app = pool_numbers-append (r + 1 - l) (end - (r + 1)) l in
          cc (app, first, next, parts.0, together),
      omega (arith, parts.0, below),
    )

-- The files are written, and one after the other they are the list of the primes from 3, so without the
-- prime 2, to 100000000.
abbrev pub HoldPrimes : List (ℕ × ℕ) → Type 0
HoldPrimes ranges =
    (files : List (List ℕ)) × (thread_files ranges ≡ some files)
    × ArePrimes 3 100000000 (merged files)

-- In each of the five versions the files that the threads write are together, in the order of the table
-- of ranges, the primes from 3 to 100000000, each once and in order; and so is, in primer_by_four.c, the
-- file primes_all.txt that they are merged into.
pub tables_primes :
    HoldPrimes four_ranges
    × HoldPrimes eight_ranges
    × HoldPrimes sixteen_ranges
    × HoldPrimes twenty_four_ranges
    × HoldPrimes thirty_two_ranges
    × ((primes : List ℕ) × (all_files four_ranges ≡ some primes) × ArePrimes 3 100000000 primes)
unfolding contiguous four_ranges eight_ranges sixteen_ranges twenty_four_ranges thirty_two_ranges
    all_files
tables_primes =
    let hold : (ranges : List (ℕ × ℕ)) → contiguous 3 ranges 100000001 ≡ true → HoldPrimes ranges =
      λ ranges e.
        let (files, f, together, _) =
          thread_files-pool_numbers ranges 3 100000001 (omega arith) e in
        (
          files,
          f,
          subst (ArePrimes 3 100000000) (sym together)
              (pool_numbers-ArePrimes 3 100000000 (omega arith) (omega arith)),
        ) in
    let (files, f, primes) = hold four_ranges refl in
    (
      hold four_ranges refl,
      hold eight_ranges refl,
      hold sixteen_ranges refl,
      hold twenty_four_ranges refl,
      hold thirty_two_ranges refl,
      (merged files, rw (f, all_files) refl, primes),
    )
