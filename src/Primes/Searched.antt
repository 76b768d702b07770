-- ===== src/Primes/Searched.antt =====
-- The numbers that the pool prints are the primes of its range, each once and in order.
use mathlib.Core.List.{Mem, mem-cons_self, mem-cons_of_mem}
use linux_coding.Common.{
  ℕ, zero, suc, ◌+◌, ◌-◌, ◌≤◌, ◌<◌, ◌≡◌, ◌≢◌, inl, inr, subst, sym, arith, true, List, [], ◌∷◌, All,
  Bool-cases, ◌==◌, ==_iff,
}
use linux_coding.Primes.{half_mark, pool_numbers}
use linux_coding.Primes.Divisors.{NoDivisor}
use linux_coding.Primes.Tested.{half_mark-NoDivisor}

abbrev pub IsPrime : ℕ → Type 0
IsPrime p = (2 ≤ p) × NoDivisor p

-- Each number is larger than the one before it, and the first at least `low`.
abbrev pub Increasing : ℕ → List ℕ → Type 0
Increasing low [] = Unit
Increasing low (x ∷ xs) = (low ≤ x) × Increasing (x + 1) xs

-- The list is that of the primes from `low` to `high`.
pub record ArePrimes (low high : ℕ) (primes : List ℕ) : Type 0 where
  pub increasing : Increasing low primes
  pub sound : All (λ p. (p ≤ high) × IsPrime p) primes
  pub complete : (p : ℕ) → low ≤ p → p ≤ high → IsPrime p → Mem p primes

Increasing-of_le :
    (low next : ℕ) (xs : List ℕ) → low ≤ next → Increasing next xs → Increasing low xs
Increasing-of_le low next [] h i = tt
Increasing-of_le low next (x ∷ xs) h (first, rest) = (omega arith, rest)

pool_numbers-Increasing : (count i : ℕ) → Increasing i (pool_numbers count i)
unfolding pool_numbers
pool_numbers-Increasing zero i = tt
pool_numbers-Increasing (suc count) i =
    let rest = pool_numbers-Increasing count (i + 1) in
    elim (Bool-cases (half_mark i)) [
      | inl e ↦ rw (e, pool_numbers) (omega arith, rest)
      | inr e ↦
          rw (e, pool_numbers)
            (Increasing-of_le i (i + 1) (pool_numbers count (i + 1)) (omega arith) rest)
    ]

pool_numbers_sound :
    (count i high : ℕ)
    → 2 ≤ i
    → i + count ≤ high + 1
    → All (λ p. (p ≤ high) × IsPrime p) (pool_numbers count i)
unfolding pool_numbers
pool_numbers_sound zero i high low h = tt
pool_numbers_sound (suc count) i high low h =
    let rest = pool_numbers_sound count (i + 1) high (omega arith) (omega arith) in
    elim (Bool-cases (half_mark i)) [
      | inl e ↦ rw (e, pool_numbers) ((omega arith, (low, (half_mark-NoDivisor i).0 e)), rest)
      | inr e ↦ rw (e, pool_numbers) rest
    ]

pool_numbers_complete :
    (count i p : ℕ) → i ≤ p → p < i + count → NoDivisor p → Mem p (pool_numbers count i)
unfolding pool_numbers
pool_numbers_complete zero i p low high free = absurd (omega arith)
pool_numbers_complete (suc count) i p low high free = elim (Bool-cases (i == p)) [
  | inl same ↦
      let here = (==_iff i p).0 same in
      let marked : half_mark i ≡ true =
        (half_mark-NoDivisor i).1 (subst NoDivisor (sym here) free) in
      rw (marked, pool_numbers)
        (subst (λ x. Mem x (i ∷ pool_numbers count (i + 1))) here mem-cons_self)
  | inr other ↦
      let apart : i ≢ p = ground arith in
      let later = pool_numbers_complete count (i + 1) p (omega arith) (omega arith) free in
      elim (Bool-cases (half_mark i)) [
        | inl e ↦ rw (e, pool_numbers) (mem-cons_of_mem i later)
        | inr e ↦ rw (e, pool_numbers) later
      ]
]

pub pool_numbers-ArePrimes :
    (left right : ℕ)
    → 2 ≤ left
    → left ≤ right + 1
    → ArePrimes left right (pool_numbers (right + 1 - left) left)
pool_numbers-ArePrimes left right low range = record {
  increasing = pool_numbers-Increasing (right + 1 - left) left;
  sound = pool_numbers_sound (right + 1 - left) left right low (omega arith);
  complete = λ p above below prime.
      pool_numbers_complete (right + 1 - left) left p above (omega arith) prime.1;
}
