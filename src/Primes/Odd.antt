-- ===== src/Primes/Odd.antt =====
-- `is_primer` of primer_by_four.c and its copies, which tries the odd divisors only.
use linux_coding.Common.{
  ℕ, ◌+◌, ◌-◌, ◌*◌, ◌/◌, ◌%◌, ◌≤◌, ◌≡◌, ◌≢◌, ◌↔◌, subst, arith, Bool, true, some,
}
use linux_coding.Primes.{odd_mark}
use linux_coding.Primes.Divisors.{NoDivisor, NoDivisor-of_small, divisor_odd, square_lt}
use linux_coding.Primes.Tested.{root_loop-ends}

-- `is_primer` of primer_by_four.c returns, and at an odd number it says true exactly if no number
-- between 1 and itself divides it.
pub odd_mark-NoDivisor :
    (j : ℕ) → j % 2 ≡ 1 → (b : Bool) × (odd_mark j ≡ some b) × ((b ≡ true) ↔ NoDivisor j)
unfolding odd_mark
odd_mark-NoDivisor j odd =
    let ends =
      root_loop-ends (j + 1) 2 3 j (omega arith) (omega arith) (omega arith) (omega arith) in
    (
      ends.0,
      ends.1,
      (
        λ e. NoDivisor-of_small j (λ d low small divides.
            let odd_d : d % 2 ≡ 1 = divisor_odd j d odd divides in
            subst (λ x. x * x ≤ j → j % x ≢ 0) (omega arith) (ends.2.0 e ((d - 3) / 2)) small
              divides),
        λ free. ends.2.1 (λ k small.
            free (3 + k * 2) (omega arith) (square_lt (3 + k * 2) j (omega arith) small)),
      ),
    )
