-- ===== src/PrimePool/Tests.antt =====
-- A pool of two threads for the numbers 2 to 3, and the witness of the theorem.
use linux_coding.Common.{◌++◌, ℕ, List, [], ◌+◌, ◌-◌, ◌<◌, ◌≡◌, refl, arith, map, some}
use linux_coding.Common.Int.{pos}
use linux_coding.Primes.Searched.{ArePrimes}
use linux_coding.PrimePool.{
  PrimePool, start, is_empty, PoolStep, PoolSteps, at_once, and_then, by_hand_out, hand_out,
  printed,
}
use linux_coding.PrimePool.Handed.{offered, numbers}
use linux_coding.PrimePool.Joined.{PoolStep-steps_left, pool_joined, steps_left}

abbrev one_out : PrimePool
one_out = record { num = pos 2; i = 3; taken = []; gone = 0 }

first_out : hand_out 3 (start 2) ≡ some one_out
unfolding hand_out start is_empty
first_out = refl

abbrev reached : PoolSteps 3 2 (start 2) one_out
reached = and_then at_once (by_hand_out first_out)

pool_joined_example :
    (t : PrimePool) × (primes : List ℕ) × PoolSteps 3 2 one_out t
    × (t.gone ≡ 2)
    × (t.taken ≡ numbers (3 + 1 - 2) 2)
    × (printed t.taken ≡ map pos primes)
    × ArePrimes 2 3 primes
pool_joined_example = pool_joined 2 3 2 one_out (omega arith) (omega arith) (omega arith) reached

PoolStep-steps_left_example :
    (steps_left 3 2 one_out < steps_left 3 2 (start 2))
    × (one_out.taken ++ offered one_out.num ≡ numbers (one_out.i - 2) 2)
PoolStep-steps_left_example =
    PoolStep-steps_left 2 3 2 (start 2) one_out (omega arith) (omega arith) PoolSteps.at_once
      (PoolStep.by_hand_out first_out)
