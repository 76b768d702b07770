-- ===== src/PrimePool.antt =====
-- thread/posix/primer_pool_busy.c: main hands numbers to the threads through the one variable `num`. A
-- step is one critical section under `mut_num`; a thread whose wait goes on takes no step, since it
-- polls, with sched_yield, and waits for no wake.
pub mod Handed
pub mod Joined
mod Tests
use linux_coding.Common.{
  ℕ, zero, suc, ◌+◌, ◌-◌, ◌*◌, ◌≤◌, ◌<◌, ◌≡◌, Bool, true, false, ◌&&◌, Option, some, none, List, [],
  ◌∷◌, ◌++◌, leb, ltb, if◌then◌else◌,
}
use linux_coding.Primes.{half_mark}
use linux_coding.Common.Int.{ℤ, pos, negsuc}

-- `num`, main's `i`, the numbers that the threads took, oldest first, and how many threads have left
-- their loop.
pub record PrimePool : Type 0 where
  num : ℤ
  i : ℕ
  taken : List ℤ
  gone : ℕ

unfoldable pub start : ℕ → PrimePool
start left = record { num = pos 0; i = left; taken = []; gone = 0 }

unfoldable pub is_empty : ℤ → Bool
is_empty (pos zero) = true
is_empty (pos (suc n)) = false
is_empty (negsuc n) = false

-- `num == -1`
unfoldable pub is_ended : ℤ → Bool
is_ended (pos n) = false
is_ended (negsuc zero) = true
is_ended (negsuc (suc n)) = false

-- Main, in its loop `for(i = LEFT; i <= RIGHT; i ++)`: `num = i`.
unfoldable pub hand_out : ℕ → PrimePool → Option PrimePool
hand_out right s =
    if leb s.i right && is_empty s.num
    then some (record { num = pos s.i; i = s.i + 1; taken = s.taken; gone = s.gone })
    else none

-- Main, after the loop: `num = -1`.
unfoldable pub hand_end : ℕ → PrimePool → Option PrimePool
hand_end right s =
    if ltb right s.i && is_empty s.num
    then some (record { num = negsuc 0; i = s.i; taken = s.taken; gone = s.gone })
    else none

-- A thread: `i = num; num = 0`.
unfoldable pub take_num : ℕ → PrimePool → Option PrimePool
take_num threads s =
    if ltb s.gone threads
    then (if is_empty s.num
        then none
        else (if is_ended s.num
            then none
            else some
                (record { num = pos 0; i = s.i; taken = s.taken ++ (s.num ∷ []); gone = s.gone })))
    else none

-- A thread that finds -1 leaves.
unfoldable pub leave : ℕ → PrimePool → Option PrimePool
leave threads s =
    if ltb s.gone threads && is_ended s.num
    then some (record { num = s.num; i = s.i; taken = s.taken; gone = s.gone + 1 })
    else none

-- One critical section of main or of one of the `threads` threads.
pub data PoolStep (right threads : ℕ) : PrimePool → PrimePool → Type 0 where
  by_hand_out : {s t : PrimePool} → hand_out right s ≡ some t → PoolStep right threads s t
  by_hand_end : {s t : PrimePool} → hand_end right s ≡ some t → PoolStep right threads s t
  by_take : {s t : PrimePool} → take_num threads s ≡ some t → PoolStep right threads s t
  by_leave : {s t : PrimePool} → leave threads s ≡ some t → PoolStep right threads s t

-- Any number of steps, the last one outermost.
pub data PoolSteps (right threads : ℕ) : PrimePool → PrimePool → Type 0 where
  at_once : {s : PrimePool} → PoolSteps right threads s s
  and_then :
      {s t u : PrimePool}
      → PoolSteps right threads s t
      → PoolStep right threads t u
      → PoolSteps right threads s u

-- `mark` after the loop over the divisors, which does not run for a negative number.
unfoldable pub mark : ℤ → Bool
mark (pos i) = half_mark i
mark (negsuc i) = true

-- What the threads print of the numbers they took, in the order of taking.
unfoldable pub printed : List ℤ → List ℤ
printed [] = []
printed (z ∷ taken) = let rest = printed taken in if mark z then z ∷ rest else rest
