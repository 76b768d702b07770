-- ===== src/MySem.antt =====
-- thread/posix/mysemphon/mysem.c: a counting semaphore on a mutex and a condition variable.
pub mod Value
mod Tests
use mathlib.Core.Option
use linux_coding.Common.{Bool, true, false, Option, none, some, List, wait_while, if◌then◌else◌}
use linux_coding.Common.Int.{ℤ, ◌+ℤ◌, ◌-ℤ◌, ltb_ℤ}

-- `struct mysem_st`.
pub record MySem : Type 0 where
  pub value : ℤ

-- `memory` says that `malloc` succeeds.
unfoldable pub mysem_init : Bool → ℤ → Option MySem
mysem_init memory initval = if memory then some (record { value = initval }) else none

unfoldable pub mysem_add : ℤ → MySem → ℤ × MySem
mysem_add n s = (n, record s { value = s.value +ℤ n })

abbrev pub must_wait_value : ℤ → MySem → Bool
must_wait_value n s = ltb_ℤ s.value n

-- Behind the wait.
unfoldable pub subtract_value : ℤ → MySem → ℤ × MySem
subtract_value n s = (n, record s { value = s.value -ℤ n })

unfoldable pub mysem_sub : List (MySem → MySem) → ℤ → MySem → Option (ℤ × MySem)
mysem_sub wakes n s = Option.map (subtract_value n) (wait_while (must_wait_value n) wakes s)
