-- ===== src/Counters.antt =====
-- Threads that share one counter: thread/posix/productor_consumer/pc.c, homework/parking.c and
-- homework/sem_prod_cons.c. A state is the shared variables and, for each thread, the rounds that
-- it has left; a step is one critical section of one thread.
pub mod Rounds
pub mod Producers
pub mod Parking
pub mod Semaphores
mod Tests
use linux_coding.Common.{ℕ, suc, ◌+◌, ◌-◌, Option, none, some, List, [], ◌∷◌, ◌==◌, if◌then◌else◌}

-- pc.c: `QUEUE_MAX_SIZE`.
abbrev pub queue_max_size : ℕ
queue_max_size = 5

-- A round of `prod`: `none` while `size == QUEUE_MAX_SIZE`, where it waits.
unfoldable pub prod : ℕ → Option ℕ
prod size = if size == queue_max_size then none else some (size + 1)

-- A round of `cons`.
unfoldable pub cons : ℕ → Option ℕ
cons size = if size == 0 then none else some (size - 1)

-- parking.c: `MAX_CAPICITY`.
abbrev pub max_capicity : ℕ
max_capicity = 10

-- A round of `enter_car` and of `exit_car` on `remain_size`.
unfoldable pub enter_car : ℕ → Option ℕ
enter_car remain = if remain == 0 then none else some (remain - 1)

unfoldable pub exit_car : ℕ → Option ℕ
exit_car remain = if remain == max_capicity then none else some (remain + 1)

-- sem_prod_cons.c: `SIZE_OF_SEM`.
abbrev pub size_of_sem : ℕ
size_of_sem = 2

-- The two semaphores and the two counts.
pub record Shared : Type 0 where
  pub sem_empty : ℕ
  pub sem_full : ℕ
  pub produced_count : ℕ
  pub consumed_count : ℕ

-- `sem_wait`: `none` while the value is 0.
unfoldable pub sem_wait_empty : Shared → Option Shared
sem_wait_empty s =
    if s.sem_empty == 0 then none else some (record s { sem_empty = s.sem_empty - 1 })

unfoldable pub sem_wait_full : Shared → Option Shared
sem_wait_full s = if s.sem_full == 0 then none else some (record s { sem_full = s.sem_full - 1 })

-- The critical section of `productor`, then `sem_post(&sem_full)`.
unfoldable pub produce : Shared → Shared
produce s = record s { produced_count = s.produced_count + 1 }

unfoldable pub post_full : Shared → Shared
post_full s = record s { sem_full = s.sem_full + 1 }

-- The critical section of `consumer`, then `sem_post(&sem_empty)`.
unfoldable pub consume : Shared → Shared
consume s = record s { consumed_count = s.consumed_count + 1 }

unfoldable pub post_empty : Shared → Shared
post_empty s = record s { sem_empty = s.sem_empty + 1 }
