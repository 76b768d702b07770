-- ===== src/Counters/Semaphores.antt =====
-- homework/sem_prod_cons.c: all interleavings of its producers and consumers, a step being one
-- call on a semaphore or one critical section.
use linux_coding.Common.{ℕ, suc, ◌+◌, ◌≤◌, ◌≡◌, refl, some, arith}
use linux_coding.Counters.{
  Shared, sem_wait_empty, sem_wait_full, produce, post_full, consume, post_empty, size_of_sem,
}

-- The shared variables, and how many threads stand at each point of a round: producers past
-- `sem_wait`, past the critical section, consumers past `sem_wait`, past the critical section.
pub record State : Type 0 where
  pub shared : Shared
  pub entering : ℕ
  pub made : ℕ
  pub taking : ℕ
  pub took : ℕ

pub data Step (s t : State) : Type 0 where
  wait_empty :
      sem_wait_empty s.shared ≡ some t.shared
      → (t.entering ≡ suc s.entering)
        × (t.made ≡ s.made)
        × (t.taking ≡ s.taking)
        × (t.took ≡ s.took)
      → Step s t
  produced :
      t.shared ≡ produce s.shared
      → (s.entering ≡ suc t.entering)
        × (t.made ≡ suc s.made)
        × (t.taking ≡ s.taking)
        × (t.took ≡ s.took)
      → Step s t
  posted_full :
      t.shared ≡ post_full s.shared
      → (t.entering ≡ s.entering)
        × (s.made ≡ suc t.made)
        × (t.taking ≡ s.taking)
        × (t.took ≡ s.took)
      → Step s t
  wait_full :
      sem_wait_full s.shared ≡ some t.shared
      → (t.entering ≡ s.entering)
        × (t.made ≡ s.made)
        × (t.taking ≡ suc s.taking)
        × (t.took ≡ s.took)
      → Step s t
  consumed :
      t.shared ≡ consume s.shared
      → (t.entering ≡ s.entering)
        × (t.made ≡ s.made)
        × (s.taking ≡ suc t.taking)
        × (t.took ≡ suc s.took)
      → Step s t
  posted_empty :
      t.shared ≡ post_empty s.shared
      → (t.entering ≡ s.entering)
        × (t.made ≡ s.made)
        × (t.taking ≡ s.taking)
        × (s.took ≡ suc t.took)
      → Step s t

abbrev pub start : State
start = record {
  shared = record { sem_empty = size_of_sem; sem_full = 0; produced_count = 0; consumed_count = 0 };
  entering = 0;
  made = 0;
  taking = 0;
  took = 0;
}

pub data Reach : State → Type 0 where
  here : Reach start
  more : {s t : State} → Reach s → Step s t → Reach t

-- Each of the SIZE_OF_SEM tokens is in one place.
pub record Tokens (s : State) : Type 0 where
  pub tokens :
      s.shared.sem_empty + s.entering + s.made + s.shared.sem_full + s.taking + s.took ≡ size_of_sem
  pub items :
      s.shared.produced_count ≡ s.shared.consumed_count + s.made + s.shared.sem_full + s.taking

Step-Tokens : {s t : State} → Step s t → Tokens s → Tokens t
unfolding sem_wait_empty sem_wait_full produce post_full consume post_empty
Step-Tokens {s} {t} (wait_empty e c) k =
    let h = k.tokens in let i = k.items in record { tokens = ground arith; items = ground arith }
Step-Tokens {s} {t} (produced e c) k =
    let h = k.tokens in let i = k.items in record { tokens = ground arith; items = ground arith }
Step-Tokens {s} {t} (posted_full e c) k =
    let h = k.tokens in let i = k.items in record { tokens = ground arith; items = ground arith }
Step-Tokens {s} {t} (wait_full e c) k =
    let h = k.tokens in let i = k.items in record { tokens = ground arith; items = ground arith }
Step-Tokens {s} {t} (consumed e c) k =
    let h = k.tokens in let i = k.items in record { tokens = ground arith; items = ground arith }
Step-Tokens {s} {t} (posted_empty e c) k =
    let h = k.tokens in let i = k.items in record { tokens = ground arith; items = ground arith }

pub Reach-Tokens : {s : State} → Reach s → Tokens s
Reach-Tokens here = record { tokens = refl; items = refl }
Reach-Tokens (more r st) = Step-Tokens st (Reach-Tokens r)

-- In every state that any number of producers and consumers reach by semaphore calls and critical
-- sections, the semaphore values, the tokens that producers hold and those that consumers hold
-- make SIZE_OF_SEM together; so what is produced and not yet consumed is between 0 and SIZE_OF_SEM.
pub produce-consume_bounds :
    {s : State}
    → Reach s
    → (s.shared.sem_empty + s.entering + s.made + s.shared.sem_full + s.taking + s.took
        ≡ size_of_sem)
      × (s.shared.consumed_count ≤ s.shared.produced_count)
      × (s.shared.produced_count ≤ s.shared.consumed_count + size_of_sem)
produce-consume_bounds r =
    let k = Reach-Tokens r in let h = k.tokens in let i = k.items in (h, omega arith, omega arith)
