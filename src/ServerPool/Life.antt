-- ===== src/ServerPool/Life.antt =====
-- server_job, and the life of the whole pool: the parent and its children share the slots, and a child
-- may write its state between any two calls of the parent, and within its scan.
use linux_coding.Common.{
  ℕ, zero, suc, ◌≡◌, Option, none, some, List, [], ◌∷◌, replicate, Bool, ◌==◌, if◌then◌else◌,
}
use linux_coding.ServerPool.{
  Server, Pool, max_client, state_idle, state_busy, scan_pool, add_1_server, del_1_server, goes_on,
  Written,
}

-- Where a child stands in its loop: before the write of STATE_IDLE, at accept, before the write of
-- STATE_BUSY, and at the answer to the client with its close. The descriptor is `none` for -1.
pub data Job : Type 0 where
  to_idle : Job
  to_accept : Job
  to_busy : Option ℕ → Job
  to_answer : Option ℕ → Job

-- What accept does: a descriptor, an interruption (EINTR or EAGAIN), or another error.
pub data Accepted : Type 0 where
  client : ℕ → Accepted
  interrupted : Accepted
  failed : Accepted

-- `serverpool[pos].state = state;`
unfoldable pub write_state : ℕ → ℕ → List Server → List Server
write_state pos state [] = []
write_state zero state (s ∷ ss) = record s { state = state } ∷ ss
write_state (suc pos) state (s ∷ ss) = s ∷ write_state pos state ss

-- One step of server_job in slot `pos`; `none` is exit(1).
unfoldable pub server_job : ℕ → Accepted → Job → List Server → Option (Job × List Server)
server_job pos a to_idle slots = some (to_accept, write_state pos state_idle slots)
server_job pos (client sd) to_accept slots = some (to_busy (some sd), slots)
server_job pos interrupted to_accept slots = some (to_busy none, slots)
server_job pos failed to_accept slots = none
server_job pos a (to_busy sd) slots = some (to_answer sd, write_state pos state_busy slots)
server_job pos a (to_answer sd) slots = some (to_idle, slots)

-- The pool that mmap and the loop behind it set up.
unfoldable pub pool_init : Pool
pool_init = record {
  serverpool = replicate max_client (record { pid = none; state = 0 });
  idle_count = 0;
  busy_count = 0;
}

-- `for(i = 0; i < MINSPARESERVER; i++) add_1_server();`, with `left` of them to come.
unfoldable pub add_first : (ℕ → Option ℕ) → ℕ → Pool → Option Pool
add_first forks zero p = some p
add_first forks (suc left) p = elim (goes_on (add_1_server (forks left) p)) [
  | none ↦ none
  | some q ↦ add_first forks left q
]

-- The state of the pool as main prints it.
unfoldable pub slot_char : Server → ℕ
slot_char s = elim s.pid [ none ↦ 32 | some pid ↦ if s.state == state_idle then 46 else 120 ]

unfoldable pub print_pool : List Server → List ℕ
print_pool [] = 10 ∷ []
print_pool (s ∷ slots) = slot_char s ∷ print_pool slots

-- A child's step in some slot, or one call of the parent.
pub data PoolStep : Pool → Pool → Type 0 where
  by_job :
      {p : Pool} (pos : ℕ) (a : Accepted) (j k : Job) (slots : List Server)
      → server_job pos a j p.serverpool ≡ some (k, slots)
      → PoolStep p
          (record { serverpool = slots; idle_count = p.idle_count; busy_count = p.busy_count })
  by_scan :
      {p q : Pool} (exists : ℕ → Bool) (early late : ℕ → Written)
      → scan_pool exists early late p ≡ some q
      → PoolStep p q
  by_add : {p q : Pool} (fork : Option ℕ) → goes_on (add_1_server fork p) ≡ some q → PoolStep p q
  by_del : {p q : Pool} → goes_on (del_1_server p) ≡ some q → PoolStep p q

pub data PoolSteps : Pool → Pool → Type 0 where
  at_once : {p : Pool} → PoolSteps p p
  and_then : {p q r : Pool} → PoolSteps p q → PoolStep q r → PoolSteps p r
