-- ===== src/ServerPool.antt =====
-- IPC/socket/stream/pool_dynamic/server.c: the parent that keeps a pool of server processes. Which
-- processes exist and what fork returns are arguments.
pub mod Slots
pub mod Scan
pub mod Kept
pub mod Counted
pub mod Control
pub mod Life
pub mod Alive
mod Tests
use linux_coding.Common.{
  ℕ, zero, suc, ◌+◌, ◌-◌, Bool, true, false, Option, none, some, List, [], ◌∷◌, ◌==◌, leb, ltb,
  if◌then◌else◌,
}

-- `MINSPARESERVER`, `MAXSPARESERVER` and `MAXCLIENT`.
abbrev pub min_spare_server : ℕ
min_spare_server = 5

abbrev pub max_spare_server : ℕ
max_spare_server = 10

abbrev pub max_client : ℕ
max_client = 20

abbrev pub state_idle : ℕ
state_idle = 0

abbrev pub state_busy : ℕ
state_busy = 1

-- `struct server_st`; `none` is the pid -1.
pub record Server : Type 0 where
  pub pid : Option ℕ
  pub state : ℕ

-- The static variables.
pub record Pool : Type 0 where
  pub serverpool : List Server
  pub idle_count : ℕ
  pub busy_count : ℕ

-- What the child of a slot writes into its state before the parent reads it.
pub data Written : Type 0 where
  no_write : Written
  idle_written : Written
  busy_written : Written

unfoldable pub written_state : Written → ℕ → ℕ
written_state no_write state = state
written_state idle_written state = state_idle
written_state busy_written state = state_busy

-- One round of the loop of `scan_pool`: the slot, and what it adds to `idle` and to `busy`; `none`
-- where it aborts. The state is read twice, and the child may write it before the first read
-- (`early`) and between the two (`late`).
unfoldable pub scan_slot : (ℕ → Bool) → Written → Written → Server → Option (Server × ℕ × ℕ)
scan_slot exists early late s =
    let first = written_state early s.state in
    let second = written_state late first in
    elim (s.pid) [
      | none ↦ some (record { pid = s.pid; state = second }, 0, 0)
      | some pid ↦
          if exists pid
          then (if first == state_idle
              then some (record { pid = s.pid; state = second }, 1, 0)
              else (if second == state_busy
                  then some (record { pid = s.pid; state = second }, 0, 1)
                  else none))
          else some (record { pid = none; state = second }, 0, 0)
    ]

-- From slot `i` on, where `early` and `late` say what the child of each slot writes.
unfoldable pub scan_slots :
    (ℕ → Bool) → (ℕ → Written) → (ℕ → Written) → ℕ → List Server → Option (List Server × ℕ × ℕ)
scan_slots exists early late i [] = some ([], 0, 0)
scan_slots exists early late i (s ∷ ss) = elim (scan_slots exists early late (i + 1) ss) [
  | none ↦ none
  | some (rest, idle, busy) ↦ elim (scan_slot exists (early i) (late i) s) [
    | none ↦ none
    | some (s', n, m) ↦ some (s' ∷ rest, n + idle, m + busy)
  ]
]

unfoldable pub scan_pool : (ℕ → Bool) → (ℕ → Written) → (ℕ → Written) → Pool → Option Pool
scan_pool exists early late p = elim (scan_slots exists early late 0 p.serverpool) [
  | none ↦ none
  | some (slots, idle, busy) ↦
      some (record { serverpool = slots; idle_count = idle; busy_count = busy })
]

-- The first free slot gets the new process; `none` where no slot is free.
unfoldable pub claim : ℕ → List Server → Option (List Server)
claim pid [] = none
claim pid (s ∷ ss) = elim (s.pid) [
  | none ↦ some (record { pid = some pid; state = state_idle } ∷ ss)
  | some p ↦ elim (claim pid ss) [ none ↦ none | some rest ↦ some (s ∷ rest) ]
]

-- What a call does: it gives -1, writes behind the last slot, ends the parent, or gives 0.
pub data Outcome : Type 0 where
  refused : Pool → Outcome
  overrun : Outcome
  exited : Outcome
  returned : Pool → Outcome

-- `fork` is the pid of the child, or `none`.
unfoldable pub add_1_server : Option ℕ → Pool → Outcome
add_1_server fork p =
    if leb max_client (p.idle_count + p.busy_count) then Outcome.refused p else elim fork [
      | none ↦ Outcome.exited
      | some pid ↦ elim (claim pid p.serverpool) [
        | none ↦ Outcome.overrun
        | some slots ↦
            Outcome.returned (record p { serverpool = slots; idle_count = p.idle_count + 1 })
      ]
    ]

-- The first idle process is killed and its slot freed; `none` where there is none.
unfoldable pub release_idle : List Server → Option (List Server)
release_idle [] = none
release_idle (s ∷ ss) =
    let rest = release_idle ss in
    elim (s.pid) [
      | none ↦ elim rest [ none ↦ none | some more ↦ some (s ∷ more) ]
      | some pid ↦
          if s.state == state_idle
          then some (record s { pid = none } ∷ ss)
          else elim rest [ none ↦ none | some more ↦ some (s ∷ more) ]
    ]

unfoldable pub del_1_server : Pool → Outcome
del_1_server p = if p.idle_count == 0 then Outcome.refused p else elim (release_idle p.serverpool) [
  | none ↦ Outcome.returned p
  | some slots ↦ Outcome.returned (record p { serverpool = slots; idle_count = p.idle_count - 1 })
]

-- The parent goes on whatever a call gives, if it still runs; `none` where it does not.
abbrev pub goes_on : Outcome → Option Pool
goes_on (refused p) = some p
goes_on overrun = none
goes_on exited = none
goes_on (returned p) = some p

-- `for (i = 0; i < (idle_count - MAXSPARESERVER); i++) del_1_server();` from `i` on. The test reads
-- the count that the calls change.
unfoldable pub shrink : ℕ → ℕ → Pool → Option Pool
shrink zero i p = some p
shrink (suc fuel) i p =
    if ltb i (p.idle_count - max_spare_server)
    then elim (goes_on (del_1_server p)) [ none ↦ none | some q ↦ shrink fuel (i + 1) q ]
    else some p

-- `for (i = 0; i < (MINSPARESERVER - idle_count); i++) add_1_server();` from `i` on; the i-th fork
-- gives `forks i`.
unfoldable pub grow : (ℕ → Option ℕ) → ℕ → ℕ → Pool → Option Pool
grow forks zero i p = some p
grow forks (suc fuel) i p =
    if ltb i (min_spare_server - p.idle_count)
    then elim (goes_on (add_1_server (forks i) p)) [
      | none ↦ none
      | some q ↦ grow forks fuel (i + 1) q
    ]
    else some p

-- What `main` does with the pool after a scan.
unfoldable pub control : (ℕ → Option ℕ) → Pool → Option Pool
control forks p =
    if ltb max_spare_server p.idle_count
    then shrink p.idle_count 0 p
    else (if ltb p.idle_count min_spare_server then grow forks min_spare_server 0 p else some p)
