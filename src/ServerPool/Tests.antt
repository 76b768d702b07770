-- ===== src/ServerPool/Tests.antt =====
-- Runs of IPC/socket/stream/pool_dynamic/server.c.
use linux_coding.Common.{
  ℕ, zero, suc, ◌+◌, ◌-◌, ◌/◌, ◌≤◌, ◌<◌, ◌≡◌, ◌≢◌, refl, true, none, some, List, ◌∷◌, replicate,
  All, min, inl, inr, get_elem?, ◌↔◌,
}
use linux_coding.ServerPool.Life.{
  Job, Accepted, PoolStep, PoolSteps, write_state, pool_init, server_job,
}
use linux_coding.ServerPool.Alive.{pool_aborts}
use linux_coding.ServerPool.{
  Server, Pool, scan_pool, control, max_client, max_spare_server, min_spare_server, Outcome,
  add_1_server, state_busy, scan_slots, scan_slot, Written, no_write, idle_written, busy_written,
  written_state,
}
use linux_coding.ServerPool.Slots.{IsKnown}
use linux_coding.ServerPool.Scan.{Raced}
use linux_coding.ServerPool.Counted.{IsCounted}
use linux_coding.ServerPool.Control.{control_half}

-- One idle and one busy process.
abbrev slots : List Server
slots =
    record { pid = some 7; state = 0 }
    ∷ record { pid = some 8; state = 1 }
    ∷ replicate 18 (record { pid = none; state = 0 })

abbrev two_servers : Pool
two_servers = record { serverpool = slots; idle_count = 1; busy_count = 1 }

free-IsKnown : (n : ℕ) → All IsKnown (replicate n (record { pid = none; state = 0 }))
free-IsKnown zero = tt
free-IsKnown (suc n) = (inl refl, free-IsKnown n)

slots-IsKnown : All IsKnown slots
slots-IsKnown = (inr (inl refl), (inr (inr refl), free-IsKnown 18))

two_servers-IsCounted : IsCounted two_servers
two_servers-IsCounted = record { slots = refl; known = slots-IsKnown; idle = refl; busy = refl }

control_half_example :
    (q : Pool) × (control (λ k. some (k + 20)) two_servers ≡ some q)
    × IsCounted q
    × (q.busy_count ≡ 1)
    × (max_spare_server < 1 → q.idle_count ≡ 1 - (1 - max_spare_server + 1) / 2)
    × (1 < min_spare_server
        → q.idle_count ≡ 1 + min ((min_spare_server - 1 + 1) / 2) (max_client - 2))
    × (min_spare_server ≤ 1 → 1 ≤ max_spare_server → q ≡ two_servers)
control_half_example = control_half (λ k. k + 20) two_servers two_servers-IsCounted

-- A child of slot 0 has written that it is busy.
abbrev after_write : Pool
after_write = record {
  serverpool = write_state 0 state_busy pool_init.serverpool;
  idle_count = 0;
  busy_count = 0;
}

child_wrote : PoolSteps pool_init after_write
unfolding server_job pool_init
child_wrote = PoolSteps.and_then PoolSteps.at_once (
    PoolStep.by_job 0 Accepted.failed (Job.to_busy none) (Job.to_answer none)
      (write_state 0 state_busy pool_init.serverpool) refl)

-- The child of slot 0 was busy when the parent compared its state with STATE_IDLE, and writes that it
-- is idle before the parent compares it with STATE_BUSY.
abbrev late_write : ℕ → Written
late_write zero = idle_written
late_write (suc k) = no_write

race_aborts : scan_pool (λ pid. true) (λ k. busy_written) late_write two_servers ≡ none
unfolding scan_pool scan_slots scan_slot written_state
race_aborts = refl

pool_aborts_example :
    ((scan_pool (λ pid. true) (λ k. no_write) late_write after_write ≡ none) ↔ (
      (k : ℕ) × (s : Server) × (get_elem? after_write.serverpool k ≡ some s)
      × Raced (λ pid. true) no_write (late_write k) s))
    × ((q : Pool)
        → scan_pool (λ pid. true) (λ k. no_write) late_write after_write ≡ some q
        → q.idle_count + q.busy_count ≤ max_client)
    × (add_1_server (some 7) after_write ≢ Outcome.overrun)
pool_aborts_example =
    pool_aborts after_write (λ pid. true) (λ k. no_write) late_write (some 7) child_wrote
