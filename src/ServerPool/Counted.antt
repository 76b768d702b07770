-- ===== src/ServerPool/Counted.antt =====
-- IPC/socket/stream/pool_dynamic/server.c: the counts are those of the slots.
use linux_coding.Common.{
  ℕ, ◌+◌, ◌-◌, ◌≤◌, ◌<◌, ◌≡◌, refl, ◌∙◌, true, false, some, ◌==◌, leb, arith, length, All,
}
use linux_coding.ServerPool.Slots.{in_state, IsKnown, claim_lem, release_idle_lem}
use linux_coding.ServerPool.{
  Pool, state_idle, state_busy, max_client, Outcome, add_1_server, del_1_server,
}

pub record IsCounted (p : Pool) : Type 0 where
  pub slots : length p.serverpool ≡ max_client
  pub known : All IsKnown p.serverpool
  pub idle : p.idle_count ≡ in_state state_idle p.serverpool
  pub busy : p.busy_count ≡ in_state state_busy p.serverpool

-- Where the counts are those of the slots, `add_1_server` refuses if the pool is full; else, if fork
-- succeeds, it never writes behind the last slot, it gives 0, and there is one idle process more and
-- the counts are again those of the slots.
pub add_1_server-IsCounted :
    (pid : ℕ) (p : Pool)
    → IsCounted p
    → (max_client ≤ p.idle_count + p.busy_count → add_1_server (some pid) p ≡ Outcome.refused p)
      × (p.idle_count + p.busy_count < max_client
          → (q : Pool) × (add_1_server (some pid) p ≡ Outcome.returned q)
            × IsCounted q
            × (q.idle_count ≡ p.idle_count + 1)
            × (q.busy_count ≡ p.busy_count))
unfolding add_1_server
add_1_server-IsCounted pid p c =
    let cs = c.slots in
    let ci = c.idle in
    let cb = c.busy in
    (
      λ h. let t : leb max_client (p.idle_count + p.busy_count) ≡ true = ground arith in rw t refl,
      λ h.
          let t : leb max_client (p.idle_count + p.busy_count) ≡ false = ground arith in
          let (rest, f, l, kr, i, b) = claim_lem pid p.serverpool c.known (omega arith) in
          (
            record p { serverpool = rest; idle_count = p.idle_count + 1 },
            rw (t, f) refl,
            record { slots = l ∙ cs; known = kr; idle = omega arith; busy = omega arith },
            refl,
            refl,
          ),
    )

-- Where the counts are those of the slots, `del_1_server` refuses if no process is idle; else it
-- gives 0, and there is one idle process less and the counts are again those of the slots.
pub del_1_server-IsCounted :
    (p : Pool)
    → IsCounted p
    → (p.idle_count ≡ 0 → del_1_server p ≡ Outcome.refused p)
      × (0 < p.idle_count
          → (q : Pool) × (del_1_server p ≡ Outcome.returned q)
            × IsCounted q
            × (q.idle_count + 1 ≡ p.idle_count)
            × (q.busy_count ≡ p.busy_count))
unfolding del_1_server
del_1_server-IsCounted p c =
    let cs = c.slots in
    let ci = c.idle in
    let cb = c.busy in
    (
      λ h. let t : (p.idle_count == 0) ≡ true = ground arith in rw t refl,
      λ h.
          let t : (p.idle_count == 0) ≡ false = ground arith in
          let (rest, f, l, kr, i, b) = release_idle_lem p.serverpool c.known (omega arith) in
          (
            record p { serverpool = rest; idle_count = p.idle_count - 1 },
            rw (t, f) refl,
            record { slots = l ∙ cs; known = kr; idle = omega arith; busy = omega arith },
            omega arith,
            refl,
          ),
    )
