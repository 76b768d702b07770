-- ===== src/ServerPool/Kept.antt =====
-- IPC/socket/stream/pool_dynamic/server.c: what a step of a child keeps of the slots.
use linux_coding.Common.{
  ℕ, zero, suc, ◌≡◌, ◌⊎◌, inl, inr, refl, ap, subst, arith, none, some, Option-cases, List, [], ◌∷◌,
  length, All,
}
use linux_coding.ServerPool.{Server, state_idle, state_busy}
use linux_coding.ServerPool.Slots.{IsKnown, one_if, known_one, occupied}
use linux_coding.ServerPool.Life.{
  Job, to_idle, to_accept, to_busy, to_answer, Accepted, client, interrupted, failed, write_state,
  server_job,
}

-- What is kept of the slots.
abbrev pub Kept : List Server → List Server → Type 0
Kept ss rest = (length rest ≡ length ss) × All IsKnown rest × (occupied rest ≡ occupied ss)

no_process : (st : ℕ) (s : Server) → s.pid ≡ none → one_if st s ≡ 0
no_process st s e = rw e refl

write_state-Kept :
    (pos state : ℕ) (ss : List Server)
    → (state ≡ state_idle) ⊎ (state ≡ state_busy)
    → All IsKnown ss
    → Kept ss (write_state pos state ss)
unfolding write_state
write_state-Kept pos state [] is_state known = (refl, tt, refl)
write_state-Kept zero state (s ∷ ss) is_state (k, known) =
    let written : Server = record { pid = s.pid; state = state } in
    elim (Option-cases s.pid) [
      | inl free ↦ (
        refl,
        (inr is_state, known),
        omega (
          arith,
          no_process state_idle s free,
          no_process state_busy s free,
          no_process state_idle written free,
          no_process state_busy written free,
        ),
      )
      | inr (p, taken) ↦
          let before = known_one s p k taken in
          let after = known_one written p (inr is_state) taken in
          (refl, (inr is_state, known), omega (arith, before, after))
    ]
write_state-Kept (suc pos) state (s ∷ ss) is_state (k, known) =
    let rest = write_state-Kept pos state ss is_state known in
    (ap suc rest.0, (k, rest.1), omega (arith, rest.2))

pub server_job-Kept :
    (pos : ℕ) (a : Accepted) (j k : Job) (ss slots : List Server)
    → All IsKnown ss
    → server_job pos a j ss ≡ some (k, slots)
    → Kept ss slots
unfolding server_job
server_job-Kept pos a to_idle k ss slots known e =
    let same : write_state pos state_idle ss ≡ slots = cc in
    subst (Kept ss) same (write_state-Kept pos state_idle ss (inl refl) known)
server_job-Kept pos (client sd) to_accept k ss slots known e =
    let same : ss ≡ slots = cc in subst (Kept ss) same (refl, known, refl)
server_job-Kept pos interrupted to_accept k ss slots known e =
    let same : ss ≡ slots = cc in subst (Kept ss) same (refl, known, refl)
server_job-Kept pos failed to_accept k ss slots known e = cc
server_job-Kept pos a (to_busy sd) k ss slots known e =
    let same : write_state pos state_busy ss ≡ slots = cc in
    subst (Kept ss) same (write_state-Kept pos state_busy ss (inr refl) known)
server_job-Kept pos a (to_answer sd) k ss slots known e =
    let same : ss ≡ slots = cc in subst (Kept ss) same (refl, known, refl)
