-- ===== src/ServerPool/Slots.antt =====
-- IPC/socket/stream/pool_dynamic/server.c: the loops over the slots.
use linux_coding.Common.{
  ℕ, ◌+◌, ◌≤◌, ◌<◌, ◌≡◌, ◌⊎◌, inl, inr, refl, none, some, List, [], ◌∷◌, ◌==◌, if◌then◌else◌, arith,
  length, All, Bool-cases, Option-cases,
}
use linux_coding.ServerPool.{Server, claim, release_idle, state_idle, state_busy}

abbrev pub one_if : ℕ → Server → ℕ
one_if st s = elim (s.pid) [ none ↦ 0 | some p ↦ if s.state == st then 1 else 0 ]

-- The processes in a state.
abbrev pub in_state : ℕ → List Server → ℕ
in_state st [] = 0
in_state st (s ∷ ss) = let rest = in_state st ss in one_if st s + rest

-- A slot without a process, or with a process in one of the two states.
abbrev pub IsKnown : Server → Type 0
IsKnown s = (s.pid ≡ none) ⊎ (s.state ≡ state_idle) ⊎ (s.state ≡ state_busy)

pub in_state_le : (ss : List Server) → in_state state_idle ss + in_state state_busy ss ≤ length ss
in_state_le [] = omega arith
in_state_le (s ∷ ss) = ground (arith, in_state_le ss)

-- The slots with a process.
abbrev pub occupied : List Server → ℕ
occupied ss = in_state state_idle ss + in_state state_busy ss

pub known_one :
    (s : Server) (p : ℕ)
    → IsKnown s
    → s.pid ≡ some p
    → one_if state_idle s + one_if state_busy s ≡ 1
known_one s p k e = ground arith

claim_taken :
    (pid p : ℕ) (s : Server) (ss : List Server) {rest : List Server}
    → s.pid ≡ some p
    → claim pid ss ≡ some rest
    → claim pid (s ∷ ss) ≡ some (s ∷ rest)
unfolding claim
claim_taken pid p s ss e f = ground arith

release_idle_other :
    (s : Server) (ss : List Server) {rest : List Server}
    → one_if state_idle s ≡ 0
    → release_idle ss ≡ some rest
    → release_idle (s ∷ ss) ≡ some (s ∷ rest)
unfolding release_idle
release_idle_other s ss e f = ground arith

-- What `claim` does where a slot is free.
pub claim_lem :
    (pid : ℕ) (ss : List Server)
    → All IsKnown ss
    → in_state state_idle ss + in_state state_busy ss < length ss
    → (rest : List Server) × (claim pid ss ≡ some rest)
      × (length rest ≡ length ss)
      × All IsKnown rest
      × (in_state state_idle rest ≡ in_state state_idle ss + 1)
      × (in_state state_busy rest ≡ in_state state_busy ss)
unfolding claim
claim_lem pid [] k h = absurd (omega arith)
claim_lem pid (s ∷ ss) (k, ks) h = elim (Option-cases s.pid) [
  | inl e ↦ (
    record { pid = some pid; state = state_idle } ∷ ss,
    rw e refl,
    refl,
    (inr (inl refl), ks),
    ground arith,
    ground arith,
  )
  | inr (p, e) ↦
      let one = known_one s p k e in
      let (rest, f, l, kr, i, b) = claim_lem pid ss ks (omega arith) in
      (s ∷ rest, claim_taken pid p s ss e f, omega arith, (k, kr), omega arith, omega arith)
]

-- What `release_idle` does where a process is idle.
pub release_idle_lem :
    (ss : List Server)
    → All IsKnown ss
    → 0 < in_state state_idle ss
    → (rest : List Server) × (release_idle ss ≡ some rest)
      × (length rest ≡ length ss)
      × All IsKnown rest
      × (in_state state_idle rest + 1 ≡ in_state state_idle ss)
      × (in_state state_busy rest ≡ in_state state_busy ss)
unfolding release_idle
release_idle_lem [] k h = absurd (omega arith)
release_idle_lem (s ∷ ss) (k, ks) h = elim (Option-cases s.pid) [
  | inl e ↦
      let z : one_if state_idle s ≡ 0 = rw e refl in
      let (rest, f, l, kr, i, b) = release_idle_lem ss ks (omega arith) in
      (s ∷ rest, release_idle_other s ss z f, omega arith, (k, kr), omega arith, omega arith)
  | inr (p, e) ↦ elim (Bool-cases (s.state == state_idle)) [
    | inl t ↦ (
      record s { pid = none } ∷ ss,
      rw (e, t) refl,
      refl,
      (inl refl, ks),
      ground arith,
      ground arith,
    )
    | inr t ↦
        let z : one_if state_idle s ≡ 0 = rw (e, t) refl in
        let (rest, f, l, kr, i, b) = release_idle_lem ss ks (omega arith) in
        (s ∷ rest, release_idle_other s ss z f, omega arith, (k, kr), omega arith, omega arith)
  ]
]
