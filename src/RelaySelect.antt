-- ===== src/RelaySelect.antt =====
-- proIO/select/relay.c: the relay of one pair of descriptors that asks `select` first. Its state
-- machine is that of Relay.
pub mod Stuck
mod Tests
use linux_coding.Common.{
  ℕ, Bool, true, false, ◌&&◌, ◌||◌, Option, none, some, List, [], ◌∷◌, ◌==◌, if◌then◌else◌,
}
use linux_coding.Relay.{State, r, w, ex, t, Fsm}
use linux_coding.RelayJobs.{Answer, drive, is_t}
use linux_coding.RelayPair.{is_r, is_w, before_auto, behind_auto}

-- `fd_set`.
abbrev pub FdSet : Type 0
FdSet = ℕ → Bool

-- `rset` and `wset` before `select`.
unfoldable pub read_set : Fsm → Fsm → FdSet
read_set m12 m21 fd = (is_r m12.state && (fd == m12.sfd)) || (is_r m21.state && (fd == m21.sfd))

unfoldable pub write_set : Fsm → Fsm → FdSet
write_set m12 m21 fd = (is_w m12.state && (fd == m12.dfd)) || (is_w m21.state && (fd == m21.dfd))

-- What `select` does: it fails with EINTR or with another error, or it leaves those descriptors in the
-- sets of which it says that they are ready.
pub data SelectResult : Type 0 where
  interrupted : SelectResult
  select_failed : SelectResult
  selected : FdSet → FdSet → SelectResult

-- The tests behind `select` and the steps of the machines.
unfoldable pub drive_ready : ℕ → ℕ → FdSet → FdSet → Answer → Answer → Fsm → Fsm → Fsm × Fsm
drive_ready fd1 fd2 rset wset a12 a21 m12 m21 = (
  if rset fd1 || wset fd2 || behind_auto m12.state then (drive a12 m12).0 else m12,
  if rset fd2 || wset fd1 || before_auto m21.state then (drive a21 m21).0 else m21,
)

-- A round of the loop; `none` is exit(1).
unfoldable pub select_round :
    ℕ → ℕ → SelectResult → Answer → Answer → Fsm → Fsm → Option (Fsm × Fsm)
select_round fd1 fd2 result a12 a21 m12 m21 =
    let rset = read_set m12 m21 in
    let wset = write_set m12 m21 in
    if before_auto m12.state || before_auto m21.state
    then elim result [
      | interrupted ↦ some (m12, m21)
      | select_failed ↦ none
      | selected rready wready ↦ some (
          drive_ready fd1 fd2 (λ fd. rset fd && rready fd) (λ fd. wset fd && wready fd) a12 a21 m12
            m21)
    ]
    else some (drive_ready fd1 fd2 rset wset a12 a21 m12 m21)

-- Where the loop is: left, with both machines in STATE_T; ended by exit(1); or still running.
pub data LoopState : Type 0 where
  left : Fsm → Fsm → LoopState
  exited : LoopState
  running : Fsm → Fsm → LoopState

-- The loop, for a list of what the system calls come to round by round.
unfoldable pub select_loop : ℕ → ℕ → List (SelectResult × Answer × Answer) → Fsm → Fsm → LoopState
select_loop fd1 fd2 [] m12 m21 =
    if is_t m12.state && is_t m21.state then left m12 m21 else running m12 m21
select_loop fd1 fd2 ((result, a12, a21) ∷ rest) m12 m21 = elim (is_t m12.state && is_t m21.state) [
  | true ↦ left m12 m21
  | false ↦ elim (select_round fd1 fd2 result a12 a21 m12 m21) [
    | none ↦ exited
    | some (n12, n21) ↦ select_loop fd1 fd2 rest n12 n21
  ]
]
