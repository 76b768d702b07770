-- ===== src/Relay.antt =====
-- proIO/non-blocked/relayer/relayer.c, relayer.h: copying between pairs of descriptors by state
-- machines. What `read` and `write` come to is an argument of each step.
pub mod Flight
pub mod Copy
mod Tests
use mathlib.Core.Option
use linux_coding.Common.{
  ℕ, zero, suc, ◌+◌, ◌-◌, ◌≤◌, Bool, true, false, ◌&&◌, ◌||◌, not, Option, none, some, List, [],
  ◌∷◌, ◌++◌, ltb, leb, ◌==◌, if◌then◌else◌, length, take, drop, get_elem?, set,
}
use linux_coding.Common.Int.{ℤ, pos, negsuc, ◌+ℤ◌, ◌-ℤ◌, eqb_ℤ}

-- `BUFSIZE`
abbrev pub buf_size : ℕ
buf_size = 1024

-- `STATE_R`, `STATE_W`, `STATE_EX`, `STATE_T`
pub data State : Type 0 where
  r w ex t : State

-- The texts that `strerr` is set to: "read()" and "write()".
pub data Call : Type 0 where
  read_call write_call : Call

-- `struct rel_fsm_st`; `count` is never used.
pub record Fsm : Type 0 where
  pub state : State
  pub sfd : ℕ
  pub dfd : ℕ
  pub buf : List ℕ
  pub len : ℤ
  pub strerr : Option Call
  pub offset : ℕ  -- `pos`

-- `read` of at most `BUFSIZE` bytes, no byte at the end of the file; or -1, with `errno` EAGAIN or
-- another.
pub data ReadResult : Type 0 where
  got : List ℕ → ReadResult
  read_again read_failed : ReadResult

-- `write`: the number of bytes written; or -1.
pub data WriteResult : Type 0 where
  wrote : ℕ → WriteResult
  write_again write_failed : WriteResult

-- What a step does to the outside: the bytes that it read, or wrote, or a call of `perror`.
pub data Effect : Type 0 where
  nothing : Effect
  received sent : List ℕ → Effect
  reported : Option Call → Effect

-- `fsm->len = read(fsm->sfd, fsm->buf, BUFSIZE)` and what follows.
unfoldable pub drive_read : ReadResult → Fsm → Fsm × Effect
drive_read (got []) m = (record m { len = pos 0; state = t }, nothing)
drive_read (got (x ∷ xs)) m = (
  record m {
    buf = (x ∷ xs) ++ drop (length (x ∷ xs)) m.buf;
    len = pos (length (x ∷ xs));
    offset = 0;
    state = w;
  },
  received (x ∷ xs),
)
drive_read read_again m = (record m { len = negsuc 0; state = r }, nothing)
drive_read read_failed m =
    (record m { len = negsuc 0; strerr = some read_call; state = ex }, nothing)

-- `ret = write(fsm->dfd, fsm->buf + fsm->pos, fsm->len)` and what follows.
unfoldable pub drive_write : WriteResult → Fsm → Fsm × Effect
drive_write write_again m = (record m { state = w }, nothing)
drive_write write_failed m = (record m { strerr = some write_call; state = ex }, nothing)
drive_write (wrote ret) m =
    let left = m.len -ℤ pos ret in
    (
      record m { offset = m.offset + ret; len = left; state = if eqb_ℤ left (pos 0) then r else w },
      sent (take ret (drop m.offset m.buf)),
    )

unfoldable pub drive_at : State → ReadResult → WriteResult → Fsm → Fsm × Effect
drive_at r i o m = drive_read i m
drive_at w i o m = drive_write o m
drive_at ex i o m = (record m { state = t }, reported m.strerr)
drive_at t i o m = (m, nothing)

-- Of the two results the one is used that the state asks for.
unfoldable pub fsm_driver : ReadResult → WriteResult → Fsm → Fsm × Effect
unfolding drive_at
fsm_driver i o m = drive_at m.state i o m
