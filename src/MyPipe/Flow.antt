-- ===== src/MyPipe/Flow.antt =====
-- mypipe/mypipe.c: `mypipe_read` and `mypipe_write` as whole calls, their waits included.
use linux_coding.Common.{
  ℕ, ◌≤◌, ◌<◌, ◌≡◌, ◌↔◌, ◌⊎◌, none, some, List, [], arith, All, inl, inr, Option-cases, wait_while,
  wait_while_inv,
}
use linux_coding.Common.Int.{pos, ◌≤ℤ◌, ◌<ℤ◌}
use linux_coding.MyPipe.{
  Pipe, pipe_size, mypipe_read, mypipe_write, read_ready, write_ready, read_waits, write_waits,
}
use linux_coding.MyPipe.Bounds.{
  IsValid, ReadDone, WriteDone, read_loop-ReadDone, write_loop-WriteDone,
}

-- Other threads leave the pipe well formed.
abbrev pub Keep : List (Pipe → Pipe) → Type 0
Keep = All (λ w. (u : Pipe) → IsValid u → IsValid (w u))

pub read_ready-ReadDone : (n : ℕ) (p : Pipe) → IsValid p → ReadDone n p (read_ready n p)
unfolding read_ready
read_ready-ReadDone n p v = ground (arith, read_loop-ReadDone n p v)

pub write_ready-WriteDone : (bs : List ℕ) (p : Pipe) → IsValid p → WriteDone bs p (write_ready bs p)
unfolding write_ready
write_ready-WriteDone bs p v = ground (arith, write_loop-WriteDone bs p v)

-- What a call of `mypipe_read` that returns has done, from the state `t` in which its wait ended.
pub record Read (n : ℕ) (t : Pipe) (out : ℕ × List ℕ × Pipe) : Type 0 where
  pub awake : (0 < t.datasize) ⊎ (t.count_wr ≤ℤ pos 0)
  pub was_valid : IsValid t
  pub done : ReadDone n t out

pub record Wrote (bs : List ℕ) (t : Pipe) (out : ℕ × Pipe) : Type 0 where
  pub awake : (t.datasize < pipe_size) ⊎ (t.count_rd ≤ℤ pos 0)
  pub was_valid : IsValid t
  pub done : WriteDone bs t out

-- A call of `mypipe_read` that returns, whatever well-behaved threads did while it waited, went on
-- from a valid pipe `t` that held data or had no writer; it returned min(count, datasize) and as
-- many bytes, took exactly those from `datasize`, and left a valid pipe and both counts.
pub mypipe_read_lem :
    (p : Pipe) (n : ℕ) (wakes : List (Pipe → Pipe)) {out : ℕ × List ℕ × Pipe}
    → IsValid p
    → Keep wakes
    → mypipe_read p n wakes ≡ some out
    → (t : Pipe) × Read n t out
unfolding mypipe_read
mypipe_read_lem p n wakes {out} v keep h = elim (Option-cases (wait_while read_waits wakes p)) [
  | inl e ↦ let bad : none ≡ some out = rw e at h in cc
  | inr (t, e) ↦
      let (v', awake) = wait_while_inv read_waits IsValid wakes p keep v e in
      let same : some (read_ready n t) ≡ some out = rw e at h in
      let eq : read_ready n t ≡ out = cc in
      (
        t,
        record {
          awake = ground arith;
          was_valid = v';
          done = rw eq at (read_ready-ReadDone n t v');
        },
      )
]

-- The same of `mypipe_write`: it went on from a valid pipe `t` with room or with no reader, wrote
-- the bytes that fit, counted exactly those into `datasize` and its result, and left a valid pipe
-- and both counts.
pub mypipe_write_lem :
    (p : Pipe) (bs : List ℕ) (wakes : List (Pipe → Pipe)) {out : ℕ × Pipe}
    → IsValid p
    → Keep wakes
    → mypipe_write p bs wakes ≡ some out
    → (t : Pipe) × Wrote bs t out
unfolding mypipe_write
mypipe_write_lem p bs wakes {out} v keep h = elim (Option-cases (wait_while write_waits wakes p)) [
  | inl e ↦ let bad : none ≡ some out = rw e at h in cc
  | inr (t, e) ↦
      let (v', awake) = wait_while_inv write_waits IsValid wakes p keep v e in
      let same : some (write_ready bs t) ≡ some out = rw e at h in
      let eq : write_ready bs t ≡ out = cc in
      (
        t,
        record {
          awake = ground arith;
          was_valid = v';
          done = rw eq at (write_ready-WriteDone bs t v');
        },
      )
]

-- `mypipe_read` sleeps exactly on an empty pipe with a writer, and on a pipe with no data and no
-- writer it returns 0 and changes nothing.
pub mypipe_read_eof :
    (p : Pipe) (n : ℕ)
    → ((mypipe_read p n [] ≡ none) ↔ ((p.datasize ≡ 0) × (pos 0 <ℤ p.count_wr)))
      × (p.datasize ≡ 0 → p.count_wr ≤ℤ pos 0 → mypipe_read p n [] ≡ some (0, [], p))
unfolding mypipe_read read_ready wait_while
mypipe_read_eof p n = ((λ h. ground arith, λ h. ground arith), λ h k. ground arith)

-- `mypipe_write` sleeps exactly on a full pipe with a reader, and on a full pipe with no reader it
-- returns 0 and changes nothing.
pub mypipe_write_full :
    (p : Pipe) (bs : List ℕ)
    → ((mypipe_write p bs [] ≡ none) ↔ ((pipe_size ≤ p.datasize) × (pos 0 <ℤ p.count_rd)))
      × (pipe_size ≤ p.datasize → p.count_rd ≤ℤ pos 0 → mypipe_write p bs [] ≡ some (0, p))
unfolding mypipe_write write_ready wait_while
mypipe_write_full p bs = ((λ h. ground arith, λ h. ground arith), λ h k. ground arith)
