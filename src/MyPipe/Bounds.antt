-- ===== src/MyPipe/Bounds.antt =====
-- mypipe/mypipe.c: what a call does to the bounds and the counters, whatever bytes it moves.
use linux_coding.Common.{
  ℕ, zero, suc, ◌+◌, ◌≤◌, ◌<◌, ◌≡◌, none, some, List, [], ◌∷◌, arith, length, min, length-set, inl,
  inr, Option-cases,
}
use linux_coding.MyPipe.{
  Pipe, pipe_size, next, mypipe_init, read_loop, write_loop, mypipe_readbyte_unlocked,
  mypipe_writebyte_unlocked,
}

pub record IsValid (p : Pipe) : Type 0 where
  pub storage : length p.buf ≡ pipe_size
  pub head_in : p.head < pipe_size
  pub tail_in : p.tail < pipe_size
  pub data_in : p.datasize ≤ pipe_size

-- The pipe that `mypipe_init` hands out over 1024 bytes is valid and empty.
pub mypipe_init-IsValid :
    (storage : List ℕ) {p : Pipe}
    → length storage ≡ pipe_size
    → mypipe_init (some storage) ≡ some p
    → IsValid p × (p.datasize ≡ 0)
unfolding mypipe_init
mypipe_init-IsValid storage h e = ground arith

-- What a call of `mypipe_read` or `mypipe_write` leaves alone.
pub record KeepsPeers (p q : Pipe) : Type 0 where
  pub readers : q.count_rd ≡ p.count_rd
  pub writers : q.count_wr ≡ p.count_wr

pub record ReadByte (p q : Pipe) : Type 0 where
  pub valid : IsValid q
  pub less : q.datasize + 1 ≡ p.datasize
  pub same : q.buf ≡ p.buf
  pub peers : KeepsPeers p q

readbyte_lem :
    {p q : Pipe} {b : ℕ} → IsValid p → mypipe_readbyte_unlocked p ≡ some (b, q) → ReadByte p q
unfolding mypipe_readbyte_unlocked next
readbyte_lem v e = ground arith

readbyte_none : (p : Pipe) → mypipe_readbyte_unlocked p ≡ none → p.datasize ≡ 0
unfolding mypipe_readbyte_unlocked
readbyte_none p e = ground arith

pub record WriteByte (p q : Pipe) : Type 0 where
  pub valid : IsValid q
  pub more : q.datasize ≡ p.datasize + 1
  pub same : q.head ≡ p.head
  pub peers : KeepsPeers p q

writebyte_lem :
    {p q : Pipe} (b : ℕ) → IsValid p → mypipe_writebyte_unlocked p b ≡ some q → WriteByte p q
unfolding mypipe_writebyte_unlocked next
writebyte_lem {p} b v e = ground (arith, length-set p.buf p.tail b)

writebyte_none :
    {p : Pipe} (b : ℕ) → IsValid p → mypipe_writebyte_unlocked p b ≡ none → p.datasize ≡ pipe_size
unfolding mypipe_writebyte_unlocked
writebyte_none b v e = ground arith

-- The outcome of `mypipe_read` behind its wait, for `n` bytes.
pub record ReadDone (n : ℕ) (p : Pipe) (out : ℕ × List ℕ × Pipe) : Type 0 where
  pub valid : IsValid out.2
  pub count : out.0 ≡ min n p.datasize
  pub bytes : length out.1 ≡ out.0
  pub left : out.2.datasize + out.0 ≡ p.datasize
  pub peers : KeepsPeers p out.2

pub read_loop-ReadDone : (n : ℕ) (p : Pipe) → IsValid p → ReadDone n p (read_loop n p)
unfolding read_loop
read_loop-ReadDone zero p v = ground arith
read_loop-ReadDone (suc n) p v = elim (Option-cases (mypipe_readbyte_unlocked p)) [
  | inl e ↦ ground (arith, readbyte_none p e)
  | inr ((b, q), e) ↦
      let step = readbyte_lem v e in ground (arith, read_loop-ReadDone n q step.valid)
]

-- The outcome of `mypipe_write` behind its wait, for the bytes `bs`.
pub record WriteDone (bs : List ℕ) (p : Pipe) (out : ℕ × Pipe) : Type 0 where
  pub valid : IsValid out.1
  pub count : out.0 + p.datasize ≡ min (length bs + p.datasize) pipe_size
  pub held : out.1.datasize ≡ p.datasize + out.0
  pub peers : KeepsPeers p out.1

pub write_loop-WriteDone : (bs : List ℕ) (p : Pipe) → IsValid p → WriteDone bs p (write_loop bs p)
unfolding write_loop
write_loop-WriteDone [] p v = ground arith
write_loop-WriteDone (b ∷ bs) p v = elim (Option-cases (mypipe_writebyte_unlocked p b)) [
  | inl e ↦ ground (arith, writebyte_none b v e)
  | inr (q, e) ↦
      let step = writebyte_lem b v e in ground (arith, write_loop-WriteDone bs q step.valid)
]
