-- ===== src/MyPipe/Order.antt =====
-- mypipe/mypipe.c: `next` gives its argument modulo PIPESIZE and adds nothing, so `head` and `tail`
-- never move. What this does to the order of the bytes.
use linux_coding.Common.{
  ℕ, zero, suc, ◌+◌, ◌≤◌, ◌<◌, ◌≡◌, refl, ◌∙◌, ap, ap₂, none, some, List, [], ◌∷◌, arith, length,
  set, get_or, replicate, inl, inr, Option-cases, get_or-set_self, length-set, wait_while,
}
use linux_coding.Common.Int.{pos, ◌<ℤ◌}
use linux_coding.MyPipe.{
  Pipe, pipe_size, next, mypipe_read, mypipe_write, read_ready, write_ready, read_loop, write_loop,
  mypipe_readbyte_unlocked, mypipe_writebyte_unlocked,
}
use linux_coding.MyPipe.Bounds.{IsValid}

pub record IsStill (p : Pipe) : Type 0 where
  pub head_zero : p.head ≡ 0
  pub tail_zero : p.tail ≡ 0

-- One byte goes into slot 0, and one byte comes out of it.
readbyte-IsStill :
    {p q : Pipe} {b : ℕ}
    → IsStill p
    → mypipe_readbyte_unlocked p ≡ some (b, q)
    → IsStill q × (b ≡ get_or p.buf 0 0) × (q.buf ≡ p.buf) × (p.datasize ≡ q.datasize + 1)
unfolding mypipe_readbyte_unlocked next
readbyte-IsStill v e = ground arith

writebyte-IsStill :
    {p q : Pipe} (b : ℕ)
    → IsStill p
    → mypipe_writebyte_unlocked p b ≡ some q
    → IsStill q × (q.buf ≡ set p.buf 0 b) × (q.datasize ≡ p.datasize + 1)
unfolding mypipe_writebyte_unlocked next
writebyte-IsStill b v e = ground arith

readbyte_some : (p : Pipe) → mypipe_readbyte_unlocked p ≡ none → p.datasize ≡ 0
unfolding mypipe_readbyte_unlocked
readbyte_some p e = ground arith

writebyte_none : (p : Pipe) (b : ℕ) → mypipe_writebyte_unlocked p b ≡ none → pipe_size ≤ p.datasize
unfolding mypipe_writebyte_unlocked
writebyte_none p b e = ground arith

-- The last byte of `b ∷ bs`.
abbrev pub last_from : ℕ → List ℕ → ℕ
last_from b [] = b
last_from b (c ∷ cs) = last_from c cs

-- What a reader of `n` bytes gets: `n` copies of slot 0.
pub read_loop-IsStill :
    (n : ℕ) (p : Pipe)
    → IsStill p
    → IsStill (read_loop n p).2
      × ((read_loop n p).1 ≡ replicate (read_loop n p).0 (get_or p.buf 0 0))
      × (n ≤ p.datasize → (read_loop n p).0 ≡ n)
unfolding read_loop
read_loop-IsStill zero p v = (v, refl, λ h. refl)
read_loop-IsStill (suc n) p v = elim (Option-cases (mypipe_readbyte_unlocked p)) [
  | inl e ↦ rw (e, read_loop) (v, refl, λ h. absurd (omega (arith, readbyte_some p e)))
  | inr ((b, q), e) ↦
      let (v', eb, ebuf, ed) = readbyte-IsStill v e in
      let (w, r, m) = read_loop-IsStill n q v' in
      let r' : (read_loop n q).1 ≡ replicate (read_loop n q).0 (get_or p.buf 0 0) =
        r ∙ ap (λ l. replicate (read_loop n q).0 (get_or l 0 0)) ebuf in
      rw (e, read_loop) (w, ap₂ ◌∷◌ eb r', λ h. ap suc (m (omega arith)))
]

-- A writer of bytes that fit leaves the last of them in slot 0.
write_loop_fits :
    (b : ℕ) (bs : List ℕ) (p : Pipe)
    → IsStill p
    → 0 < length p.buf
    → p.datasize + length (b ∷ bs) ≤ pipe_size
    → let (i, q) = write_loop (b ∷ bs) p in
      IsStill q
      × (i ≡ length (b ∷ bs))
      × (q.datasize ≡ p.datasize + i)
      × (get_or q.buf 0 0 ≡ last_from b bs)
unfolding write_loop
write_loop_fits b [] p v s h = elim (Option-cases (mypipe_writebyte_unlocked p b)) [
  | inl e ↦ absurd (omega (arith, writebyte_none p b e))
  | inr (q, e) ↦
      let (v', ebuf, ed) = writebyte-IsStill b v e in
      rw (e, write_loop) (v', refl, omega arith, rw ebuf (get_or-set_self p.buf 0 b 0 s))
]
write_loop_fits b (c ∷ cs) p v s h = elim (Option-cases (mypipe_writebyte_unlocked p b)) [
  | inl e ↦ absurd (omega (arith, writebyte_none p b e))
  | inr (q, e) ↦
      let (v', ebuf, ed) = writebyte-IsStill b v e in
      let (w, n, d, g) = write_loop_fits c cs q v' (rw (ebuf, length-set) s) (omega arith) in
      rw (e, write_loop) (w, ap suc n, omega arith, g)
]

-- The pipe loses the order and the values of its bytes: on an empty pipe as `mypipe_init` leaves it,
-- with a writer registered, `mypipe_write` of 1 to 1024 bytes accepts them all, and the
-- `mypipe_read` of as many bytes then returns that count with the last byte written in every place.
pub mypipe_read-write :
    (b : ℕ) (bs : List ℕ) (p : Pipe)
    → IsValid p
    → IsStill p
    → p.datasize ≡ 0
    → pos 0 <ℤ p.count_wr
    → length (b ∷ bs) ≤ pipe_size
    → (q r : Pipe) × (mypipe_write p (b ∷ bs) [] ≡ some (length (b ∷ bs), q))
      × (mypipe_read q (length (b ∷ bs)) []
          ≡ some (length (b ∷ bs), replicate (length (b ∷ bs)) (last_from b bs), r))
unfolding mypipe_read mypipe_write read_ready write_ready wait_while
mypipe_read-write b bs p v st d w h =
    let (st', n, held, slot) = write_loop_fits b bs p st (omega arith) (omega arith) in
    let q = (write_loop (b ∷ bs) p).1 in
    let (_, got, all) = read_loop-IsStill (length (b ∷ bs)) q st' in
    (q, (read_loop (length (b ∷ bs)) q).2, ground arith, ground (arith, all (omega arith)))

pub write_loop-IsStill : (bs : List ℕ) (p : Pipe) → IsStill p → IsStill (write_loop bs p).1
unfolding write_loop
write_loop-IsStill [] p v = v
write_loop-IsStill (b ∷ bs) p v = elim (Option-cases (mypipe_writebyte_unlocked p b)) [
  | inl e ↦ rw (e, write_loop) v
  | inr (q, e) ↦ rw (e, write_loop) (write_loop-IsStill bs q ((writebyte-IsStill b v e).0))
]
