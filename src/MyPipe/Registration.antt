-- ===== src/MyPipe/Registration.antt =====
-- mypipe/mypipe.c: the reader and writer counts, and every interleaving of calls by any threads.
use linux_coding.Common.{
  ℕ, ◌≤◌, ◌<◌, ◌≡◌, ◌⊎◌, inl, inr, none, some, true, false, List, arith, Option-cases, wait_while,
  wait_while_ends, [],
}
use linux_coding.Common.Int.{ℤ, pos, negsuc, ◌≤ℤ◌, ◌<ℤ◌, +ℤ_parts}
use linux_coding.MyPipe.{
  Pipe, mypipe_read, mypipe_register, mypipe_unregister, enrol, read_ready, write_ready, read_waits,
  write_waits, lacks_peer, bad_opmap,
}
use linux_coding.MyPipe.Bounds.{IsValid}
use linux_coding.MyPipe.Flow.{mypipe_read_eof, read_ready-ReadDone, write_ready-WriteDone}
use linux_coding.MyPipe.Order.{IsStill, read_loop-IsStill, write_loop-IsStill}

-- `mypipe_unregister` gives -1 and changes nothing, for every `opmap`: its test is always true.
pub mypipe_unregister_refuses : (p : Pipe) (opmap : ℕ) → mypipe_unregister p opmap ≡ (negsuc 0, p)
unfolding mypipe_unregister
mypipe_unregister_refuses p opmap = ground arith

bad_opmap_iff :
    (opmap : ℕ)
    → ((bad_opmap opmap ≡ true) × ((opmap ≡ 0) ⊎ (3 < opmap)))
      ⊎ ((bad_opmap opmap ≡ false) × (0 < opmap) × (opmap ≤ 3))
bad_opmap_iff opmap = ground arith

-- A call of `mypipe_register` that returns gave -1 and changed nothing, for an `opmap` that is not
-- 1, 2 or 3; or it gave 0, and left at least one reader and one writer registered.
pub mypipe_register_lem :
    (p : Pipe) (opmap : ℕ) (wakes : List (Pipe → Pipe)) {r : ℤ} {q : Pipe}
    → mypipe_register p opmap wakes ≡ some (r, q)
    → (((opmap ≡ 0) ⊎ (3 < opmap)) × (r ≡ negsuc 0) × (q ≡ p))
      ⊎ ((0 < opmap) × (opmap ≤ 3) × (r ≡ pos 0) × (pos 0 <ℤ q.count_rd) × (pos 0 <ℤ q.count_wr))
unfolding mypipe_register
mypipe_register_lem p opmap wakes {r} {q} h = elim (bad_opmap_iff opmap) [
  | inl (bad, range) ↦ ground arith
  | inr (good, more, most) ↦ elim (Option-cases (wait_while lacks_peer wakes (enrol p opmap))) [
    | inl e ↦ ground arith
    | inr (t, e) ↦ ground (arith, wait_while_ends lacks_peer wakes (enrol p opmap) e)
  ]
]

-- One critical section of one thread: the increments of `mypipe_register`, `mypipe_unregister`, or
-- what `mypipe_read` and `mypipe_write` do once they need not wait.
pub data Step (p q : Pipe) : Type 0 where
  register : (opmap : ℕ) → bad_opmap opmap ≡ false → q ≡ enrol p opmap → Step p q
  unregister : (opmap : ℕ) → q ≡ (mypipe_unregister p opmap).1 → Step p q
  read : (n : ℕ) → read_waits p ≡ false → q ≡ (read_ready n p).2 → Step p q
  write : (bs : List ℕ) → write_waits p ≡ false → q ≡ (write_ready bs p).1 → Step p q

pub data Reach (p : Pipe) : Pipe → Type 0 where
  here : Reach p p
  after : {q r : Pipe} → Reach p q → Step q r → Reach p r

read_ready-IsStill : (n : ℕ) (p : Pipe) → IsStill p → IsStill (read_ready n p).2
unfolding read_ready
read_ready-IsStill n p v = ground (arith, (read_loop-IsStill n p v).0)

write_ready-IsStill : (bs : List ℕ) (p : Pipe) → IsStill p → IsStill (write_ready bs p).1
unfolding write_ready
write_ready-IsStill bs p v = ground (arith, write_loop-IsStill bs p v)

-- What every critical section keeps: the bounds, `head` and `tail` at 0, and both counts do not fall.
pub record Kept (p q : Pipe) : Type 0 where
  pub valid : IsValid q
  pub still : IsStill q
  pub readers : p.count_rd ≤ℤ q.count_rd
  pub writers : p.count_wr ≤ℤ q.count_wr

enrol-Kept : (p : Pipe) (opmap : ℕ) → IsValid p → IsStill p → Kept p (enrol p opmap)
unfolding enrol
enrol-Kept p opmap v s = ground (arith, +ℤ_parts p.count_rd (pos 1), +ℤ_parts p.count_wr (pos 1))

Step-Kept : {p q : Pipe} → Step p q → IsValid p → IsStill p → Kept p q
Step-Kept {p} {q} (register opmap good e) v s = rw e (enrol-Kept p opmap v s)
Step-Kept {p} {q} (unregister opmap e) v s = ground (arith, mypipe_unregister_refuses p opmap)
Step-Kept {p} {q} (read n awake e) v s =
    let d = read_ready-ReadDone n p v in let t = read_ready-IsStill n p s in ground arith
Step-Kept {p} {q} (write bs awake e) v s =
    let d = write_ready-WriteDone bs p v in let t = write_ready-IsStill bs p s in ground arith

-- Whatever calls any threads make, in any order, on a pipe fresh from `mypipe_init` over 1024 bytes
-- (or on any valid pipe whose `head` and `tail` are 0): no access leaves the array, `head` and
-- `tail` are still 0, and neither count has fallen.
pub Reach-Kept : {p q : Pipe} → IsValid p → IsStill p → Reach p q → Kept p q
Reach-Kept v s here = ground arith
Reach-Kept v s (after r st) =
    let k = Reach-Kept v s r in let j = Step-Kept st k.valid k.still in ground arith

-- No reader of a pipe that ever had a writer sees the end of the data: it waits on every later
-- state with no data.
pub mypipe_read_never_ends :
    {p q : Pipe} (n : ℕ)
    → IsValid p
    → IsStill p
    → pos 0 <ℤ p.count_wr
    → Reach p q
    → q.datasize ≡ 0
    → mypipe_read q n [] ≡ none
mypipe_read_never_ends {p} {q} n v s w r d =
    (mypipe_read_eof q n).0.1 (d, omega (arith, (Reach-Kept v s r).writers))
