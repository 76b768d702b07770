-- ===== src/MyPipe.antt =====
-- mypipe/mypipe.c, mypipe/mypipe.h: a pipe between threads, a byte ring under one mutex and one
-- condition variable. A function that updates `*me` returns the new record. Each call runs under
-- the mutex, so it is one step but for its waits, where `wakes` lists what other threads did.
pub mod Bounds
pub mod Flow
pub mod Order
pub mod Registration
mod Tests
use mathlib.Core.Option
use linux_coding.Common.{
  ℕ, zero, suc, ◌+◌, ◌-◌, ◌*◌, ◌/◌, ◌%◌, Bool, ◌&&◌, ◌||◌, not, Option, none, some, List, [], ◌∷◌,
  ltb, leb, ◌==◌, if◌then◌else◌, get_or, set, wait_while,
}
use linux_coding.Common.Int.{ℤ, pos, negsuc, ◌+ℤ◌, ◌-ℤ◌, leb_ℤ}

-- `PIPESIZE`
abbrev pub pipe_size : ℕ
pipe_size = 1024

-- `struct mypipe_st` without its mutex and condition variable. `head`, `tail` and `datasize` start
-- at 0 and never fall below it.
pub record Pipe : Type 0 where
  pub head : ℕ
  pub tail : ℕ
  pub buf : List ℕ
  pub datasize : ℕ
  pub count_rd : ℤ
  pub count_wr : ℤ

-- `none` is `malloc` failing; `storage` is the indeterminate content of the new `data` array.
unfoldable pub mypipe_init : Option (List ℕ) → Option Pipe
mypipe_init none = none
mypipe_init (some storage) =
    some (record {
      head = 0;
      tail = 0;
      buf = storage;
      datasize = 0;
      count_rd = pos 0;
      count_wr = pos 0;
    })

unfoldable pub next : ℕ → ℕ
next head = head % pipe_size

-- `opmap & __MYPIPE_READ` and `opmap & __MYPIPE_WRITE`, over the bits of `opmap`.
abbrev pub has_read : ℕ → Bool
has_read opmap = opmap % 2 == 1

abbrev pub has_write : ℕ → Bool
has_write opmap = opmap / 2 % 2 == 1

-- `opmap & ~(READ | WRITE)` or `!(opmap & (READ | WRITE))`: a bit above the two, or neither.
abbrev pub bad_opmap : ℕ → Bool
bad_opmap opmap = not (opmap / 4 == 0) || (opmap % 4 == 0)

-- The increments of `mypipe_register`.
unfoldable pub enrol : Pipe → ℕ → Pipe
enrol p opmap =
    let q = (if has_read opmap then record p { count_rd = p.count_rd +ℤ pos 1 } else p) in
    if has_write opmap then record q { count_wr = q.count_wr +ℤ pos 1 } else q

-- `me->count_rd <= 0 || me->count_wr <= 0`
abbrev pub lacks_peer : Pipe → Bool
lacks_peer p = leb_ℤ p.count_rd (pos 0) || leb_ℤ p.count_wr (pos 0)

unfoldable pub mypipe_register : Pipe → ℕ → List (Pipe → Pipe) → Option (ℤ × Pipe)
unfolding enrol
mypipe_register p opmap wakes =
    if bad_opmap opmap
    then some (negsuc 0, p)
    else Option.map (λ q. (pos 0, q)) (wait_while lacks_peer wakes (enrol p opmap))

-- `opmap | (a != b)`, for the 0 or 1 of a comparison.
abbrev pub or_bit : ℕ → Bool → ℕ
or_bit opmap b = if b then opmap + (1 - opmap % 2) else opmap

-- `opmap | 0x00000000 != 0x00000001 && opmap | 0x00000000 != 0x000000010`: in C `!=` binds tighter
-- than `|`, and `|` tighter than `&&`.
abbrev pub refuses : ℕ → Bool
refuses opmap =
    not (or_bit opmap (not (0x00000000 == 0x00000001)) == 0)
    && not (or_bit opmap (not (0x00000000 == 0x000000010)) == 0)

-- The decrements of `mypipe_unregister`.
unfoldable pub withdraw : Pipe → ℕ → Pipe
withdraw p opmap =
    let q = (if has_read opmap then record p { count_rd = p.count_rd -ℤ pos 1 } else p) in
    if has_write opmap then record q { count_wr = q.count_wr -ℤ pos 1 } else q

unfoldable pub mypipe_unregister : Pipe → ℕ → ℤ × Pipe
unfolding withdraw
mypipe_unregister p opmap = if refuses opmap then (negsuc 0, p) else (pos 0, withdraw p opmap)

-- `none` is the result -1; otherwise the byte that went through `datap`, and the pipe.
unfoldable pub mypipe_readbyte_unlocked : Pipe → Option (ℕ × Pipe)
unfolding next
mypipe_readbyte_unlocked p =
    if leb p.datasize 0
    then none
    else some (get_or p.buf p.head 0, record p { head = next p.head; datasize = p.datasize - 1 })

-- `for (i = 0; i < count; i++)` with `count` rounds left: the final `i`, the bytes put into `buf`
-- from there on, and the pipe.
unfoldable pub read_loop : ℕ → Pipe → ℕ × List ℕ × Pipe
read_loop zero p = (0, [], p)
read_loop (suc n) p = elim (mypipe_readbyte_unlocked p) [
  | none ↦ (0, [], p)
  | some (b, q) ↦ let (i, bs, r) = read_loop n q in (suc i, b ∷ bs, r)
]

-- The wait of `mypipe_read`: no data, and a writer is left.
abbrev pub read_waits : Pipe → Bool
read_waits p = leb p.datasize 0 && not (leb_ℤ p.count_wr (pos 0))

-- `mypipe_read` behind its wait.
unfoldable pub read_ready : ℕ → Pipe → ℕ × List ℕ × Pipe
read_ready count p =
    if leb p.datasize 0 && leb_ℤ p.count_wr (pos 0) then (0, [], p) else read_loop count p

unfoldable pub mypipe_read : Pipe → ℕ → List (Pipe → Pipe) → Option (ℕ × List ℕ × Pipe)
mypipe_read p count wakes = Option.map (read_ready count) (wait_while read_waits wakes p)

-- `none` is the result -1.
unfoldable pub mypipe_writebyte_unlocked : Pipe → ℕ → Option Pipe
unfolding next
mypipe_writebyte_unlocked p b =
    if leb pipe_size p.datasize
    then none
    else some (record p { buf = set p.buf p.tail b; tail = next p.tail; datasize = p.datasize + 1 })

-- The loop of `mypipe_write` over the bytes `buf[i..count)`: the final `i`, and the pipe.
unfoldable pub write_loop : List ℕ → Pipe → ℕ × Pipe
write_loop [] p = (0, p)
write_loop (b ∷ bs) p = elim (mypipe_writebyte_unlocked p b) [
  | none ↦ (0, p)
  | some q ↦ let (i, r) = write_loop bs q in (suc i, r)
]

-- The wait of `mypipe_write`: the pipe is full, and a reader is left.
abbrev pub write_waits : Pipe → Bool
write_waits p = leb pipe_size p.datasize && not (leb_ℤ p.count_rd (pos 0))

-- `mypipe_write` behind its wait.
unfoldable pub write_ready : List ℕ → Pipe → ℕ × Pipe
write_ready bs p =
    if leb pipe_size p.datasize && leb_ℤ p.count_rd (pos 0) then (0, p) else write_loop bs p

unfoldable pub mypipe_write : Pipe → List ℕ → List (Pipe → Pipe) → Option (ℕ × Pipe)
mypipe_write p bs wakes = Option.map (write_ready bs) (wait_while write_waits wakes p)
