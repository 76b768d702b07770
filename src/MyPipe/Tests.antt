-- ===== src/MyPipe/Tests.antt =====
-- Runs of mypipe/mypipe.c at concrete pipes.
use linux_coding.Common.{ℕ, ◌≡◌, refl, sym, ap, some, List, [], ◌∷◌, arith, replicate}
use linux_coding.Common.Int.{pos, negsuc}
use linux_coding.MyPipe.{
  Pipe, mypipe_read, mypipe_write, mypipe_unregister, write_ready, write_loop,
  mypipe_writebyte_unlocked, next,
}
use linux_coding.MyPipe.Bounds.{IsValid}
use linux_coding.MyPipe.Order.{IsStill, mypipe_read-write}
use linux_coding.MyPipe.Registration.{Step, Reach, Kept, mypipe_unregister_refuses, Reach-Kept}

abbrev zeros : List ℕ
zeros = replicate 1024 0

-- One reader and one writer on an empty pipe.
abbrev open_pipe : Pipe
open_pipe = record {
  head = 0;
  tail = 0;
  buf = zeros;
  datasize = 0;
  count_rd = pos 1;
  count_wr = pos 1;
}

-- Three bytes were written.
abbrev three : Pipe
three = record {
  head = 0;
  tail = 0;
  buf = 9 ∷ replicate 1023 0;
  datasize = 3;
  count_rd = pos 1;
  count_wr = pos 1;
}

open_pipe-IsValid : IsValid open_pipe
open_pipe-IsValid = omega arith

three-IsValid : IsValid three
three-IsValid = omega arith

open_pipe-IsStill : IsStill open_pipe
open_pipe-IsStill = omega arith

-- 7, 8, 9 go in, and 9, 9, 9 come out.
write_then_read : (write_ready (7 ∷ 8 ∷ 9 ∷ []) open_pipe) ≡ (3, three)
unfolding write_ready write_loop mypipe_writebyte_unlocked next
write_then_read = refl

mypipe_read-write_example :
    (q r : Pipe) × (mypipe_write open_pipe (7 ∷ 8 ∷ 9 ∷ []) [] ≡ some (3, q))
    × (mypipe_read q 3 [] ≡ some (3, 9 ∷ 9 ∷ 9 ∷ [], r))
mypipe_read-write_example =
    mypipe_read-write 7 (8 ∷ 9 ∷ []) open_pipe open_pipe-IsValid open_pipe-IsStill refl
      (omega arith) (omega arith)

mypipe_unregister_refuses_example : mypipe_unregister open_pipe 1 ≡ (negsuc 0, open_pipe)
mypipe_unregister_refuses_example = mypipe_unregister_refuses open_pipe 1

wrote_three : Reach open_pipe three
wrote_three =
    Reach.after Reach.here (Step.write (7 ∷ 8 ∷ 9 ∷ []) refl (ap (λ o. o.1) (sym write_then_read)))

Reach-Kept_example : Kept open_pipe three
Reach-Kept_example = Reach-Kept open_pipe-IsValid open_pipe-IsStill wrote_three
