-- ===== src/MySem/Tests.antt =====
-- Runs of thread/posix/mysemphon/mysem.c.
use linux_coding.Common.{◌≡◌, refl}
use linux_coding.Common.Int.{pos, negsuc, ◌+ℤ◌}
use linux_coding.MySem.{MySem, mysem_add}

abbrev one : MySem
one = record { value = pos 1 }

abbrev three : MySem
three = record { value = pos 3 }

-- A call that adds -5 makes the value negative.
made_negative : (mysem_add (negsuc 4) one).1 ≡ record { value = negsuc 3 }
unfolding mysem_add ◌+ℤ◌
made_negative = refl
