-- ===== src/SlowCat.antt =====
-- slowcat.c and slowcat2.c: a file copied to the standard output, ten bytes for each alarm. The file is
-- what is left to read; what the calls of write return is an argument, `none` for an error.
pub mod Written
pub mod Rate
mod Tests
use linux_coding.Common.{
  ℕ, zero, suc, ◌+◌, ◌-◌, Bool, Option, some, none, List, [], ◌∷◌, ◌++◌, length, take, drop, ◌==◌,
  ◌≡◌, ◌≤◌, ltb, if◌then◌else◌,
}

-- `CPS` and `BUFSIZE`, `BURST`.
abbrev pub cps : ℕ
cps = 10

abbrev pub burst : ℕ
burst = 100

-- `loop` of slowcat.c or `token` of slowcat2.c; the file that is left, and what was written.
pub record Slow : Type 0 where
  token : ℕ
  left : List ℕ
  out : List ℕ

-- `while(len > 0) { ret = write(dfd, buf + pos, len); … }`: the output. `none` is exit(1), or that the
-- results end while the loop still writes.
unfoldable pub write_loop : List (Option ℕ) → List ℕ → ℕ → ℕ → List ℕ → Option (List ℕ)
write_loop [] buf pos len out = if len == 0 then some out else none
write_loop (none ∷ rets) buf pos len out = if len == 0 then some out else none
write_loop (some ret ∷ rets) buf pos len out =
    let rest = write_loop rets buf (pos + ret) (len - ret) (out ++ take ret (drop pos buf)) in
    if len == 0 then some out else rest

-- `alrm_handler` of slowcat.c, and `loop = 0`.
unfoldable pub set_loop : ℕ → ℕ
set_loop loop = 1

unfoldable pub reset_loop : ℕ → ℕ
reset_loop loop = 0

-- `alrm_handler` of slowcat2.c, and `token--`.
unfoldable pub add_token : ℕ → ℕ
add_token token = if ltb burst (token + 1) then burst else token + 1

unfoldable pub spend_token : ℕ → ℕ
spend_token token = token - 1

-- What a round of main comes to: it waits in pause, breaks at the end of the file, exits with 1, or goes on.
pub data Turn : Type 0 where
  pauses : Turn
  breaks : Turn
  exits : Turn
  goes_on : Slow → Turn

-- The loop's body, with the program's way to spend an alarm.
unfoldable pub turn : (ℕ → ℕ) → List (Option ℕ) → Slow → Turn
turn spend rets s =
    let buf = take cps s.left in
    if s.token == 0
    then pauses
    else if length buf == 0
    then breaks
    else elim (write_loop rets buf 0 (length buf) s.out) [
      | none ↦ exits
      | some out ↦ goes_on (record { token = spend s.token; left = drop cps s.left; out = out })
    ]

unfoldable pub slow_init : List ℕ → Slow
slow_init file = record { token = 0; left = file; out = [] }

-- Each result of write is at most what it was asked for.
abbrev pub Bounded : List (Option ℕ) → ℕ → Type 0
Bounded [] len = Unit
Bounded (none ∷ rets) len = Unit
Bounded (some ret ∷ rets) len = (ret ≤ len) × Bounded rets (len - ret)

-- Runs with a number of alarms.
pub data SlowRun (alarm spend : ℕ → ℕ) (file : List ℕ) : ℕ → Slow → Type 0 where
  at_start : SlowRun alarm spend file 0 (slow_init file)
  by_alarm :
      {n : ℕ} {s : Slow}
      → SlowRun alarm spend file n s
      → SlowRun alarm spend file
          (n + 1)
          (record { token = alarm s.token; left = s.left; out = s.out })
  by_turn :
      {n : ℕ} {s t : Slow} (rets : List (Option ℕ))
      → SlowRun alarm spend file n s
      → Bounded rets (length (take cps s.left))
      → turn spend rets s ≡ goes_on t
      → SlowRun alarm spend file n t
