-- ===== src/AnyTimer.antt =====
-- anytimer/anytimer.c, anytimer/anytimer.h: many timed jobs on one alarm clock. The static variables
-- of the file are one record; a function that updates them returns the new record.
pub mod Slots
pub mod Deadline
pub mod Waiting
pub mod Cancel
pub mod Leak
mod Tests
use mathlib.Core.Option
use linux_coding.Common.{
  ℕ, zero, suc, ◌+◌, ◌-◌, Bool, true, false, ◌&&◌, ◌||◌, not, Option, none, some, List, [], ◌∷◌,
  ◌++◌, map, ltb, leb, ◌==◌, if◌then◌else◌, get_elem?, set, wait_while, arith,
}
use linux_coding.Common.Int.{ℤ, pos, negsuc, ◌-ℤ◌, ltb_ℤ, leb_ℤ, eqb_ℤ}

-- `JOB_MAX`
abbrev pub job_max : ℕ
job_max = 1024

-- `STATE_RUNNING`, `STATE_CANCELED`, `STATE_OVER`
pub data JobState : Type 0 where
  running canceled over : JobState

-- `struct at_job_st`. `jobp` and `arg` are only stored and passed on: any tags serve. `repeat` holds
-- 0 or 1.
pub record Job : Type 0 where
  pub job_state : JobState
  pub sec : ℤ
  pub time_remain : ℤ
  pub jobp : ℕ
  pub arg : ℕ
  pub repeat : Bool

-- `job[]` and `initied`; `fired` is the trace of the calls `jobp(arg)`, oldest first.
pub record Timer : Type 0 where
  pub jobs : List (Option Job)
  pub initied : Bool
  pub fired : List (ℕ × ℕ)

-- The error numbers that the functions return negated.
pub data Errno : Type 0 where
  einval enospc enomem ecanceled ebusy : Errno

-- What a call comes to: a result, a negated error number, or `exit(1)` in `module_load`.
pub data Reply : Type 0 where
  ok : ℕ → Reply
  err : Errno → Reply
  exit_1 : Reply

-- `for (i = 0; i < JOB_MAX; i++) if (job[i] == NULL) return i;`, from index `i` on; `none` is -1.
unfoldable pub get_free_pos : List (Option Job) → ℕ → Option ℕ
get_free_pos [] i = none
get_free_pos (none ∷ js) i = some i
get_free_pos (some j ∷ js) i = get_free_pos js (i + 1)

abbrev pub is_running : JobState → Bool
is_running running = true
is_running _ = false

-- The body of the loop of `alrm_action` at one slot, and the call that it makes, if any.
unfoldable pub tick_slot : Option Job → Option Job × List (ℕ × ℕ)
tick_slot none = (none, [])
tick_slot (some j) =
    let j' = record j { time_remain = j.time_remain -ℤ pos 1 } in
    if is_running j.job_state
    then (if eqb_ℤ j'.time_remain (pos 0)
        then (
          some (
              if j.repeat
              then record j' { time_remain = j.sec }
              else record j' { job_state = over }),
          (j.jobp, j.arg) ∷ [],
        )
        else (some j', []))
    else (some j, [])

-- The loop of `alrm_action`.
unfoldable pub tick_slots : List (Option Job) → List (Option Job) × List (ℕ × ℕ)
tick_slots [] = ([], [])
tick_slots (s ∷ js) =
    let (s', calls) = tick_slot s in let (js', more) = tick_slots js in (s' ∷ js', calls ++ more)

-- `from_kernel` is `infop->si_code == SI_KERNEL`.
unfoldable pub alrm_action : Bool → Timer → Timer
alrm_action from_kernel t =
    if from_kernel
    then record t { jobs = (tick_slots t.jobs).0; fired = t.fired ++ (tick_slots t.jobs).1 }
    else t

-- The part of `at_addjob` and `at_addjob_repeat` from `get_free_pos` on. `memory` says that `malloc`
-- succeeds.
unfoldable pub place : Bool → Job → Timer → Reply × Timer
place memory me t = elim (get_free_pos t.jobs 0) [
  | none ↦ (err enospc, t)
  | some p ↦ if memory then (ok p, record t { jobs = set t.jobs p (some me) }) else (err enomem, t)
]

-- `module_load`, when it has not run yet: `loads` says that its system calls succeed.
abbrev pub must_exit : Bool → Timer → Bool
must_exit loads t = not t.initied && not loads

unfoldable pub at_addjob : Bool → Bool → ℤ → ℕ → ℕ → Timer → Reply × Timer
at_addjob loads memory sec jobp arg t =
    if ltb_ℤ sec (pos 0)
    then (err einval, t)
    else if must_exit loads t
    then (exit_1, t)
    else place memory
        (record {
          job_state = running;
          sec = sec;
          time_remain = sec;
          jobp = jobp;
          arg = arg;
          repeat = false;
        })
        (record t { initied = true })

unfoldable pub at_addjob_repeat : Bool → Bool → ℤ → ℕ → ℕ → Timer → Reply × Timer
at_addjob_repeat loads memory sec jobp arg t =
    if ltb_ℤ sec (pos 0)
    then (err einval, t)
    else if must_exit loads t
    then (exit_1, t)
    else place memory
        (record {
          job_state = running;
          sec = sec;
          time_remain = sec;
          jobp = jobp;
          arg = arg;
          repeat = true;
        })
        (record t { initied = true })

-- The job at `id`, or `none` where `id < 0 || id >= JOB_MAX || job[id] == NULL`.
unfoldable pub job_at : List (Option Job) → ℤ → Option (ℕ × Job)
job_at js (negsuc n) = none
job_at js (pos n) =
    if leb job_max n
    then none
    else (elim (get_elem? js n) [ none ↦ none | some s ↦ Option.map (λ j. (n, j)) s ])

unfoldable pub at_canceljob : ℤ → Timer → Reply × Timer
at_canceljob id t = elim (job_at t.jobs id) [
  | none ↦ (err einval, t)
  | some (n, j) ↦ elim j.job_state [
    | canceled ↦ (err ecanceled, t)
    | over ↦ (err ebusy, t)
    | running ↦ (ok 0, record t { jobs = set t.jobs n (some (record j { job_state = canceled })) })
  ]
]

-- `job[id]->job_state == STATE_RUNNING`
abbrev pub still_running : ℤ → Timer → Bool
still_running id t = elim (job_at t.jobs id) [ none ↦ false | some (n, j) ↦ is_running j.job_state ]

-- `free(job[id]); job[id] = NULL;`
abbrev pub release : ℕ → Timer → Timer
release n t = record t { jobs = set t.jobs n none }

-- `pause()` returns after a signal: `signals` are those that arrive, by their origin, and `none` is
-- a call that still waits behind the last of them. The test behind the loop of `at_waitjob` names
-- every state but `STATE_RUNNING`, which the loop has excluded.
unfoldable pub at_waitjob : ℤ → List Bool → Timer → Option (Reply × Timer)
at_waitjob id signals t = elim (job_at t.jobs id) [
  | none ↦ some (err einval, t)
  | some (n, j) ↦
      if j.repeat
      then some (err ebusy, t)
      else Option.map (λ u. (ok 0, release n u))
          (wait_while (still_running id) (map alrm_action signals) t)
]
