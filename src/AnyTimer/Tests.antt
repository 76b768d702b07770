-- ===== src/AnyTimer/Tests.antt =====
-- Runs of anytimer/anytimer.c at concrete tables.
use linux_coding.Common.{
  ◌*◌, ◌≤◌, ◌<◌, ◌≡◌, refl, true, false, Option, none, some, [], ◌∷◌, arith, replicate, get_elem?,
}
use linux_coding.Common.Int.{pos, ◌-ℤ◌}
use linux_coding.AnyTimer.{
  Job, Timer, ok, over, at_canceljob, at_waitjob, tick_slot, tick_slots, alrm_action,
}
use linux_coding.AnyTimer.Slots.{new_job}
use linux_coding.AnyTimer.Deadline.{
  alarms, Holds, OnTime, at_addjob_deadline, at_addjob_repeat_period,
}
use linux_coding.AnyTimer.Waiting.{at_waitjob_returns}
use linux_coding.AnyTimer.Leak.{Step, Reach, Periodic, Periodic-for_ever}

abbrev fresh : Timer
fresh = record { jobs = replicate 1024 none; initied = false; fired = [] }

abbrev table : Option Job → Timer
table s = record { jobs = s ∷ replicate 1023 none; initied = true; fired = [] }

abbrev once : Job
once = new_job (pos 2) 7 70 false

abbrev never : Job
never = new_job (pos 0) 7 70 false

abbrev periodic : Job
periodic = new_job (pos 2) 8 80 true

called_at_the_second_tick : (alarms 2 (table (some once))).fired ≡ (7, 70) ∷ []
unfolding alrm_action tick_slots tick_slot ◌-ℤ◌
called_at_the_second_tick = refl

at_addjob_deadline_example :
    OnTime 1 (table (some once)) 0 once
    × Holds (alarms 2 (table (some once))) 0 (record once { time_remain = pos 0; job_state = over })
at_addjob_deadline_example = at_addjob_deadline 1 (table (some once)) 0 once refl refl refl refl

at_addjob_repeat_period_example :
    OnTime 1 (table (some periodic)) 0 periodic
    × Holds (alarms (3 * 2) (table (some periodic))) 0 periodic
at_addjob_repeat_period_example =
    at_addjob_repeat_period 3 1 (table (some periodic)) 0 periodic refl refl refl refl refl

at_waitjob_returns_example :
    (2 ≤ 1 → at_waitjob (pos 0) (true ∷ false ∷ true ∷ []) (table (some once)) ≡ none)
    × (1 < 2
        → (u : Timer) × (at_waitjob (pos 0) (true ∷ false ∷ true ∷ []) (table (some once))
            ≡ some (ok 0, u))
          × (get_elem? u.jobs 0 ≡ some none))
at_waitjob_returns_example =
    at_waitjob_returns (true ∷ false ∷ true ∷ []) 1 (table (some once)) 0 once (omega arith) refl
      refl refl refl

canceled_table : Reach (table (some periodic)) (at_canceljob (pos 0) (table (some periodic))).1
canceled_table = Reach.after Reach.here (Step.canceljob (pos 0) refl)

Periodic-for_ever_example : Periodic 0 (at_canceljob (pos 0) (table (some periodic))).1
Periodic-for_ever_example = Periodic-for_ever 0 (periodic, refl, refl) canceled_table
