-- ===== src/AnyTimer/Waiting.antt =====
-- anytimer/anytimer.c: `at_waitjob`, and jobs of no seconds.
use mathlib.Core.Option
use linux_coding.Common.{
  ℕ, zero, suc, ◌+◌, ◌≤◌, ◌<◌, ◌≡◌, refl, ap, ◌∙◌, Bool, true, false, Option, none, some, List, [],
  ◌∷◌, map, arith, get_elem?, get_elem?-set_self, get_elem?-eq_some-lt, wait_while, wait_while-nil,
  wait_while-of_true, wait_while-of_false,
}
use linux_coding.Common.Int.{ℤ, pos, negsuc, ◌-ℤ◌}
use linux_coding.AnyTimer.{
  Job, Timer, ok, running, over, tick_slot, alrm_action, job_max, job_at, at_waitjob, still_running,
  release,
}
use linux_coding.AnyTimer.Deadline.{
  alarms, Holds, alrm-slot, alrm_action-false, tick_waits, tick_fires,
}

pub job_at_lem :
    (t : Timer) (p : ℕ) (j : Job) → p < job_max → Holds t p j → job_at t.jobs (pos p) ≡ some (p, j)
unfolding job_at
job_at_lem t p j lt h = ground arith

-- -n
abbrev pub neg : ℕ → ℤ
neg zero = pos 0
neg (suc n) = negsuc n

-- A running job with nothing left to wait for.
tick_late :
    (j : Job) (n : ℕ)
    → j.job_state ≡ running
    → j.time_remain ≡ neg n
    → tick_slot (some j) ≡ (some (record j { time_remain = neg (suc n) }), [])
unfolding tick_slot ◌-ℤ◌
tick_late j zero s e = ground arith
tick_late j (suc n) s e = ground arith

late :
    (n m : ℕ) (t : Timer) (p : ℕ) (j : Job)
    → Holds t p j
    → j.job_state ≡ running
    → j.time_remain ≡ neg m
    → Holds (alarms n t) p (record j { time_remain = neg (n + m) })
late zero m t p j h s e =
    let z : m ≡ 0 + m = omega arith in
    h ∙ ap (λ x. some (some (record j { time_remain = x }))) (e ∙ ap neg z)
late (suc n) m t p j h s e =
    let z : n + suc m ≡ suc n + m = omega arith in
    rw (← z) (
      late n (suc m) (alrm_action true t) p (record j { time_remain = neg (suc m) })
        (alrm-slot t p h ∙ ap (λ x. some x.0) (tick_late j m s e)) s refl)

still_running_lem :
    (t : Timer) (p : ℕ) (j : Job)
    → p < job_max
    → Holds t p j
    → j.job_state ≡ running
    → still_running (pos p) t ≡ true
still_running_lem t p j lt h s = rw (job_at_lem t p j lt h, still_running) (rw s refl)

-- `at_waitjob`'s wait for `id` = p, through the given signals.
abbrev wait_for : ℕ → List Bool → Timer → Option Timer
wait_for p bs t = wait_while (still_running (pos p)) (map alrm_action bs) t

-- A running job keeps its waiter through any signal.
wait_for-cons :
    (b : Bool) (bs : List Bool) (t : Timer) (p : ℕ) (j : Job)
    → p < job_max
    → Holds t p j
    → j.job_state ≡ running
    → wait_for p (b ∷ bs) t ≡ wait_for p bs (alrm_action b t)
wait_for-cons b bs t p j lt h s =
    wait_while-of_true (still_running (pos p)) (alrm_action b) (map alrm_action bs) t
      (still_running_lem t p j lt h s)

wait_for_late :
    (bs : List Bool) (n : ℕ) (t : Timer) (p : ℕ) (j : Job)
    → p < job_max
    → Holds t p j
    → j.job_state ≡ running
    → j.time_remain ≡ neg n
    → wait_for p bs t ≡ none
wait_for_late [] n t p j lt h s e =
    wait_while-nil (still_running (pos p)) t (still_running_lem t p j lt h s)
wait_for_late (true ∷ bs) n t p j lt h s e =
    wait_for-cons true bs t p j lt h s
    ∙ wait_for_late bs (suc n) (alrm_action true t) p (record j { time_remain = neg (suc n) }) lt
        (alrm-slot t p h ∙ ap (λ x. some x.0) (tick_late j n s e)) s refl
wait_for_late (false ∷ bs) n t p j lt h s e =
    wait_for-cons false bs t p j lt h s ∙ rw alrm_action-false (wait_for_late bs n t p j lt h s e)

-- How many of the signals are ticks of the clock.
abbrev pub ticks_in : List Bool → ℕ
ticks_in [] = 0
ticks_in (true ∷ bs) = suc (ticks_in bs)
ticks_in (false ∷ bs) = ticks_in bs

wait_for_short :
    (bs : List Bool) (d : ℕ) (t : Timer) (p : ℕ) (j : Job)
    → p < job_max
    → Holds t p j
    → j.job_state ≡ running
    → j.time_remain ≡ pos (suc d)
    → ticks_in bs ≤ d
    → wait_for p bs t ≡ none
wait_for_short [] d t p j lt h s e few =
    wait_while-nil (still_running (pos p)) t (still_running_lem t p j lt h s)
wait_for_short (true ∷ bs) zero t p j lt h s e few = absurd (omega arith)
wait_for_short (true ∷ bs) (suc d) t p j lt h s e few =
    wait_for-cons true bs t p j lt h s
    ∙ wait_for_short bs d (alrm_action true t) p (record j { time_remain = pos (suc d) }) lt
        (alrm-slot t p h ∙ ap (λ x. some x.0) (tick_waits j d s e)) s refl (omega arith)
wait_for_short (false ∷ bs) d t p j lt h s e few =
    wait_for-cons false bs t p j lt h s
    ∙ rw alrm_action-false (wait_for_short bs d t p j lt h s e few)

not_running_lem :
    (t : Timer) (p : ℕ) (j : Job)
    → p < job_max
    → Holds t p j
    → j.job_state ≡ over
    → still_running (pos p) t ≡ false
not_running_lem t p j lt h s = rw (job_at_lem t p j lt h, still_running) (rw s refl)

-- The wait ends in a state where the job still has its slot.
abbrev Ends : ℕ → List Bool → Timer → Type 0
Ends p bs t = (u : Timer) × (wait_for p bs t ≡ some u) × ((k : Job) × Holds u p k)

wait_for-Ends :
    (bs : List Bool) (d : ℕ) (t : Timer) (p : ℕ) (j : Job)
    → p < job_max
    → Holds t p j
    → j.job_state ≡ running
    → j.repeat ≡ false
    → j.time_remain ≡ pos (suc d)
    → d < ticks_in bs
    → Ends p bs t
wait_for-Ends [] d t p j lt h s r e many = absurd (omega arith)
wait_for-Ends (true ∷ bs) zero t p j lt h s r e many =
    let over_job = record j { time_remain = pos 0; job_state = over } in
    let held : Holds (alrm_action true t) p over_job =
      alrm-slot t p h ∙ ap (λ x. some x.0) (tick_fires j s e r) in
    (
      alrm_action true t,
      wait_for-cons true bs t p j lt h s
          ∙ wait_while-of_false (still_running (pos p)) (map alrm_action bs) (alrm_action true t)
              (not_running_lem (alrm_action true t) p over_job lt held refl),
      (over_job, held),
    )
wait_for-Ends (true ∷ bs) (suc d) t p j lt h s r e many =
    let (u, w, k) =
      wait_for-Ends bs d (alrm_action true t) p (record j { time_remain = pos (suc d) }) lt
        (alrm-slot t p h ∙ ap (λ x. some x.0) (tick_waits j d s e)) s r refl (omega arith) in
    (u, wait_for-cons true bs t p j lt h s ∙ w, k)
wait_for-Ends (false ∷ bs) d t p j lt h s r e many =
    let (u, w, k) = wait_for-Ends bs d t p j lt h s r e many in
    (u, wait_for-cons false bs t p j lt h s ∙ rw alrm_action-false w, k)

at_waitjob-wait :
    (bs : List Bool) (t : Timer) (p : ℕ) (j : Job)
    → p < job_max
    → Holds t p j
    → j.repeat ≡ false
    → at_waitjob (pos p) bs t ≡ Option.map (λ u. (ok 0, release p u)) (wait_for p bs t)
unfolding at_waitjob
at_waitjob-wait bs t p j lt h r = rw (job_at_lem t p j lt h, at_waitjob) (rw r refl)

-- `at_waitjob` on a running job of `at_addjob` with d + 1 seconds to go: it still waits after any
-- signals with at most d clock ticks among them, and once there were d + 1 ticks it has returned 0
-- and emptied the slot.
pub at_waitjob_returns :
    (bs : List Bool) (d : ℕ) (t : Timer) (p : ℕ) (j : Job)
    → p < job_max
    → Holds t p j
    → j.job_state ≡ running
    → j.repeat ≡ false
    → j.time_remain ≡ pos (suc d)
    → (ticks_in bs ≤ d → at_waitjob (pos p) bs t ≡ none)
      × (d < ticks_in bs
          → (u : Timer) × (at_waitjob (pos p) bs t ≡ some (ok 0, u))
            × (get_elem? u.jobs p ≡ some none))
at_waitjob_returns bs d t p j lt h s r e = (
  λ few.
      at_waitjob-wait bs t p j lt h r
      ∙ ap (Option.map (λ u. (ok 0, release p u))) (wait_for_short bs d t p j lt h s e few),
  λ many.
      let (u, w, (k, held)) = wait_for-Ends bs d t p j lt h s r e many in
      (
        release p u,
        at_waitjob-wait bs t p j lt h r ∙ ap (Option.map (λ v. (ok 0, release p v))) w,
        get_elem?-set_self u.jobs p none (get_elem?-eq_some-lt u.jobs p held),
      ),
)

-- A job that `at_addjob` accepts with `sec` = 0 never runs: n ticks later it is still running, with
-- -n seconds to go and no call made at the next tick; and `at_waitjob` on it waits through all
-- signals.
pub at_addjob_zero_never_runs :
    (n : ℕ) (bs : List Bool) (t : Timer) (p : ℕ) (j : Job)
    → p < job_max
    → Holds t p j
    → j.job_state ≡ running
    → j.repeat ≡ false
    → j.time_remain ≡ pos 0
    → Holds (alarms n t) p (record j { time_remain = neg n })
      × ((tick_slot (some (record j { time_remain = neg n }))).1 ≡ [])
      × (at_waitjob (pos p) bs t ≡ none)
at_addjob_zero_never_runs n bs t p j lt h s r e = (
  (let z : n + 0 ≡ n = omega arith in rw z at (late n 0 t p j h s e)),
  ap (λ x. x.1) (tick_late (record j { time_remain = neg n }) n s refl),
  at_waitjob-wait bs t p j lt h r
      ∙ ap (Option.map (λ u. (ok 0, release p u))) (wait_for_late bs 0 t p j lt h s e),
)
