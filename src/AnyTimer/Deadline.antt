-- ===== src/AnyTimer/Deadline.antt =====
-- anytimer/anytimer.c: when a job runs.
use linux_coding.Common.{
  ℕ, zero, suc, ◌+◌, ◌-◌, ◌*◌, ◌≤◌, ◌<◌, ◌≡◌, refl, sym, ap, ◌∙◌, true, false, Option, some, [],
  ◌∷◌, arith, get_elem?,
}
use linux_coding.Common.Int.{pos, ◌-ℤ◌}
use linux_coding.AnyTimer.{Job, Timer, running, over, tick_slot, tick_slots, alrm_action}
use linux_coding.AnyTimer.Slots.{get_elem?-tick_slots}

-- `n` ticks of the kernel's clock.
abbrev pub alarms : ℕ → Timer → Timer
alarms zero t = t
alarms (suc n) t = alarms n (alrm_action true t)

-- Slot `i` holds the job `j`.
abbrev pub Holds : Timer → ℕ → Job → Type 0
Holds t i j = get_elem? t.jobs i ≡ some (some j)

pub alrm_action-jobs : (t : Timer) → (alrm_action true t).jobs ≡ (tick_slots t.jobs).0
unfolding alrm_action
alrm_action-jobs t = refl

pub alrm_action-false : (t : Timer) → alrm_action false t ≡ t
unfolding alrm_action
alrm_action-false t = refl

pub alrm-slot :
    (t : Timer) (i : ℕ) {s : Option Job}
    → get_elem? t.jobs i ≡ some s
    → get_elem? (alrm_action true t).jobs i ≡ some (tick_slot s).0
alrm-slot t i h = rw (alrm_action-jobs, get_elem?-tick_slots t.jobs i, h)

-- A running job with more than one second to go.
pub tick_waits :
    (j : Job) (r : ℕ)
    → j.job_state ≡ running
    → j.time_remain ≡ pos (suc (suc r))
    → tick_slot (some j) ≡ (some (record j { time_remain = pos (suc r) }), [])
unfolding tick_slot ◌-ℤ◌
tick_waits j r h e = ground arith

pub tick_fires :
    (j : Job)
    → j.job_state ≡ running
    → j.time_remain ≡ pos 1
    → j.repeat ≡ false
    → tick_slot (some j)
      ≡ (some (record j { time_remain = pos 0; job_state = over }), (j.jobp, j.arg) ∷ [])
unfolding tick_slot ◌-ℤ◌
tick_fires j h e r = ground arith

tick_restarts :
    (j : Job)
    → j.job_state ≡ running
    → j.time_remain ≡ pos 1
    → j.repeat ≡ true
    → tick_slot (some j) ≡ (some (record j { time_remain = j.sec }), (j.jobp, j.arg) ∷ [])
unfolding tick_slot ◌-ℤ◌
tick_restarts j h e r = ground arith

-- `n` seconds later a running job with `n + r + 1` seconds to go has `r + 1` to go.
countdown :
    (n r : ℕ) (t : Timer) (p : ℕ) (j : Job)
    → Holds t p j
    → j.job_state ≡ running
    → j.time_remain ≡ pos (suc (n + r))
    → Holds (alarms n t) p (record j { time_remain = pos (suc r) })
countdown zero r t p j h s e =
    h ∙ ap (λ x. some (some (record j { time_remain = x }))) (e ∙ ap pos (omega arith))
countdown (suc n) r t p j h s e =
    countdown n r (alrm_action true t) p (record j { time_remain = pos (suc (n + r)) })
      (alrm-slot t p h ∙ ap (λ x. some x.0) (tick_waits j (n + r) s (e ∙ ap pos (omega arith)))) s
      refl

-- How a running job of `sec` = `d + 1` seconds with all of them to go behaves.
pub record OnTime (d : ℕ) (t : Timer) (p : ℕ) (j : Job) : Type 0 where
  pub waits : (n : ℕ) → n ≤ d → Holds (alarms n t) p (record j { time_remain = pos (suc (d - n)) })
  pub silent :
      (n : ℕ) → n < d → (tick_slot (some (record j { time_remain = pos (suc (d - n)) }))).1 ≡ []
  pub fires : (tick_slot (some (record j { time_remain = pos 1 }))).1 ≡ (j.jobp, j.arg) ∷ []

waits_lem :
    (d : ℕ) (t : Timer) (p : ℕ) (j : Job)
    → Holds t p j
    → j.job_state ≡ running
    → j.time_remain ≡ pos (suc d)
    → (n : ℕ) → n ≤ d
    → Holds (alarms n t) p (record j { time_remain = pos (suc (d - n)) })
waits_lem d t p j h s e n le = countdown n (d - n) t p j h s (e ∙ ap pos (omega arith))

silent_lem :
    (d : ℕ) (j : Job)
    → j.job_state ≡ running
    → (n : ℕ) → n < d
    → (tick_slot (some (record j { time_remain = pos (suc (d - n)) }))).1 ≡ []
silent_lem d j s n lt =
    ap (λ x. x.1)
      (tick_waits (record j { time_remain = pos (suc (d - n)) }) (d - n - 1) s
        (ap pos (omega arith)))

alarms-suc : (n : ℕ) (t : Timer) → alarms (suc n) t ≡ alrm_action true (alarms n t)
alarms-suc zero t = refl
alarms-suc (suc n) t = alarms-suc n (alrm_action true t)

-- A job from `at_addjob` with `sec` = d + 1 > 0 seconds, running in slot `p`: for the first d ticks
-- it counts down and is not called, tick d + 1 calls `jobp(arg)`, and the job is then over.
pub at_addjob_deadline :
    (d : ℕ) (t : Timer) (p : ℕ) (j : Job)
    → Holds t p j
    → j.job_state ≡ running
    → j.repeat ≡ false
    → j.time_remain ≡ pos (suc d)
    → OnTime d t p j
      × Holds (alarms (suc d) t) p (record j { time_remain = pos 0; job_state = over })
at_addjob_deadline d t p j h s r e =
    let last = record j { time_remain = pos 1 } in
    let end = tick_fires last s refl r in
    (
      record {
        waits = waits_lem d t p j h s e;
        silent = silent_lem d j s;
        fires = ap (λ x. x.1) end;
      },
      rw (alarms-suc d t) (
          alrm-slot (alarms d t) p (countdown d 0 t p j h s (e ∙ ap pos (omega arith)))
          ∙ ap (λ x. some x.0) end),
    )

one_period :
    (d : ℕ) (t : Timer) (p : ℕ) (j : Job)
    → Holds t p j
    → j.job_state ≡ running
    → j.repeat ≡ true
    → j.sec ≡ pos (suc d)
    → j.time_remain ≡ pos (suc d)
    → Holds (alarms (suc d) t) p j
one_period d t p j h s r c e =
    let last = record j { time_remain = pos 1 } in
    rw (alarms-suc d t) (
      alrm-slot (alarms d t) p (countdown d 0 t p j h s (e ∙ ap pos (omega arith)))
      ∙ ap (λ x. some x.0) (tick_restarts last s refl r)
      ∙ ap (λ x. some (some (record j { time_remain = x }))) (c ∙ sym e))

alarms_add : (n m : ℕ) (t : Timer) → alarms (n + m) t ≡ alarms m (alarms n t)
alarms_add zero m t = let e : 0 + m ≡ m = omega arith in ap (λ k. alarms k t) e
alarms_add (suc n) m t =
    let e : suc n + m ≡ suc (n + m) = omega arith in rw e (alarms_add n m (alrm_action true t))

periods :
    (k d : ℕ) (t : Timer) (p : ℕ) (j : Job)
    → Holds t p j
    → j.job_state ≡ running
    → j.repeat ≡ true
    → j.sec ≡ pos (suc d)
    → j.time_remain ≡ pos (suc d)
    → Holds (alarms (k * suc d) t) p j
periods zero d t p j h s r c e = let z : 0 * suc d ≡ 0 = omega arith in rw z h
periods (suc k) d t p j h s r c e =
    let z : suc k * suc d ≡ suc d + k * suc d = omega arith in
    rw (z, alarms_add (suc d) (k * suc d) t)
      (periods k d (alarms (suc d) t) p j (one_period d t p j h s r c e) s r c e)

-- A job from `at_addjob_repeat` with `sec` = d + 1 > 0 seconds is called at tick d + 1 and not
-- before, and is back where it started after every k * (d + 1) ticks: it runs for ever, each d + 1
-- seconds.
pub at_addjob_repeat_period :
    (k d : ℕ) (t : Timer) (p : ℕ) (j : Job)
    → Holds t p j
    → j.job_state ≡ running
    → j.repeat ≡ true
    → j.sec ≡ pos (suc d)
    → j.time_remain ≡ pos (suc d)
    → OnTime d t p j × Holds (alarms (k * suc d) t) p j
at_addjob_repeat_period k d t p j h s r c e = (
  record {
    waits = waits_lem d t p j h s e;
    silent = silent_lem d j s;
    fires = ap (λ x. x.1) (tick_restarts (record j { time_remain = pos 1 }) s refl r);
  },
  periods k d t p j h s r c e,
)
