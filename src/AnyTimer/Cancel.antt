-- ===== src/AnyTimer/Cancel.antt =====
-- anytimer/anytimer.c: `at_canceljob`.
use linux_coding.Common.{
  ℕ, zero, suc, ◌≡◌, ◌≢◌, refl, ap, ◌∙◌, true, none, some, [], arith, get_elem?, set,
  get_elem?-set_self, get_elem?-set_ne, get_elem?-eq_some-lt, ◌<◌,
}
use linux_coding.Common.Int.{pos}
use linux_coding.AnyTimer.{
  Job, Timer, ok, err, ecanceled, ebusy, einval, running, canceled, over, tick_slot, alrm_action,
  at_canceljob, job_at, job_max,
}
use linux_coding.AnyTimer.Deadline.{alarms, Holds, alrm-slot}
use linux_coding.AnyTimer.Waiting.{job_at_lem}

tick_canceled : (j : Job) → j.job_state ≡ canceled → tick_slot (some j) ≡ (some j, [])
unfolding tick_slot
tick_canceled j h = ground arith

canceled_stays :
    (n : ℕ) (t : Timer) (p : ℕ) (j : Job)
    → Holds t p j
    → j.job_state ≡ canceled
    → Holds (alarms n t) p j
canceled_stays zero t p j h s = h
canceled_stays (suc n) t p j h s =
    canceled_stays n (alrm_action true t) p j
      (alrm-slot t p h ∙ ap (λ x. some x.0) (tick_canceled j s)) s

cancel_running :
    (t : Timer) (p : ℕ) (j : Job)
    → p < job_max
    → Holds t p j
    → j.job_state ≡ running
    → at_canceljob (pos p) t
      ≡ (ok 0, record t { jobs = set t.jobs p (some (record j { job_state = canceled })) })
unfolding at_canceljob
cancel_running t p j lt h s = rw (job_at_lem t p j lt h, at_canceljob) (rw s refl)

cancel_canceled :
    (t : Timer) (p : ℕ) (j : Job)
    → p < job_max
    → Holds t p j
    → j.job_state ≡ canceled
    → at_canceljob (pos p) t ≡ (err ecanceled, t)
unfolding at_canceljob
cancel_canceled t p j lt h s = rw (job_at_lem t p j lt h, at_canceljob) (rw s refl)

-- `at_canceljob` on a running job gives 0 and changes no other slot; the job is then never called
-- again, whatever number of ticks follows, its record stays as it is, and a second `at_canceljob`
-- gives ECANCELED and changes nothing.
pub at_canceljob_stops :
    (t : Timer) (p n : ℕ) (j : Job)
    → p < job_max
    → Holds t p j
    → j.job_state ≡ running
    → let (r, t') = at_canceljob (pos p) t in
      let k = record j { job_state = canceled } in
      (r ≡ ok 0)
      × ((i : ℕ) → p ≢ i → get_elem? t'.jobs i ≡ get_elem? t.jobs i)
      × Holds (alarms n t') p k
      × ((tick_slot (some k)).1 ≡ [])
      × (at_canceljob (pos p) (alarms n t') ≡ (err ecanceled, alarms n t'))
at_canceljob_stops t p n j lt h s =
    let k = record j { job_state = canceled } in
    let t' : Timer = record t { jobs = set t.jobs p (some k) } in
    let held : Holds t' p k =
      get_elem?-set_self t.jobs p (some k) (get_elem?-eq_some-lt t.jobs p h) in
    let later = canceled_stays n t' p k held refl in
    rw (cancel_running t p j lt h s) (
      refl,
      λ i ne. get_elem?-set_ne t.jobs p i (some k) ne,
      later,
      ap (λ x. x.1) (tick_canceled k refl),
      cancel_canceled (alarms n t') p k lt later refl,
    )

-- At an id with no job, at a canceled job and at one that is over, `at_canceljob` changes nothing
-- and gives EINVAL, ECANCELED and EBUSY.
pub at_canceljob_errors :
    (t : Timer) (p : ℕ) (j : Job)
    → p < job_max
    → (get_elem? t.jobs p ≡ some none → at_canceljob (pos p) t ≡ (err einval, t))
      × (Holds t p j → j.job_state ≡ canceled → at_canceljob (pos p) t ≡ (err ecanceled, t))
      × (Holds t p j → j.job_state ≡ over → at_canceljob (pos p) t ≡ (err ebusy, t))
unfolding at_canceljob
at_canceljob_errors t p j lt = (
  λ e. rw (empty e, at_canceljob) refl,
  cancel_canceled t p j lt,
  λ h s. rw (job_at_lem t p j lt h, at_canceljob) (rw s refl),
)
  where
    empty : get_elem? t.jobs p ≡ some none → job_at t.jobs (pos p) ≡ none
    empty e = unfold job_at in ground arith
