-- ===== src/AnyTimer/Leak.antt =====
-- anytimer/anytimer.c: what no sequence of calls and signals can do to a periodic job's slot.
use linux_coding.Common.{
  ℕ, ◌≡◌, ◌⊎◌, inl, inr, refl, sym, ap, ◌∙◌, Bool, true, false, none, some, List, [], ◌∷◌, map,
  arith, All, get_elem?, set, Option-cases, Bool-cases, if◌then◌else◌, get_elem?-set_self,
  get_elem?-set_ne, get_elem?-eq_some-lt, wait_while, wait_while_inv,
}
use linux_coding.Common.Int.{ℤ, pos, negsuc, ◌-ℤ◌, eqb_ℤ}
use linux_coding.AnyTimer.{
  Job, Timer, Reply, ok, err, Errno, canceled, over, tick_slot, alrm_action, job_at, at_canceljob,
  at_waitjob, still_running, release, is_running,
}
use linux_coding.AnyTimer.Slots.{Placed, add, at_addjob-Placed, at_addjob-Refused}
use linux_coding.AnyTimer.Deadline.{Holds, alrm-slot, alrm_action-false}
use native.Mathlib.Decide.{ℕ_discrete}

-- One call of the interface that returns, or one signal.
pub data Step (t t' : Timer) : Type 0 where
  addjob :
      (rep loads memory : Bool) (sec : ℤ) (jobp arg p : ℕ)
      → add rep loads memory sec jobp arg t ≡ (ok p, t')
      → Step t t'
  refused :
      (rep loads memory : Bool) (sec : ℤ) (jobp arg : ℕ) (e : Errno)
      → add rep loads memory sec jobp arg t ≡ (err e, t')
      → Step t t'
  canceljob : (id : ℤ) → t' ≡ (at_canceljob id t).1 → Step t t'
  waitjob :
      (id : ℤ) (signals : List Bool) (r : Reply)
      → at_waitjob id signals t ≡ some (r, t')
      → Step t t'
  signal : (from_kernel : Bool) → t' ≡ alrm_action from_kernel t → Step t t'

pub data Reach (t : Timer) : Timer → Type 0 where
  here : Reach t t
  after : {u v : Timer} → Reach t u → Step u v → Reach t v

-- Slot `i` holds a periodic job.
abbrev pub Periodic : ℕ → Timer → Type 0
Periodic i t = (j : Job) × Holds t i j × (j.repeat ≡ true)

-- What a tick makes of a job.
ticked : Job → Job
ticked j =
    let j' = record j { time_remain = j.time_remain -ℤ pos 1 } in
    if is_running j.job_state
    then (if eqb_ℤ j'.time_remain (pos 0)
        then (if j.repeat
            then record j' { time_remain = j.sec }
            else record j' { job_state = over })
        else j')
    else j

tick_slot-repeat : (j : Job) → (k : Job) × ((tick_slot (some j)).0 ≡ some k) × (k.repeat ≡ j.repeat)
unfolding tick_slot ticked
tick_slot-repeat j = (ticked j, ground arith, ground arith)

alrm-Periodic : (b : Bool) (i : ℕ) (t : Timer) → Periodic i t → Periodic i (alrm_action b t)
alrm-Periodic false i t p = rw alrm_action-false p
alrm-Periodic true i t (j, h, r) =
    let (k, e, s) = tick_slot-repeat j in (k, alrm-slot t i h ∙ ap some e, s ∙ r)

alrm-All :
    (i : ℕ) (bs : List Bool)
    → All (λ w. (u : Timer) → Periodic i u → Periodic i (w u)) (map alrm_action bs)
alrm-All i [] = tt
alrm-All i (b ∷ bs) = (alrm-Periodic b i, alrm-All i bs)

job_at-some :
    (t : Timer) (id : ℤ) {n : ℕ} {j : Job}
    → job_at t.jobs id ≡ some (n, j)
    → (id ≡ pos n) × Holds t n j
unfolding job_at
job_at-some t (pos m) h = ground arith
job_at-some t (negsuc m) h = cc

addjob-Periodic :
    (i : ℕ) {me : Job} {t t' : Timer} {p : ℕ} → Placed me t t' p → Periodic i t → Periodic i t'
addjob-Periodic i {me} {t} {t'} {p} pl (j, h, r) = elim (ℕ_discrete p i) [
  | yes e ↦ absurd (let f : get_elem? t.jobs i ≡ some none = rw e at pl.was_free in cc)
  | no ne ↦ (j, pl.others i ne ∙ h, r)
]

refused-Periodic : (i : ℕ) (t t' : Timer) → t'.jobs ≡ t.jobs → Periodic i t → Periodic i t'
refused-Periodic i t t' e (j, h, r) = (j, rw e h, r)

cancel-cases :
    (id : ℤ) (t : Timer) {n : ℕ} {k : Job}
    → job_at t.jobs id ≡ some (n, k)
    → ((at_canceljob id t).1 ≡ t)
      ⊎ ((at_canceljob id t).1
          ≡ record t { jobs = set t.jobs n (some (record k { job_state = canceled })) })
unfolding at_canceljob
cancel-cases id t e = ground arith

set-Periodic :
    (i n : ℕ) (t : Timer) (k k' : Job)
    → Holds t n k
    → k'.repeat ≡ k.repeat
    → Periodic i t
    → Periodic i (record t { jobs = set t.jobs n (some k') })
set-Periodic i n t k k' held same (j, h, r) = elim (ℕ_discrete n i) [
  | yes e ↦
      let held' : Holds t i k = rw e at held in
      let both : some (some k) ≡ some (some j) = sym held' ∙ h in
      let kr : k.repeat ≡ true = (let kj : k ≡ j = cc in ap (λ (x : Job). x.repeat) kj ∙ r) in
      (
        k',
        rw e (get_elem?-set_self t.jobs i (some k') (get_elem?-eq_some-lt t.jobs i h)),
        same ∙ kr,
      )
  | no ne ↦ (j, get_elem?-set_ne t.jobs n i (some k') ne ∙ h, r)
]

cancel-Periodic : (i : ℕ) (id : ℤ) (t : Timer) → Periodic i t → Periodic i (at_canceljob id t).1
unfolding at_canceljob
cancel-Periodic i id t p = elim (Option-cases (job_at t.jobs id)) [
  | inl e ↦ rw (e, at_canceljob) p
  | inr ((n, k), e) ↦ elim (cancel-cases id t e) [
    | inl same ↦ rw same p
    | inr new ↦
        rw new
          (set-Periodic i n t k (record k { job_state = canceled }) (job_at-some t id e).1 refl p)
  ]
]

-- What `at_waitjob` went through, if it freed a slot.
record Freed (id : ℤ) (bs : List Bool) (t t' : Timer) : Type 0 where
  n : ℕ
  k : Job
  u : Timer
  at : job_at t.jobs id ≡ some (n, k)
  once : k.repeat ≡ false
  waited : wait_while (still_running id) (map alrm_action bs) t ≡ some u
  gone : t' ≡ release n u

wait-cases :
    (id : ℤ) (bs : List Bool) (t : Timer) {r : Reply} {t' : Timer}
    → at_waitjob id bs t ≡ some (r, t')
    → (t' ≡ t) ⊎ Freed id bs t t'
unfolding at_waitjob
wait-cases id bs t {r} {t'} h = elim (Option-cases (job_at t.jobs id)) [
  | inl e ↦ inl (ground arith)
  | inr ((n, k), e) ↦ elim (Bool-cases k.repeat) [
    | inl rep ↦ inl (ground arith)
    | inr once ↦ elim (Option-cases (wait_while (still_running id) (map alrm_action bs) t)) [
      | inl w ↦ absurd (ground arith)
      | inr (u, w) ↦
          inr (record { n = n; k = k; u = u; at = e; once = once; waited = w; gone = ground arith })
    ]
  ]
]

-- `free(job[id])` in `at_waitjob` reaches no periodic job.
wait-Periodic :
    (i : ℕ) (id : ℤ) (bs : List Bool) (t : Timer) {r : Reply} {t' : Timer}
    → at_waitjob id bs t ≡ some (r, t')
    → Periodic i t
    → Periodic i t'
wait-Periodic i id bs t {r} {t'} h (j, held, rep) = elim (wait-cases id bs t h) [
  | inl e ↦ rw e (j, held, rep)
  | inr f ↦
      let (j', held', rep') =
        (wait_while_inv (still_running id) (Periodic i) (map alrm_action bs) t (alrm-All i bs)
          (j, held, rep) f.waited).0 in
      elim (ℕ_discrete f.n i) [
        | yes e ↦
            let here' : Holds t i f.k = rw e at ((job_at-some t id f.at).1) in absurd (ground arith)
        | no ne ↦ rw f.gone (j', get_elem?-set_ne f.u.jobs f.n i none ne ∙ held', rep')
      ]
]

-- A periodic job is there to stay: once `at_addjob_repeat` has put it into a slot, no sequence of
-- calls (`at_canceljob` and `at_waitjob` included) and signals empties that slot or puts a job that
-- is not periodic there.
pub Periodic-for_ever : {t t' : Timer} (i : ℕ) → Periodic i t → Reach t t' → Periodic i t'
Periodic-for_ever i p here = p
Periodic-for_ever i p (after reach (addjob rep loads memory sec jobp arg q e)) =
    addjob-Periodic i (at_addjob-Placed rep loads memory sec jobp arg _ e).1
      (Periodic-for_ever i p reach)
Periodic-for_ever {t' = t'} i p (after {u = u} reach (refused rep loads memory sec jobp arg e h)) =
    refused-Periodic i u t' (at_addjob-Refused rep loads memory sec jobp arg _ h).unchanged.0
      (Periodic-for_ever i p reach)
Periodic-for_ever i p (after {u = u} reach (canceljob id e)) =
    rw e (cancel-Periodic i id u (Periodic-for_ever i p reach))
Periodic-for_ever i p (after {u = u} reach (waitjob id bs r h)) =
    wait-Periodic i id bs u h (Periodic-for_ever i p reach)
Periodic-for_ever i p (after {u = u} reach (signal b e)) =
    rw e (alrm-Periodic b i u (Periodic-for_ever i p reach))
