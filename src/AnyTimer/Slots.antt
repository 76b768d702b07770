-- ===== src/AnyTimer/Slots.antt =====
-- anytimer/anytimer.c: the table of jobs, slot by slot: where a new job goes, and what a tick does.
use mathlib.Core.Option
use linux_coding.Common.{
  ℕ, zero, suc, ◌+◌, ◌<◌, ◌≡◌, ◌≢◌, ◌⊎◌, inl, inr, refl, ap, Bool, true, false, Option, none, some,
  List, [], ◌∷◌, arith, length, get_elem?, set, Option-cases, get_elem?-set_self, get_elem?-set_ne,
  get_elem?-eq_some-lt,
}
use linux_coding.Common.Int.{ℤ, pos, ◌≤ℤ◌, ◌<ℤ◌}
use linux_coding.AnyTimer.{
  Job, Timer, Reply, ok, err, Errno, einval, enospc, enomem, running, get_free_pos, place,
  at_addjob, at_addjob_repeat, tick_slot, tick_slots,
}

-- Slot `i` holds a job.
abbrev pub Occupied : List (Option Job) → ℕ → Type 0
Occupied js i = (j : Job) × (get_elem? js i ≡ some (some j))

Occupied-below :
    (s : Job) (js : List (Option Job)) (d : ℕ)
    → ((i : ℕ) → i < d → Occupied js i)
    → (i : ℕ) → i < suc d
    → Occupied (some s ∷ js) i
Occupied-below s js d h zero lt = (s, refl)
Occupied-below s js d h (suc i) lt = h i (omega arith)

get_free_pos-some :
    (js : List (Option Job)) (k : ℕ) {p : ℕ}
    → get_free_pos js k ≡ some p
    → (d : ℕ) × (p ≡ k + d) × (get_elem? js d ≡ some none) × ((i : ℕ) → i < d → Occupied js i)
unfolding get_free_pos
get_free_pos-some [] k h = cc
get_free_pos-some (none ∷ js) k {p} h = (0, ground arith, refl, λ i lt. absurd (omega arith))
get_free_pos-some (some j ∷ js) k h =
    let (d, e, free, below) = get_free_pos-some js (k + 1) h in
    (suc d, omega arith, free, Occupied-below j js d below)

get_free_pos-none :
    (js : List (Option Job)) (k : ℕ)
    → get_free_pos js k ≡ none
    → (i : ℕ) → i < length js
    → Occupied js i
unfolding get_free_pos
get_free_pos-none [] k h i lt = absurd (omega arith)
get_free_pos-none (none ∷ js) k h i lt = cc
get_free_pos-none (some j ∷ js) k h i lt =
    Occupied-below j js (length js) (get_free_pos-none js (k + 1) h) i lt

-- `me` went into slot `p`, the first that was free, and no other slot changed.
pub record Placed (me : Job) (t t' : Timer) (p : ℕ) : Type 0 where
  pub was_free : get_elem? t.jobs p ≡ some none
  pub first : (i : ℕ) → i < p → Occupied t.jobs i
  pub put : get_elem? t'.jobs p ≡ some (some me)
  pub others : (i : ℕ) → p ≢ i → get_elem? t'.jobs i ≡ get_elem? t.jobs i
  pub loaded : t'.initied ≡ true

place_ok :
    (memory : Bool) (me : Job) (t : Timer) {p : ℕ} {t' : Timer}
    → t.initied ≡ true
    → place memory me t ≡ (ok p, t')
    → Placed me t t' p
unfolding place
place_ok memory me t {p} {t'} l h = elim (Option-cases (get_free_pos t.jobs 0)) [
  | inl e ↦ absurd (ground arith)
  | inr (p', e) ↦
      let (d, pd, free, below) = get_free_pos-some t.jobs 0 e in
      let ep : d ≡ p = ground arith in
      let ej : t'.jobs ≡ set t.jobs p (some me) = ground arith in
      let f : get_elem? t.jobs p ≡ some none = rw ep at free in
      record {
        was_free = f;
        first = λ i lt. below i (omega arith);
        put = rw ej (get_elem?-set_self t.jobs p (some me) (get_elem?-eq_some-lt t.jobs p f));
        others = λ i ne. rw ej (get_elem?-set_ne t.jobs p i (some me) ne);
        loaded = ground arith;
      }
]

-- Why a call gave an error number, and that the table did not change.
pub record Refused (memory : Bool) (sec : ℤ) (t t' : Timer) (e : Errno) : Type 0 where
  pub unchanged : (t'.jobs ≡ t.jobs) × (t'.fired ≡ t.fired)
  pub reason :
      ((e ≡ einval) × (sec <ℤ pos 0))
      ⊎ ((e ≡ enospc) × ((i : ℕ) → i < length t.jobs → Occupied t.jobs i))
      ⊎ ((e ≡ enomem) × (memory ≡ false))

place_err :
    (memory : Bool) (sec : ℤ) (me : Job) (t : Timer) {e : Errno} {t' : Timer}
    → place memory me t ≡ (err e, t')
    → Refused memory sec t t' e
unfolding place
place_err memory sec me t {e} {t'} h = elim (Option-cases (get_free_pos t.jobs 0)) [
  | inl none_free ↦
      let is_full : e ≡ enospc = ground arith in
      record {
        unchanged = (ground arith, ground arith);
        reason = inr (inl (is_full, get_free_pos-none t.jobs 0 none_free));
      }
  | inr (p, found) ↦ record {
    unchanged = (ground arith, ground arith);
    reason = inr (inr (ground arith, ground arith));
  }
]

-- The job that `at_addjob` (`rep` false) and `at_addjob_repeat` (`rep` true) make.
abbrev pub new_job : ℤ → ℕ → ℕ → Bool → Job
new_job sec jobp arg rep = record {
  job_state = running;
  sec = sec;
  time_remain = sec;
  jobp = jobp;
  arg = arg;
  repeat = rep;
}

-- Both functions are this one.
abbrev pub add : Bool → Bool → Bool → ℤ → ℕ → ℕ → Timer → Reply × Timer
add rep loads memory sec jobp arg t = elim rep [
  | true ↦ at_addjob_repeat loads memory sec jobp arg t
  | false ↦ at_addjob loads memory sec jobp arg t
]

add_ok :
    (rep loads memory : Bool) (sec : ℤ) (jobp arg : ℕ) (t : Timer) {p : ℕ} {t' : Timer}
    → add rep loads memory sec jobp arg t ≡ (ok p, t')
    → (pos 0 ≤ℤ sec)
      × (place memory (new_job sec jobp arg rep) (record t { initied = true }) ≡ (ok p, t'))
unfolding at_addjob at_addjob_repeat
add_ok true loads memory sec jobp arg t h = ground arith
add_ok false loads memory sec jobp arg t h = ground arith

add_err :
    (rep loads memory : Bool) (sec : ℤ) (jobp arg : ℕ) (t : Timer) {e : Errno} {t' : Timer}
    → add rep loads memory sec jobp arg t ≡ (err e, t')
    → ((e ≡ einval) × (sec <ℤ pos 0) × (t' ≡ t))
      ⊎ (place memory (new_job sec jobp arg rep) (record t { initied = true }) ≡ (err e, t'))
unfolding at_addjob at_addjob_repeat
add_err true loads memory sec jobp arg t h = ground arith
add_err false loads memory sec jobp arg t h = ground arith

-- `at_addjob` (`rep` false) and `at_addjob_repeat` (`rep` true) that return an id have put a running
-- job with `sec` seconds to go into that slot, the first free one, changed no other slot, and were
-- given `sec >= 0`.
pub at_addjob-Placed :
    (rep loads memory : Bool) (sec : ℤ) (jobp arg : ℕ) (t : Timer) {p : ℕ} {t' : Timer}
    → add rep loads memory sec jobp arg t ≡ (ok p, t')
    → (pos 0 ≤ℤ sec) × Placed (new_job sec jobp arg rep) t t' p
at_addjob-Placed rep loads memory sec jobp arg t {p} {t'} h =
    let (nonneg, q) = add_ok rep loads memory sec jobp arg t h in
    let r = place_ok memory (new_job sec jobp arg rep) (record t { initied = true }) refl q in
    (
      nonneg,
      record {
        was_free = r.was_free;
        first = r.first;
        put = r.put;
        others = r.others;
        loaded = r.loaded;
      },
    )

-- If they give an error number, the table and the trace of calls are as before, and it is EINVAL
-- for `sec < 0`, ENOSPC with every slot in use, or ENOMEM with no memory.
pub at_addjob-Refused :
    (rep loads memory : Bool) (sec : ℤ) (jobp arg : ℕ) (t : Timer) {e : Errno} {t' : Timer}
    → add rep loads memory sec jobp arg t ≡ (err e, t')
    → Refused memory sec t t' e
at_addjob-Refused rep loads memory sec jobp arg t {e} {t'} h =
    elim (add_err rep loads memory sec jobp arg t h) [
      | inl (is, neg, same) ↦ record {
        unchanged = (ap (λ (u : Timer). u.jobs) same, ap (λ (u : Timer). u.fired) same);
        reason = inl (is, neg);
      }
      | inr q ↦
          let r = place_err memory sec (new_job sec jobp arg rep) (record t { initied = true }) q in
          record { unchanged = r.unchanged; reason = r.reason }
    ]

-- What `alrm_action` does to the table, read slot by slot.
pub get_elem?-tick_slots :
    (js : List (Option Job)) (i : ℕ)
    → get_elem? (tick_slots js).0 i ≡ Option.map (λ s. (tick_slot s).0) (get_elem? js i)
unfolding tick_slots
get_elem?-tick_slots [] i = refl
get_elem?-tick_slots (s ∷ js) zero = refl
get_elem?-tick_slots (s ∷ js) (suc i) = get_elem?-tick_slots js i

pub length-tick_slots : (js : List (Option Job)) → length (tick_slots js).0 ≡ length js
unfolding tick_slots
length-tick_slots [] = refl
length-tick_slots (s ∷ js) = ap suc (length-tick_slots js)
