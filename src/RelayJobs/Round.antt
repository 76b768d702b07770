-- ===== src/RelayJobs/Round.antt =====
-- proIO/non-blocked/relayer/relayer.c: rounds of `thr_relayer`, between calls of `rel_addjob`.
use mathlib.Core.Option
use linux_coding.Common.{
  ℕ, zero, suc, ◌+◌, ◌≡◌, ◌≢◌, ◌⊎◌, refl, sym, ap, ◌∙◌, subst, Option, none, some, List, [], ◌∷◌,
  arith, get_elem?,
}
use linux_coding.Relay.{Fsm, t}
use linux_coding.RelayJobs.{
  RelJob, Relayer, running, over, Answer, drive, relay_job, relay_slots, thr_relayer_round,
  rel_addjob,
}
use linux_coding.RelayJobs.Table.{rel_addjob_keeps}

get_elem?-relay_slots :
    (answers : ℕ → Answer × Answer) (k : ℕ) (js : List (Option RelJob)) (i : ℕ)
    → get_elem? (relay_slots answers k js).0 i
      ≡ Option.map
          (Option.map (λ j. (relay_job (answers (k + i)).0 (answers (k + i)).1 j).0))
          (get_elem? js i)
unfolding relay_slots
get_elem?-relay_slots answers k [] i = refl
get_elem?-relay_slots answers k (none ∷ js) zero = refl
get_elem?-relay_slots answers k (some j ∷ js) zero =
    let e : k + 0 ≡ k = omega arith in
    ap (λ n. some (some (relay_job (answers n).0 (answers n).1 j).0)) (sym e)
get_elem?-relay_slots answers k (none ∷ js) (suc i) =
    let e : k + 1 + i ≡ k + suc i = omega arith in
    rw (← e) (get_elem?-relay_slots answers (k + 1) js i)
get_elem?-relay_slots answers k (some j ∷ js) (suc i) =
    let e : k + 1 + i ≡ k + suc i = omega arith in
    rw (← e) (get_elem?-relay_slots answers (k + 1) js i)

-- What a round makes of the job `j`, when the system calls of its machines answer `a12` and `a21`.
pub record Driven (a12 a21 : Answer) (j k : RelJob) : Type 0 where
  pub idle : j.job_state ≢ running → k ≡ j
  pub stepped :
      j.job_state ≡ running → (k.fsm12 ≡ (drive a12 j.fsm12).0) × (k.fsm21 ≡ (drive a21 j.fsm21).0)
  pub ended : j.job_state ≡ running → k.fsm12.state ≡ t → k.fsm21.state ≡ t → k.job_state ≡ over
  pub goes_on :
      j.job_state ≡ running → (k.fsm12.state ≢ t) ⊎ (k.fsm21.state ≢ t) → k.job_state ≡ running

relay_job-Driven : (a12 a21 : Answer) (j : RelJob) → Driven a12 a21 j (relay_job a12 a21 j).0
unfolding relay_job
relay_job-Driven a12 a21 j = record {
  idle = λ h. ground arith;
  stepped = λ h. ground arith;
  ended = λ h e f. ground arith;
  goes_on = λ h e. ground arith;
}

round-slot :
    (answers : ℕ → Answer × Answer) (x : Relayer) (i : ℕ)
    → get_elem? (thr_relayer_round answers x).0.rel_job i
      ≡ Option.map
          (Option.map (λ j. (relay_job (answers i).0 (answers i).1 j).0))
          (get_elem? x.rel_job i)
unfolding thr_relayer_round
round-slot answers x i =
    let e : 0 + i ≡ i = omega arith in
    subst
      (λ n.
        get_elem? (relay_slots answers 0 x.rel_job).0 i
        ≡ Option.map (Option.map (λ j. (relay_job (answers n).0 (answers n).1 j).0))
            (get_elem? x.rel_job i))
      e (get_elem?-relay_slots answers 0 x.rel_job i)

-- A round of `thr_relayer` drives each machine of each running job once, and makes the job over
-- exactly if both its machines are then in STATE_T; every other job stays as it is, an empty slot
-- stays empty, and no file flag changes.
pub thr_relayer_round_lem :
    (answers : ℕ → Answer × Answer) (x : Relayer) (i : ℕ)
    → let x' = (thr_relayer_round answers x).0 in
      ((j : RelJob)
        → get_elem? x.rel_job i ≡ some (some j)
        → (k : RelJob) × (get_elem? x'.rel_job i ≡ some (some k))
          × Driven (answers i).0 (answers i).1 j k)
      × (get_elem? x.rel_job i ≡ some none → get_elem? x'.rel_job i ≡ some none)
      × ((fd : ℕ) → x'.flags fd ≡ x.flags fd)
thr_relayer_round_lem answers x i = (
  λ j h. (
    (relay_job (answers i).0 (answers i).1 j).0,
    rw (round-slot answers x i, h) refl,
    relay_job-Driven (answers i).0 (answers i).1 j,
  ),
  λ h. rw (round-slot answers x i, h) refl,
  λ fd. unfold thr_relayer_round in refl,
)

-- A round of the thread, or a call of `rel_addjob`: all that relayer.c does to the table.
pub data Step (x x' : Relayer) : Type 0 where
  round : (answers : ℕ → Answer × Answer) → x' ≡ (thr_relayer_round answers x).0 → Step x x'
  addjob :
      (nonblock : ℕ → ℕ) (junk : Option (Fsm × Fsm)) (fd1 fd2 : ℕ)
      → x' ≡ (rel_addjob nonblock junk fd1 fd2 x).1
      → Step x x'

pub data Reach (x : Relayer) : Relayer → Type 0 where
  here : Reach x x
  after : {y z : Relayer} → Reach x y → Step y z → Reach x z

-- Slot `i` holds a job that is `j` itself, if `j` is not running.
record Stays (i : ℕ) (j : RelJob) (y : Relayer) : Type 0 where
  k : RelJob
  held : get_elem? y.rel_job i ≡ some (some k)
  same : j.job_state ≢ running → k ≡ j

Step-Stays : (i : ℕ) (j : RelJob) {y z : Relayer} → Step y z → Stays i j y → Stays i j z
Step-Stays i j {y} {z} (round answers e) s =
    let (k', h', d) = (thr_relayer_round_lem answers y i).0 s.k s.held in
    record {
      k = k';
      held = rw e h';
      same = λ idle.
          let kj = s.same idle in d.idle (subst (λ x. x.job_state ≢ running) (sym kj) idle) ∙ kj;
    }
Step-Stays i j {y} {z} (addjob nonblock junk fd1 fd2 e) s = record {
  k = s.k;
  held = rw e (rel_addjob_keeps nonblock junk fd1 fd2 y i s.held);
  same = s.same;
}

Reach-Stays : (i : ℕ) (j : RelJob) {x y : Relayer} → Stays i j x → Reach x y → Stays i j y
Reach-Stays i j s here = s
Reach-Stays i j s (after r st) = Step-Stays i j st (Reach-Stays i j s r)

-- Whatever rounds and calls follow, a slot that holds a job holds one for ever, and a job that is
-- over (or canceled) stays there unchanged: no slot of the table is freed again.
pub rel_job_never_freed :
    (i : ℕ) (j : RelJob) {x y : Relayer}
    → get_elem? x.rel_job i ≡ some (some j)
    → Reach x y
    → (k : RelJob) × (get_elem? y.rel_job i ≡ some (some k)) × (j.job_state ≢ running → k ≡ j)
rel_job_never_freed i j h r =
    let s = Reach-Stays i j (record { k = j; held = h; same = λ idle. refl }) r in
    (s.k, s.held, s.same)
