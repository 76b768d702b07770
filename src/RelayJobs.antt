-- ===== src/RelayJobs.antt =====
-- proIO/non-blocked/relayer/relayer.c: the table of jobs, each two state machines of Relay, and the
-- thread that drives them. Table and file status flags are one record.
pub mod Table
pub mod Round
mod Tests
use linux_coding.Common.{
  ℕ, zero, suc, ◌+◌, Bool, true, false, ◌&&◌, Option, none, some, List, [], ◌∷◌, ◌++◌, ◌==◌,
  if◌then◌else◌, set,
}
use linux_coding.Relay.{State, r, t, Fsm, ReadResult, WriteResult, Effect, fsm_driver}

-- `REL_JOBMAX`
abbrev pub rel_jobmax : ℕ
rel_jobmax = 10000

-- `STATE_RUNNING`, `STATE_CANCELED`, `STATE_OVER` of relayer.h
pub data JobState : Type 0 where
  running canceled over : JobState

-- `struct rel_job_st`
pub record RelJob : Type 0 where
  pub job_state : JobState
  pub fd1 : ℕ
  pub fd2 : ℕ
  pub fsm12 : Fsm
  pub fsm21 : Fsm
  pub fd1_save : ℕ
  pub fd2_save : ℕ

-- `rel_job[]`, and the flags that `fcntl(fd, F_GETFL)` reads.
pub record Relayer : Type 0 where
  pub rel_job : List (Option RelJob)
  pub flags : ℕ → ℕ

-- What the system calls of one machine's step come to; they may depend on the machine.
abbrev pub Answer : Type 0
Answer = Fsm → ReadResult × WriteResult

-- One step of a machine under such answers.
unfoldable pub drive : Answer → Fsm → Fsm × Effect
drive a m = let (i, o) = a m in fsm_driver i o m

abbrev pub is_running : JobState → Bool
is_running running = true
is_running _ = false

abbrev pub is_t : State → Bool
is_t t = true
is_t _ = false

-- The body of the loop of `thr_relayer` at a job.
unfoldable pub relay_job : Answer → Answer → RelJob → RelJob × List Effect
relay_job a12 a21 j =
    let (m12, e12) = drive a12 j.fsm12 in
    let (m21, e21) = drive a21 j.fsm21 in
    let j' = record j { fsm12 = m12; fsm21 = m21 } in
    if is_running j.job_state
    then (if is_t m12.state && is_t m21.state
        then (record j' { job_state = over }, e12 ∷ e21 ∷ [])
        else (j', e12 ∷ e21 ∷ []))
    else (j, [])

-- One round of `thr_relayer`, from slot `i` on.
unfoldable pub relay_slots :
    (ℕ → Answer × Answer) → ℕ → List (Option RelJob) → List (Option RelJob) × List Effect
relay_slots answers i [] = ([], [])
relay_slots answers i (none ∷ js) =
    let (js', es) = relay_slots answers (i + 1) js in (none ∷ js', es)
relay_slots answers i (some j ∷ js) =
    let (a12, a21) = answers i in
    let (j', e) = relay_job a12 a21 j in
    let (js', es) = relay_slots answers (i + 1) js in (some j' ∷ js', e ++ es)

unfoldable pub thr_relayer_round : (ℕ → Answer × Answer) → Relayer → Relayer × List Effect
thr_relayer_round answers x =
    let (js, es) = relay_slots answers 0 x.rel_job in (record x { rel_job = js }, es)

unfoldable pub get_free_pos_unlocked : List (Option RelJob) → ℕ → Option ℕ
get_free_pos_unlocked [] i = none
get_free_pos_unlocked (none ∷ js) i = some i
get_free_pos_unlocked (some j ∷ js) i = get_free_pos_unlocked js (i + 1)

-- `fcntl(fd, F_SETFL, f)`
abbrev pub set_flags : ℕ → ℕ → (ℕ → ℕ) → ℕ → ℕ
set_flags fd f fl k = if fd == k then f else fl k

-- `placed` is the end of the function, which has no `return`: its caller reads no defined value.
pub data Reply : Type 0 where
  enomem enospc : Reply
  placed : ℕ → Reply

-- The fields that `rel_addjob` sets; `junk12` and `junk21` are what `malloc` left in the machines.
abbrev pub new_rel_job : Fsm → Fsm → ℕ → ℕ → ℕ → ℕ → RelJob
new_rel_job junk12 junk21 fd1 fd2 save1 save2 = record {
  job_state = running;
  fd1 = fd1;
  fd2 = fd2;
  fsm12 = record junk12 { state = r; sfd = fd1; dfd = fd2 };
  fsm21 = record junk21 { state = r; sfd = fd2; dfd = fd1 };
  fd1_save = save1;
  fd2_save = save2;
}

-- `nonblock f` is `f | O_NONBLOCK`; `junk` is `none` where `malloc` failed.
unfoldable pub rel_addjob : (ℕ → ℕ) → Option (Fsm × Fsm) → ℕ → ℕ → Relayer → Reply × Relayer
rel_addjob nonblock none fd1 fd2 x = (enomem, x)
rel_addjob nonblock (some (junk12, junk21)) fd1 fd2 x =
    let save1 = x.flags fd1 in
    let fl1 = set_flags fd1 (nonblock save1) x.flags in
    let save2 = fl1 fd2 in
    let fl2 = set_flags fd2 (nonblock save2) fl1 in
    elim (get_free_pos_unlocked x.rel_job 0) [
      | none ↦ (enospc, record x { flags = set_flags fd2 save2 (set_flags fd1 save1 fl2) })
      | some p ↦ (
        placed p,
        record {
          rel_job = set x.rel_job p (some (new_rel_job junk12 junk21 fd1 fd2 save1 save2));
          flags = fl2;
        },
      )
    ]
