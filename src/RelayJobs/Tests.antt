-- ===== src/RelayJobs/Tests.antt =====
-- Runs of the job table of proIO/non-blocked/relayer/relayer.c.
use linux_coding.Common.{ℕ, ◌+◌, ◌≡◌, refl, none, some, List, [], ◌∷◌, replicate, get_elem?, Option}
use linux_coding.Common.Int.{pos}
use linux_coding.Relay.{Fsm, r, got, wrote}
use linux_coding.RelayJobs.{
  RelJob, Relayer, Answer, over, new_rel_job, rel_addjob, thr_relayer_round,
}
use linux_coding.RelayJobs.Round.{Driven, Step, Reach, thr_relayer_round_lem}

abbrev idle : Fsm
idle = record {
  state = r;
  sfd = 3;
  dfd = 4;
  buf = replicate 1024 0;
  len = pos 0;
  strerr = none;
  offset = 0;
}

abbrev job : RelJob
job = new_rel_job idle idle 3 4 0 0

abbrev no_flags : ℕ → ℕ
no_flags fd = 0

abbrev table : List (Option RelJob) → Relayer
table js = record { rel_job = js; flags = no_flags }

-- `f | O_NONBLOCK`, where the bit is clear.
abbrev nonblock : ℕ → ℕ
nonblock f = f + 2048

abbrev filled : Relayer
filled = (rel_addjob nonblock (some (idle, idle)) 3 4 (table (some job ∷ none ∷ []))).1

abbrev refused : Relayer
refused = (rel_addjob nonblock (some (idle, idle)) 3 3 (table (some job ∷ []))).1

-- Both sources at their end.
abbrev answers : ℕ → Answer × Answer
answers i = (λ m. (got [], wrote 0), λ m. (got [], wrote 0))

thr_relayer_round_lem_example :
    let x' = (thr_relayer_round answers (table (some job ∷ none ∷ []))).0 in
    ((j : RelJob)
      → get_elem? (table (some job ∷ none ∷ [])).rel_job 1 ≡ some (some j)
      → (k : RelJob) × (get_elem? x'.rel_job 1 ≡ some (some k))
        × Driven (answers 1).0 (answers 1).1 j k)
    × (get_elem? (table (some job ∷ none ∷ [])).rel_job 1 ≡ some none
        → get_elem? x'.rel_job 1 ≡ some none)
    × ((fd : ℕ) → x'.flags fd ≡ 0)
thr_relayer_round_lem_example = thr_relayer_round_lem answers (table (some job ∷ none ∷ [])) 1

abbrev done : RelJob
done = record job { job_state = over }

two_steps :
    Reach
      (table (some done ∷ []))
      (rel_addjob nonblock none 3 4 (thr_relayer_round answers (table (some done ∷ []))).0).1
two_steps =
    Reach.after (Reach.after Reach.here (Step.round answers refl))
      (Step.addjob nonblock none 3 4 refl)
