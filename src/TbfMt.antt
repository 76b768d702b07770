-- ===== src/TbfMt.antt =====
-- thread/posix/mytbf_multithread/mytbf.c: the token buckets of mytbf, refilled by a thread, with a
-- mutex for the table and one for each bucket. Each critical section is one step. The structures
-- are those of mytbf/mytbf.c.
pub mod Same
pub mod Unload
mod Tests
use mathlib.Core.Option
use linux_coding.Common.{
  ℕ, zero, suc, ◌+◌, ◌==◌, Bool, true, false, Option, none, some, List, [], ◌∷◌, if◌then◌else◌,
  get_elem?, set, wait_while,
}
use linux_coding.Common.Int.{ℤ, pos, ◌+ℤ◌, ◌-ℤ◌, ltb_ℤ, leb_ℤ}
use linux_coding.Tbf.{Bucket, Tbf, mytbf_max, Reply, einval, tokens}

-- `none` is -1.
unfoldable pub get_free_pos_unlocked : List (Option Bucket) → ℕ → Option ℕ
get_free_pos_unlocked [] i = none
get_free_pos_unlocked (none ∷ js) i = some i
get_free_pos_unlocked (some b ∷ js) i = get_free_pos_unlocked js (i + 1)

-- `thr_alarm` at one bucket, under its mutex.
unfoldable pub add_cps : Bucket → Bucket
add_cps b =
    let filled = record b { token = b.token +ℤ b.cps } in
    if ltb_ℤ filled.burst filled.token then record filled { token = filled.burst } else filled

unfoldable pub alarm_slots : List (Option Bucket) → List (Option Bucket)
alarm_slots [] = []
alarm_slots (none ∷ js) = none ∷ alarm_slots js
alarm_slots (some b ∷ js) = some (add_cps b) ∷ alarm_slots js

-- A round of `thr_alarm`, between two sleeps.
unfoldable pub thr_alarm : Tbf → Tbf
thr_alarm t = record t { job = alarm_slots t.job }

-- `pthread_once` and then `malloc`, before the table is searched.
unfoldable pub mytbf_init : Bool → ℤ → ℤ → Tbf → Option ℕ × Tbf
mytbf_init memory cps burst t =
    let once = record t { inited = true } in
    if memory
    then elim (get_free_pos_unlocked once.job 0) [
      | none ↦ (none, once)
      | some p ↦ (
        some p,
        record once {
          job =
              set once.job p (some (record { token = pos 0; cps = cps; burst = burst; slot = p }));
        },
      )
    ]
    else (none, once)

-- `min`.
unfoldable pub min_token : ℤ → ℤ → ℤ
min_token a b = if ltb_ℤ a b then a else b

-- The bucket that `ptr` points to.
unfoldable pub pointee : Tbf → ℕ → Option Bucket
pointee t p = elim (get_elem? t.job p) [ none ↦ none | some s ↦ s ]

unfoldable pub store : ℕ → Bucket → Tbf → Tbf
store p b t = record t { job = set t.job p (some b) }

-- `me->token <= 0`.
unfoldable pub must_wait : ℕ → Tbf → Bool
must_wait p t = elim (pointee t p) [ none ↦ false | some me ↦ leb_ℤ me.token (pos 0) ]

-- Behind the wait.
unfoldable pub fetch : ℕ → ℤ → Tbf → Option (Reply × Tbf)
fetch p size t = elim (pointee t p) [
  | none ↦ none
  | some me ↦
      let n = min_token me.token size in
      some (tokens n, store p (record me { token = me.token -ℤ n }) t)
]

-- `wakes` are the runs of the other threads between two tests of the waiting loop.
unfoldable pub mytbf_fetch_token : ℕ → ℤ → List (Tbf → Tbf) → Tbf → Option (Option (Reply × Tbf))
mytbf_fetch_token p size wakes t =
    if leb_ℤ size (pos 0)
    then some (some (einval, t))
    else Option.map (fetch p size) (wait_while (must_wait p) wakes t)

unfoldable pub mytbf_return_token : ℕ → ℤ → Tbf → Option (Reply × Tbf)
mytbf_return_token p size t = if leb_ℤ size (pos 0) then some (einval, t) else (elim (pointee t p) [
  | none ↦ none
  | some me ↦
      let given = record me { token = me.token +ℤ size } in
      some (
        tokens size,
        store p
            (if ltb_ℤ given.burst given.token then record given { token = given.burst } else given)
            t,
      )
])

-- `job[me->pos] = NULL`.
unfoldable pub clear_slot : Bucket → Tbf → Tbf
clear_slot me t = record t { job = set t.job me.slot none }

unfoldable pub mytbf_destroy : ℕ → Tbf → Option Tbf
mytbf_destroy p t = elim (pointee t p) [ none ↦ none | some me ↦ some (clear_slot me t) ]

-- The loop of `module_unload` from `i` on, `n` slots long; the thread is cancelled and joined.
unfoldable pub unload_slots : ℕ → ℕ → Tbf → Tbf
unload_slots zero i t = t
unload_slots (suc n) i t = elim (pointee t i) [
  | none ↦ unload_slots n (i + 1) t
  | some me ↦ unload_slots n (i + 1) (clear_slot me t)
]

unfoldable pub module_unload : Tbf → Tbf
module_unload t = unload_slots mytbf_max 0 t
