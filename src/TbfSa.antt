-- ===== src/TbfSa.antt =====
-- mytbf_sa/mytbf.c: the token buckets of mytbf on an interval timer, with `sigaction`. The structures
-- are those of mytbf/mytbf.c; `from_kernel` says that `infop->si_code == SI_KERNEL`. mytbf_fetchToken
-- is left out: it waits with sigsuspend(&oldmask), and `oldmask` is declared nowhere, so that the file
-- does not compile as it stands.
pub mod Signals
mod Tests
use linux_coding.Common.{
  ℕ, zero, suc, ◌+◌, Bool, true, false, Option, none, some, List, [], ◌∷◌, map, if◌then◌else◌,
  get_elem?, set,
}
use linux_coding.Common.Int.{ℤ, pos, ◌+ℤ◌, ltb_ℤ, leb_ℤ}
use linux_coding.Tbf.{Bucket, Tbf, Reply, einval, tokens}

-- `none` is -1.
unfoldable pub get_free_pos : List (Option Bucket) → ℕ → Option ℕ
get_free_pos [] i = none
get_free_pos (none ∷ js) i = some i
get_free_pos (some b ∷ js) i = get_free_pos js (i + 1)

-- The loop of `alrm_action`.
unfoldable pub action_slots : List (Option Bucket) → List (Option Bucket)
action_slots [] = []
action_slots (none ∷ js) = none ∷ action_slots js
action_slots (some b ∷ js) =
    let token = b.token +ℤ b.cps in
    let rest = action_slots js in
    some (if ltb_ℤ b.burst token then record b { token = b.burst } else record b { token = token })
    ∷ rest

unfoldable pub alrm_action : Bool → Tbf → Tbf
alrm_action from_kernel t = if from_kernel then record t { job = action_slots t.job } else t

unfoldable pub mytbf_init : Bool → ℤ → ℤ → Tbf → Option ℕ × Tbf
mytbf_init memory cps burst t =
    let u = record t { inited = true } in
    elim (get_free_pos u.job 0) [
      | none ↦ (none, u)
      | some p ↦
          if memory
          then (
            some p,
            record u {
              job =
                  set u.job p (some (record { token = pos 0; cps = cps; burst = burst; slot = p }));
            },
          )
          else (none, u)
    ]

-- The bucket that `ptr` points to.
unfoldable pub deref : Tbf → ℕ → Option Bucket
deref t p = elim (get_elem? t.job p) [ none ↦ none | some s ↦ s ]

unfoldable pub mytbf_return_token : ℕ → ℤ → Tbf → Option (Reply × Tbf)
mytbf_return_token p size t = if leb_ℤ size (pos 0) then some (einval, t) else (elim (deref t p) [
  | none ↦ none
  | some me ↦
      let token = me.token +ℤ size in
      let me' =
        if ltb_ℤ me.burst token
        then record me { token = me.burst }
        else record me { token = token } in
      some (tokens size, record t { job = set t.job p (some me') })
])

unfoldable pub mytbf_destroy : ℕ → Tbf → Option Tbf
mytbf_destroy p t = elim (deref t p) [
  | none ↦ none
  | some me ↦ some (record t { job = set t.job me.slot none })
]
