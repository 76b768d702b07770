-- ===== src/Tbf.antt =====
-- mytbf/mytbf.c, mytbf/mytbf.h: token buckets refilled by SIGALRM. `job[]` and `inited` are one
-- record. A `mytbf_t *` is the slot of its bucket, which `me->pos` names too; a call on a slot with
-- no bucket is a use of a dangling pointer, the result `none`.
pub mod Rate
pub mod Overflow
pub mod Fetch
pub mod Table
mod Tests
use mathlib.Core.Option
use linux_coding.Common.{
  ℕ, zero, suc, ◌+◌, Bool, true, false, Option, none, some, List, [], ◌∷◌, map, if◌then◌else◌,
  get_elem?, set, replicate, wait_while,
}
use linux_coding.Common.Int.{ℤ, pos, ◌+ℤ◌, ◌-ℤ◌, ltb_ℤ, leb_ℤ}

-- `MYTBF_MAX`
abbrev pub mytbf_max : ℕ
mytbf_max = 1024

-- `struct mytbf_st`. `pos` is spelled `slot`.
pub record Bucket : Type 0 where
  pub cps : ℤ
  pub burst : ℤ
  pub token : ℤ
  pub slot : ℕ

pub record Tbf : Type 0 where
  pub job : List (Option Bucket)
  pub inited : Bool

-- From index `i` on; `none` is -1.
unfoldable pub get_free_pos : List (Option Bucket) → ℕ → Option ℕ
get_free_pos [] i = none
get_free_pos (none ∷ js) i = some i
get_free_pos (some b ∷ js) i = get_free_pos js (i + 1)

-- The body of the loop of `alrm_handler` at one bucket.
unfoldable pub refill : Bucket → Bucket
refill b =
    let t = b.token +ℤ b.cps in
    if ltb_ℤ b.burst t then record b { token = b.burst } else record b { token = t }

unfoldable pub alrm_handler : Tbf → Tbf
alrm_handler t = record t { job = map (Option.map refill) t.job }

-- `memory` says that `malloc` succeeds; the result is the new bucket's slot, or `none` for NULL.
unfoldable pub mytbf_init : Bool → ℤ → ℤ → Tbf → Option ℕ × Tbf
mytbf_init memory cps burst t =
    let u = record t { inited = true } in
    elim (get_free_pos u.job 0) [
      | none ↦ (none, u)
      | some p ↦
          if memory
          then (
            some p,
            record u {
              job =
                  set u.job p (some (record { cps = cps; burst = burst; token = pos 0; slot = p }));
            },
          )
          else (none, u)
    ]

unfoldable pub min_int : ℤ → ℤ → ℤ
min_int a b = if ltb_ℤ a b then a else b

-- `-EINVAL`, or a number of tokens.
pub data Reply : Type 0 where
  einval : Reply
  tokens : ℤ → Reply

-- What `mytbf_fetch_token` does to its bucket behind the wait.
unfoldable pub take_tokens : ℤ → Bucket → ℤ × Bucket
unfolding min_int
take_tokens size b = let n = min_int b.token size in (n, record b { token = b.token -ℤ n })

unfoldable pub bucket_at : Tbf → ℕ → Option Bucket
bucket_at t p = elim (get_elem? t.job p) [ none ↦ none | some s ↦ s ]

-- `me->token <= 0`
abbrev pub lacks_token : ℕ → Tbf → Bool
lacks_token p t = elim (bucket_at t p) [ none ↦ false | some b ↦ leb_ℤ b.token (pos 0) ]

abbrev pub put_bucket : ℕ → Bucket → Tbf → Tbf
put_bucket p b t = record t { job = set t.job p (some b) }

-- The part of `mytbf_fetch_token` behind its wait.
unfoldable pub fetch_ready : ℕ → ℤ → Tbf → Option (Reply × Tbf)
fetch_ready p size t = elim (bucket_at t p) [
  | none ↦ none
  | some b ↦ let (n, b') = take_tokens size b in some (tokens n, put_bucket p b' t)
]

-- `ticks` SIGALRMs arrive while the call waits in `pause()`; the outer `none` is a call that still
-- waits behind them.
unfoldable pub mytbf_fetch_token : ℕ → ℤ → ℕ → Tbf → Option (Option (Reply × Tbf))
mytbf_fetch_token p size ticks t =
    if leb_ℤ size (pos 0)
    then some (some (einval, t))
    else Option.map (fetch_ready p size)
        (wait_while (lacks_token p) (replicate ticks alrm_handler) t)

-- What `mytbf_return_token` does to its bucket.
unfoldable pub give_tokens : ℤ → Bucket → Bucket
give_tokens size b =
    let t = b.token +ℤ size in
    if ltb_ℤ b.burst t then record b { token = b.burst } else record b { token = t }

unfoldable pub mytbf_return_token : ℕ → ℤ → Tbf → Option (Reply × Tbf)
mytbf_return_token p size t =
    if leb_ℤ size (pos 0) then some (einval, t) else (elim (bucket_at t p) [
      | none ↦ none
      | some b ↦ some (tokens size, put_bucket p (give_tokens size b) t)
    ])

-- `job[me->pos] = NULL; free(ptr);`
unfoldable pub mytbf_destroy : ℕ → Tbf → Option Tbf
mytbf_destroy p t = elim (bucket_at t p) [
  | none ↦ none
  | some b ↦ some (record t { job = set t.job b.slot none })
]
