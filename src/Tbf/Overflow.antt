-- ===== src/Tbf/Overflow.antt =====
-- mytbf/mytbf.c with the additions and subtractions of C's `int`, which may overflow: `none` is an overflow.
-- The bodies are those of alrm_handler, mytbf_fetchToken behind its wait, and mytbf_returnToken at one
-- bucket.
use linux_coding.Common.{
  ◌≡◌, refl, subst, sym, arith, ◌&&◌, Option, none, some, List, if◌then◌else◌,
}
use linux_coding.Common.Int.{
  ℤ, pos, ◌+ℤ◌, ◌-ℤ◌, ◌≤ℤ◌, ◌<ℤ◌, leb_ℤ, ltb_ℤ, +ℤ_parts, -ℤ_parts, one_part, int_max, int_min,
  FitsInt,
}
use linux_coding.Tbf.{Bucket, refill, take_tokens, give_tokens, min_int}
use linux_coding.Tbf.Rate.{IsValid, Event, start, run, rate_limit, take_tokens_lem}

unfoldable pub checked : ℤ → Option ℤ
checked n = if leb_ℤ int_min n && leb_ℤ n int_max then some n else none

unfoldable pub refill_int : Bucket → Option Bucket
refill_int b = elim (checked (b.token +ℤ b.cps)) [
  | none ↦ none
  | some t ↦ some (if ltb_ℤ b.burst t then record b { token = b.burst } else record b { token = t })
]

unfoldable pub take_int : ℤ → Bucket → Option (ℤ × Bucket)
take_int size b =
    let n = min_int b.token size in
    elim (checked (b.token -ℤ n)) [ none ↦ none | some t ↦ some (n, record b { token = t }) ]

unfoldable pub give_int : ℤ → Bucket → Option Bucket
give_int size b = elim (checked (b.token +ℤ size)) [
  | none ↦ none
  | some t ↦ some (if ltb_ℤ b.burst t then record b { token = b.burst } else record b { token = t })
]

checked-FitsInt : (n : ℤ) → FitsInt n → checked n ≡ some n
unfolding checked
checked-FitsInt n (low, high) = ground arith

refill_int_lem : (b : Bucket) → FitsInt (b.token +ℤ b.cps) → refill_int b ≡ some (refill b)
unfolding refill_int refill
refill_int_lem b fits = rw (checked-FitsInt (b.token +ℤ b.cps) fits, refill_int) (ground arith)

give_int_lem :
    (size : ℤ) (b : Bucket)
    → FitsInt (b.token +ℤ size)
    → give_int size b ≡ some (give_tokens size b)
unfolding give_int give_tokens
give_int_lem size b fits = rw (checked-FitsInt (b.token +ℤ size) fits, give_int) (ground arith)

take_int_lem :
    (size : ℤ) (b : Bucket)
    → FitsInt (b.token -ℤ min_int b.token size)
    → take_int size b ≡ some (take_tokens size b)
unfolding take_int take_tokens
take_int_lem size b fits =
    rw (checked-FitsInt (b.token -ℤ min_int b.token size) fits, take_int) refl

sum-FitsInt : (a b c : ℤ) → pos 0 ≤ℤ a → a ≤ℤ c → pos 0 ≤ℤ b → c +ℤ b ≤ℤ int_max → FitsInt (a +ℤ b)
sum-FitsInt a b c low below positive small = omega (
  arith,
  +ℤ_parts a b,
  +ℤ_parts c b,
  one_part a,
  one_part b,
  one_part (a +ℤ b),
  one_part (c +ℤ b),
)

-- Whatever ticks, fetches and returns a bucket with `cps >= 0` and 0 <= token <= burst has seen, in C's
-- `int` the next tick, the next fetch and the next return of `size` tokens, `size > 0`, compute what they do
-- on unbounded integers, none of their additions and subtractions overflowing, if burst + cps and
-- burst + size fit an `int`.
pub no_overflow :
    (es : List Event) (b : Bucket) (size : ℤ)
    → IsValid b
    → pos 0 <ℤ size
    → b.burst +ℤ b.cps ≤ℤ int_max
    → b.burst +ℤ size ≤ℤ int_max
    → let c = (run es (start b)).bucket in
      (refill_int c ≡ some (refill c))
      × (take_int size c ≡ some (take_tokens size c))
      × (give_int size c ≡ some (give_tokens size c))
unfolding take_tokens
no_overflow es b size v positive tick_small give_small =
    let c = (run es (start b)).bucket in
    let (valid, same_cps, same_burst, _, _) = rate_limit es b v in
    let tick_fits : c.burst +ℤ c.cps ≤ℤ int_max =
      subst (λ x. x +ℤ c.cps ≤ℤ int_max) (sym same_burst)
        (subst (λ x. b.burst +ℤ x ≤ℤ int_max) (sym same_cps) tick_small) in
    let give_fits : c.burst +ℤ size ≤ℤ int_max =
      subst (λ x. x +ℤ size ≤ℤ int_max) (sym same_burst) give_small in
    let sum_fits =
      sum-FitsInt c.token size c.burst valid.token_nonneg valid.token_in (omega arith) give_fits in
    let n = min_int c.token size in
    let fetch = take_tokens_lem size valid positive in
    let left_fits : FitsInt (c.token -ℤ n) = omega (
      arith,
      -ℤ_parts c.token n,
      +ℤ_parts c.token size,
      one_part c.token,
      one_part (c.token +ℤ size),
      one_part n,
      one_part (c.token -ℤ n),
      fetch.1,
      fetch.2,
      sum_fits,
    ) in
    (
      refill_int_lem c (
          sum-FitsInt c.token c.cps c.burst valid.token_nonneg valid.token_in valid.cps_nonneg
            tick_fits),
      take_int_lem size c left_fits,
      give_int_lem size c sum_fits,
    )
