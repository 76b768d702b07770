-- ===== src/Tbf/Rate.antt =====
-- mytbf/mytbf.c: what a bucket lets through, over any sequence of ticks, fetches and returns.
use linux_coding.Common.{ℕ, ◌+◌, ◌*◌, ◌≤◌, ◌≡◌, refl, ap, ◌∙◌, List, [], ◌∷◌, arith, if◌then◌else◌}
use linux_coding.Common.Int.{ℤ, pos, pos_part, ◌≤ℤ◌, ◌<ℤ◌, leb_ℤ, +ℤ_parts, -ℤ_parts, one_part}
use linux_coding.Tbf.{Bucket, refill, take_tokens, give_tokens, min_int}

-- A bucket that was made with `cps >= 0` and `burst >= 0`.
pub record IsValid (b : Bucket) : Type 0 where
  pub cps_nonneg : pos 0 ≤ℤ b.cps
  pub token_nonneg : pos 0 ≤ℤ b.token
  pub token_in : b.token ≤ℤ b.burst

pub refill-IsValid : {b : Bucket} → IsValid b → IsValid (refill b)
unfolding refill
refill-IsValid {b} v = ground (arith, +ℤ_parts b.token b.cps)

pub take_tokens_lem :
    {b : Bucket} (size : ℤ)
    → IsValid b
    → pos 0 <ℤ size
    → IsValid (take_tokens size b).1
      × (pos 0 ≤ℤ (take_tokens size b).0)
      × (pos_part (take_tokens size b).1.token + pos_part (take_tokens size b).0 ≡ pos_part b.token)
      × (pos 0 <ℤ b.token → pos 0 <ℤ (take_tokens size b).0)
      × ((take_tokens size b).0 ≤ℤ size)
unfolding take_tokens min_int
take_tokens_lem {b} size v h = ground (arith, -ℤ_parts b.token size, -ℤ_parts b.token b.token)

pub give_tokens_lem :
    {b : Bucket} (size : ℤ)
    → IsValid b
    → pos 0 <ℤ size
    → IsValid (give_tokens size b)
      × (pos_part (give_tokens size b).token ≤ pos_part b.token + pos_part size)
unfolding give_tokens
give_tokens_lem {b} size v h = ground (arith, +ℤ_parts b.token size)

pub refill_lem :
    {b : Bucket}
    → IsValid b
    → IsValid (refill b)
      × (pos_part (refill b).token ≤ pos_part b.token + pos_part b.cps)
      × ((refill b).cps ≡ b.cps)
      × ((refill b).burst ≡ b.burst)
unfolding refill
refill_lem {b} v = ground (arith, +ℤ_parts b.token b.cps)

-- What can happen to a bucket: a clock tick, `mytbf_fetch_token(size)`, `mytbf_return_token(size)`.
pub data Event : Type 0 where
  tick : Event
  fetch : ℤ → Event
  give : ℤ → Event

-- A bucket with what it has let through, what was returned to it, and the ticks it saw.
pub record Meter : Type 0 where
  pub bucket : Bucket
  pub fetched : ℕ
  pub given : ℕ
  pub ticks : ℕ

-- A fetch with no token leaves the bucket alone: its caller waits. A size that is not positive is
-- refused.
unfoldable pub step : Event → Meter → Meter
step tick m = record m { bucket = refill m.bucket; ticks = m.ticks + 1 }
step (fetch size) m =
    let (n, b) = take_tokens size m.bucket in
    if leb_ℤ size (pos 0)
    then m
    else if leb_ℤ m.bucket.token (pos 0)
    then m
    else record m { bucket = b; fetched = m.fetched + pos_part n }
step (give size) m =
    if leb_ℤ size (pos 0)
    then m
    else record m { bucket = give_tokens size m.bucket; given = m.given + pos_part size }

unfoldable pub run : List Event → Meter → Meter
run [] m = m
run (e ∷ es) m = run es (step e m)

abbrev pub start : Bucket → Meter
start b = record { bucket = b; fetched = 0; given = 0; ticks = 0 }

-- What was let through and what is left is at most what there was, came in and was returned.
record Within (b : Bucket) (m : Meter) : Type 0 where
  valid : IsValid m.bucket
  same_cps : m.bucket.cps ≡ b.cps
  same_burst : m.bucket.burst ≡ b.burst
  bound :
      m.fetched + pos_part m.bucket.token ≤ pos_part b.token + m.ticks * pos_part b.cps + m.given

keeps_rates :
    (size : ℤ) (b : Bucket)
    → ((take_tokens size b).1.cps ≡ b.cps)
      × ((take_tokens size b).1.burst ≡ b.burst)
      × ((give_tokens size b).cps ≡ b.cps)
      × ((give_tokens size b).burst ≡ b.burst)
unfolding take_tokens give_tokens
keeps_rates size b = ground arith

step-Within : (e : Event) {b : Bucket} (m : Meter) → Within b m → Within b (step e m)
unfolding step
step-Within tick {b} m w =
    let r = refill_lem w.valid in
    record {
      valid = r.0;
      same_cps = r.2 ∙ w.same_cps;
      same_burst = r.3 ∙ w.same_burst;
      bound =
          let c : pos_part m.bucket.cps ≡ pos_part b.cps = ap pos_part w.same_cps in
          omega (arith, r.1, w.bound);
    }
step-Within (fetch size) {b} m w =
    ground (arith, take_tokens_lem size w.valid, keeps_rates size m.bucket)
step-Within (give size) {b} m w =
    ground (arith, give_tokens_lem size w.valid, keeps_rates size m.bucket)

run-Within : (es : List Event) {b : Bucket} (m : Meter) → Within b m → Within b (run es m)
unfolding run
run-Within [] m w = w
run-Within (e ∷ es) m w = run-Within es (step e m) (step-Within e m w)

-- The rate limit. On a bucket with `cps >= 0` and 0 <= token <= burst, over any sequence of ticks,
-- fetches and returns: 0 <= token <= burst still holds, `cps` and `burst` are as they were, and the
-- tokens fetched together with those left are at most the tokens at the start, `cps` for each tick,
-- and the tokens returned; so those fetched are at most burst + cps * ticks + returned.
pub rate_limit :
    (es : List Event) (b : Bucket)
    → IsValid b
    → let m = run es (start b) in
      IsValid m.bucket
      × (m.bucket.cps ≡ b.cps)
      × (m.bucket.burst ≡ b.burst)
      × (m.fetched + pos_part m.bucket.token
          ≤ pos_part b.token + m.ticks * pos_part b.cps + m.given)
      × (m.fetched ≤ pos_part b.burst + m.ticks * pos_part b.cps + m.given)
rate_limit es b v =
    let w =
      run-Within es {b = b} (start b)
        (record { valid = v; same_cps = refl; same_burst = refl; bound = omega arith }) in
    (
      w.valid,
      w.same_cps,
      w.same_burst,
      w.bound,
      omega (arith, w.bound, v.token_in, one_part b.token, one_part b.burst),
    )
