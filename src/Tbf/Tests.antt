-- ===== src/Tbf/Tests.antt =====
-- Runs of mytbf/mytbf.c at concrete tables.
use linux_coding.Common.{◌+◌, ◌*◌, ◌≤◌, ◌≡◌, inl, refl, true, none, some, List, [], ◌∷◌, arith}
use linux_coding.Common.Int.{pos, pos_part, ◌+ℤ◌, ◌-ℤ◌}
use linux_coding.Tbf.{
  Bucket, Tbf, Reply, mytbf_fetch_token, bucket_at, take_tokens, give_tokens, refill, min_int,
}
use linux_coding.Tbf.Rate.{IsValid, Event, tick, fetch, give, start, step, run, rate_limit}
use linux_coding.Tbf.Overflow.{refill_int, take_int, give_int, no_overflow}
use linux_coding.Tbf.Fetch.{Served, mytbf_fetch_token-Served}
use linux_coding.Tbf.Table.{new_bucket}

abbrev bucket : Bucket
bucket = record { cps = pos 10; burst = pos 25; token = pos 4; slot = 0 }

abbrev holding : Bucket → Tbf
holding b = record { job = some b ∷ none ∷ []; inited = true }

bucket-IsValid : IsValid bucket
bucket-IsValid = omega arith

abbrev events : List Event
events = tick ∷ tick ∷ tick ∷ fetch (pos 20) ∷ give (pos 3) ∷ fetch (pos 20) ∷ []

metered :
    run events (start bucket)
    ≡ record { bucket = record bucket { token = pos 0 }; fetched = 28; given = 3; ticks = 3 }
unfolding run step refill take_tokens give_tokens min_int ◌+ℤ◌ ◌-ℤ◌
metered = refl

rate_limit_example :
    let m = run events (start bucket) in
    IsValid m.bucket
    × (m.bucket.cps ≡ bucket.cps)
    × (m.bucket.burst ≡ bucket.burst)
    × (m.fetched + pos_part m.bucket.token ≤ 4 + m.ticks * 10 + m.given)
    × (m.fetched ≤ 25 + m.ticks * 10 + m.given)
rate_limit_example = rate_limit events bucket bucket-IsValid

no_overflow_example :
    let c = (run events (start bucket)).bucket in
    (refill_int c ≡ some (refill c))
    × (take_int (pos 7) c ≡ some (take_tokens (pos 7) c))
    × (give_int (pos 7) c ≡ some (give_tokens (pos 7) c))
unfolding ◌+ℤ◌
no_overflow_example =
    no_overflow events bucket (pos 7) bucket-IsValid (omega arith) (omega arith) (omega arith)

abbrev empty : Bucket
empty = record bucket { token = pos 0 }

mytbf_fetch_token-Served_example :
    (r : Reply) × (t' : Tbf) × (mytbf_fetch_token 0 (pos 6) 1 (holding empty) ≡ some (some (r, t')))
    × Served 0 (pos 6) empty (holding empty) r t'
unfolding bucket_at
mytbf_fetch_token-Served_example =
    mytbf_fetch_token-Served (holding empty) 0 (pos 6) 1 empty refl (omega arith) (omega arith)
      (omega arith) (omega arith) (inl (omega arith))

abbrev sealed : Bucket
sealed = record { cps = pos 10; burst = pos 0; token = pos 0; slot = 0 }

abbrev second : Tbf
second = record { job = some bucket ∷ some (new_bucket (pos 1) (pos 9) 1) ∷ []; inited = true }
