-- ===== src/TbfMt/Tests.antt =====
-- Runs of thread/posix/mytbf_multithread/mytbf.c.
use linux_coding.Common.{ℕ, zero, suc, ◌≡◌, ◌≢◌, Bool, true, none, some, [], ◌∷◌, replicate}
use linux_coding.Common.Int.{ℤ, pos}
use linux_coding.Tbf
use linux_coding.Tbf.{Bucket, Tbf, alrm_handler, mytbf_max}
use linux_coding.TbfMt.{
  thr_alarm, mytbf_init, mytbf_fetch_token, mytbf_return_token, mytbf_destroy, pointee,
}
use linux_coding.TbfMt.Same.{operations_same}
use linux_coding.TbfMt.Unload.{IsPlaced}

abbrev bucket : Bucket
bucket = record { cps = pos 10; burst = pos 100; token = pos 5; slot = 0 }

abbrev table : Tbf
table = record { job = some bucket ∷ none ∷ []; inited = true }

operations_same_example :
    (thr_alarm table ≡ alrm_handler table)
    × ((memory : Bool) (cps burst : ℤ)
        → mytbf_init memory cps burst table ≡ Tbf.mytbf_init memory cps burst table)
    × ((p : ℕ) (size : ℤ) (n : ℕ)
        → mytbf_fetch_token p size (replicate n thr_alarm) table
          ≡ Tbf.mytbf_fetch_token p size n table)
    × ((p : ℕ) (size : ℤ) → mytbf_return_token p size table ≡ Tbf.mytbf_return_token p size table)
    × ((p : ℕ) → mytbf_destroy p table ≡ Tbf.mytbf_destroy p table)
operations_same_example = operations_same table

no_bucket : (b : Bucket) → none ≢ some b
no_bucket b e = cc

table-IsPlaced : IsPlaced table
unfolding pointee
table-IsPlaced zero b h = let e : bucket ≡ b = cc in cc
table-IsPlaced (suc zero) b h = absurd (no_bucket b h)
table-IsPlaced (suc (suc i)) b h = absurd (no_bucket b h)
