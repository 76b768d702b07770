-- ===== src/TbfSa/Tests.antt =====
-- A run of mytbf_sa/mytbf.c.
use linux_coding.Common.{ℕ, ◌≡◌, Bool, true, none, some, List, [], ◌∷◌}
use linux_coding.Common.Int.{ℤ, pos}
use linux_coding.Tbf
use linux_coding.Tbf.{Tbf, alrm_handler}
use linux_coding.TbfSa.{mytbf_init, mytbf_return_token, mytbf_destroy}
use linux_coding.TbfSa.Signals.{signalled, ticked, kernel_signals, operations_eq}

-- One bucket that is empty.
abbrev table : Tbf
table = record {
  job = some (record { cps = pos 10; burst = pos 100; token = pos 0; slot = 0 }) ∷ none ∷ [];
  inited = true;
}

operations_eq_example :
    ((signals : List Bool) → signalled signals table ≡ ticked (kernel_signals signals) table)
    × ((memory : Bool) (cps burst : ℤ)
        → mytbf_init memory cps burst table ≡ Tbf.mytbf_init memory cps burst table)
    × ((p : ℕ) (size : ℤ) → mytbf_return_token p size table ≡ Tbf.mytbf_return_token p size table)
    × ((p : ℕ) → mytbf_destroy p table ≡ Tbf.mytbf_destroy p table)
operations_eq_example = operations_eq table
