-- ===== src/Counters/Tests.antt =====
-- Runs of pc.c, parking.c and sem_prod_cons.c.
use linux_coding.Common.{ℕ, ◌+◌, ◌≤◌, ◌≡◌, ◌⊎◌, refl, [], ◌∷◌}
use linux_coding.Counters.{prod, cons, queue_max_size, enter_car, exit_car, sem_wait_empty, produce}
use linux_coding.Counters.Rounds.{sum, Spend, System, Step, Runs}
use linux_coding.Counters.Producers.{start, prod-cons_always}
use linux_coding.Counters.Parking.{opening}
use linux_coding.Counters.Semaphores.{State, Reach, produce-consume_bounds}
use linux_coding.Counters.Semaphores

-- One producer has been through a round.
abbrev one_item : System
one_item = record { level = 1; raisers = 9 ∷ 10 ∷ []; lowerers = 10 ∷ 10 ∷ [] }

one_round : Runs prod cons start 1 one_item
unfolding prod
one_round = Runs.more Runs.here (Step.up refl Spend.first refl)

prod-cons_always_example :
    (1 ≤ queue_max_size)
    × (1 + sum (9 ∷ 10 ∷ []) ≡ sum (10 ∷ 10 ∷ []))
    × (1 ≤ 40)
    × ((◌≡◌ {A = ℕ} 1 40) ⊎ ((t : System) × Step prod cons one_item t))
    × (◌≡◌ {A = ℕ} 1 40 → (◌≡◌ {A = ℕ} 1 0) × (sum (9 ∷ 10 ∷ []) ≡ 0) × (sum (10 ∷ 10 ∷ []) ≡ 0))
prod-cons_always_example = prod-cons_always one_round

-- One car has come in.
abbrev one_car : System
one_car = record { level = 9; raisers = 10 ∷ 10 ∷ []; lowerers = 9 ∷ 10 ∷ [] }

one_entry : Runs exit_car enter_car opening 1 one_car
unfolding enter_car
one_entry = Runs.more Runs.here (Step.down refl Spend.first refl)

-- One producer has made an item and not yet posted it.
abbrev half_way : State
half_way = record {
  shared = record { sem_empty = 1; sem_full = 0; produced_count = 1; consumed_count = 0 };
  entering = 0;
  made = 1;
  taking = 0;
  took = 0;
}

abbrev entered : State
entered = record {
  shared = record { sem_empty = 1; sem_full = 0; produced_count = 0; consumed_count = 0 };
  entering = 1;
  made = 0;
  taking = 0;
  took = 0;
}

reached : Reach half_way
unfolding sem_wait_empty produce
reached =
    Reach.more {s = entered}
      (Reach.more Reach.here (Semaphores.Step.wait_empty refl (refl, refl, refl, refl)))
      (Semaphores.Step.produced refl (refl, refl, refl, refl))
