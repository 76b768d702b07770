-- ===== src/Counters/Parking.antt =====
-- homework/parking.c: all interleavings of its gates.
use linux_coding.Common.{ℕ, ◌+◌, ◌≤◌, ◌≡◌, ◌⊎◌, refl, [], ◌∷◌, arith}
use linux_coding.Counters.{enter_car, exit_car, max_capicity}
use linux_coding.Counters.Rounds.{sum, System, Step, Runs, Balanced, Runs-Balanced, Balanced-Step}

-- `main`: two exits and two entrances of ten cars each, and an empty car park.
abbrev pub opening : System
opening = record { level = 10; raisers = 10 ∷ 10 ∷ []; lowerers = 10 ∷ 10 ∷ [] }

balanced :
    {n : ℕ} {s : System}
    → Runs exit_car enter_car opening n s
    → Balanced exit_car enter_car max_capicity 10 40 n s
unfolding exit_car enter_car
balanced =
    Runs-Balanced exit_car enter_car max_capicity (λ n. refl) (λ n. refl)
      (record { bound = omega arith; balance = refl; spent = refl })

-- In every interleaving of two entrances and two exits of ten cars each, at most MAX_CAPICITY
-- places are free, and as many are free as at the start, less the cars that entered, plus those
-- that left; no interleaving gets stuck before all 40 cars have passed, none is longer, and then
-- the park is empty.
pub enter_car-exit_car_always :
    {n : ℕ} {s : System}
    → Runs exit_car enter_car opening n s
    → (s.level ≤ max_capicity)
      × (s.level + sum s.raisers ≡ sum s.lowerers + max_capicity)
      × (n ≤ 40)
      × ((n ≡ 40) ⊎ ((t : System) × Step exit_car enter_car s t))
      × (n ≡ 40 → s.level ≡ max_capicity)
unfolding exit_car enter_car
enter_car-exit_car_always {n} {s} r =
    let b = balanced r in
    let hb = b.bound in
    let hl = b.balance in
    let hs = b.spent in
    (
      hb,
      hl,
      omega arith,
      Balanced-Step exit_car enter_car max_capicity (λ n. refl) (λ n. refl) (omega arith)
          (omega arith) b,
      λ e. omega arith,
    )
