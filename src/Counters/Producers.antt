-- ===== src/Counters/Producers.antt =====
-- thread/posix/productor_consumer/pc.c: all interleavings of its producers and consumers.
use linux_coding.Common.{ℕ, ◌+◌, ◌≤◌, ◌≡◌, ◌⊎◌, refl, [], ◌∷◌, arith}
use linux_coding.Counters.{prod, cons, queue_max_size}
use linux_coding.Counters.Rounds.{sum, System, Step, Runs, Balanced, Runs-Balanced, Balanced-Step}

-- `main`: two producers and two consumers of ten rounds each, and an empty queue.
abbrev pub start : System
start = record { level = 0; raisers = 10 ∷ 10 ∷ []; lowerers = 10 ∷ 10 ∷ [] }

balanced :
    {n : ℕ} {s : System} → Runs prod cons start n s → Balanced prod cons queue_max_size 0 40 n s
unfolding prod cons
balanced =
    Runs-Balanced prod cons queue_max_size (λ n. refl) (λ n. refl)
      (record { bound = omega arith; balance = refl; spent = refl })

-- In every interleaving of the two producers and the two consumers of ten rounds each, the size
-- stays within QUEUE_MAX_SIZE, and it is what was produced less what was consumed; no interleaving
-- gets stuck, that is, as long as fewer than 40 rounds are done some thread can go on; after 40
-- rounds all threads are through and the queue is empty; and no run is longer.
pub prod-cons_always :
    {n : ℕ} {s : System}
    → Runs prod cons start n s
    → (s.level ≤ queue_max_size)
      × (s.level + sum s.raisers ≡ sum s.lowerers)
      × (n ≤ 40)
      × ((n ≡ 40) ⊎ ((t : System) × Step prod cons s t))
      × (n ≡ 40 → (s.level ≡ 0) × (sum s.raisers ≡ 0) × (sum s.lowerers ≡ 0))
unfolding prod cons
prod-cons_always {n} {s} r =
    let b = balanced r in
    let hb = b.bound in
    let hl = b.balance in
    let hs = b.spent in
    (
      hb,
      omega arith,
      omega arith,
      Balanced-Step prod cons queue_max_size (λ n. refl) (λ n. refl) (omega arith) (omega arith) b,
      λ e. (omega arith, omega arith, omega arith),
    )
