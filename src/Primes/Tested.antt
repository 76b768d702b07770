-- ===== src/Primes/Tested.antt =====
-- What the two tests that try every divisor answer: primer_pool_busy.c up to `i / 2`, second.c up to
-- the root.
use native.Mathlib.Nat.{mul-le-mul}
use linux_coding.Common.{
  ℕ, zero, suc, ◌+◌, ◌-◌, ◌*◌, ◌/◌, ◌%◌, ◌≤◌, ◌<◌, ◌≡◌, ◌≢◌, ◌↔◌, inl, inr, refl, subst, arith,
  Bool, true, false, some, ◌==◌, ==_iff, leb, Bool-cases,
}
use linux_coding.Primes.{half_loop, half_mark, root_loop, root_mark}
use linux_coding.Primes.Divisors.{NoDivisor, codivisor, NoDivisor-of_small, square_lt}

-- The loop answers true exactly when none of its divisors divides.
half_loop-of_free :
    (rounds j i : ℕ) → ((d : ℕ) → j ≤ d → d < j + rounds → i % d ≢ 0) → half_loop rounds j i ≡ true
unfolding half_loop
half_loop-of_free zero j i free = refl
half_loop-of_free (suc rounds) j i free =
    let here : i % j ≢ 0 = free j (omega arith) (omega arith) in
    let rest : half_loop rounds (j + 1) i ≡ true =
      half_loop-of_free rounds (j + 1) i (λ d low high. free d (omega arith) (omega arith)) in
    ground arith

half_loop-free :
    (rounds j i : ℕ) → half_loop rounds j i ≡ true → (d : ℕ) → j ≤ d → d < j + rounds → i % d ≢ 0
unfolding half_loop
half_loop-free zero j i e d low high = omega arith
half_loop-free (suc rounds) j i e d low high =
    let stays : (i % j ≢ 0) × (half_loop rounds (j + 1) i ≡ true) = ground arith in
    let again = half_loop-free rounds (j + 1) i stays.1 d in
    elim (Bool-cases (j == d)) [
      | inl same ↦ subst (λ x. i % x ≢ 0) ((==_iff j d).0 same) stays.0
      | inr other ↦ let apart : j ≢ d = ground arith in again (omega arith) (omega arith)
    ]

-- The mark of primer_pool_busy.c stays exactly at the numbers that no number between 1 and itself
-- divides.
pub half_mark-NoDivisor : (i : ℕ) → (half_mark i ≡ true) ↔ NoDivisor i
unfolding half_mark
half_mark-NoDivisor i = (
  λ e d low high h.
      let half : d ≤ i / 2 =
        (let other = codivisor i d low high h in
          let twice : d * 2 ≤ d * other.0 = grind arith in omega arith) in
      half_loop-free (i / 2 - 1) 2 i e d low (omega arith) h,
  λ free. half_loop-of_free (i / 2 - 1) 2 i (λ d low high. free d low (omega arith)),
)

-- What holds at `i` and at every step from the next value on holds at every step.
steps_from :
    (P : ℕ → Type 0) (step i : ℕ)
    → P i
    → ((k : ℕ) → P (i + step + k * step))
    → (k : ℕ) → P (i + k * step)
steps_from P step i here later zero = subst P (omega arith) here
steps_from P step i here later (suc k) = subst P (grind arith) (later k)

-- The loop up to the root ends, and answers whether one of its divisors divides.
pub root_loop-ends :
    (fuel step i n : ℕ)
    → 1 ≤ step
    → 1 ≤ i
    → 1 ≤ fuel
    → n + 2 ≤ i + fuel
    → (b : Bool) × (root_loop fuel step i n ≡ some b)
      × ((b ≡ true) ↔ ((k : ℕ) → (i + k * step) * (i + k * step) ≤ n → n % (i + k * step) ≢ 0))
unfolding root_loop
root_loop-ends zero step i n hs hi hf h = (true, ground arith, (λ e k le. omega arith, λ _. refl))
root_loop-ends (suc fuel) step i n hs hi hf h = elim (Bool-cases (leb (i * i) n)) [
  | inr over ↦ (
    true,
    ground arith,
    (
      λ _ k le.
          (let large : i * i ≤ (i + k * step) * (i + k * step) =
              mul-le-mul (omega arith) (omega arith) in
            let past : n < i * i = ground arith in omega arith),
      λ _. refl,
    ),
  )
  | inl under ↦ elim (Bool-cases (n % i == 0)) [
    | inl divides ↦ (
      false,
      ground arith,
      (λ e. ground arith, λ free. let no = free 0 (ground arith) (ground arith) in ground arith),
    )
    | inr not_divides ↦
        let small : i ≤ n = grind arith in
        let rest =
          root_loop-ends fuel step (i + step) n hs (omega arith) (omega arith) (omega arith) in
        (
          rest.0,
          ground (arith, rest.1),
          (
            λ e. steps_from (λ j. j * j ≤ n → n % j ≢ 0) step i (λ _. ground arith) (rest.2.0 e),
            λ free. rest.2.1 (λ k. subst (λ j. j * j ≤ n → n % j ≢ 0) (grind arith) (free (suc k))),
          ),
        )
  ]
]

-- `is_primer` of second.c returns, and says true exactly at the numbers that no number between 1 and
-- itself divides.
pub root_mark-NoDivisor : (n : ℕ) → (b : Bool) × (root_mark n ≡ some b) × ((b ≡ true) ↔ NoDivisor n)
unfolding root_mark
root_mark-NoDivisor n =
    let ends =
      root_loop-ends (n + 1) 1 2 n (omega arith) (omega arith) (omega arith) (omega arith) in
    (
      ends.0,
      ends.1,
      (
        λ e. NoDivisor-of_small n (λ d low small.
            subst (λ j. j * j ≤ n → n % j ≢ 0) (omega arith) (ends.2.0 e (d - 2)) small),
        λ free. ends.2.1 (λ k small.
            free (2 + k * 1) (omega arith) (square_lt (2 + k * 1) n (omega arith) small)),
      ),
    )
