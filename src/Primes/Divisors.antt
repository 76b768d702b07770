-- ===== src/Primes/Divisors.antt =====
-- What the searches for primes rest on: divisors come in pairs, and one of a pair is small.
use native.Mathlib.Nat.{
  div-add-mod, mul_assoc, lt_of_mul-lt-mul_left, mul-le-mul_left, mul-le-mul_right, mul-mod_left,
}
use linux_coding.Common.{
  ℕ, ◌*◌, ◌/◌, ◌%◌, ◌≤◌, ◌<◌, ◌≡◌, ◌≢◌, inl, inr, sym, ap, ◌∙◌, ◌==◌, ==_iff, arith, leb,
  Bool-cases,
}

-- `n` is 0, 1 or a prime.
abbrev pub NoDivisor : ℕ → Type 0
NoDivisor n = (d : ℕ) → 2 ≤ d → d < n → n % d ≢ 0

-- The other divisor.
pub codivisor :
    (n d : ℕ) → 2 ≤ d → d < n → n % d ≡ 0 → (e : ℕ) × (2 ≤ e) × (e < n) × (n ≡ d * e) × (n % e ≡ 0)
codivisor n d h lt e =
    let q = n / d in
    let eq : n ≡ d * q = sym (omega (arith, div-add-mod n d)) in
    (q, grind arith, grind arith, eq, ap (λ x. x % q) eq ∙ mul-mod_left d q)

-- The divisors up to the root are enough.
pub NoDivisor-of_small : (n : ℕ) → ((d : ℕ) → 2 ≤ d → d * d ≤ n → n % d ≢ 0) → NoDivisor n
NoDivisor-of_small n small d low high h =
    let other = codivisor n d low high h in
    elim (Bool-cases (leb (d * d) n)) [
      | inl below ↦ small d low (ground arith) h
      | inr above ↦
          let past : d * other.0 < d * d = ground (arith, other.3) in
          let less : other.0 < d = lt_of_mul-lt-mul_left d past in
          let below : other.0 * other.0 ≤ d * other.0 = mul-le-mul_right other.0 (omega arith) in
          small other.0 other.1 (omega (arith, other.3)) other.4
    ]

-- A divisor of an odd number is odd.
pub divisor_odd : (n d : ℕ) → n % 2 ≡ 1 → n % d ≡ 0 → d % 2 ≡ 1
divisor_odd n d odd divides = elim (Bool-cases (d % 2 == 1)) [
  | inl is_one ↦ (==_iff (d % 2) 1).0 is_one
  | inr not_one ↦
      let half = d / 2 in
      let even : d ≡ 2 * half = (let not_odd : d % 2 ≢ 1 = ground arith in omega arith) in
      let eq : n ≡ 2 * (half * (n / d)) =
        (let parts : n ≡ d * (n / d) = omega (arith, div-add-mod n d) in
          parts ∙ ap (λ x. x * (n / d)) even ∙ mul_assoc 2 half (n / d)) in
      omega arith
]

pub square_lt : (d n : ℕ) → 2 ≤ d → d * d ≤ n → d < n
square_lt d n low small = let twice : d * 2 ≤ d * d = mul-le-mul_left d low in omega arith
