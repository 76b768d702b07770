-- ===== src/PrimePool/Joined.antt =====
-- The pool ends: some critical section is always free to run until all threads have left, and no run
-- goes on for ever.
use linux_coding.Common.{
  ℕ, zero, suc, ◌+◌, ◌-◌, ◌*◌, ◌≤◌, ◌<◌, ◌≡◌, inl, inr, refl, sym, ap, ◌∙◌, subst, arith, false,
  List, [], ◌∷◌, ◌++◌, append-nil, map, leb, ltb, Bool-cases,
}
use linux_coding.Common.Int.{ℤ, pos, negsuc}
use linux_coding.Primes.{pool_numbers}
use linux_coding.Primes.Searched.{ArePrimes, pool_numbers-ArePrimes}
use linux_coding.PrimePool.{
  PrimePool, start, is_empty, is_ended, hand_out, hand_end, take_num, leave, PoolStep, by_hand_out,
  by_hand_end, by_take, by_leave, PoolSteps, at_once, and_then, printed,
}
use linux_coding.PrimePool.Handed.{
  Handed, EndsLast, offered, numbers, hand_out-inv, hand_end-inv, take_num-inv, leave-inv,
  PoolStep-Handed, printed-numbers, PoolSteps-Handed, start-Handed,
}

-- 2 for a number that is offered, 1 for none, 0 for the end.
abbrev pub slot_left : ℤ → ℕ
slot_left (pos zero) = 1
slot_left (pos (suc n)) = 2
slot_left (negsuc n) = 0

-- A bound on the steps that are left.
abbrev pub steps_left : ℕ → ℕ → PrimePool → ℕ
steps_left right threads s = 3 * (right + 1 - s.i) + slot_left s.num + (threads - s.gone)

slot_left-le : (z : ℤ) → slot_left z ≤ 2
slot_left-le (pos zero) = omega arith
slot_left-le (pos (suc n)) = omega arith
slot_left-le (negsuc n) = omega arith

taken_left :
    (right : ℕ) (z : ℤ) (i gone : ℕ)
    → is_empty z ≡ false
    → is_ended z ≡ false
    → EndsLast right z i gone
    → slot_left z ≡ 2
unfolding is_empty is_ended
taken_left right (pos zero) i gone e f ends = ground arith
taken_left right (pos (suc n)) i gone e f ends = refl
taken_left right (negsuc zero) i gone e f ends = ground arith
taken_left right (negsuc (suc n)) i gone e f ends = ground arith

-- Each step uses up the bound.
pub steps_left-lt :
    (left right threads : ℕ) (s t : PrimePool)
    → Handed left right threads s
    → PoolStep right threads s t
    → steps_left right threads t < steps_left right threads s
steps_left-lt left right threads s t h (by_hand_out e) =
    let inv = hand_out-inv right s t e in
    let was : slot_left s.num ≡ 1 = ap slot_left inv.1 in
    let is = slot_left-le (pos s.i) in
    subst (λ u. steps_left right threads u < steps_left right threads s) inv.2
      (omega (arith, inv.0))
steps_left-lt left right threads s t h (by_hand_end e) =
    let inv = hand_end-inv right s t e in
    let was : slot_left s.num ≡ 1 = ap slot_left inv.1 in
    subst (λ u. steps_left right threads u < steps_left right threads s) inv.2
      (omega (arith, inv.0))
steps_left-lt left right threads s t h (by_take e) =
    let inv = take_num-inv threads s t e in
    let was : slot_left s.num ≡ 2 = taken_left right s.num s.i s.gone inv.1 inv.2 h.3 in
    subst (λ u. steps_left right threads u < steps_left right threads s) inv.3
      (omega (arith, inv.0))
steps_left-lt left right threads s t h (by_leave e) =
    let inv = leave-inv threads s t e in
    subst (λ u. steps_left right threads u < steps_left right threads s) inv.2
      (omega (arith, inv.0))

-- Until all threads have left, some step can be taken.
progress :
    (right threads : ℕ) (s : PrimePool)
    → s.gone < threads
    → (t : PrimePool) × PoolStep right threads s t
unfolding hand_out hand_end leave take_num
progress right threads s h = elim (Bool-cases (is_empty s.num)) [
  | inl free ↦ elim (Bool-cases (leb s.i right)) [
    | inl more ↦ (
      record { num = pos s.i; i = s.i + 1; taken = s.taken; gone = s.gone },
      by_hand_out (ground arith),
    )
    | inr over ↦ (
      record { num = negsuc 0; i = s.i; taken = s.taken; gone = s.gone },
      by_hand_end (ground arith),
    )
  ]
  | inr full ↦ elim (Bool-cases (is_ended s.num)) [
    | inl ended ↦ (
      record { num = s.num; i = s.i; taken = s.taken; gone = s.gone + 1 },
      by_leave (ground arith),
    )
    | inr going ↦ (
      record { num = pos 0; i = s.i; taken = s.taken ++ (s.num ∷ []); gone = s.gone },
      by_take (ground arith),
    )
  ]
]

ended_num :
    (right : ℕ) (z : ℤ) (i gone : ℕ)
    → EndsLast right z i gone
    → 0 < gone
    → (right < i) × (offered z ≡ [])
ended_num right (pos n) i gone ends h = ground arith
ended_num right (negsuc zero) i gone ends h = (ends, refl)
ended_num right (negsuc (suc n)) i gone ends h = ground arith

-- Once a thread has left, all numbers were taken.
gone_all :
    (left right threads : ℕ) (s : PrimePool)
    → Handed left right threads s
    → 0 < s.gone
    → s.taken ≡ numbers (right + 1 - left) left
gone_all left right threads s (low, high, all, ends, _) h =
    let last = ended_num right s.num s.i s.gone ends h in
    let same : s.i - left ≡ right + 1 - left = omega (arith, last.0) in
    sym (append-nil s.taken)
    ∙ ap (λ xs. s.taken ++ xs) (sym last.1)
    ∙ all
    ∙ ap (λ c. numbers c left) same

step_first :
    {right threads : ℕ} {s t u : PrimePool}
    → PoolStep right threads s t
    → PoolSteps right threads t u
    → PoolSteps right threads s u
step_first step at_once = and_then at_once step
step_first step (and_then before last) = and_then (step_first step before) last

joined_from :
    (fuel left right threads : ℕ) (s : PrimePool)
    → 1 ≤ left
    → Handed left right threads s
    → steps_left right threads s < fuel
    → (t : PrimePool) × PoolSteps right threads s t × (t.gone ≡ threads)
joined_from zero left right threads s low h enough = (s, at_once, omega arith)
joined_from (suc fuel) left right threads s low h enough = elim (Bool-cases (ltb s.gone threads)) [
  | inr no_more ↦ let over : threads ≤ s.gone = ground arith in (s, at_once, omega (arith, h.4))
  | inl more ↦
      let next = progress right threads s (ground arith) in
      let less = steps_left-lt left right threads s next.0 h next.1 in
      let after = PoolStep-Handed left right threads s next.0 low h next.1 in
      let rest = joined_from fuel left right threads next.0 low after (omega arith) in
      (rest.0, step_first next.1 rest.1, rest.2)
]

-- Whatever critical sections have run since the start, for a range from 2 on, main and the threads can
-- still all come to their end, at which each number of the range was taken by exactly one thread, in
-- order, and what the threads printed of them, in that order, are exactly the primes of the range, each
-- once.
pub pool_joined :
    (left right threads : ℕ) (s : PrimePool)
    → 2 ≤ left
    → left ≤ right + 1
    → 1 ≤ threads
    → PoolSteps right threads (start left) s
    → (t : PrimePool) × (primes : List ℕ) × PoolSteps right threads s t
      × (t.gone ≡ threads)
      × (t.taken ≡ numbers (right + 1 - left) left)
      × (printed t.taken ≡ map pos primes)
      × ArePrimes left right primes
pool_joined left right threads s low range some_thread steps =
    let positive : 1 ≤ left = omega arith in
    let h =
      PoolSteps-Handed left right threads positive (start-Handed left right threads range) steps in
    let (t, more, all_gone) =
      joined_from (suc (steps_left right threads s)) left right threads s positive h
        (omega arith) in
    let after = PoolSteps-Handed left right threads positive h more in
    let all = gone_all left right threads t after (omega arith) in
    (
      t,
      pool_numbers (right + 1 - left) left,
      more,
      all_gone,
      all,
      ap printed all ∙ printed-numbers (right + 1 - left) left,
      pool_numbers-ArePrimes left right low range,
    )

-- In any run, each step uses up a number that starts at 3 for each number of the range, one for each
-- thread, and one: no run goes on for ever. And the numbers that are taken or offered are those from
-- `left` up to main's `i`, each once and in order.
pub PoolStep-steps_left :
    (left right threads : ℕ) (s t : PrimePool)
    → 1 ≤ left
    → left ≤ right + 1
    → PoolSteps right threads (start left) s
    → PoolStep right threads s t
    → (steps_left right threads t < steps_left right threads s)
      × (t.taken ++ offered t.num ≡ numbers (t.i - left) left)
PoolStep-steps_left left right threads s t low range steps step =
    let h = PoolSteps-Handed left right threads low (start-Handed left right threads range) steps in
    let after = PoolStep-Handed left right threads s t low h step in
    (steps_left-lt left right threads s t h step, after.2)
