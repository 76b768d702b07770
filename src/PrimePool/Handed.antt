-- ===== src/PrimePool/Handed.antt =====
-- Each number of the range is handed to one thread, once and in order.
use linux_coding.Common.{
  ℕ, zero, suc, ◌+◌, ◌-◌, ◌≤◌, ◌<◌, ◌≡◌, inl, inr, refl, sym, ap, ◌∙◌, subst, arith, true, false,
  some, List, [], ◌∷◌, ◌++◌, append-nil, Bool-cases, map,
}
use linux_coding.Common.Int.{ℤ, pos, negsuc}
use linux_coding.Primes.{half_mark, pool_numbers}
use linux_coding.PrimePool.{
  mark, printed, PrimePool, start, is_empty, is_ended, hand_out, hand_end, take_num, leave,
  PoolStep, by_hand_out, by_hand_end, by_take, by_leave, PoolSteps, at_once, and_then,
}

-- `count` numbers from `i` on.
pub numbers : ℕ → ℕ → List ℤ
numbers zero i = []
numbers (suc count) i = pos i ∷ numbers count (i + 1)

pub numbers-snoc : (c i : ℕ) → numbers (suc c) i ≡ numbers c i ++ (pos (i + c) ∷ [])
unfolding numbers
numbers-snoc zero i = ap (λ x. pos x ∷ []) (omega arith)
numbers-snoc (suc c) i =
    let rest = numbers-snoc c (i + 1) in
    let same : i + 1 + c ≡ i + suc c = omega arith in
    ap (λ xs. pos i ∷ xs) (rest ∙ ap (λ x. numbers c (i + 1) ++ (pos x ∷ [])) same)

-- What stands in `num` and no thread has taken.
abbrev pub offered : ℤ → List ℤ
offered (pos zero) = []
offered (pos (suc n)) = pos (suc n) ∷ []
offered (negsuc n) = []

-- -1 stands in `num` only after the last number, and no thread leaves before.
abbrev pub EndsLast : ℕ → ℤ → ℕ → ℕ → Type 0
EndsLast right (pos n) i gone = gone ≡ 0
EndsLast right (negsuc zero) i gone = right < i
EndsLast right (negsuc (suc n)) i gone = right + 1 < right

abbrev pub Handed : (left right threads : ℕ) → PrimePool → Type 0
Handed left right threads s =
    (left ≤ s.i)
    × (s.i ≤ right + 1)
    × (s.taken ++ offered s.num ≡ numbers (s.i - left) left)
    × EndsLast right s.num s.i s.gone
    × (s.gone ≤ threads)

is_empty-zero : (z : ℤ) → is_empty z ≡ true → z ≡ pos 0
unfolding is_empty
is_empty-zero (pos zero) e = refl
is_empty-zero (pos (suc n)) e = ground arith
is_empty-zero (negsuc n) e = ground arith

is_ended-last : (z : ℤ) → is_ended z ≡ true → z ≡ negsuc 0
unfolding is_ended
is_ended-last (pos n) e = ground arith
is_ended-last (negsuc zero) e = refl
is_ended-last (negsuc (suc n)) e = ground arith

-- What a step tells of the state before it, and the state after it.
pub hand_out-inv :
    (right : ℕ) (s t : PrimePool)
    → hand_out right s ≡ some t
    → (s.i ≤ right)
      × (s.num ≡ pos 0)
      × (record { num = pos s.i; i = s.i + 1; taken = s.taken; gone = s.gone } ≡ t)
unfolding hand_out
hand_out-inv right s t e = ground (arith, is_empty-zero s.num)

pub hand_end-inv :
    (right : ℕ) (s t : PrimePool)
    → hand_end right s ≡ some t
    → (right < s.i)
      × (s.num ≡ pos 0)
      × (record { num = negsuc 0; i = s.i; taken = s.taken; gone = s.gone } ≡ t)
unfolding hand_end
hand_end-inv right s t e = ground (arith, is_empty-zero s.num)

pub take_num-inv :
    (threads : ℕ) (s t : PrimePool)
    → take_num threads s ≡ some t
    → (s.gone < threads)
      × (is_empty s.num ≡ false)
      × (is_ended s.num ≡ false)
      × (record { num = pos 0; i = s.i; taken = s.taken ++ (s.num ∷ []); gone = s.gone } ≡ t)
unfolding take_num
take_num-inv threads s t e = ground arith

pub leave-inv :
    (threads : ℕ) (s t : PrimePool)
    → leave threads s ≡ some t
    → (s.gone < threads)
      × (s.num ≡ negsuc 0)
      × (record { num = s.num; i = s.i; taken = s.taken; gone = s.gone + 1 } ≡ t)
unfolding leave
leave-inv threads s t e = ground (arith, is_ended-last s.num)

offered_pos : (n : ℕ) → 1 ≤ n → offered (pos n) ≡ pos n ∷ []
offered_pos zero h = ground arith
offered_pos (suc n) h = refl

-- With `num` free, no thread has left and each number was taken.
free_num :
    (left right threads : ℕ) (s : PrimePool)
    → Handed left right threads s
    → s.num ≡ pos 0
    → (s.gone ≡ 0) × (s.taken ≡ numbers (s.i - left) left)
free_num left right threads s (_, _, all, ends, _) e = (
  subst (λ z. EndsLast right z s.i s.gone) e ends,
  sym (append-nil s.taken) ∙ subst (λ z. s.taken ++ offered z ≡ numbers (s.i - left) left) e all,
)

pub hand_out-Handed :
    (left right threads : ℕ) (s t : PrimePool)
    → 1 ≤ left
    → Handed left right threads s
    → hand_out right s ≡ some t
    → Handed left right threads t
hand_out-Handed left right threads s t low h e =
    let inv = hand_out-inv right s t e in
    let free = free_num left right threads s h inv.1 in
    let more : s.i + 1 - left ≡ suc (s.i - left) = omega (arith, h.0) in
    let last : left + (s.i - left) ≡ s.i = omega (arith, h.0) in
    subst (Handed left right threads) inv.2 (
      omega (arith, h.0),
      omega (arith, inv.0),
      rw (offered_pos s.i (omega (arith, h.0)), more, numbers-snoc (s.i - left) left, last, free.1)
          refl,
      free.0,
      h.4,
    )

pub hand_end-Handed :
    (left right threads : ℕ) (s t : PrimePool)
    → Handed left right threads s
    → hand_end right s ≡ some t
    → Handed left right threads t
hand_end-Handed left right threads s t h e =
    let inv = hand_end-inv right s t e in
    let free = free_num left right threads s h inv.1 in
    subst (Handed left right threads) inv.2 (h.0, h.1, append-nil s.taken ∙ free.1, inv.0, h.4)

-- What a thread takes was offered, and it is no end.
taken_num :
    (right : ℕ) (z : ℤ) (i gone : ℕ)
    → is_empty z ≡ false
    → is_ended z ≡ false
    → EndsLast right z i gone
    → (offered z ≡ z ∷ []) × (gone ≡ 0)
unfolding is_empty is_ended
taken_num right (pos zero) i gone full going ends = ground arith
taken_num right (pos (suc n)) i gone full going ends = (refl, ends)
taken_num right (negsuc zero) i gone full going ends = ground arith
taken_num right (negsuc (suc n)) i gone full going ends = ground arith

pub take_num-Handed :
    (left right threads : ℕ) (s t : PrimePool)
    → Handed left right threads s
    → take_num threads s ≡ some t
    → Handed left right threads t
take_num-Handed left right threads s t h e =
    let inv = take_num-inv threads s t e in
    let was = taken_num right s.num s.i s.gone inv.1 inv.2 h.3 in
    subst (Handed left right threads) inv.3 (
      h.0,
      h.1,
      append-nil (s.taken ++ (s.num ∷ [])) ∙ ap (λ xs. s.taken ++ xs) (sym was.0) ∙ h.2,
      was.1,
      h.4,
    )

pub leave-Handed :
    (left right threads : ℕ) (s t : PrimePool)
    → Handed left right threads s
    → leave threads s ≡ some t
    → Handed left right threads t
leave-Handed left right threads s t h e =
    let inv = leave-inv threads s t e in
    let over : right < s.i = subst (λ z. EndsLast right z s.i s.gone) inv.1 h.3 in
    let still = subst (λ z. EndsLast right z s.i (s.gone + 1)) (sym inv.1) over in
    subst (Handed left right threads) inv.2 (h.0, h.1, h.2, still, omega (arith, inv.0))

pub start-Handed :
    (left right threads : ℕ) → left ≤ right + 1 → Handed left right threads (start left)
unfolding start numbers
start-Handed left right threads h =
    let none_yet : left - left ≡ 0 = omega arith in
    (omega arith, h, rw none_yet refl, refl, omega arith)

pub PoolStep-Handed :
    (left right threads : ℕ) (s t : PrimePool)
    → 1 ≤ left
    → Handed left right threads s
    → PoolStep right threads s t
    → Handed left right threads t
PoolStep-Handed left right threads s t low h (by_hand_out e) =
    hand_out-Handed left right threads s t low h e
PoolStep-Handed left right threads s t low h (by_hand_end e) =
    hand_end-Handed left right threads s t h e
PoolStep-Handed left right threads s t low h (by_take e) =
    take_num-Handed left right threads s t h e
PoolStep-Handed left right threads s t low h (by_leave e) = leave-Handed left right threads s t h e

-- The invariant of all runs.
pub PoolSteps-Handed :
    (left right threads : ℕ) {s t : PrimePool}
    → 1 ≤ left
    → Handed left right threads s
    → PoolSteps right threads s t
    → Handed left right threads t
PoolSteps-Handed left right threads low h at_once = h
PoolSteps-Handed left right threads low h (and_then {t = t} {u = u} before step) =
    let ih = PoolSteps-Handed left right threads low h before in
    PoolStep-Handed left right threads t u low ih step

-- What the threads print when they take all numbers.
pub printed-numbers : (count i : ℕ) → printed (numbers count i) ≡ map pos (pool_numbers count i)
unfolding printed numbers pool_numbers mark
printed-numbers zero i = refl
printed-numbers (suc count) i =
    let rest = printed-numbers count (i + 1) in
    elim (Bool-cases (half_mark i)) [ inl e ↦ rw (e, rest) refl | inr e ↦ rw (e, rest) refl ]
