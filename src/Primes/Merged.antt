-- ===== src/Primes/Merged.antt =====
-- The files of numbers: a thread of primer_by_four.c writes what the pool of primer_pool_busy.c prints
-- for its range, and ranges one after the other write what one search over both writes.
use linux_coding.Common.{
  ℕ, zero, suc, ◌+◌, ◌-◌, ◌%◌, ◌≤◌, ◌<◌, ◌≡◌, ◌≢◌, ◌↔◌, inl, inr, refl, sym, ap, ◌∙◌, arith, Bool,
  true, false, ◌&&◌, some, List, [], ◌∷◌, ◌++◌, ◌==◌, ==_iff, leb, Bool-cases, if◌then◌else◌,
}
use linux_coding.Primes.{
  half_loop, half_mark, root_mark, odd_mark, odd_numbers, primer, primer_upto, pool_numbers,
}
use linux_coding.Primes.Tested.{half_mark-NoDivisor, root_mark-NoDivisor}
use linux_coding.Primes.Odd.{odd_mark-NoDivisor}

same_answer : (a b : Bool) {A : Type 0} → ((a ≡ true) ↔ A) → ((b ≡ true) ↔ A) → a ≡ b
same_answer true true ha hb = refl
same_answer true false ha hb = sym (hb.1 (ha.0 refl))
same_answer false true ha hb = ha.1 (hb.0 refl)
same_answer false false ha hb = refl

root_mark-half_mark : (n : ℕ) → root_mark n ≡ some (half_mark n)
root_mark-half_mark n =
    let root = root_mark-NoDivisor n in
    root.1 ∙ ap some (same_answer root.0 (half_mark n) root.2 (half_mark-NoDivisor n))

-- At an odd number the three tests agree: that of second.c and that of primer_by_four.c return, with the
-- answer of primer_pool_busy.c.
pub marks_agree :
    (n : ℕ) → n % 2 ≡ 1 → (root_mark n ≡ some (half_mark n)) × (odd_mark n ≡ some (half_mark n))
marks_agree n odd =
    let mark = odd_mark-NoDivisor n odd in
    (
      root_mark-half_mark n,
      mark.1 ∙ ap some (same_answer mark.0 (half_mark n) mark.2 (half_mark-NoDivisor n)),
    )

half_mark-even : (n : ℕ) → n % 2 ≡ 0 → 2 < n → half_mark n ≡ false
half_mark-even n even large = elim (Bool-cases (half_mark n)) [
  | inl marked ↦ elim ((half_mark-NoDivisor n).0 marked 2 (omega arith) large even) [ ]
  | inr unmarked ↦ unmarked
]

-- An odd number and the even one after it.
pool_numbers-pair :
    (c j : ℕ)
    → j % 2 ≡ 1
    → 2 ≤ j
    → pool_numbers (suc (suc c)) j
      ≡ (if half_mark j then j ∷ pool_numbers c (j + 2) else pool_numbers c (j + 2))
unfolding pool_numbers
pool_numbers-pair c j odd low =
    let even : half_mark (j + 1) ≡ false = half_mark-even (j + 1) (omega arith) (omega arith) in
    let same : pool_numbers c (j + 1 + 1) ≡ pool_numbers c (j + 2) =
      ap (pool_numbers c) (omega arith) in
    ground (arith, even, same)

-- With enough fuel the loop over the odd numbers prints what the pool prints for all numbers.
odd_numbers-pool_numbers :
    (fuel j right : ℕ)
    → j % 2 ≡ 1
    → 2 ≤ j
    → 1 ≤ fuel
    → right + 2 ≤ j + fuel
    → odd_numbers fuel j right ≡ some (pool_numbers (right + 1 - j) j)
unfolding odd_numbers pool_numbers
odd_numbers-pool_numbers zero j right odd low hf enough = ground arith
odd_numbers-pool_numbers (suc fuel) j right odd low hf enough = elim (Bool-cases (leb j right)) [
  | inr past ↦
      (let none_left : right + 1 - j ≡ 0 = (let over : right < j = ground arith in omega arith) in
        ground (arith, none_left))
  | inl inside ↦
      let mark : odd_mark j ≡ some (half_mark j) = (marks_agree j odd).1 in
      let rest =
        odd_numbers-pool_numbers fuel (j + 2) right (omega arith) (omega arith) (ground arith)
          (omega arith) in
      elim (Bool-cases (j == right)) [
        | inl last ↦
            (let one : right + 1 - j ≡ 1 = (let same = (==_iff j right).0 last in omega arith) in
              let none_left : right + 1 - (j + 2) ≡ 0 =
                (let same = (==_iff j right).0 last in omega arith) in
              rw (mark, rest, inside, one, none_left) refl)
        | inr not_last ↦
            let two : right + 1 - j ≡ suc (suc (right + 1 - (j + 2))) =
              (let below : j ≤ right = ground arith in
                let apart : j ≢ right = ground arith in omega arith) in
            rw (mark, rest, inside, two, pool_numbers-pair (right + 1 - (j + 2)) j odd low) refl
      ]
]

if-append :
    (b : Bool) (x : ℕ) (xs ys : List ℕ)
    → (if b then x ∷ (xs ++ ys) else xs ++ ys) ≡ (if b then x ∷ xs else xs) ++ ys
if-append true x xs ys = refl
if-append false x xs ys = refl

-- Ranges one after the other.
pub pool_numbers-append :
    (c d i : ℕ) → pool_numbers (c + d) i ≡ pool_numbers c i ++ pool_numbers d (i + c)
unfolding pool_numbers
pool_numbers-append zero d i =
    let count : 0 + d ≡ d = omega arith in
    let start : i + 0 ≡ i = omega arith in rw (count, start) refl
pool_numbers-append (suc c) d i =
    let rest = pool_numbers-append c d (i + 1) in
    let count : suc c + d ≡ suc (c + d) = omega arith in
    let start : i + 1 + c ≡ i + suc c = omega arith in
    rw (count, rest, start)
      (if-append (half_mark i) i (pool_numbers c (i + 1)) (pool_numbers d (i + suc c)))

half_mark-two : half_mark 2 ≡ true
unfolding half_mark half_loop
half_mark-two = refl

-- At an even left end: the 2 is printed first, and another even number is passed over.
even_left :
    (left right : ℕ)
    → left % 2 ≡ 0
    → 2 ≤ left
    → (if leb left 2 && leb 2 right
        then 2 ∷ pool_numbers (right + 1 - (left + 1)) (left + 1)
        else pool_numbers (right + 1 - (left + 1)) (left + 1))
      ≡ pool_numbers (right + 1 - left) left
unfolding pool_numbers
even_left left right even low = elim (Bool-cases (leb left right)) [
  | inr past ↦
      let over : right < left = ground arith in
      let none_left : right + 1 - left ≡ 0 = omega arith in
      let none_after : right + 1 - (left + 1) ≡ 0 = omega arith in
      rw (none_left, none_after) (ground arith)
  | inl inside ↦
      let below : left ≤ right = ground arith in
      let one_more : right + 1 - left ≡ suc (right + 1 - (left + 1)) = omega arith in
      elim (Bool-cases (left == 2)) [
        | inl two ↦
            rw (one_more, (==_iff left 2).0 two)
              (let inside_two : 2 ≤ right = (let same = (==_iff left 2).0 two in omega arith) in
                rw half_mark-two (ground arith))
        | inr larger ↦
            let apart : left ≢ 2 = ground arith in
            rw (one_more, half_mark-even left even (omega arith)) (ground arith)
      ]
]

-- What a thread of primer_by_four.c writes into its file, for a range from 2 on, is what the pool of
-- primer_pool_busy.c prints for it: each prime of the range once, in order.
pub primer-pool_numbers :
    (left right : ℕ) → 2 ≤ left → primer left right ≡ some (pool_numbers (right + 1 - left) left)
unfolding primer
primer-pool_numbers left right low = elim (Bool-cases (left % 2 == 0)) [
  | inr odd ↦
      let odd_left : left % 2 ≡ 1 = (let not_even : left % 2 ≢ 0 = ground arith in omega arith) in
      let numbers =
        odd_numbers-pool_numbers (right + 1) left right odd_left low (omega arith) (omega arith) in
      let above : leb left 2 ≡ false = (let apart : left ≢ 2 = grind arith in ground arith) in
      rw (odd, numbers, above, primer) refl
  | inl even ↦
      let even_mod : left % 2 ≡ 0 = ground arith in
      let numbers =
        odd_numbers-pool_numbers (right + 1) (left + 1) right (omega arith) (omega arith)
          (omega arith) (omega arith) in
      rw (even, numbers, primer) (ap some (even_left left right even_mod low))
]

-- `primer` of primer_by_one.c writes what the pool prints for the numbers from 2 on.
pub primer_upto-pool_numbers : (n2 : ℕ) → primer_upto n2 ≡ some (pool_numbers (n2 + 1 - 2) 2)
unfolding primer_upto
primer_upto-pool_numbers n2 =
    let numbers =
      odd_numbers-pool_numbers (n2 + 1) 3 n2 refl (omega arith) (omega arith) (omega arith) in
    rw (numbers, primer_upto) (ap some (even_left 2 n2 refl (omega arith)))

pub pool_numbers-zero : (i : ℕ) → pool_numbers 0 i ≡ []
unfolding pool_numbers
pool_numbers-zero i = refl
