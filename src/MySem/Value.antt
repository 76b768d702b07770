-- ===== src/MySem/Value.antt =====
-- thread/posix/mysemphon/mysem.c: the value over any interleaving of calls.
use mathlib.Core.Option
use linux_coding.Common.{
  ◌≡◌, refl, ap, ◌∙◌, true, false, Option, none, some, List, [], ◌∷◌, arith, wait_while-nil,
  wait_while-of_true, wait_while-of_false,
}
use linux_coding.Common.Int.{ℤ, pos, ◌+ℤ◌, ◌-ℤ◌, ◌≤ℤ◌, ◌<ℤ◌, ltb_ℤ}
use linux_coding.MySem.{MySem, mysem_add, must_wait_value, subtract_value, mysem_sub}

-- The states that calls lead to, with the sums of what was added and of what was subtracted; `n` is any
-- int.
pub data Runs (start : MySem) : ℤ → ℤ → MySem → Type 0 where
  here : Runs start (pos 0) (pos 0) start
  added :
      {a b : ℤ} {s t : MySem}
      → Runs start a b s
      → (n : ℤ) → t ≡ (mysem_add n s).1
      → Runs start (a +ℤ n) b t
  subtracted :
      {a b : ℤ} {s t : MySem}
      → Runs start a b s
      → (n : ℤ) → mysem_sub [] n s ≡ some (n, t)
      → Runs start a (b +ℤ n) t

-- No call of `mysem_add` has a negative argument.
abbrev pub AddsNonneg : {start : MySem} {a b : ℤ} {s : MySem} → Runs start a b s → Type 0
AddsNonneg here = Unit
AddsNonneg (added r n e) = (pos 0 ≤ℤ n) × AddsNonneg r
AddsNonneg (subtracted r n e) = AddsNonneg r

-- Where the wait is over at once.
sub_ready :
    (wakes : List (MySem → MySem)) (n : ℤ) (s : MySem)
    → ltb_ℤ s.value n ≡ false
    → mysem_sub wakes n s ≡ some (n, record s { value = s.value -ℤ n })
unfolding mysem_sub subtract_value
sub_ready wakes n s h = rw (wait_while-of_false (must_wait_value n) wakes s h) refl

-- `mysem_sub(n)` comes back without a wait, and with the value less `n`, exactly if the value is at
-- least `n`. Otherwise it waits; and where the next wake is a `mysem_add(k)` that makes the value
-- reach `n`, it comes back then, and the value is the old one with `k` less `n`.
pub mysem_sub_lem :
    (wakes : List (MySem → MySem)) (n k : ℤ) (s : MySem)
    → (n ≤ℤ s.value → mysem_sub wakes n s ≡ some (n, record { value = s.value -ℤ n }))
      × (s.value <ℤ n → mysem_sub [] n s ≡ none)
      × (s.value <ℤ n
          → n ≤ℤ s.value +ℤ k
          → mysem_sub ((λ u. (mysem_add k u).1) ∷ wakes) n s
            ≡ some (n, record { value = s.value +ℤ k -ℤ n }))
unfolding mysem_sub mysem_add
mysem_sub_lem wakes n k s = (
  λ h. sub_ready wakes n s (ground arith),
  λ h.
      let e : ltb_ℤ s.value n ≡ true = ground arith in
      rw (wait_while-nil (must_wait_value n) s e) refl,
  λ h g.
      let e : ltb_ℤ s.value n ≡ true = ground arith in
      let w : MySem → MySem = λ u. record u { value = u.value +ℤ k } in
      let f : ltb_ℤ (s.value +ℤ k) n ≡ false = ground arith in
      ap (Option.map (subtract_value n)) (wait_while-of_true (must_wait_value n) w wakes s e)
      ∙ sub_ready wakes n (record { value = s.value +ℤ k }) f,
)
