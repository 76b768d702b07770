-- ===== src/SlowCat/Rate.antt =====
-- The rate: ten bytes for each alarm, and what was written is always the beginning of the file.
use linux_coding.Common.{
  ℕ, ◌+◌, ◌*◌, ◌≤◌, ◌<◌, ◌≡◌, inl, inr, refl, sym, ap, ◌∙◌, subst, arith, Option, Option-cases,
  List, [], ◌∷◌, ◌++◌, append_assoc, length, length-append, length-take, take, drop,
  take-append-drop,
}
use linux_coding.SlowCat.{
  Slow, cps, burst, write_loop, set_loop, reset_loop, add_token, spend_token, goes_on, turn,
  slow_init, Bounded, SlowRun, at_start, by_alarm, by_turn,
}
use linux_coding.SlowCat.Written.{write_loop-whole, write_loop-some}

take_all : (n : ℕ) (xs : List ℕ) → take (length (take n xs)) (take n xs) ≡ take n xs
take_all n xs = whole (take n xs)
  where
    whole : (ys : List ℕ) → take (length ys) ys ≡ ys
    whole [] = refl
    whole (y ∷ ys) = ap (λ l. y ∷ l) (whole ys)

-- What a round that goes on has done.
turn_goes_on :
    (spend : ℕ → ℕ) (rets : List (Option ℕ)) (s t : Slow)
    → Bounded rets (length (take cps s.left))
    → turn spend rets s ≡ goes_on t
    → (0 < s.token)
      × (record { token = spend s.token; left = drop cps s.left; out = s.out ++ take cps s.left }
          ≡ t)
unfolding turn
turn_goes_on spend rets s t bounded e =
    elim (Option-cases (write_loop rets (take cps s.left) 0 (length (take cps s.left)) s.out)) [
      | inl stops ↦ ground (arith, stops)
      | inr (out, w) ↦
          let enough =
            write_loop-some rets (take cps s.left) 0 (length (take cps s.left)) s.out out bounded
              w in
          let whole =
            write_loop-whole rets (take cps s.left) 0 (length (take cps s.left)) s.out enough in
          let same : out ≡ s.out ++ take cps s.left =
            (let inj : s.out ++ take (length (take cps s.left)) (take cps s.left) ≡ out = cc in
              sym inj ∙ ap (λ xs. s.out ++ xs) (take_all cps s.left)) in
          ground (arith, w, same)
    ]

-- What an alarm and a round do to the tokens, with at most `cap` of them.
pub record Tokens (alarm spend : ℕ → ℕ) (cap : ℕ) : Type 0 where
  adds : (t : ℕ) → alarm t ≤ t + 1
  capped : (t : ℕ) → alarm t ≤ cap
  spends : (t : ℕ) → 0 < t → spend t + 1 ≤ t

SlowRun-counted :
    (alarm spend : ℕ → ℕ) (cap : ℕ) (file : List ℕ) {n : ℕ} {s : Slow}
    → Tokens alarm spend cap
    → SlowRun alarm spend file n s
    → (s.out ++ s.left ≡ file) × (length s.out + 10 * s.token ≤ 10 * n) × (s.token ≤ cap)
unfolding slow_init
SlowRun-counted alarm spend cap file laws at_start = (refl, omega arith, omega arith)
SlowRun-counted alarm spend cap file laws (by_alarm {s = s} run) =
    let ih = SlowRun-counted alarm spend cap file laws run in
    (ih.0, omega (arith, ih.1, laws.adds s.token), laws.capped s.token)
SlowRun-counted alarm spend cap file {n = n} laws (by_turn {s = s} {t = t} rets run bounded e) =
    let ih = SlowRun-counted alarm spend cap file laws run in
    let went = turn_goes_on spend rets s t bounded e in
    let spent = laws.spends s.token went.0 in
    let grown = length-append s.out (take cps s.left) in
    let piece = length-take cps s.left in
    subst (λ u. (u.out ++ u.left ≡ file) × (length u.out + 10 * u.token ≤ 10 * n) × (u.token ≤ cap))
      went.1
      (
        append_assoc s.out (take cps s.left) (drop cps s.left)
            ∙ ap (λ xs. s.out ++ xs) (take-append-drop cps s.left)
            ∙ ih.0,
        omega (arith, ih.1, spent, grown, piece),
        omega (arith, ih.2, spent),
      )

loop-Tokens : Tokens set_loop reset_loop 1
unfolding set_loop reset_loop
loop-Tokens = record {
  adds = λ t. omega arith;
  capped = λ t. omega arith;
  spends = λ t h. omega arith;
}

bucket-Tokens : Tokens add_token spend_token burst
unfolding add_token spend_token
bucket-Tokens = record {
  adds = λ t. ground arith;
  capped = λ t. ground arith;
  spends = λ t h. omega arith;
}

-- What holds of a run of one of the programs after `n` alarms.
abbrev pub Slowly : ℕ → List ℕ → ℕ → Slow → Type 0
Slowly cap file n s =
    (s.out ++ s.left ≡ file) × (length s.out + 10 * s.token ≤ 10 * n) × (s.token ≤ cap)

-- In every run of slowcat.c and of slowcat2.c, however write splits its work: what was written is the
-- beginning of the file; and after `n` alarms it is at most 10 * n bytes, 10 less for each alarm that is
-- kept, of which there is at most one in slowcat.c and at most BURST in slowcat2.c.
pub slowcats_rate :
    (file : List ℕ) {n : ℕ} {s t : Slow}
    → SlowRun set_loop reset_loop file n s
    → SlowRun add_token spend_token file n t
    → Slowly 1 file n s × Slowly burst file n t
slowcats_rate file run run2 = (
  SlowRun-counted set_loop reset_loop 1 file loop-Tokens run,
  SlowRun-counted add_token spend_token burst file bucket-Tokens run2,
)
