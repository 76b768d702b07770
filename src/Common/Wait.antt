-- ===== src/Common/Wait.antt =====
-- `while (test) pthread_cond_wait(&cond, &mut);`, and `while (test) pause();`. A wait lets the rest
-- of the program run; `wakes` lists what that did to the shared state, one entry for each time that
-- the waiter comes back to the test. Where the list ends the caller is still waiting: `none`.
use mathlib.Core.Path.{◌≡◌, subst}
use mathlib.Core.Logic.{inl, inr}
use mathlib.Core.Bool.{Bool, true, false}
use mathlib.Core.List.{List, [], ◌∷◌}
use mathlib.Core.Option.{Option, none, some}
use linux_coding.Common.Tests.{Bool-cases}
use linux_coding.Common.Lists.{All}

module _ {ℓ} {S : Type ℓ} (test : S → Bool) where
  unfoldable pub wait_while : List (S → S) → S → Option S
  wait_while [] s = elim (test s) [ true ↦ none | false ↦ some s ]
  wait_while (w ∷ ws) s = elim (test s) [ true ↦ wait_while ws (w s) | false ↦ some s ]

  -- No wait where the condition already fails.
  pub wait_while-of_false : (ws : List (S → S)) (s : S) → test s ≡ false → wait_while ws s ≡ some s
  unfolding wait_while
  wait_while-of_false [] s h = rw (h, wait_while)
  wait_while-of_false (w ∷ ws) s h = rw (h, wait_while)

  pub wait_while-nil : (s : S) → test s ≡ true → wait_while [] s ≡ none
  unfolding wait_while
  wait_while-nil s h = rw (h, wait_while)

  pub wait_while-of_true :
      (w : S → S) (ws : List (S → S)) (s : S)
      → test s ≡ true
      → wait_while (w ∷ ws) s ≡ wait_while ws (w s)
  unfolding wait_while
  wait_while-of_true w ws s h = rw (h, wait_while)

  -- A waiter that goes on has seen the condition fail, in a state where what the others keep holds.
  pub wait_while_inv {κ} :
      (P : S → Type κ) (ws : List (S → S)) (s : S) {t : S}
      → All (λ w. (u : S) → P u → P (w u)) ws
      → P s
      → wait_while ws s ≡ some t
      → P t × (test t ≡ false)
  unfolding wait_while
  wait_while_inv P [] s {t} keep p h = elim (Bool-cases (test s)) [
    | inl e ↦ let bad : none ≡ some t = rw (e, wait_while) at h in cc
    | inr e ↦
        let same : some s ≡ some t = rw (e, wait_while) at h in
        subst (λ u. P u × (test u ≡ false)) (let eq : s ≡ t = cc in eq) (p, e)
  ]
  wait_while_inv P (w ∷ ws) s {t} keep p h = elim (Bool-cases (test s)) [
    | inl e ↦ wait_while_inv P ws (w s) keep.1 (keep.0 s p) (rw (e, wait_while) at h)
    | inr e ↦
        let same : some s ≡ some t = rw (e, wait_while) at h in
        subst (λ u. P u × (test u ≡ false)) (let eq : s ≡ t = cc in eq) (p, e)
  ]

  -- Whatever the others did, the condition fails where the wait ends.
  pub wait_while_ends :
      (ws : List (S → S)) (s : S) {t : S} → wait_while ws s ≡ some t → test t ≡ false
  unfolding wait_while
  wait_while_ends [] s {t} h = elim (Bool-cases (test s)) [
    | inl e ↦ let bad : none ≡ some t = rw (e, wait_while) at h in cc
    | inr e ↦
        let same : some s ≡ some t = rw (e, wait_while) at h in
        subst (λ u. test u ≡ false) (let eq : s ≡ t = cc in eq) e
  ]
  wait_while_ends (w ∷ ws) s {t} h = elim (Bool-cases (test s)) [
    | inl e ↦ wait_while_ends ws (w s) (rw (e, wait_while) at h)
    | inr e ↦
        let same : some s ≡ some t = rw (e, wait_while) at h in
        subst (λ u. test u ≡ false) (let eq : s ≡ t = cc in eq) e
  ]
