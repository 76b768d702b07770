-- ===== src/ServerPool/Scan.antt =====
-- IPC/socket/stream/pool_dynamic/server.c: the loop of scan_pool, in which the
-- children write their states.
use linux_coding.Common.{
  ℕ, zero, suc, ◌+◌, ◌≡◌, ◌⊎◌, inl, inr, refl, Bool, none, some, List, [], ◌∷◌, ◌==◌, arith, length,
  All, Bool-cases, Option-cases, true, false, get_elem?, ap, ◌∙◌, subst, ◌≢◌,
}
use linux_coding.ServerPool.Slots.{one_if, IsKnown, occupied, known_one}
use linux_coding.ServerPool.{
  Server, Written, no_write, idle_written, busy_written, written_state, scan_slot, scan_slots,
  state_idle, state_busy,
}

-- The child, which exists, is busy at the first read of its state and writes STATE_IDLE before the
-- second.
abbrev pub Raced : (ℕ → Bool) → Written → Written → Server → Type 0
Raced exists early late s =
    (p : ℕ) × (s.pid ≡ some p)
    × (exists p ≡ true)
    × (written_state early s.state ≡ state_busy)
    × (late ≡ idle_written)

-- What `scan_slots` gives for known slots.
pub record Scanned (ss : List Server) (out : List Server × ℕ × ℕ) : Type 0 where
  pub same_length : length out.0 ≡ length ss
  pub still_known : All IsKnown out.0
  pub counts : out.1 + out.2 ≡ occupied out.0

written_known :
    (w : Written) (st : ℕ)
    → (st ≡ state_idle) ⊎ (st ≡ state_busy)
    → (written_state w st ≡ state_idle) ⊎ (written_state w st ≡ state_busy)
unfolding written_state
written_known no_write st k = k
written_known idle_written st k = inl refl
written_known busy_written st k = inr refl

-- A busy state that is not written over with STATE_IDLE is busy at the second read.
late_cases : (late : Written) → (late ≡ idle_written) ⊎ (written_state late state_busy ≡ state_busy)
unfolding written_state
late_cases no_write = inr refl
late_cases idle_written = inl refl
late_cases busy_written = inr refl

taken_known :
    (s : Server) (p : ℕ)
    → IsKnown s
    → s.pid ≡ some p
    → (s.state ≡ state_idle) ⊎ (s.state ≡ state_busy)
taken_known s p k e = ground arith

scan_slot_lem :
    (exists : ℕ → Bool) (early late : Written) (s : Server)
    → IsKnown s
    → Raced exists early late s
      ⊎ ((s' : Server) × (n : ℕ) × (m : ℕ) × (scan_slot exists early late s ≡ some (s', n, m))
          × IsKnown s'
          × (n + m ≡ one_if state_idle s' + one_if state_busy s'))
unfolding scan_slot
scan_slot_lem exists early late s k =
    let first = written_state early s.state in
    let second = written_state late first in
    elim (Option-cases s.pid) [
      | inl e ↦
          let s' : Server = record { pid = s.pid; state = second } in
          inr (s', 0, 0, rw e refl, inl e, rw e refl)
      | inr (pid, e) ↦
          let s' : Server = record { pid = s.pid; state = second } in
          let read = written_known early s.state (taken_known s pid k e) in
          let is_state = written_known late first read in
          let one = known_one s' pid (inr is_state) e in
          elim (Bool-cases (exists pid)) [
            | inr f ↦
                inr (record { pid = none; state = second }, 0, 0, rw (e, f) refl, inl refl, refl)
            | inl f ↦ elim read [
              | inl idle ↦
                  let t : (first == state_idle) ≡ true = ground arith in
                  inr (s', 1, 0, rw (e, f, t) refl, inr is_state, omega (arith, one))
              | inr busy ↦ elim (late_cases late) [
                | inl l ↦ inl (pid, e, f, busy, l)
                | inr l ↦
                    let t : (first == state_idle) ≡ false = ground arith in
                    let u : (second == state_busy) ≡ true =
                      ap (λ x. written_state late x == state_busy) busy
                      ∙ ap (λ x. x == state_busy) l in
                    inr (s', 0, 1, rw (e, f, t, u) refl, inr is_state, omega (arith, one))
              ]
            ]
          ]
    ]

-- A scan of known slots meets such a child, or it ends.
pub scan_slots_cases :
    (exists : ℕ → Bool) (early late : ℕ → Written) (i : ℕ) (ss : List Server)
    → All IsKnown ss
    → ((k : ℕ) × (s : Server) × (get_elem? ss k ≡ some s)
        × Raced exists (early (i + k)) (late (i + k)) s)
      ⊎ ((out : List Server × ℕ × ℕ) × (scan_slots exists early late i ss ≡ some out)
          × Scanned ss out)
unfolding scan_slots
scan_slots_cases exists early late i [] k =
    inr (([], 0, 0), refl, record { same_length = refl; still_known = tt; counts = refl })
scan_slots_cases exists early late i (s ∷ ss) (k, ks) =
    elim (scan_slots_cases exists early late (i + 1) ss ks) [
      | inl (n, r, at_n, raced) ↦
          let next : i + 1 + n ≡ i + suc n = omega arith in
          inl (suc n, r, at_n, subst (λ x. Raced exists (early x) (late x) r) next raced)
      | inr (out, e, h) ↦ elim (scan_slot_lem exists (early i) (late i) s k) [
        | inl raced ↦
            let here : i ≡ i + 0 = omega arith in
            inl (0, s, refl, subst (λ x. Raced exists (early x) (late x) s) here raced)
        | inr (s', n, m, f, known, one) ↦ inr (
          (s' ∷ out.0, n + out.1, m + out.2),
          rw (e, f) refl,
          record {
            same_length = ap suc h.same_length;
            still_known = (known, h.still_known);
            counts = omega (arith, one, h.counts);
          },
        )
      ]
    ]

scan_slot-Raced :
    (exists : ℕ → Bool) (early late : Written) (s : Server)
    → Raced exists early late s
    → scan_slot exists early late s ≡ none
unfolding scan_slot written_state
scan_slot-Raced exists early late s (p, e, f, busy, l) =
    let t : (written_state early s.state == state_idle) ≡ false = ground arith in
    rw (e, f, t, l) refl

-- Where a scan meets such a child, it aborts.
pub scan_slots-Raced :
    (exists : ℕ → Bool) (early late : ℕ → Written) (i k : ℕ) (ss : List Server) (s : Server)
    → get_elem? ss k ≡ some s
    → Raced exists (early (i + k)) (late (i + k)) s
    → scan_slots exists early late i ss ≡ none
unfolding scan_slots
scan_slots-Raced exists early late i k [] s at_k raced =
    absurd (let no : none ≢ some s = λ e. cc in no at_k)
scan_slots-Raced exists early late i zero (r ∷ ss) s at_k raced =
    let same : s ≡ r = cc in
    let here : i + 0 ≡ i = omega arith in
    let raced_here =
      subst (λ x. Raced exists (early x) (late x) r) here
        (subst (Raced exists (early (i + 0)) (late (i + 0))) same raced) in
    let aborts = scan_slot-Raced exists (early i) (late i) r raced_here in
    elim (Option-cases (scan_slots exists early late (i + 1) ss)) [
      | inl e ↦ rw e refl
      | inr (out, e) ↦ rw (e, aborts) refl
    ]
scan_slots-Raced exists early late i (suc k) (r ∷ ss) s at_k raced =
    let next : i + suc k ≡ i + 1 + k = omega arith in
    let later =
      scan_slots-Raced exists early late (i + 1) k ss s at_k
        (subst (λ x. Raced exists (early x) (late x) s) next raced) in
    rw later refl
