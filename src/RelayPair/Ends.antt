-- ===== src/RelayPair/Ends.antt =====
-- proIO/non-blocked/relay_file.c: `relay` ends, and what it leaves.
use linux_coding.Common.{
  ℕ, ◌≡◌, ◌≢◌, ◌⊎◌, refl, sym, subst, true, ◌&&◌, some, List, [], ◌∷◌, ◌++◌, arith, All, inl, inr,
  Bool-cases,
}
use linux_coding.Common.Int.{pos, pos_part, ◌≤ℤ◌, -ℤ_parts, one_part}
use linux_coding.Relay.{
  Fsm, State, r, w, ex, t, ReadResult, got, read_again, read_failed, WriteResult, wrote,
  write_again, write_failed, drive_read, drive_write, drive_at, fsm_driver,
}
use linux_coding.Relay.Flight.{ReadFits, WriteFits}
use linux_coding.RelayJobs.{Answer, drive, is_t, set_flags}
use linux_coding.RelayPair.{relay_loop, relay}

-- System calls that keep their promises, whatever they come to.
abbrev pub Honest : Answer → Type 0
Honest a = (m : Fsm) → ReadFits (a m).0 × WriteFits (a m).1 m.len

-- A source at its end, and a target that takes all bytes.
abbrev pub finish : Answer
finish m = (got [], wrote (pos_part m.len))

-- A machine that writes has a count of bytes to write.
abbrev Sound : Fsm → Type 0
Sound m = m.state ≡ w → pos 0 ≤ℤ m.len

drive_at-Sound :
    (st : State) (i : ReadResult) (o : WriteResult) (m : Fsm)
    → m.state ≡ st
    → ReadFits i
    → WriteFits o m.len
    → Sound m
    → Sound (drive_at st i o m).0
unfolding drive_at drive_read drive_write
drive_at-Sound r (got []) o m st fi fo s = λ h. absurd (ground arith)
drive_at-Sound r (got (x ∷ xs)) o m st fi fo s = λ h. omega arith
drive_at-Sound r read_again o m st fi fo s = λ h. absurd (ground arith)
drive_at-Sound r read_failed o m st fi fo s = λ h. absurd (ground arith)
drive_at-Sound w i (wrote n) m st fi fo s =
    λ h. omega (arith, -ℤ_parts m.len (pos n), one_part m.len)
drive_at-Sound w i write_again m st fi fo s = λ h. s st
drive_at-Sound w i write_failed m st fi fo s = λ h. absurd (ground arith)
drive_at-Sound ex i o m st fi fo s = λ h. absurd (ground arith)
drive_at-Sound t i o m st fi fo s = s

drive-Sound : (a : Answer) (m : Fsm) → Honest a → Sound m → Sound (drive a m).0
unfolding drive fsm_driver
drive-Sound a m h s = drive_at-Sound m.state (a m).0 (a m).1 m refl (h m).0 (h m).1 s

-- Under `finish` a machine that waits to read or that failed is at its end after one step, and one
-- that writes is then ready to read.
finish_step :
    (st : State) (m : Fsm)
    → m.state ≡ st
    → Sound m
    → ((drive_at st (got []) (wrote (pos_part m.len)) m).0.state ≡ t)
      ⊎ ((drive_at st (got []) (wrote (pos_part m.len)) m).0.state ≡ r)
unfolding drive_at drive_read drive_write
finish_step r m st s = inl refl
finish_step w m st s =
    let nonneg = s st in
    ground (arith, nonneg, -ℤ_parts m.len (pos (pos_part m.len)), one_part m.len)
finish_step ex m st s = inl refl
finish_step t m st s = inl st

two_steps :
    (st : State) (m : Fsm) → m.state ≡ st → (st ≡ t) ⊎ (st ≡ r) → (drive finish m).0.state ≡ t
unfolding drive fsm_driver drive_at drive_read
two_steps r m e h =
    subst (λ x. (drive_at x (got []) (wrote (pos_part m.len)) m).0.state ≡ t) (sym e) refl
two_steps w m e h = absurd (ground arith)
two_steps ex m e h = absurd (ground arith)
two_steps t m e h =
    subst (λ x. (drive_at x (got []) (wrote (pos_part m.len)) m).0.state ≡ t) (sym e) e

finish_two : (m : Fsm) → Sound m → (drive finish (drive finish m).0).0.state ≡ t
finish_two m s =
    let m' = (drive finish m).0 in
    two_steps m'.state m' refl (unfold drive fsm_driver in finish_step m.state m refl s)

-- Both machines are at their end where the loop leaves off.
relay_loop-end :
    (answers : List (Answer × Answer)) (m12 m21 : Fsm) {o12 o21 : Fsm}
    → relay_loop answers m12 m21 ≡ some (o12, o21)
    → (o12.state ≡ t) × (o21.state ≡ t)
unfolding relay_loop
relay_loop-end [] m12 m21 h = ground arith
relay_loop-end ((a12, a21) ∷ rest) m12 m21 h =
    elim (Bool-cases (is_t m12.state && is_t m21.state)) [
      | inl e ↦ let same = rw (e, relay_loop) at h in ground arith
      | inr e ↦ relay_loop-end rest (drive a12 m12).0 (drive a21 m21).0 (rw (e, relay_loop) at h)
    ]

both_t : (m12 m21 : Fsm) → m12.state ≡ t → m21.state ≡ t → (is_t m12.state && is_t m21.state) ≡ true
both_t m12 m21 h k = rw (h, k) refl

abbrev Ended : List (Answer × Answer) → Fsm → Fsm → Type 0
Ended answers m12 m21 = (o12 o21 : Fsm) × (relay_loop answers m12 m21 ≡ some (o12, o21))

stop_now :
    (answers : List (Answer × Answer)) (m12 m21 : Fsm)
    → (is_t m12.state && is_t m21.state) ≡ true
    → Ended answers m12 m21
unfolding relay_loop
stop_now [] m12 m21 e = (m12, m21, rw (e, relay_loop) refl)
stop_now ((a12, a21) ∷ rest) m12 m21 e = (m12, m21, rw (e, relay_loop) refl)

one_round :
    (a12 a21 : Answer) (rest : List (Answer × Answer)) (m12 m21 : Fsm)
    → Ended rest (drive a12 m12).0 (drive a21 m21).0
    → Ended ((a12, a21) ∷ rest) m12 m21
unfolding relay_loop
one_round a12 a21 rest m12 m21 (o12, o21, h) =
    elim (Bool-cases (is_t m12.state && is_t m21.state)) [
      | inl e ↦ (m12, m21, rw (e, relay_loop) refl)
      | inr e ↦ (o12, o21, rw (e, relay_loop) h)
    ]

ends_lem :
    (pre : List (Answer × Answer)) (m12 m21 : Fsm)
    → All (λ p. Honest p.0 × Honest p.1) pre
    → Sound m12
    → Sound m21
    → Ended (pre ++ ((finish, finish) ∷ (finish, finish) ∷ [])) m12 m21
ends_lem [] m12 m21 ok s12 s21 = one_round finish finish ((finish, finish) ∷ []) m12 m21 (
    one_round finish finish [] (drive finish m12).0 (drive finish m21).0 (
      stop_now [] (drive finish (drive finish m12).0).0 (drive finish (drive finish m21).0).0 (
        both_t (drive finish (drive finish m12).0).0 (drive finish (drive finish m21).0).0
          (finish_two m12 s12) (finish_two m21 s21))))
ends_lem ((a12, a21) ∷ pre) m12 m21 ok s12 s21 =
    one_round a12 a21 (pre ++ ((finish, finish) ∷ (finish, finish) ∷ [])) m12 m21 (
      ends_lem pre (drive a12 m12).0 (drive a21 m21).0 ok.1 (drive-Sound a12 m12 ok.0.0 s12)
        (drive-Sound a21 m21 ok.0.1 s21))

relay-eq :
    (nonblock : ℕ → ℕ) (answers : List (Answer × Answer)) (fd1 fd2 : ℕ) (j12 j21 : Fsm) (fl : ℕ → ℕ)
    {o12 o21 : Fsm}
    → relay_loop answers
        (record j12 { state = r; sfd = fd1; dfd = fd2 })
        (record j21 { state = r; sfd = fd2; dfd = fd1 })
      ≡ some (o12, o21)
    → fd1 ≢ fd2
    → (fl' : ℕ → ℕ) × (relay nonblock answers fd1 fd2 j12 j21 fl ≡ some (fl', o12, o21))
      × ((fd : ℕ) → fl' fd ≡ fl fd)
unfolding relay
relay-eq nonblock answers fd1 fd2 j12 j21 fl {o12} {o21} h ne = (
  set_flags fd2 (set_flags fd1 (nonblock (fl fd1)) fl fd2) (
      set_flags fd1 (fl fd1) (
        set_flags fd2 (nonblock (set_flags fd1 (nonblock (fl fd1)) fl fd2))
          (set_flags fd1 (nonblock (fl fd1)) fl))),
  rw (h, relay) refl,
  λ fd. ground arith,
)

-- `relay` of relay_file.c ends: whatever the system calls came to before (short counts, EAGAIN and
-- errors included), two rounds in which both sources are at their end and both targets take all
-- bytes are enough. Both machines are then in STATE_T, and two different descriptors have the flags
-- they had at the start.
pub relay_ends :
    (nonblock : ℕ → ℕ) (pre : List (Answer × Answer)) (fd1 fd2 : ℕ) (j12 j21 : Fsm) (fl : ℕ → ℕ)
    → All (λ p. Honest p.0 × Honest p.1) pre
    → fd1 ≢ fd2
    → (fl' : ℕ → ℕ) × (o12 o21 : Fsm) × (relay nonblock
          (pre ++ ((finish, finish) ∷ (finish, finish) ∷ []))
          fd1
          fd2
          j12
          j21
          fl
        ≡ some (fl', o12, o21))
      × (o12.state ≡ t)
      × (o21.state ≡ t)
      × ((fd : ℕ) → fl' fd ≡ fl fd)
relay_ends nonblock pre fd1 fd2 j12 j21 fl ok ne =
    let answers = pre ++ ((finish, finish) ∷ (finish, finish) ∷ []) in
    let m12 : Fsm = record j12 { state = r; sfd = fd1; dfd = fd2 } in
    let m21 : Fsm = record j21 { state = r; sfd = fd2; dfd = fd1 } in
    let (o12, o21, h) =
      ends_lem pre m12 m21 ok (λ k. absurd (ground arith)) (λ k. absurd (ground arith)) in
    let (fl', e, same) = relay-eq nonblock answers fd1 fd2 j12 j21 fl h ne in
    let (t12, t21) = relay_loop-end answers m12 m21 h in (fl', o12, o21, e, t12, t21, same)
