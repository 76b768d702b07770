-- ===== src/RelaySelect/Stuck.antt =====
-- proIO/select/relay.c: the test at the second machine is `fsm21.state < STATE_AUTO`, where that at
-- the first is `fsm12.state > STATE_AUTO`.
use linux_coding.Common.{
  ℕ, ◌≡◌, ◌≢◌, refl, ap, false, ◌&&◌, ◌||◌, none, List, [], ◌∷◌, arith, Bool-cases, inl, inr,
  Option, Option-cases, some, subst, ◌⊎◌, ◌∙◌,
}
use linux_coding.Relay.{ex, Fsm, drive_read, drive_write, drive_at, fsm_driver}
use linux_coding.RelayJobs.{Answer, drive, is_t}
use linux_coding.RelayPair.{before_auto}
use linux_coding.RelaySelect.{
  FdSet, SelectResult, interrupted, select_failed, selected, exited, running, read_set, write_set,
  drive_ready, select_round, select_loop,
}

-- The machines stand between two different descriptors, and the second has failed.
pub record Failed (fd1 fd2 : ℕ) (m12 m21 : Fsm) : Type 0 where
  pub source : m12.sfd ≡ fd1
  pub target : m12.dfd ≡ fd2
  pub apart : fd1 ≢ fd2
  pub failed : m21.state ≡ ex

drive_keeps : (a : Answer) (m : Fsm) → ((drive a m).0.sfd ≡ m.sfd) × ((drive a m).0.dfd ≡ m.dfd)
unfolding drive fsm_driver drive_at drive_read drive_write
drive_keeps a m = ground arith

drive_ready-Failed :
    (fd1 fd2 : ℕ) (rset wset : FdSet) (a12 a21 : Answer) (m12 m21 : Fsm)
    → Failed fd1 fd2 m12 m21
    → rset fd2 ≡ false
    → wset fd1 ≡ false
    → let (n12, n21) = drive_ready fd1 fd2 rset wset a12 a21 m12 m21 in
      Failed fd1 fd2 n12 n21 × (n21 ≡ m21)
unfolding drive_ready
drive_ready-Failed fd1 fd2 rset wset a12 a21 m12 m21 v p q =
    let (s, d) = drive_keeps a12 m12 in
    (
      record {
        source = ground arith;
        target = ground arith;
        apart = v.apart;
        failed = ground arith;
      },
      ground arith,
    )

not_read : {fd1 fd2 : ℕ} {m12 m21 : Fsm} → Failed fd1 fd2 m12 m21 → read_set m12 m21 fd2 ≡ false
unfolding read_set
not_read v = let d = v.apart in ground arith

not_written : {fd1 fd2 : ℕ} {m12 m21 : Fsm} → Failed fd1 fd2 m12 m21 → write_set m12 m21 fd1 ≡ false
unfolding write_set
not_written v = let d = v.apart in ground arith

-- A round does not drive the second machine, and exits only if `select` failed.
abbrev Stays : ℕ → ℕ → SelectResult → Fsm → Option (Fsm × Fsm) → Type 0
Stays fd1 fd2 result m21 none = result ≡ select_failed
Stays fd1 fd2 result m21 (some (n12, n21)) = Failed fd1 fd2 n12 n21 × (n21 ≡ m21)

select_round-Stays :
    (fd1 fd2 : ℕ) (result : SelectResult) (a12 a21 : Answer) (m12 m21 : Fsm)
    → Failed fd1 fd2 m12 m21
    → Stays fd1 fd2 result m21 (select_round fd1 fd2 result a12 a21 m12 m21)
unfolding select_round
select_round-Stays fd1 fd2 result a12 a21 m12 m21 v =
    elim (Bool-cases (before_auto m12.state || before_auto m21.state)) [
      | inr e ↦
          rw (e, select_round)
            (drive_ready-Failed fd1 fd2 (read_set m12 m21) (write_set m12 m21) a12 a21 m12 m21 v
              (not_read v) (not_written v))
      | inl e ↦ rw (e, select_round) (asked result)
    ]
  where
    asked :
        (answer : SelectResult)
        → Stays fd1 fd2 answer m21 (elim answer [
          | interrupted ↦ some (m12, m21)
          | select_failed ↦ none
          | selected rready wready ↦ some (
              drive_ready fd1 fd2
                (λ fd. read_set m12 m21 fd && rready fd)
                (λ fd. write_set m12 m21 fd && wready fd)
                a12
                a21
                m12
                m21)
        ])
    asked interrupted = (v, refl)
    asked select_failed = refl
    asked (selected rready wready) =
        drive_ready-Failed fd1 fd2 (λ fd. read_set m12 m21 fd && rready fd)
          (λ fd. write_set m12 m21 fd && wready fd) a12 a21 m12 m21 v
          (ap (λ b. b && rready fd2) (not_read v)) (ap (λ b. b && wready fd1) (not_written v))

-- In some round `select` fails with another error than EINTR.
abbrev pub SelectFails : List (SelectResult × Answer × Answer) → Type 0
SelectFails [] = ⊥
SelectFails ((result, a12, a21) ∷ rounds) = (result ≡ select_failed) ⊎ SelectFails rounds

-- Once the second machine is in STATE_EX, the loop is never left: after any number of rounds, whatever
-- the descriptors do and `select`, `read` and `write` come to, either `select` has failed, with another
-- error than EINTR, in one of the rounds and the program has exited, or the loop still runs with the
-- second machine as it was, in STATE_EX.
pub select_loop_never_left :
    (fd1 fd2 : ℕ) (rounds : List (SelectResult × Answer × Answer)) (m12 m21 : Fsm)
    → Failed fd1 fd2 m12 m21
    → ((select_loop fd1 fd2 rounds m12 m21 ≡ exited) × SelectFails rounds)
      ⊎ ((n12 : Fsm) × (select_loop fd1 fd2 rounds m12 m21 ≡ running n12 m21))
unfolding select_loop
select_loop_never_left fd1 fd2 [] m12 m21 v =
    let e : is_t m12.state && is_t m21.state ≡ false = ground arith in
    inr (m12, rw (e, select_loop) refl)
select_loop_never_left fd1 fd2 ((result, a12, a21) ∷ rest) m12 m21 v =
    let e : is_t m12.state && is_t m21.state ≡ false = ground arith in
    let stays = select_round-Stays fd1 fd2 result a12 a21 m12 m21 v in
    elim (Option-cases (select_round fd1 fd2 result a12 a21 m12 m21)) [
      | inl f ↦ inl (rw (e, f, select_loop) refl, inl (subst (Stays fd1 fd2 result m21) f stays))
      | inr ((n12, n21), f) ↦
          let (failed, same) = subst (Stays fd1 fd2 result m21) f stays in
          elim (select_loop_never_left fd1 fd2 rest n12 n21 failed) [
            | inl (exits, why) ↦ inl (rw (e, f, select_loop) exits, inr why)
            | inr (last, runs) ↦
                inr (last, rw (e, f, select_loop) (runs ∙ ap (λ m. running last m) same))
          ]
    ]
