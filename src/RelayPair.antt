-- ===== src/RelayPair.antt =====
-- One pair of descriptors copied both ways until both machines end: proIO/non-blocked/relay_file.c
-- steps both in turn, proIO/epoll/relay.c asks `poll` first, and proIO/poll/relay.c asks `epoll_wait`.
-- Their state machine is that of Relay; `STATE_AUTO`, which no state takes, splits its states.
pub mod Ends
pub mod Ready
mod Tests
use linux_coding.Common.{
  ℕ, Bool, true, false, ◌&&◌, ◌||◌, Option, none, some, List, [], ◌∷◌, ◌==◌, if◌then◌else◌,
}
use linux_coding.Relay.{State, r, w, ex, t, Fsm}
use linux_coding.RelayJobs.{Answer, drive, is_t, set_flags}

-- `while (fsm12.state != STATE_T || fsm21.state != STATE_T)` of relay_file.c. `answers` says round by
-- round what the system calls come to; `none` is a loop that still runs behind the last round.
unfoldable pub relay_loop : List (Answer × Answer) → Fsm → Fsm → Option (Fsm × Fsm)
relay_loop [] m12 m21 = if is_t m12.state && is_t m21.state then some (m12, m21) else none
relay_loop ((a12, a21) ∷ rest) m12 m21 = elim (is_t m12.state && is_t m21.state) [
  | true ↦ some (m12, m21)
  | false ↦ relay_loop rest (drive a12 m12).0 (drive a21 m21).0
]

-- `relay` of relay_file.c: the flags of the descriptors and the two machines at its end.
unfoldable pub relay :
    (ℕ → ℕ) → List (Answer × Answer) → ℕ → ℕ → Fsm → Fsm → (ℕ → ℕ) → Option ((ℕ → ℕ) × Fsm × Fsm)
relay nonblock answers fd1 fd2 junk12 junk21 fl =
    let save1 = fl fd1 in
    let fl1 = set_flags fd1 (nonblock save1) fl in
    let save2 = fl1 fd2 in
    let fl2 = set_flags fd2 (nonblock save2) fl1 in
    elim (relay_loop answers (record junk12 { state = r; sfd = fd1; dfd = fd2 })
      (record junk21 { state = r; sfd = fd2; dfd = fd1 })) [
        | none ↦ none
        | some (m12, m21) ↦ some (set_flags fd2 save2 (set_flags fd1 save1 fl2), m12, m21)
      ]

-- The bits POLLIN and POLLOUT of `events` or `revents`.
pub record Events : Type 0 where
  pub pollin : Bool
  pub pollout : Bool

abbrev pub is_r : State → Bool
is_r r = true
is_r _ = false

abbrev pub is_w : State → Bool
is_w w = true
is_w _ = false

-- `state < STATE_AUTO`, `state > STATE_AUTO`
abbrev pub before_auto : State → Bool
before_auto r = true
before_auto w = true
before_auto _ = false

abbrev pub behind_auto : State → Bool
behind_auto ex = true
behind_auto t = true
behind_auto _ = false

-- `pfd[0].events` and `pfd[1].events` of proIO/epoll/relay.c.
unfoldable pub watch : Fsm → Fsm → Events × Events
watch m12 m21 = (
  record { pollin = is_r m12.state; pollout = is_w m21.state },
  record { pollin = is_r m21.state; pollout = is_w m12.state },
)

-- Whether the round calls `poll`.
abbrev pub must_poll : Fsm → Fsm → Bool
must_poll m12 m21 = before_auto m12.state || before_auto m21.state

-- The tests behind `poll`, for the `revents` of the two descriptors.
abbrev pub drives12 : Events → Events → Fsm → Bool
drives12 rev1 rev2 m12 = rev1.pollin || rev2.pollout || behind_auto m12.state

abbrev pub drives21 : Events → Events → Fsm → Bool
drives21 rev1 rev2 m21 = rev2.pollin || rev1.pollout || behind_auto m21.state

-- A round of proIO/epoll/relay.c, given the `revents` that stand in `pfd` behind `poll`.
unfoldable pub poll_round : Events → Events → Answer → Answer → Fsm → Fsm → Fsm × Fsm
poll_round rev1 rev2 a12 a21 m12 m21 = (
  if drives12 rev1 rev2 m12 then (drive a12 m12).0 else m12,
  if drives21 rev1 rev2 m21 then (drive a21 m21).0 else m21,
)

-- `struct epoll_event`: `data.fd` and the bits EPOLLIN and EPOLLOUT.
pub record EpollEvent : Type 0 where
  pub fd : ℕ
  pub events : Events

-- The tests of proIO/poll/relay.c behind `epoll_wait`.
abbrev pub epoll_drives12 : ℕ → ℕ → EpollEvent → Fsm → Bool
epoll_drives12 fd1 fd2 ev m12 =
    (ev.fd == fd1 && ev.events.pollin)
    || (ev.fd == fd2 && ev.events.pollout)
    || behind_auto m12.state

abbrev pub epoll_drives21 : ℕ → ℕ → EpollEvent → Fsm → Bool
epoll_drives21 fd1 fd2 ev m21 =
    (ev.fd == fd1 && ev.events.pollout)
    || (ev.fd == fd2 && ev.events.pollin)
    || behind_auto m21.state

-- A round of proIO/poll/relay.c, given the event that stands in `ev` behind `epoll_wait`.
unfoldable pub epoll_round : ℕ → ℕ → EpollEvent → Answer → Answer → Fsm → Fsm → Fsm × Fsm
epoll_round fd1 fd2 ev a12 a21 m12 m21 = (
  if epoll_drives12 fd1 fd2 ev m12 then (drive a12 m12).0 else m12,
  if epoll_drives21 fd1 fd2 ev m21 then (drive a21 m21).0 else m21,
)
