-- ===== src/RelayPair/Ready.antt =====
-- proIO/epoll/relay.c and proIO/poll/relay.c: which machine a round drives.
use linux_coding.Common.{ℕ, ◌≡◌, true, ◌&&◌, ◌||◌, arith, ◌==◌}
use linux_coding.Relay.{Fsm, r, w, ex}
use linux_coding.RelayJobs.{Answer}
use linux_coding.RelayPair.{Events, EpollEvent, watch, drives12, drives21, poll_round, epoll_round}

-- `poll` reports only what it was asked for, and at least one event.
pub record Reported (want got : Events × Events) : Type 0 where
  pub in1 : got.0.pollin ≡ true → want.0.pollin ≡ true
  pub out1 : got.0.pollout ≡ true → want.0.pollout ≡ true
  pub in2 : got.1.pollin ≡ true → want.1.pollin ≡ true
  pub out2 : got.1.pollout ≡ true → want.1.pollout ≡ true
  pub any : (got.0.pollin || got.0.pollout || got.1.pollin || got.1.pollout) ≡ true

-- After a `poll` that reported events it was asked for, the round drives at least one machine; a
-- machine in STATE_R only if its source is readable, one in STATE_W only if its target is writable,
-- and one in STATE_EX always.
pub poll_round_ready :
    (m12 m21 : Fsm) (rev1 rev2 : Events)
    → Reported (watch m12 m21) (rev1, rev2)
    → ((drives12 rev1 rev2 m12 || drives21 rev1 rev2 m21) ≡ true)
      × (m12.state ≡ r → drives12 rev1 rev2 m12 ≡ true → rev1.pollin ≡ true)
      × (m12.state ≡ w → drives12 rev1 rev2 m12 ≡ true → rev2.pollout ≡ true)
      × (m21.state ≡ r → drives21 rev1 rev2 m21 ≡ true → rev2.pollin ≡ true)
      × (m21.state ≡ w → drives21 rev1 rev2 m21 ≡ true → rev1.pollout ≡ true)
      × (m12.state ≡ ex → drives12 rev1 rev2 m12 ≡ true)
      × (m21.state ≡ ex → drives21 rev1 rev2 m21 ≡ true)
unfolding watch
poll_round_ready m12 m21 rev1 rev2 rep = (
  ground arith,
  λ s d. ground arith,
  λ s d. ground arith,
  λ s d. ground arith,
  λ s d. ground arith,
  λ s. ground arith,
  λ s. ground arith,
)

-- What one event of `epoll_wait` says in the terms of `poll`.
abbrev pub revents : ℕ → EpollEvent → Events
revents fd ev = record {
  pollin = ev.fd == fd && ev.events.pollin;
  pollout = ev.fd == fd && ev.events.pollout;
}

-- The round of the program on `epoll_wait` is that of the program on `poll`, if `poll` reports the
-- one event that `epoll_wait` gave.
pub epoll_round-poll_round :
    (fd1 fd2 : ℕ) (ev : EpollEvent) (a12 a21 : Answer) (m12 m21 : Fsm)
    → epoll_round fd1 fd2 ev a12 a21 m12 m21
      ≡ poll_round (revents fd1 ev) (revents fd2 ev) a12 a21 m12 m21
unfolding epoll_round poll_round
epoll_round-poll_round fd1 fd2 ev a12 a21 m12 m21 = ground arith
