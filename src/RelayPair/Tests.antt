-- ===== src/RelayPair/Tests.antt =====
-- Runs of proIO/non-blocked/relay_file.c, proIO/epoll/relay.c and proIO/poll/relay.c.
use linux_coding.Common.{ℕ, ◌+◌, ◌≡◌, refl, true, false, none, some, [], ◌∷◌, arith, replicate}
use linux_coding.Common.Int.{pos}
use linux_coding.Relay.{Fsm, r, t, read_again, write_again}
use linux_coding.RelayJobs.{Answer}
use linux_coding.RelayPair.{Events, EpollEvent, watch, relay}
use linux_coding.RelayPair.Ready.{Reported}
use linux_coding.RelayPair.Ends.{finish, relay_ends}

abbrev idle : Fsm
idle = record {
  state = r;
  sfd = 3;
  dfd = 4;
  buf = replicate 1024 0;
  len = pos 0;
  strerr = none;
  offset = 0;
}

-- The first source can be read.
abbrev readable : Events
readable = record { pollin = true; pollout = false }

abbrev quiet : Events
quiet = record { pollin = false; pollout = false }

reported : Reported (watch idle idle) (readable, quiet)
unfolding watch
reported = record { in1 = λ h. refl; out1 = λ h. cc; in2 = λ h. cc; out2 = λ h. cc; any = refl }

abbrev stuck : Answer
stuck m = (read_again, write_again)

abbrev event : EpollEvent
event = record { fd = 3; events = readable }

relay_ends_example :
    (fl' : ℕ → ℕ) × (o12 o21 : Fsm) × (relay
        (λ f. f + 2048)
        ((stuck, stuck) ∷ (finish, finish) ∷ (finish, finish) ∷ [])
        3
        4
        idle
        idle
        (λ fd. 0)
      ≡ some (fl', o12, o21))
    × (o12.state ≡ t)
    × (o21.state ≡ t)
    × ((fd : ℕ) → fl' fd ≡ 0)
relay_ends_example =
    relay_ends (λ f. f + 2048) ((stuck, stuck) ∷ []) 3 4 idle idle (λ fd. 0)
      (((λ m. (tt, tt)), (λ m. (tt, tt))), tt) (λ e. absurd (omega arith))
