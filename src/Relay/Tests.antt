-- ===== src/Relay/Tests.antt =====
-- Runs of the state machine of proIO/non-blocked/relayer/relayer.c.
use linux_coding.Common.{refl, none, [], ◌∷◌, arith, replicate}
use linux_coding.Common.Int.{pos, ◌-ℤ◌}
use linux_coding.Relay.{
  r, w, Fsm, got, read_again, wrote, write_again, fsm_driver, drive_at, drive_read, drive_write,
}
use linux_coding.Relay.Copy.{IsFresh, Relayed, Delivered, fsm_driver_copies}

-- Shared by the tests of the modules that use the machine.
abbrev fresh : Fsm
fresh = record {
  state = r;
  sfd = 3;
  dfd = 4;
  buf = replicate 1024 0;
  len = pos 0;
  strerr = none;
  offset = 0;
}

-- Two bytes read, of which the first was written.
abbrev halfway : Fsm
halfway = record fresh { state = w; buf = 7 ∷ 8 ∷ replicate 1022 0; len = pos 1; offset = 1 }

abbrev whole : Fsm
whole = record halfway { len = pos 2; offset = 0 }

fresh-IsFresh : IsFresh fresh
fresh-IsFresh = record { reading = refl; room = refl; no_error = refl }

run_halfway : Relayed halfway (7 ∷ 8 ∷ []) (7 ∷ [])
unfolding fsm_driver drive_at drive_read drive_write ◌-ℤ◌
run_halfway =
    Relayed.step {m = whole} {ins = 7 ∷ 8 ∷ []} {outs = []} read_again (wrote 1) tt (omega arith) (
      Relayed.step {m = fresh} {ins = []} {outs = []} (got (7 ∷ 8 ∷ [])) write_again (omega arith)
        tt (Relayed.start fresh fresh-IsFresh))

fsm_driver_copies_example : Delivered halfway (7 ∷ 8 ∷ []) (7 ∷ [])
fsm_driver_copies_example = fsm_driver_copies run_halfway
