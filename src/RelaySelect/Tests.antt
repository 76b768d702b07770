-- ===== src/RelaySelect/Tests.antt =====
-- A run of proIO/select/relay.c whose second machine has failed.
use linux_coding.Common.{◌≡◌, refl, true, none, some, List, ◌⊎◌, [], ◌∷◌, replicate, arith}
use linux_coding.Common.Int.{pos}
use linux_coding.Relay.{Fsm, r, ex, got, read_call, write_again}
use linux_coding.RelayJobs.{Answer}
use linux_coding.RelaySelect.{
  SelectResult, selected, select_loop, select_round, exited, running, read_set, write_set,
}
use linux_coding.RelaySelect.Stuck.{Failed, SelectFails, select_loop_never_left}

abbrev reading : Fsm
reading = record {
  state = r;
  sfd = 3;
  dfd = 4;
  buf = replicate 1024 0;
  len = pos 0;
  strerr = none;
  offset = 0;
}

abbrev broken : Fsm
broken = record {
  state = ex;
  sfd = 4;
  dfd = 3;
  buf = replicate 1024 0;
  len = pos 0;
  strerr = some read_call;
  offset = 0;
}

reading-Failed : Failed 3 4 reading broken
reading-Failed = record { source = refl; target = refl; apart = omega arith; failed = refl }

-- The end of the first source.
abbrev ended : Answer
ended m = (got [], write_again)

abbrev one_round : List (SelectResult × Answer × Answer)
one_round = (selected (λ fd. true) (λ fd. true), ended, ended) ∷ []

-- A select that fails ends the program.
select_fails :
    select_loop 3 4 ((SelectResult.select_failed, ended, ended) ∷ []) reading broken ≡ exited
unfolding select_loop select_round read_set write_set
select_fails = refl

select_loop_never_left_example :
    ((select_loop 3 4 one_round reading broken ≡ exited) × SelectFails one_round)
    ⊎ ((n12 : Fsm) × (select_loop 3 4 one_round reading broken ≡ running n12 broken))
select_loop_never_left_example = select_loop_never_left 3 4 one_round reading broken reading-Failed
