-- ===== src/SlowCat/Tests.antt =====
-- A file of twelve bytes, and the witness of the theorem.
use linux_coding.Common.{ℕ, refl, arith, List, [], ◌∷◌, replicate, some}
use linux_coding.SlowCat.{
  Slow, burst, turn, write_loop, set_loop, reset_loop, add_token, spend_token, SlowRun, slow_init,
}
use linux_coding.SlowCat.Rate.{Slowly, slowcats_rate}

abbrev file : List ℕ
file = replicate 12 7

-- After one alarm and a round in which write splits the ten bytes.
abbrev after_round : Slow
after_round = record { token = 0; left = 7 ∷ 7 ∷ []; out = replicate 10 7 }

one_round : SlowRun set_loop reset_loop file 1 after_round
unfolding set_loop reset_loop turn write_loop slow_init
one_round =
    SlowRun.by_turn (some 4 ∷ some 6 ∷ []) (SlowRun.by_alarm SlowRun.at_start)
      (omega arith, (omega arith, tt)) refl

one_round_of_tokens : SlowRun add_token spend_token file 1 after_round
unfolding add_token spend_token turn write_loop slow_init
one_round_of_tokens =
    SlowRun.by_turn (some 10 ∷ []) (SlowRun.by_alarm SlowRun.at_start) (omega arith, tt) refl

slowcats_rate_example : Slowly 1 file 1 after_round × Slowly burst file 1 after_round
slowcats_rate_example = slowcats_rate file one_round one_round_of_tokens
