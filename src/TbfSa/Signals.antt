-- ===== src/TbfSa/Signals.antt =====
-- mytbf_sa/mytbf.c against mytbf/mytbf.c: only the kernel's signals count.
use mathlib.Core.Option
use linux_coding.Common.{
  ℕ, zero, suc, ◌+◌, ◌≡◌, refl, ap, ◌∙◌, Bool, true, false, Option, none, some, List, [], ◌∷◌, map,
  arith,
}
use linux_coding.Common.Int.{ℤ}
use linux_coding.Tbf
use linux_coding.Tbf.{
  Bucket, Tbf, refill, alrm_handler, take_tokens, give_tokens, bucket_at, lacks_token, fetch_ready,
  min_int,
}
use linux_coding.TbfSa.{
  get_free_pos, action_slots, alrm_action, mytbf_init, deref, mytbf_return_token, mytbf_destroy,
}

get_free_pos_eq : (js : List (Option Bucket)) (i : ℕ) → get_free_pos js i ≡ Tbf.get_free_pos js i
unfolding get_free_pos Tbf.get_free_pos
get_free_pos_eq [] i = refl
get_free_pos_eq (none ∷ js) i = refl
get_free_pos_eq (some b ∷ js) i = get_free_pos_eq js (i + 1)

action_slots_eq : (js : List (Option Bucket)) → action_slots js ≡ map (Option.map refill) js
unfolding action_slots refill
action_slots_eq [] = refl
action_slots_eq (none ∷ js) = ap (λ l. none ∷ l) (action_slots_eq js)
action_slots_eq (some b ∷ js) = ap (λ l. some (refill b) ∷ l) (action_slots_eq js)

action_true : (t : Tbf) → alrm_action true t ≡ alrm_handler t
unfolding alrm_action alrm_handler
action_true t = ap (λ l. record t { job = l }) (action_slots_eq t.job)

action_false : (t : Tbf) → alrm_action false t ≡ t
unfolding alrm_action
action_false t = refl

init_eq :
    (memory : Bool) (cps burst : ℤ) (t : Tbf)
    → mytbf_init memory cps burst t ≡ Tbf.mytbf_init memory cps burst t
unfolding mytbf_init Tbf.mytbf_init
init_eq memory cps burst t = let e = get_free_pos_eq t.job 0 in ground arith

-- What a list of signals makes of the table; for each, whether the kernel sent it.
abbrev pub signalled : List Bool → Tbf → Tbf
signalled [] t = t
signalled (b ∷ signals) t = signalled signals (alrm_action b t)

-- The ticks of mytbf/mytbf.c.
abbrev pub ticked : ℕ → Tbf → Tbf
ticked zero t = t
ticked (suc n) t = ticked n (alrm_handler t)

-- How many of the signals the kernel sent.
abbrev pub kernel_signals : List Bool → ℕ
kernel_signals [] = 0
kernel_signals (true ∷ bs) = suc (kernel_signals bs)
kernel_signals (false ∷ bs) = kernel_signals bs

signalled-ticked :
    (signals : List Bool) (t : Tbf) → signalled signals t ≡ ticked (kernel_signals signals) t
signalled-ticked [] t = refl
signalled-ticked (true ∷ bs) t =
    ap (signalled bs) (action_true t) ∙ signalled-ticked bs (alrm_handler t)
signalled-ticked (false ∷ bs) t = ap (signalled bs) (action_false t) ∙ signalled-ticked bs t

-- Any sequence of SIGALRMs makes of the table what as many ticks of mytbf/mytbf.c as the kernel sent of
-- them do, since one that the kernel did not send changes nothing. And mytbf_init, mytbf_returnToken and
-- mytbf_destroy give the same result and the same table as those of mytbf/mytbf.c, in every state.
pub operations_eq :
    (t : Tbf)
    → ((signals : List Bool) → signalled signals t ≡ ticked (kernel_signals signals) t)
      × ((memory : Bool) (cps burst : ℤ)
          → mytbf_init memory cps burst t ≡ Tbf.mytbf_init memory cps burst t)
      × ((p : ℕ) (size : ℤ) → mytbf_return_token p size t ≡ Tbf.mytbf_return_token p size t)
      × ((p : ℕ) → mytbf_destroy p t ≡ Tbf.mytbf_destroy p t)
unfolding mytbf_return_token Tbf.mytbf_return_token mytbf_destroy Tbf.mytbf_destroy deref bucket_at
    give_tokens
operations_eq t = (
  λ signals. signalled-ticked signals t,
  λ memory cps burst. init_eq memory cps burst t,
  λ p size. ground arith,
  λ p. refl,
)
