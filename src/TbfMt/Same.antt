-- ===== src/TbfMt/Same.antt =====
-- thread/posix/mytbf_multithread/mytbf.c against mytbf/mytbf.c.
use mathlib.Core.Option
use linux_coding.Common.{
  ℕ, zero, suc, ◌+◌, ◌≡◌, refl, sym, ap, ap₂, ◌∙◌, Bool, Option, none, some, List, [], ◌∷◌, map,
  replicate, arith, Bool-cases, inl, inr, wait_while, wait_while-nil, wait_while-of_true,
  wait_while-of_false,
}
use linux_coding.Common.Int.{ℤ, pos, leb_ℤ}
use linux_coding.Tbf
use linux_coding.Tbf.{
  Bucket, Tbf, get_free_pos, refill, alrm_handler, take_tokens, give_tokens, bucket_at, lacks_token,
  fetch_ready, min_int,
}
use linux_coding.TbfMt.{
  get_free_pos_unlocked, add_cps, alarm_slots, thr_alarm, mytbf_init, min_token, pointee, store,
  must_wait, fetch, mytbf_fetch_token, mytbf_return_token, clear_slot, mytbf_destroy,
}

get_free_pos_eq :
    (js : List (Option Bucket)) (i : ℕ) → get_free_pos_unlocked js i ≡ get_free_pos js i
unfolding get_free_pos_unlocked get_free_pos
get_free_pos_eq [] i = refl
get_free_pos_eq (none ∷ js) i = refl
get_free_pos_eq (some b ∷ js) i = get_free_pos_eq js (i + 1)

alarm_slots_eq : (js : List (Option Bucket)) → alarm_slots js ≡ map (Option.map refill) js
unfolding alarm_slots add_cps refill
alarm_slots_eq [] = refl
alarm_slots_eq (none ∷ js) = ap (λ l. none ∷ l) (alarm_slots_eq js)
alarm_slots_eq (some b ∷ js) = ap₂ (λ x l. some x ∷ l) (ground arith) (alarm_slots_eq js)

thr_alarm_eq : (t : Tbf) → thr_alarm t ≡ alrm_handler t
unfolding thr_alarm alrm_handler
thr_alarm_eq t = ap (λ l. record t { job = l }) (alarm_slots_eq t.job)

init_eq :
    (memory : Bool) (cps burst : ℤ) (t : Tbf)
    → mytbf_init memory cps burst t ≡ Tbf.mytbf_init memory cps burst t
unfolding mytbf_init Tbf.mytbf_init
init_eq memory cps burst t = let e = get_free_pos_eq t.job 0 in ground arith

map_eq :
    {A B : Type 0} (f g : A → B)
    → ((a : A) → f a ≡ g a)
    → (o : Option A) → Option.map f o ≡ Option.map g o
map_eq f g h none = refl
map_eq f g h (some a) = ap some (h a)

fetch_eq : (p : ℕ) (size : ℤ) (t : Tbf) → fetch p size t ≡ fetch_ready p size t
unfolding fetch fetch_ready pointee bucket_at take_tokens min_token min_int store
fetch_eq p size t = refl

-- Waiting for rounds of the thread and waiting for signals.
wait_eq :
    (p n : ℕ) (t : Tbf)
    → wait_while (must_wait p) (replicate n thr_alarm) t
      ≡ wait_while (lacks_token p) (replicate n alrm_handler) t
unfolding must_wait pointee bucket_at
wait_eq p zero t = elim (Bool-cases (lacks_token p t)) [
  | inl e ↦ wait_while-nil (must_wait p) t e ∙ sym (wait_while-nil (lacks_token p) t e)
  | inr e ↦
      wait_while-of_false (must_wait p) [] t e ∙ sym (wait_while-of_false (lacks_token p) [] t e)
]
wait_eq p (suc n) t = elim (Bool-cases (lacks_token p t)) [
  | inl e ↦
      wait_while-of_true (must_wait p) thr_alarm (replicate n thr_alarm) t e
      ∙ wait_eq p n (thr_alarm t)
      ∙ ap (wait_while (lacks_token p) (replicate n alrm_handler)) (thr_alarm_eq t)
      ∙ sym (wait_while-of_true (lacks_token p) alrm_handler (replicate n alrm_handler) t e)
  | inr e ↦
      wait_while-of_false (must_wait p) (replicate (suc n) thr_alarm) t e
      ∙ sym (wait_while-of_false (lacks_token p) (replicate (suc n) alrm_handler) t e)
]

-- Each operation of the multithreaded library gives the same result and the same table as that of
-- the library on signals, in every state: a round of `thr_alarm` is a signal, also while
-- `mytbf_fetch_token` waits, whatever the number of rounds.
pub operations_same :
    (t : Tbf)
    → (thr_alarm t ≡ alrm_handler t)
      × ((memory : Bool) (cps burst : ℤ)
          → mytbf_init memory cps burst t ≡ Tbf.mytbf_init memory cps burst t)
      × ((p : ℕ) (size : ℤ) (n : ℕ)
          → mytbf_fetch_token p size (replicate n thr_alarm) t ≡ Tbf.mytbf_fetch_token p size n t)
      × ((p : ℕ) (size : ℤ) → mytbf_return_token p size t ≡ Tbf.mytbf_return_token p size t)
      × ((p : ℕ) → mytbf_destroy p t ≡ Tbf.mytbf_destroy p t)
unfolding mytbf_fetch_token Tbf.mytbf_fetch_token mytbf_return_token Tbf.mytbf_return_token
    mytbf_destroy Tbf.mytbf_destroy pointee bucket_at give_tokens store clear_slot
operations_same t = (
  thr_alarm_eq t,
  λ memory cps burst. init_eq memory cps burst t,
  λ p size n. elim (Bool-cases (leb_ℤ size (pos 0))) [
    | inl e ↦ rw e refl
    | inr e ↦ rw e (
        ap (λ o. Option.map (fetch p size) o) (wait_eq p n t)
        ∙ map_eq (fetch p size) (fetch_ready p size) (fetch_eq p size) _)
  ],
  λ p size. ground arith,
  λ p. refl,
)
