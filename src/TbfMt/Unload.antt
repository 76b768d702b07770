-- ===== src/TbfMt/Unload.antt =====
-- thread/posix/mytbf_multithread/mytbf.c: `module_unload`.
use linux_coding.Common.{
  ℕ, zero, suc, ◌+◌, ◌≤◌, ◌<◌, ◌≡◌, ◌≢◌, inl, inr, refl, sym, ap, ◌∙◌, subst, none, some, arith,
  get_elem?, length, length-set, ltb, Bool-cases, Option-cases, ◌==◌, get_elem?-set_self,
  get_elem?-set_ne, get_elem?-eq_some-lt,
}
use linux_coding.Tbf.{Bucket, Tbf, mytbf_max}
use linux_coding.TbfMt.{pointee, clear_slot, unload_slots, module_unload}

-- Each bucket stands in the slot that it names, as `mytbf_init` puts it.
abbrev pub IsPlaced : Tbf → Type 0
IsPlaced t = (i : ℕ) (b : Bucket) → pointee t i ≡ some b → b.slot ≡ i

no : (b : Bucket) → none ≢ some b
no b e = cc

pointee_lt : (t : Tbf) (i : ℕ) {b : Bucket} → pointee t i ≡ some b → i < length t.job
unfolding pointee
pointee_lt t i {b} h = elim (Option-cases (get_elem? t.job i)) [
  | inl e ↦ let bad : none ≡ some b = rw (e, pointee) at h in absurd (no b bad)
  | inr (x, e) ↦ get_elem?-eq_some-lt t.job i e
]

pointee-clear_self :
    (t : Tbf) (b : Bucket) → b.slot < length t.job → pointee (clear_slot b t) b.slot ≡ none
unfolding pointee clear_slot
pointee-clear_self t b h = rw (get_elem?-set_self t.job b.slot none h, pointee) refl

pointee-clear_other :
    (t : Tbf) (b : Bucket) (j : ℕ) → b.slot ≢ j → pointee (clear_slot b t) j ≡ pointee t j
unfolding pointee clear_slot
pointee-clear_other t b j h = rw (get_elem?-set_ne t.job b.slot j none h, pointee) refl

clear-length : (t : Tbf) (me : Bucket) → length (clear_slot me t).job ≡ length t.job
unfolding clear_slot
clear-length t me = length-set t.job me.slot none

-- A slot that is cleared is empty, also behind the table.
gone : (t : Tbf) (me : Bucket) {b : Bucket} → pointee (clear_slot me t) me.slot ≢ some b
gone t me {b} h = elim (Bool-cases (ltb me.slot (length t.job))) [
  | inl q ↦ no b (sym (pointee-clear_self t me (ground arith)) ∙ h)
  | inr q ↦
      let far = pointee_lt (clear_slot me t) me.slot h in
      let same = clear-length t me in absurd (ground arith)
]

keeps : (me : Bucket) (t : Tbf) → IsPlaced t → IsPlaced (clear_slot me t)
keeps me t p j b h = elim (Bool-cases (me.slot == j)) [
  | inl q ↦
      let same : me.slot ≡ j = ground arith in
      absurd (gone t me (subst (λ k. pointee (clear_slot me t) k ≡ some b) (sym same) h))
  | inr q ↦ p j b (sym (pointee-clear_other t me j (ground arith)) ∙ h)
]

-- What the loop over `n` slots from `i` on leaves.
pub unload_slots_lem :
    (n i : ℕ) (t : Tbf)
    → IsPlaced t
    → ((j : ℕ) → i ≤ j → j < i + n → pointee (unload_slots n i t) j ≡ none)
      × ((j : ℕ) → j < i → pointee (unload_slots n i t) j ≡ pointee t j)
unfolding unload_slots
unload_slots_lem zero i t p = ((λ j h g. absurd (omega arith)), λ j h. refl)
unload_slots_lem (suc n) i t p = elim (Option-cases (pointee t i)) [
  | inl e ↦
      let (a, b) = unload_slots_lem n (i + 1) t p in
      rw (e, unload_slots)
        (
          (λ j h g. elim (Bool-cases (j == i)) [
            | inl q ↦ let same : j ≡ i = ground arith in b j (omega arith) ∙ ap (pointee t) same ∙ e
            | inr q ↦ let ne : i + 1 ≤ j = ground arith in a j ne (omega arith)
          ]),
          λ j h. b j (omega arith),
        )
  | inr (me, e) ↦
      let at : me.slot ≡ i = p i me e in
      let lt = pointee_lt t i e in
      let (a, b) = unload_slots_lem n (i + 1) (clear_slot me t) (keeps me t p) in
      rw (e, unload_slots)
        (
          (λ j h g. elim (Bool-cases (j == i)) [
            | inl q ↦
                let same : j ≡ me.slot = ground arith in
                b j (omega arith)
                ∙ ap (pointee (clear_slot me t)) same
                ∙ pointee-clear_self t me (omega arith)
            | inr q ↦ let ne : i + 1 ≤ j = ground arith in a j ne (omega arith)
          ]),
          λ j h. b j (omega arith) ∙ pointee-clear_other t me j (λ q. absurd (omega arith)),
        )
]

-- Where each bucket stands in the slot that it names, `module_unload` destroys every bucket: each of
-- the MYTBF_MAX slots is then empty.
pub module_unload_empties :
    (t : Tbf) → IsPlaced t → (j : ℕ) → j < mytbf_max → pointee (module_unload t) j ≡ none
unfolding module_unload
module_unload_empties t p j h = (unload_slots_lem mytbf_max 0 t p).0 j (omega arith) h
