-- ===== src/RelayJobs/Table.antt =====
-- proIO/non-blocked/relayer/relayer.c: `rel_addjob`.
use linux_coding.Common.{
  ℕ, suc, ◌+◌, ◌≡◌, ◌≢◌, refl, sym, ap, ◌∙◌, subst, Option, none, some, List, [], ◌∷◌, arith,
  get_elem?, set, inl, inr, Option-cases, get_elem?-set_self, get_elem?-set_ne,
  get_elem?-eq_some-lt,
}
use linux_coding.Relay.{Fsm}
use linux_coding.RelayJobs.{
  RelJob, Relayer, enospc, placed, rel_addjob, new_rel_job, get_free_pos_unlocked, set_flags,
}

free_pos-some :
    (js : List (Option RelJob)) (k : ℕ) {p : ℕ}
    → get_free_pos_unlocked js k ≡ some p
    → (d : ℕ) × (p ≡ k + d) × (get_elem? js d ≡ some none)
unfolding get_free_pos_unlocked
free_pos-some [] k h = cc
free_pos-some (none ∷ js) k h = (0, ground arith, refl)
free_pos-some (some b ∷ js) k h =
    let (d, e, free) = free_pos-some js (k + 1) h in (suc d, omega arith, free)

-- What `F_GETFL` gives for the second descriptor, and the flags after both calls of `F_SETFL`.
abbrev pub second_flags : (ℕ → ℕ) → ℕ → ℕ → (ℕ → ℕ) → ℕ
second_flags nonblock fd1 fd2 fl = set_flags fd1 (nonblock (fl fd1)) fl fd2

abbrev pub both_flags : (ℕ → ℕ) → ℕ → ℕ → (ℕ → ℕ) → ℕ → ℕ
both_flags nonblock fd1 fd2 fl =
    set_flags fd2 (nonblock (second_flags nonblock fd1 fd2 fl))
      (set_flags fd1 (nonblock (fl fd1)) fl)

placed_inv :
    (nonblock : ℕ → ℕ) (j12 j21 : Fsm) (fd1 fd2 : ℕ) (x : Relayer) {p : ℕ} {x' : Relayer}
    → rel_addjob nonblock (some (j12, j21)) fd1 fd2 x ≡ (placed p, x')
    → (get_elem? x.rel_job p ≡ some none)
      × (x' ≡ record {
        rel_job = set x.rel_job p (
            some
              (new_rel_job j12 j21 fd1 fd2 (x.flags fd1) (second_flags nonblock fd1 fd2 x.flags)));
        flags = both_flags nonblock fd1 fd2 x.flags;
      })
unfolding rel_addjob
placed_inv nonblock j12 j21 fd1 fd2 x {p} {x'} h =
    elim (Option-cases (get_free_pos_unlocked x.rel_job 0)) [
      | inl e ↦
          let bad : enospc ≡ placed p = ap (λ y. y.0) (rw (e, rel_addjob) at h) in
          absurd (ground arith)
      | inr (q, e) ↦
          let (d, dq, free) = free_pos-some x.rel_job 0 e in
          let both = rw (e, rel_addjob) at h in
          let same : placed q ≡ placed p = ap (λ y. y.0) both in
          let qp : q ≡ p = cc in
          let dp : d ≡ p = omega arith in
          (
            subst (λ k. get_elem? x.rel_job k ≡ some none) dp free,
            subst
                (λ k. x' ≡ record {
                  rel_job = set x.rel_job k (
                      some (
                        new_rel_job j12 j21 fd1 fd2 (x.flags fd1)
                          (second_flags nonblock fd1 fd2 x.flags)));
                  flags = both_flags nonblock fd1 fd2 x.flags;
                })
                qp (sym (ap (λ y. y.1) both)),
          )
    ]

-- `rel_addjob` that fills slot `p` found it free, put there a running job whose machines read `fd1`
-- to write `fd2` and the other way round, changed no other slot, and set O_NONBLOCK on both
-- descriptors, if they differ.
pub rel_addjob_placed :
    (nonblock : ℕ → ℕ) (j12 j21 : Fsm) (fd1 fd2 : ℕ) (x : Relayer) {p : ℕ} {x' : Relayer}
    → rel_addjob nonblock (some (j12, j21)) fd1 fd2 x ≡ (placed p, x')
    → (get_elem? x.rel_job p ≡ some none)
      × (get_elem? x'.rel_job p
          ≡ some (
              some (
                new_rel_job j12 j21 fd1 fd2 (x.flags fd1) (second_flags nonblock fd1 fd2 x.flags))))
      × ((i : ℕ) → p ≢ i → get_elem? x'.rel_job i ≡ get_elem? x.rel_job i)
      × (fd1 ≢ fd2
          → (x'.flags fd1 ≡ nonblock (x.flags fd1)) × (x'.flags fd2 ≡ nonblock (x.flags fd2)))
rel_addjob_placed nonblock j12 j21 fd1 fd2 x {p} {x'} h =
    let (free, e) = placed_inv nonblock j12 j21 fd1 fd2 x h in
    let me =
      some (new_rel_job j12 j21 fd1 fd2 (x.flags fd1) (second_flags nonblock fd1 fd2 x.flags)) in
    rw e (
      free,
      get_elem?-set_self x.rel_job p me (get_elem?-eq_some-lt x.rel_job p free),
      λ i ne. get_elem?-set_ne x.rel_job p i me ne,
      λ ne. ground arith,
    )

full_inv :
    (nonblock : ℕ → ℕ) (j12 j21 : Fsm) (fd1 fd2 : ℕ) (x : Relayer) {x' : Relayer}
    → rel_addjob nonblock (some (j12, j21)) fd1 fd2 x ≡ (enospc, x')
    → x' ≡ record x {
      flags =
          set_flags fd2
            (second_flags nonblock fd1 fd2 x.flags)
            (set_flags fd1 (x.flags fd1) (both_flags nonblock fd1 fd2 x.flags));
    }
unfolding rel_addjob
full_inv nonblock j12 j21 fd1 fd2 x {x'} h =
    elim (Option-cases (get_free_pos_unlocked x.rel_job 0)) [
      | inl e ↦ sym (ap (λ y. y.1) (rw (e, rel_addjob) at h))
      | inr (q, e) ↦
          let bad : placed q ≡ enospc = ap (λ y. y.0) (rw (e, rel_addjob) at h) in
          absurd (ground arith)
    ]

-- `rel_addjob` on a full table leaves the table alone and gives the flags of two different
-- descriptors back; but a descriptor given twice is left with O_NONBLOCK set.
pub rel_addjob_full :
    (nonblock : ℕ → ℕ) (j12 j21 : Fsm) (fd1 fd2 : ℕ) (x : Relayer) {x' : Relayer}
    → rel_addjob nonblock (some (j12, j21)) fd1 fd2 x ≡ (enospc, x')
    → (x'.rel_job ≡ x.rel_job)
      × (fd1 ≢ fd2 → (fd : ℕ) → x'.flags fd ≡ x.flags fd)
      × (fd1 ≡ fd2 → x'.flags fd1 ≡ nonblock (x.flags fd1))
rel_addjob_full nonblock j12 j21 fd1 fd2 x {x'} h =
    rw (full_inv nonblock j12 j21 fd1 fd2 x h) (refl, λ ne fd. ground arith, λ e. ground arith)

-- A slot in use holds the same job after `rel_addjob`, whatever comes of it.
pub rel_addjob_keeps :
    (nonblock : ℕ → ℕ) (junk : Option (Fsm × Fsm)) (fd1 fd2 : ℕ) (x : Relayer) (i : ℕ) {j : RelJob}
    → get_elem? x.rel_job i ≡ some (some j)
    → get_elem? (rel_addjob nonblock junk fd1 fd2 x).1.rel_job i ≡ some (some j)
unfolding rel_addjob
rel_addjob_keeps nonblock none fd1 fd2 x i {j} h = h
rel_addjob_keeps nonblock (some (j12, j21)) fd1 fd2 x i {j} h =
    elim (Option-cases (get_free_pos_unlocked x.rel_job 0)) [
      | inl e ↦ rw (e, rel_addjob) h
      | inr (q, e) ↦
          let (d, dq, free) = free_pos-some x.rel_job 0 e in
          let ne : q ≢ i = λ qi.
            let dp : d ≡ i = omega arith in
            let f : get_elem? x.rel_job i ≡ some none = rw dp at free in absurd (ground arith) in
          rw (e, rel_addjob)
            (get_elem?-set_ne x.rel_job q i
                (some (
                  new_rel_job j12 j21 fd1 fd2 (x.flags fd1)
                    (second_flags nonblock fd1 fd2 x.flags)))
                ne
              ∙ h)
    ]
