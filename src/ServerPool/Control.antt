-- ===== src/ServerPool/Control.antt =====
-- IPC/socket/stream/pool_dynamic/server.c: how far one pass of `main` corrects the pool.
use linux_coding.Common.{
  ℕ, zero, suc, ◌+◌, ◌-◌, ◌/◌, ◌≤◌, ◌<◌, ◌≡◌, refl, some, arith, ltb, min, Bool-cases, inl, inr,
}
use linux_coding.ServerPool.{
  Pool, shrink, grow, control, max_spare_server, min_spare_server, max_client,
}
use linux_coding.ServerPool.Counted.{IsCounted, add_1_server-IsCounted, del_1_server-IsCounted}

shrink_lem :
    (fuel i : ℕ) (p : Pool)
    → IsCounted p
    → p.idle_count ≤ max_spare_server + i + fuel
    → (q : Pool) × (shrink fuel i p ≡ some q)
      × IsCounted q
      × (q.idle_count ≡ p.idle_count - (p.idle_count - max_spare_server - i + 1) / 2)
      × (q.busy_count ≡ p.busy_count)
unfolding shrink
shrink_lem zero i p c h = (p, refl, c, omega arith, refl)
shrink_lem (suc fuel) i p c h = elim (Bool-cases (ltb i (p.idle_count - max_spare_server))) [
  | inl t ↦
      let lt : i < p.idle_count - max_spare_server = ground arith in
      let (q, e, cq, eq, bq) = (del_1_server-IsCounted p c).1 (omega arith) in
      let (r, f, cr, er, br) = shrink_lem fuel (i + 1) q cq (omega arith) in
      (r, rw (t, e, f) refl, cr, omega arith, omega arith)
  | inr t ↦
      let ge : p.idle_count - max_spare_server ≤ i = ground arith in
      (p, rw t refl, c, omega arith, refl)
]

grow_lem :
    (pids : ℕ → ℕ) (fuel i : ℕ) (p : Pool)
    → IsCounted p
    → min_spare_server ≤ p.idle_count + i + fuel
    → (q : Pool) × (grow (λ k. some (pids k)) fuel i p ≡ some q)
      × IsCounted q
      × (q.idle_count
          ≡ p.idle_count
            + min
                ((min_spare_server - p.idle_count - i + 1) / 2)
                (max_client - (p.idle_count + p.busy_count)))
      × (q.busy_count ≡ p.busy_count)
unfolding grow
grow_lem pids zero i p c h = (p, refl, c, omega arith, refl)
grow_lem pids (suc fuel) i p c h = elim (Bool-cases (ltb i (min_spare_server - p.idle_count))) [
  | inl t ↦
      let lt : i < min_spare_server - p.idle_count = ground arith in
      elim (Bool-cases (ltb (p.idle_count + p.busy_count) max_client)) [
        | inl room ↦
            let fits : p.idle_count + p.busy_count < max_client = ground arith in
            let (q, e, cq, eq, bq) = (add_1_server-IsCounted (pids i) p c).1 fits in
            let (r, f, cr, er, br) = grow_lem pids fuel (i + 1) q cq (omega arith) in
            (r, rw (t, e, f) refl, cr, omega arith, omega arith)
        | inr none_left ↦
            let no : max_client ≤ p.idle_count + p.busy_count = ground arith in
            let e = (add_1_server-IsCounted (pids i) p c).0 no in
            let (r, f, cr, er, br) = grow_lem pids fuel (i + 1) p c (omega arith) in
            (r, rw (t, e, f) refl, cr, omega arith, omega arith)
      ]
  | inr t ↦
      let ge : min_spare_server - p.idle_count ≤ i = ground arith in
      (p, rw t refl, c, omega arith, refl)
]

-- Where the counts are those of the slots and every fork succeeds, one pass of `main` keeps the
-- counts right and never writes behind the slots. With more than MAXSPARESERVER idle processes it
-- kills half of what is too many, rounded up; with fewer than MINSPARESERVER it adds half of what is
-- missing, rounded up, as far as there is room; otherwise it leaves the pool as it is. The busy
-- processes stay.
pub control_half :
    (pids : ℕ → ℕ) (p : Pool)
    → IsCounted p
    → (q : Pool) × (control (λ k. some (pids k)) p ≡ some q)
      × IsCounted q
      × (q.busy_count ≡ p.busy_count)
      × (max_spare_server < p.idle_count
          → q.idle_count ≡ p.idle_count - (p.idle_count - max_spare_server + 1) / 2)
      × (p.idle_count < min_spare_server
          → q.idle_count
            ≡ p.idle_count
              + min
                  ((min_spare_server - p.idle_count + 1) / 2)
                  (max_client - (p.idle_count + p.busy_count)))
      × (min_spare_server ≤ p.idle_count → p.idle_count ≤ max_spare_server → q ≡ p)
unfolding control
control_half pids p c = elim (Bool-cases (ltb max_spare_server p.idle_count)) [
  | inl t ↦
      let lt : max_spare_server < p.idle_count = ground arith in
      let (q, f, cq, eq, bq) = shrink_lem p.idle_count 0 p c (omega arith) in
      (
        q,
        rw (t, f) refl,
        cq,
        bq,
        λ h. omega arith,
        λ h. absurd (omega arith),
        λ h g. absurd (omega arith),
      )
  | inr t ↦
      let le : p.idle_count ≤ max_spare_server = ground arith in
      elim (Bool-cases (ltb p.idle_count min_spare_server)) [
        | inl u ↦
            let lt : p.idle_count < min_spare_server = ground arith in
            let (q, f, cq, eq, bq) = grow_lem pids min_spare_server 0 p c (omega arith) in
            (
              q,
              rw (t, u, f) refl,
              cq,
              bq,
              λ h. absurd (omega arith),
              λ h. omega arith,
              λ h g. absurd (omega arith),
            )
        | inr u ↦
            let ge : min_spare_server ≤ p.idle_count = ground arith in
            (
              p,
              rw (t, u) refl,
              c,
              refl,
              λ h. absurd (omega arith),
              λ h. absurd (omega arith),
              λ h g. refl,
            )
      ]
]
