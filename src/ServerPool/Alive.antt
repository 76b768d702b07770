-- ===== src/ServerPool/Alive.antt =====
-- When the parent aborts on an unknown state, and that it never writes behind the last slot, whatever
-- the children do in between.
use linux_coding.Common.{
  ℕ, zero, suc, ◌+◌, ◌-◌, ◌≤◌, ◌<◌, ◌≡◌, ◌≢◌, ◌⊎◌, inl, inr, refl, sym, ◌∙◌, subst, arith, Option,
  none, some, Option-cases, List, [], ◌∷◌, length, replicate, All, Bool, Bool-cases, ◌==◌,
  get_elem?, ◌↔◌, ==_iff, leb,
}
use linux_coding.ServerPool.{
  Server, Pool, Written, max_client, state_idle, scan_pool, release_idle, add_1_server,
  del_1_server, refused, overrun, exited, returned, goes_on,
}
use linux_coding.ServerPool.Slots.{
  IsKnown, in_state, one_if, claim_lem, release_idle_lem, in_state_le, occupied,
}
use linux_coding.ServerPool.Scan.{Raced, scan_slots_cases, scan_slots-Raced}
use linux_coding.ServerPool.Kept.{server_job-Kept}
use linux_coding.ServerPool.Life.{
  pool_init, PoolStep, by_job, by_scan, by_add, by_del, PoolSteps, at_once, and_then,
}

-- The counts together are the processes, though a child may have changed its state since the scan.
pub record Alive (p : Pool) : Type 0 where
  slots : length p.serverpool ≡ max_client
  known : All IsKnown p.serverpool
  counts : p.idle_count + p.busy_count ≡ occupied p.serverpool

-- Where no process is idle, none is killed.
release_idle-none : (ss : List Server) → in_state state_idle ss ≡ 0 → release_idle ss ≡ none
unfolding release_idle
release_idle-none [] h = refl
release_idle-none (s ∷ ss) h =
    let rest = release_idle-none ss (omega arith) in
    let here : one_if state_idle s ≡ 0 = omega arith in ground (arith, rest, here)

-- add_1_server writes into a free slot, whatever fork returns.
add_1_server-Alive :
    (fork : Option ℕ) (p : Pool)
    → Alive p
    → (add_1_server fork p ≢ overrun)
      × ((q : Pool) → goes_on (add_1_server fork p) ≡ some q → Alive q)
unfolding add_1_server
add_1_server-Alive fork p alive = elim (Bool-cases (leb max_client (p.idle_count + p.busy_count))) [
  | inl full ↦
      let refuses : add_1_server fork p ≡ refused p = rw (full, add_1_server) refl in
      (rw refuses (λ e. cc), rw refuses (λ q e. let same : p ≡ q = cc in subst Alive same alive))
  | inr room ↦ elim (Option-cases fork) [
    | inl failed_fork ↦
        let exits : add_1_server fork p ≡ exited = rw (room, add_1_server, failed_fork) refl in
        (rw exits (λ e. cc), rw exits (λ q e. absurd (let no : none ≢ some q = λ f. cc in no e)))
    | inr (pid, forked) ↦
        let small : p.idle_count + p.busy_count < max_client = ground arith in
        let claimed =
          claim_lem pid p.serverpool alive.known (omega (arith, alive.slots, alive.counts)) in
        let next : Pool = record {
          serverpool = claimed.0;
          idle_count = p.idle_count + 1;
          busy_count = p.busy_count;
        } in
        let adds : add_1_server fork p ≡ returned next =
          rw (room, add_1_server, forked, claimed.1) refl in
        let next_alive : Alive next = record {
          slots = claimed.2 ∙ alive.slots;
          known = claimed.3;
          counts = omega (arith, claimed.4, claimed.5, alive.counts);
        } in
        (
          rw adds (λ e. cc),
          rw adds (λ q e. let same : next ≡ q = cc in subst Alive same next_alive),
        )
  ]
]

del_1_server-Alive : (p q : Pool) → Alive p → goes_on (del_1_server p) ≡ some q → Alive q
unfolding del_1_server
del_1_server-Alive p q alive e = elim (Bool-cases (p.idle_count == 0)) [
  | inl nothing ↦
      let refuses : del_1_server p ≡ refused p = rw (nothing, del_1_server) refl in
      let same : p ≡ q = cc in subst Alive same alive
  | inr something ↦ elim (Bool-cases (in_state state_idle p.serverpool == 0)) [
    | inl all_busy ↦
        let none_idle =
          release_idle-none p.serverpool
            ((==_iff (in_state state_idle p.serverpool) 0).0 all_busy) in
        let returns : del_1_server p ≡ returned p = rw (something, del_1_server, none_idle) refl in
        let same : p ≡ q = cc in subst Alive same alive
    | inr some_idle ↦
        let idle : 0 < in_state state_idle p.serverpool = ground arith in
        let released = release_idle_lem p.serverpool alive.known idle in
        let next : Pool = record {
          serverpool = released.0;
          idle_count = p.idle_count - 1;
          busy_count = p.busy_count;
        } in
        let returns : del_1_server p ≡ returned next =
          rw (something, del_1_server, released.1) refl in
        let positive : 0 < p.idle_count = ground arith in
        let next_alive : Alive next = record {
          slots = released.2 ∙ alive.slots;
          known = released.3;
          counts = omega (arith, released.4, released.5, alive.counts);
        } in
        let same : next ≡ q = cc in subst Alive same next_alive
  ]
]

scan_pool_cases :
    (exists : ℕ → Bool) (early late : ℕ → Written) (p : Pool)
    → Alive p
    → ((k : ℕ) × (s : Server) × (get_elem? p.serverpool k ≡ some s)
        × Raced exists (early k) (late k) s)
      ⊎ ((q : Pool) × (scan_pool exists early late p ≡ some q) × Alive q)
unfolding scan_pool
scan_pool_cases exists early late p alive =
    elim (scan_slots_cases exists early late 0 p.serverpool alive.known) [
      | inl (k, s, at_k, raced) ↦
          let here : 0 + k ≡ k = omega arith in
          inl (k, s, at_k, subst (λ x. Raced exists (early x) (late x) s) here raced)
      | inr (out, e, h) ↦ inr (
        record { serverpool = out.0; idle_count = out.1; busy_count = out.2 },
        rw (e, scan_pool) refl,
        record { slots = h.same_length ∙ alive.slots; known = h.still_known; counts = h.counts },
      )
    ]

scan_pool-Raced :
    (exists : ℕ → Bool) (early late : ℕ → Written) (p : Pool) (k : ℕ) (s : Server)
    → get_elem? p.serverpool k ≡ some s
    → Raced exists (early k) (late k) s
    → scan_pool exists early late p ≡ none
unfolding scan_pool
scan_pool-Raced exists early late p k s at_k raced =
    let here : k ≡ 0 + k = omega arith in
    let aborts =
      scan_slots-Raced exists early late 0 k p.serverpool s at_k
        (subst (λ x. Raced exists (early x) (late x) s) here raced) in
    rw (aborts, scan_pool) refl

scan_pool-Alive :
    (exists : ℕ → Bool) (early late : ℕ → Written) (p q : Pool)
    → Alive p
    → scan_pool exists early late p ≡ some q
    → Alive q
scan_pool-Alive exists early late p q alive e = elim (scan_pool_cases exists early late p alive) [
  | inl (k, s, at_k, raced) ↦
      let aborts = scan_pool-Raced exists early late p k s at_k raced in
      absurd (let no : none ≢ some q = λ f. cc in no (sym aborts ∙ e))
  | inr (r, f, after) ↦ let same : r ≡ q = cc in subst Alive same after
]

pub PoolStep-Alive : {p q : Pool} → PoolStep p q → Alive p → Alive q
PoolStep-Alive {p = p} (by_job pos a j k slots e) alive =
    let kept = server_job-Kept pos a j k p.serverpool slots alive.known e in
    record { slots = kept.0 ∙ alive.slots; known = kept.1; counts = alive.counts ∙ sym kept.2 }
PoolStep-Alive {p = p} {q = q} (by_scan exists early late e) alive =
    scan_pool-Alive exists early late p q alive e
PoolStep-Alive {p = p} {q = q} (by_add fork e) alive = (add_1_server-Alive fork p alive).1 q e
PoolStep-Alive {p = p} {q = q} (by_del e) alive = del_1_server-Alive p q alive e

PoolSteps-Alive : {p q : Pool} → PoolSteps p q → Alive p → Alive q
PoolSteps-Alive at_once alive = alive
PoolSteps-Alive (and_then before step) alive = PoolStep-Alive step (PoolSteps-Alive before alive)

fresh-IsKnown : (n : ℕ) → All IsKnown (replicate n (record { pid = none; state = 0 }))
fresh-IsKnown zero = tt
fresh-IsKnown (suc n) = (inl refl, fresh-IsKnown n)

pool_init-Alive : Alive pool_init
unfolding pool_init
pool_init-Alive = record { slots = refl; known = fresh-IsKnown max_client; counts = refl }

-- Whatever the children have written since the start, whatever processes have died, and whatever the
-- children write during the scan: a scan of the parent aborts exactly if some child that exists is busy
-- at the first read of its state and writes STATE_IDLE before the second; a scan that ends finds at most
-- MAXCLIENT processes; and adding a server never writes behind the last slot.
pub pool_aborts :
    (p : Pool) (exists : ℕ → Bool) (early late : ℕ → Written) (fork : Option ℕ)
    → PoolSteps pool_init p
    → ((scan_pool exists early late p ≡ none) ↔ (
        (k : ℕ) × (s : Server) × (get_elem? p.serverpool k ≡ some s)
        × Raced exists (early k) (late k) s))
      × ((q : Pool)
          → scan_pool exists early late p ≡ some q
          → q.idle_count + q.busy_count ≤ max_client)
      × (add_1_server fork p ≢ overrun)
pool_aborts p exists early late fork steps =
    let alive = PoolSteps-Alive steps pool_init-Alive in
    (
      (
        λ e. elim (scan_pool_cases exists early late p alive) [
          | inl race ↦ race
          | inr (q, f, after) ↦ absurd (let no : none ≢ some q = λ g. cc in no (sym e ∙ f))
        ],
        λ (k, s, at_k, raced). scan_pool-Raced exists early late p k s at_k raced,
      ),
      λ q e.
          let after = scan_pool-Alive exists early late p q alive e in
          let few = in_state_le q.serverpool in omega (arith, few, after.slots, after.counts),
      (add_1_server-Alive fork p alive).0,
    )
