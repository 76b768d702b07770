-- ===== src/Counters/Rounds.antt =====
-- Threads that raise and lower one counter between 0 and `cap`, each in a number of rounds: what
-- thread/posix/productor_consumer/pc.c and homework/parking.c share.
use linux_coding.Common.{
  ℕ, zero, suc, ◌+◌, ◌-◌, ◌≤◌, ◌<◌, ◌≡◌, ◌≢◌, ◌⊎◌, inl, inr, refl, sym, ap, ◌∙◌, Option, some, none,
  List, [], ◌∷◌, arith, ◌&&◌, Bool-cases, ◌==◌, ltb, if◌then◌else◌,
}

-- The rounds that threads have left, one number to a thread.
abbrev pub sum : List ℕ → ℕ
sum [] = 0
sum (x ∷ xs) = x + sum xs

-- One thread goes through one round.
pub data Spend : List ℕ → List ℕ → Type 0 where
  first : {n : ℕ} {xs : List ℕ} → Spend (suc n ∷ xs) (n ∷ xs)
  later : {x : ℕ} {xs ys : List ℕ} → Spend xs ys → Spend (x ∷ xs) (x ∷ ys)

pub sum-Spend : {xs ys : List ℕ} → Spend xs ys → sum xs ≡ suc (sum ys)
sum-Spend first = omega arith
sum-Spend (later s) = omega (arith, sum-Spend s)

-- Where a round is left, a thread can go through it.
pub Spend-of_lt : (xs : List ℕ) → 0 < sum xs → (ys : List ℕ) × Spend xs ys
Spend-of_lt [] h = absurd (omega arith)
Spend-of_lt (zero ∷ xs) h = let (ys, s) = Spend-of_lt xs (omega arith) in (zero ∷ ys, Spend.later s)
Spend-of_lt (suc n ∷ xs) h = (n ∷ xs, Spend.first)

-- The counter, and the rounds left to the threads that raise it and to those that lower it.
pub record System : Type 0 where
  pub level : ℕ
  pub raisers : List ℕ
  pub lowerers : List ℕ

module _ (rise fall : ℕ → Option ℕ) where
  -- A thread whose round does not have to wait goes through it.
  pub data Step (s t : System) : Type 0 where
    up :
        rise s.level ≡ some t.level → Spend s.raisers t.raisers → t.lowerers ≡ s.lowerers → Step s t
    down :
        fall s.level ≡ some t.level → Spend s.lowerers t.lowerers → t.raisers ≡ s.raisers → Step s t

  -- The states after a number of steps.
  pub data Runs (start : System) : ℕ → System → Type 0 where
    here : Runs start 0 start
    more : {n : ℕ} {s t : System} → Runs start n s → Step s t → Runs start (suc n) t

  -- The counter within its bound, the balance of the rounds gone through, and their number.
  pub record Balanced (cap extra total n : ℕ) (s : System) : Type 0 where
    pub bound : s.level ≤ cap
    pub balance : s.level + sum s.raisers ≡ sum s.lowerers + extra
    pub spent : n + sum s.raisers + sum s.lowerers ≡ total

  module _ (cap : ℕ) (rises : (n : ℕ) → rise n ≡ (if n == cap then none else some (n + 1)))
      (falls : (n : ℕ) → fall n ≡ (if n == 0 then none else some (n - 1))) where
    rise_inv : (n : ℕ) {m : ℕ} → rise n ≡ some m → (m ≡ n + 1) × (n ≢ cap)
    rise_inv n {m} h =
        let e : (if n == cap then none else some (n + 1)) ≡ some m = sym (rises n) ∙ h in
        (ground arith, ground arith)

    fall_inv : (n : ℕ) {m : ℕ} → fall n ≡ some m → m + 1 ≡ n
    fall_inv n {m} h =
        let e : (if n == 0 then none else some (n - 1)) ≡ some m = sym (falls n) ∙ h in ground arith

    rise-of_lt : (n : ℕ) → n < cap → rise n ≡ some (n + 1)
    rise-of_lt n h =
        let e : (if n == cap then none else some (n + 1)) ≡ some (n + 1) = ground arith in
        rises n ∙ e

    fall-of_lt : (n : ℕ) → 0 < n → fall n ≡ some (n - 1)
    fall-of_lt n h =
        let e : (if n == 0 then none else some (n - 1)) ≡ some (n - 1) = ground arith in falls n ∙ e

    Step-Balanced :
        {extra total n : ℕ} {s t : System}
        → Step s t
        → Balanced cap extra total n s
        → Balanced cap extra total (suc n) t
    Step-Balanced {extra} {total} {n} {s} {t} (up e p c) b =
        let d = sum-Spend p in
        let k = ap sum c in
        let i = rise_inv s.level e in
        let hb = b.bound in
        let hl = b.balance in
        let hs = b.spent in
        record { bound = omega arith; balance = omega arith; spent = omega arith }
    Step-Balanced {extra} {total} {n} {s} {t} (down e p c) b =
        let d = sum-Spend p in
        let k = ap sum c in
        let i = fall_inv s.level e in
        let hb = b.bound in
        let hl = b.balance in
        let hs = b.spent in
        record { bound = omega arith; balance = omega arith; spent = omega arith }

    pub Runs-Balanced :
        {extra total : ℕ} {start : System} {n : ℕ} {s : System}
        → Balanced cap extra total 0 start
        → Runs start n s
        → Balanced cap extra total n s
    Runs-Balanced b here = b
    Runs-Balanced b (more r st) = Step-Balanced st (Runs-Balanced b r)

    -- While a round is left, some thread can go on.
    pub Balanced-Step :
        {extra total n : ℕ} {s : System}
        → extra ≤ cap
        → 0 < cap
        → Balanced cap extra total n s
        → (n ≡ total) ⊎ ((t : System) × Step s t)
    Balanced-Step {extra} {total} {n} {s} le pos_cap b =
        let hb = b.bound in
        let hl = b.balance in
        let hs = b.spent in
        elim (Bool-cases (ltb 0 (sum s.raisers) && ltb s.level cap)) [
          | inl e ↦
              let (ys, sp) = Spend-of_lt s.raisers (ground arith) in
              inr (
                record { level = s.level + 1; raisers = ys; lowerers = s.lowerers },
                up (rise-of_lt s.level (ground arith)) sp refl,
              )
          | inr e ↦ elim (Bool-cases (ltb 0 (sum s.lowerers))) [
            | inl f ↦
                let (ys, sp) = Spend-of_lt s.lowerers (ground arith) in
                inr (
                  record { level = s.level - 1; raisers = s.raisers; lowerers = ys },
                  down (fall-of_lt s.level (ground arith)) sp refl,
                )
            | inr f ↦ inl (ground arith)
          ]
        ]
