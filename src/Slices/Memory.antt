-- ===== src/Slices/Memory.antt =====
-- Bytes and strings in memory.
use linux_coding.Common.{
  ℕ, zero, suc, ◌+◌, ◌-◌, ◌≤◌, ◌<◌, ◌≡◌, ◌≢◌, refl, ap, ◌∙◌, subst, arith, false, List, [], ◌∷◌,
  ◌++◌, length, get_or, All, ◌==◌,
}
use linux_coding.Slices.{Memory, store, string_at}

-- The bytes stand in memory from `a` on.
abbrev pub Stands : Memory → ℕ → List ℕ → Type 0
Stands m a [] = Unit
Stands m a (b ∷ bytes) = (m a ≡ b) × Stands m (a + 1) bytes

-- A write does not touch what stands before it.
pub store-before : (m : Memory) (a : ℕ) (bytes : List ℕ) (x : ℕ) → x < a → store m a bytes x ≡ m x
unfolding store
store-before m a bytes x h = ground arith

pub Stands-before :
    (m : Memory) (a : ℕ) (bytes : List ℕ) (x : ℕ) (cs : List ℕ)
    → x + length cs ≤ a
    → Stands m x cs
    → Stands (store m a bytes) x cs
Stands-before m a bytes x [] h s = tt
Stands-before m a bytes x (c ∷ cs) h (here, s) = (
  store-before m a bytes x (omega arith) ∙ here,
  Stands-before m a bytes (x + 1) cs (omega arith) s,
)

store-at :
    (m : Memory) (a : ℕ) (bytes : List ℕ) (k : ℕ)
    → k < length bytes
    → store m a bytes (a + k) ≡ get_or bytes k 0
unfolding store
store-at m a bytes k h =
    let offset : a + k - a ≡ k = omega arith in ground (arith, ap (λ x. get_or bytes x 0) offset)

-- What agrees with a list byte for byte stands there.
Stands-from :
    (m : Memory) (a : ℕ) (bytes : List ℕ)
    → ((k : ℕ) → k < length bytes → m (a + k) ≡ get_or bytes k 0)
    → Stands m a bytes
Stands-from m a [] same = tt
Stands-from m a (b ∷ bytes) same = (
  ap m {x = a} {y = a + 0} (omega arith) ∙ same 0 (omega arith),
  Stands-from m (a + 1) bytes
      (λ k h. ap m {x = a + 1 + k} {y = a + suc k} (omega arith) ∙ same (suc k) (omega arith)),
)

pub store-Stands : (m : Memory) (a : ℕ) (bytes : List ℕ) → Stands (store m a bytes) a bytes
store-Stands m a bytes = Stands-from (store m a bytes) a bytes (store-at m a bytes)

pub Stands-append :
    (m : Memory) (a : ℕ) (bs cs : List ℕ)
    → Stands m a (bs ++ cs)
    → Stands m a bs × Stands m (a + length bs) cs
Stands-append m a [] cs s = (tt, subst (λ x. Stands m x cs) {x = a} (omega arith) s)
Stands-append m a (b ∷ bs) cs (here, s) =
    let parts = Stands-append m (a + 1) bs cs s in
    ((here, parts.0), subst (λ x. Stands m x cs) {x = a + 1 + length bs} (omega arith) parts.1)

-- A string goes on behind bytes that are not NUL.
pub string_at-append :
    (fuel : ℕ) (m : Memory) (a : ℕ) (bs : List ℕ)
    → All (λ b. b ≢ 0) bs
    → Stands m a bs
    → string_at (length bs + fuel) m a ≡ bs ++ string_at fuel m (a + length bs)
unfolding string_at
string_at-append fuel m a [] full s =
    let count : 0 + fuel ≡ fuel = omega arith in
    let same : a + 0 ≡ a = omega arith in rw (count, same) refl
string_at-append fuel m a (b ∷ bs) (f, full) (here, s) =
    let count : suc (length bs) + fuel ≡ suc (length bs + fuel) = omega arith in
    let next : a + 1 + length bs ≡ a + suc (length bs) = omega arith in
    let rest = string_at-append fuel m (a + 1) bs full s in
    let goes_on : b == 0 ≡ false = ground arith in
    rw (count, string_at, here, goes_on)
      (ap (λ xs. b ∷ xs) (rest ∙ ap (λ x. bs ++ string_at fuel m x) next))

pub string_at-end : (fuel : ℕ) (m : Memory) (a : ℕ) → m a ≡ 0 → string_at fuel m a ≡ []
unfolding string_at
string_at-end zero m a h = refl
string_at-end (suc fuel) m a h = rw (h, string_at) refl
