-- ===== src/Slices/Names.antt =====
-- The names of the slices in `split_result`: those up to 9 fit their rows, those from 10 on run
-- together.
use linux_coding.Common.{
  ℕ, zero, suc, ◌+◌, ◌-◌, ◌*◌, ◌/◌, ◌%◌, ◌≤◌, ◌<◌, ◌≡◌, ◌≢◌, inl, inr, refl, sym, ap, ◌∙◌, subst,
  arith, true, false, List, [], ◌∷◌, ◌++◌, append-nil, length, length-append, All, ◌==◌, ==_iff,
  ltb, if◌then◌else◌, Bool-cases,
}
use linux_coding.Slices.{
  Memory, store, string_at, split_name, decimal, decimal_loop, row_size, max_slice,
}
use linux_coding.Slices.Memory.{
  Stands, Stands-before, store-Stands, Stands-append, string_at-append, string_at-end,
}

-- The digits of the counts that occur.
decimal_one : (n : ℕ) → n < 10 → decimal n ≡ (48 + n) ∷ []
unfolding decimal decimal_loop
decimal_one n h =
    let fuel : n + 1 ≡ suc n = omega arith in
    let one : ltb n 10 ≡ true = ground arith in rw (fuel, decimal_loop, one) refl

decimal_two : (n : ℕ) → 10 ≤ n → n < 100 → decimal n ≡ (48 + n / 10) ∷ (48 + n % 10) ∷ []
unfolding decimal decimal_loop
decimal_two n low high =
    let fuel : n + 1 ≡ suc (suc (n - 1)) = omega arith in
    let two : ltb n 10 ≡ false = ground arith in
    let one : ltb (n / 10) 10 ≡ true = (let small : n / 10 < 10 = omega arith in ground arith) in
    rw (fuel, decimal_loop, two, one) refl

abbrev name_head : List ℕ
name_head = 115 ∷ 112 ∷ 108 ∷ 105 ∷ 116 ∷ 95 ∷ []

-- No byte of a name is NUL, and a name fills its row from 10 on.
pub split_name-one :
    (n : ℕ) → n < 10 → (length (split_name n) ≡ 11) × All (λ b. b ≢ 0) (split_name n)
unfolding split_name
split_name-one n h =
    rw (decimal_one n h, split_name)
      (
        refl,
        (
          omega arith,
          (
            omega arith,
            (
              omega arith,
              (
                omega arith,
                (
                  omega arith,
                  (
                    omega arith,
                    (omega arith, (omega arith, (omega arith, (omega arith, (omega arith, tt))))),
                  ),
                ),
              ),
            ),
          ),
        ),
      )

pub split_name-two :
    (n : ℕ) → 10 ≤ n → n < 100 → (length (split_name n) ≡ 12) × All (λ b. b ≢ 0) (split_name n)
unfolding split_name
split_name-two n low high =
    rw (decimal_two n low high, split_name)
      (
        refl,
        (
          omega arith,
          (
            omega arith,
            (
              omega arith,
              (
                omega arith,
                (
                  omega arith,
                  (
                    omega arith,
                    (
                      omega arith,
                      (omega arith, (omega arith, (omega arith, (omega arith, (omega arith, tt))))),
                    ),
                  ),
                ),
              ),
            ),
          ),
        ),
      )

pub split_name-full : (n : ℕ) → n < 100 → All (λ b. b ≢ 0) (split_name n)
split_name-full n h = elim (Bool-cases (ltb n 10)) [
  | inl one ↦ (split_name-one n (ground arith)).1
  | inr two ↦ (split_name-two n (ground arith) h).1
]

-- `split_result` after `count` slices: whole names in the rows up to 9, names without their NUL in the
-- rows from 10 on, and a NUL behind the last.
pub record Rows (count : ℕ) (m : Memory) : Type 0 where
  short : (i : ℕ) → i < count → i < 10 → Stands m (row_size * i) (split_name i ++ (0 ∷ []))
  long : (i : ℕ) → i < count → 10 ≤ i → Stands m (row_size * i) (split_name i)
  ended : 10 < count → m (row_size * count) ≡ 0

abbrev pub stored : Memory → ℕ → Memory
stored m i = store m (row_size * i) (split_name i ++ (0 ∷ []))

short_length : (i : ℕ) → i < 10 → length (split_name i ++ (0 ∷ [])) ≡ 12
short_length i h = omega (arith, length-append (split_name i) (0 ∷ []), (split_name-one i h).0)

pub stored-Rows :
    (m : Memory) (count : ℕ) → count < 100 → Rows count m → Rows (count + 1) (stored m count)
stored-Rows m count small rows =
    let here : Stands (stored m count) (row_size * count) (split_name count ++ (0 ∷ [])) =
      store-Stands m (row_size * count) (split_name count ++ (0 ∷ [])) in
    let parts =
      Stands-append (stored m count) (row_size * count) (split_name count) (0 ∷ []) here in
    record {
      short = λ i below one. elim (Bool-cases (i == count)) [
        | inl same ↦
            subst (λ x. Stands (stored m count) (row_size * x) (split_name x ++ (0 ∷ [])))
              (sym ((==_iff i count).0 same)) here
        | inr other ↦
            let before : i < count = ground arith in
            Stands-before m (row_size * count) (split_name count ++ (0 ∷ [])) (row_size * i)
              (split_name i ++ (0 ∷ [])) (omega (arith, short_length i one))
              (rows.short i before one)
      ];
      long = λ i below two. elim (Bool-cases (i == count)) [
        | inl same ↦
            subst (λ x. Stands (stored m count) (row_size * x) (split_name x))
              (sym ((==_iff i count).0 same)) parts.0
        | inr other ↦
            let before : i < count = ground arith in
            Stands-before m (row_size * count) (split_name count ++ (0 ∷ [])) (row_size * i)
              (split_name i) (omega (arith, (split_name-two i two (omega arith)).0))
              (rows.long i before two)
      ];
      ended = λ large.
          let next : row_size * count + length (split_name count) ≡ row_size * (count + 1) =
            omega (arith, (split_name-two count (omega arith) small).0) in
          subst (λ x. stored m count x ≡ 0) next parts.1.0;
    }

pub start-Rows : Rows 0 (λ a. 0)
start-Rows = record {
  short = λ i h. absurd (omega arith);
  long = λ i h. absurd (omega arith);
  ended = λ h. refl;
}

-- `count` names from `i` on, one behind the other.
unfoldable pub run_together : ℕ → ℕ → List ℕ
run_together zero i = []
run_together (suc count) i = split_name i ++ run_together count (i + 1)

-- A name up to 9 is read back.
short_read :
    (fuel count : ℕ) (m : Memory) (i : ℕ)
    → Rows count m
    → i < count
    → i < 10
    → string_at (11 + fuel) m (row_size * i) ≡ split_name i
short_read fuel count m i rows below one =
    let parts = Stands-append m (row_size * i) (split_name i) (0 ∷ []) (rows.short i below one) in
    let name = split_name-one i one in
    let long : length (split_name i) + fuel ≡ 11 + fuel = omega (arith, name.0) in
    subst (λ f. string_at f m (row_size * i) ≡ split_name i) long
      (string_at-append fuel m (row_size * i) (split_name i) name.1 parts.0
        ∙ ap (λ xs. split_name i ++ xs)
            (string_at-end fuel m (row_size * i + length (split_name i)) parts.1.0)
        ∙ append-nil (split_name i))

-- A name from 10 on is read with all names behind it.
long_read :
    (k fuel count : ℕ) (m : Memory) (i : ℕ)
    → Rows count m
    → count ≤ 100
    → 10 < count
    → 10 ≤ i
    → i + k ≡ count
    → string_at (row_size * k + fuel) m (row_size * i) ≡ run_together k i
unfolding run_together
long_read zero fuel count m i rows small large two e =
    string_at-end (0 + fuel) m (row_size * i)
      (subst (λ x. m (row_size * x) ≡ 0) {x = count} (omega arith) (rows.ended large))
long_read (suc k) fuel count m i rows small large two e =
    let name = split_name-two i two (omega arith) in
    let rest = long_read k fuel count m (i + 1) rows small large (omega arith) (omega arith) in
    let next : row_size * (i + 1) ≡ row_size * i + length (split_name i) = omega (arith, name.0) in
    let more : length (split_name i) + (row_size * k + fuel) ≡ row_size * suc k + fuel =
      omega (arith, name.0) in
    subst (λ f. string_at f m (row_size * i) ≡ split_name i ++ run_together k (i + 1)) more
      (string_at-append (row_size * k + fuel) m (row_size * i) (split_name i) name.1
          (rows.long i (omega arith) two)
        ∙ ap (λ xs. split_name i ++ xs)
            (subst (λ x. string_at (row_size * k + fuel) m x ≡ run_together k (i + 1)) next rest))

-- What is read back as the name of a slice.
pub string_at-Rows :
    (count : ℕ) (m : Memory) (i : ℕ)
    → Rows count m
    → count ≤ 100
    → i < count
    → string_at (row_size * max_slice) m (row_size * i)
      ≡ (if ltb i 10 then split_name i else run_together (count - i) i)
string_at-Rows count m i rows small below = elim (Bool-cases (ltb i 10)) [
  | inl one ↦ rw one (short_read 1189 count m i rows below (ground arith))
  | inr two ↦
      let large : 10 ≤ i = ground arith in
      let fuel : row_size * (count - i) + (1200 - row_size * (count - i)) ≡ 1200 = omega arith in
      rw two (
        subst (λ f. string_at f m (row_size * i) ≡ run_together (count - i) i) fuel
          (long_read (count - i) (1200 - row_size * (count - i)) count m i rows small (omega arith)
            large (omega arith)))
]
