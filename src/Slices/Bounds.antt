-- ===== src/Slices/Bounds.antt =====
-- A name can be copied into `split_result` up to row 98.
use linux_coding.Common.{
  ℕ, ◌+◌, ◌*◌, ◌≤◌, ◌<◌, ◌≡◌, refl, inl, inr, arith, true, false, [], ◌∷◌, ◌++◌, length,
  length-append, ltb, leb, Bool-cases, some, none,
}
use linux_coding.Slices.{Memory, split_name, row_size, max_slice, copy_name}
use linux_coding.Slices.Names.{split_name-one, split_name-two, stored}

leb-of_le : {a b : ℕ} → a ≤ b → leb a b ≡ true
leb-of_le h = ground arith

leb-of_lt : {a b : ℕ} → b < a → leb a b ≡ false
leb-of_lt h = ground arith

pub copy_name-in_bounds : (m : Memory) (i : ℕ) → i < 99 → copy_name m i ≡ some (stored m i)
unfolding copy_name
copy_name-in_bounds m i h =
    let len = length-append (split_name i) (0 ∷ []) in
    elim (Bool-cases (ltb i 10)) [
      | inl one ↦
          let short : i < 10 = ground arith in
          let fits : leb (row_size * i + length (split_name i ++ (0 ∷ []))) (row_size * max_slice)
              ≡ true =
            leb-of_le (omega (arith, len, (split_name-one i short).0)) in
          rw (fits, copy_name) refl
      | inr two ↦
          let long : 10 ≤ i = ground arith in
          let fits : leb (row_size * i + length (split_name i ++ (0 ∷ []))) (row_size * max_slice)
              ≡ true =
            leb-of_le (omega (arith, len, (split_name-two i long (omega arith)).0)) in
          rw (fits, copy_name) refl
    ]

pub copy_name-past_end : (m : Memory) (i : ℕ) → 99 ≤ i → copy_name m i ≡ none
unfolding copy_name
copy_name-past_end m i h =
    let len = length-append (split_name i) (0 ∷ []) in
    let past : leb (row_size * i + length (split_name i ++ (0 ∷ []))) (row_size * max_slice)
        ≡ false =
      elim (Bool-cases (ltb i 100)) [
        | inl last ↦
            let below : i < 100 = ground arith in
            leb-of_lt (omega (arith, len, (split_name-two i (omega arith) below).0))
        | inr beyond ↦ let above : 100 ≤ i = ground arith in leb-of_lt (omega (arith, len))
      ] in
    rw (past, copy_name) refl
