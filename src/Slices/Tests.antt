-- ===== src/Slices/Tests.antt =====
-- Small files, and the witnesses of the theorems.
use linux_coding.Common.{
  ℕ, zero, suc, ◌*◌, ◌<◌, ◌≡◌, refl, arith, List, [], ◌∷◌, ◌++◌, length, length-replicate,
  replicate, All, ltb, if◌then◌else◌, some, take, ◌+◌,
}
use linux_coding.Slices.{
  slice_loop, copy_name, Slicer, SliceEnd, slicer_init, split_name, decimal, decimal_loop, row_size,
  max_slice, slice, string_at, hex_string, hex_byte, hex_digit, write_to_meta,
}
use linux_coding.Slices.Names.{Rows, start-Rows, stored, stored-Rows, run_together}
use linux_coding.Slices.Cut.{slice-run_together, contents, names, split_names, slices, slice-Sliced}
use linux_coding.Slices.PastEnd.{slice-past_end}
use linux_coding.Slices.Hex.{lines, write_to_meta-lines}

-- `split_10.txt`
name_of_ten : split_name 10 ≡ 115 ∷ 112 ∷ 108 ∷ 105 ∷ 116 ∷ 95 ∷ 49 ∷ 48 ∷ 46 ∷ 116 ∷ 120 ∷ 116 ∷ []
unfolding split_name decimal decimal_loop
name_of_ten = refl

text_of_bytes : hex_string (10 ∷ 255 ∷ []) ≡ 48 ∷ 97 ∷ 102 ∷ 102 ∷ []
unfolding hex_string hex_byte hex_digit
text_of_bytes = refl

abbrev file : List ℕ
file = 1 ∷ 2 ∷ 3 ∷ []

slice-Sliced_example :
    (t : Slicer) × (slice file slicer_init ≡ SliceEnd.sliced t)
    × (t.slice_count ≡ slices 3)
    × (contents t.written ≡ file)
    × (names t.written ≡ split_names (slices 3) 0)
    × Rows t.slice_count t.split_result
slice-Sliced_example = slice-Sliced file (omega arith)

abbrev after_slice : Slicer
after_slice = record {
  split_result = stored (λ a. 0) 0;
  slice_count = 1;
  written = (split_name 0, file) ∷ [];
}

file-cut : slice file slicer_init ≡ SliceEnd.sliced after_slice
unfolding slice slice_loop slicer_init copy_name split_name decimal decimal_loop
file-cut = refl

slice-run_together_example :
    string_at (row_size * max_slice) after_slice.split_result 0
    ≡ (if ltb 0 10 then split_name 0 else run_together 1 0)
slice-run_together_example =
    slice-run_together file after_slice 0 (omega arith) file-cut (omega arith)

abbrev large_file : List ℕ
large_file = replicate 6400 1

large_enough : 99 * 64 < length large_file
large_enough = omega (arith, length-replicate {A = ℕ} 6400 1)

slice-past_end_example :
    (t : Slicer) × (slice large_file slicer_init ≡ SliceEnd.past_end t)
    × (t.slice_count ≡ 99)
    × (contents t.written ≡ take (99 * 64) large_file)
    × (row_size * t.slice_count + length (split_name t.slice_count) ≡ row_size * max_slice)
slice-past_end_example = slice-past_end large_file large_enough

abbrev hash : List ℕ
hash = replicate 16 7

hash_small : All (λ b. b < 256) hash
hash_small = all_sevens 16
  where
    all_sevens : (n : ℕ) → All (λ b. b < 256) (replicate n 7)
    all_sevens zero = tt
    all_sevens (suc n) = (omega arith, all_sevens n)

abbrev one_slice : Slicer
one_slice = record { split_result = stored (λ a. 0) 0; slice_count = 1; written = [] }

one_slice-Rows : Rows 1 (stored (λ a. 0) 0)
one_slice-Rows = stored-Rows (λ a. 0) 0 (omega arith) start-Rows

write_to_meta-lines_example :
    write_to_meta (λ name. some hash) (5 ∷ []) one_slice
    ≡ some (lines (λ i. hash) 1 0 ++ hex_string hash)
write_to_meta-lines_example =
    write_to_meta-lines (λ name. some hash) (λ i. hash) (5 ∷ []) hash one_slice one_slice-Rows
      (omega arith) (λ i h. (refl, refl, hash_small)) (refl, refl, hash_small)
