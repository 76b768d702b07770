-- ===== src/Slices/Hex.antt =====
-- Digests as text, and the meta file.
use linux_coding.Common.{
  ℕ, zero, suc, ◌+◌, ◌-◌, ◌*◌, ◌/◌, ◌%◌, ◌≤◌, ◌<◌, ◌≡◌, inl, inr, refl, ap, ap₂, ◌∙◌, subst, arith,
  List, [], ◌∷◌, ◌++◌, append-nil, length, take, All, ltb, if◌then◌else◌, Bool-cases, Option, some,
}
use linux_coding.Slices.{
  Memory, Slicer, split_name, row_size, max_slice, string_at, hex_digit, hex_byte, hex_string,
  evp_file_to_md5, meta_lines, write_to_meta,
}
use linux_coding.Slices.Names.{Rows, run_together, string_at-Rows}

-- The value of a digit, and of the text of bytes.
pub digit_value : ℕ → ℕ
digit_value c = if ltb c 58 then c - 48 else c - 87

pub bytes_value : List ℕ → List ℕ
bytes_value [] = []
bytes_value (c ∷ []) = []
bytes_value (c ∷ d ∷ text) = (16 * digit_value c + digit_value d) ∷ bytes_value text

digit_value-hex_digit : (n : ℕ) → n < 16 → digit_value (hex_digit n) ≡ n
unfolding digit_value hex_digit
digit_value-hex_digit n h = ground arith

-- The text of a digest has two characters for each byte, and no two digests have the same text.
pub bytes_value-hex_string :
    (hash : List ℕ)
    → All (λ b. b < 256) hash
    → (bytes_value (hex_string hash) ≡ hash) × (length (hex_string hash) ≡ 2 * length hash)
unfolding bytes_value hex_string hex_byte
bytes_value-hex_string [] small = (refl, refl)
bytes_value-hex_string (b ∷ hash) (h, small) =
    let rest = bytes_value-hex_string hash small in
    let high = digit_value-hex_digit (b / 16) (omega arith) in
    let low = digit_value-hex_digit (b % 16) (omega arith) in
    let value : 16 * digit_value (hex_digit (b / 16)) + digit_value (hex_digit (b % 16)) ≡ b =
      omega (arith, high, low) in
    (ap₂ (λ x xs. x ∷ xs) value rest.0, omega (arith, rest.1))

-- The lines of digests.
pub lines : (ℕ → List ℕ) → ℕ → ℕ → List ℕ
lines hash zero i = []
lines hash (suc count) i = hex_string (hash i) ++ (10 ∷ lines hash count (i + 1))

take-exact : (xs : List ℕ) → take (length xs) xs ≡ xs
take-exact [] = refl
take-exact (x ∷ xs) = ap (λ l. x ∷ l) (take-exact xs)

-- The name read for each of up to eleven slices is its own.
name_read :
    (count : ℕ) (m : Memory) (i : ℕ)
    → Rows count m
    → count ≤ 11
    → i < count
    → string_at (row_size * max_slice) m (row_size * i) ≡ split_name i
unfolding run_together
name_read count m i rows few below =
    string_at-Rows count m i rows (omega arith) below ∙ elim (Bool-cases (ltb i 10)) [
      | inl one ↦ rw one refl
      | inr two ↦
          let last : count - i ≡ 1 = (let large : 10 ≤ i = ground arith in omega arith) in
          rw (two, last) (append-nil (split_name i))
    ]

-- The text of a digest of 16 bytes is written whole.
md5_text :
    (digest : List ℕ → Option (List ℕ)) (name hash : List ℕ)
    → (digest name ≡ some hash) × (length hash ≡ 16) × All (λ b. b < 256) hash
    → (evp_file_to_md5 digest name ≡ some (hex_string hash))
      × (take 32 (hex_string hash) ≡ hex_string hash)
unfolding evp_file_to_md5
md5_text digest name hash (e, len, small) =
    let text : length (hex_string hash) ≡ 32 =
      omega (arith, (bytes_value-hex_string hash small).1) in
    (
      rw (e, evp_file_to_md5) refl,
      subst (λ n. take n (hex_string hash) ≡ hex_string hash) text (take-exact (hex_string hash)),
    )

meta_lines-lines :
    (digest : List ℕ → Option (List ℕ)) (hash : ℕ → List ℕ) (count : ℕ) (m : Memory)
    → Rows count m
    → count ≤ 11
    → ((i : ℕ)
        → i < count
        → (digest (split_name i) ≡ some (hash i))
          × (length (hash i) ≡ 16)
          × All (λ b. b < 256) (hash i))
    → (k i : ℕ) → i + k ≡ count
    → meta_lines digest m k i ≡ some (lines hash k i)
unfolding meta_lines lines
meta_lines-lines digest hash count m rows few digests zero i e = refl
meta_lines-lines digest hash count m rows few digests (suc k) i e =
    let rest = meta_lines-lines digest hash count m rows few digests k (i + 1) (omega arith) in
    let name = name_read count m i rows few (omega arith) in
    let text = md5_text digest (split_name i) (hash i) (digests i (omega arith)) in
    rw (name, text.0, rest, meta_lines, text.1) refl

-- With up to eleven slices, each of whose files has the digest `hash i` of 16 bytes, and the digest
-- `all` of the file itself, the meta file holds one line for each slice in order, and the text of
-- `all` behind them.
pub write_to_meta-lines :
    (digest : List ℕ → Option (List ℕ)) (hash : ℕ → List ℕ) (filename whole : List ℕ) (s : Slicer)
    → Rows s.slice_count s.split_result
    → s.slice_count ≤ 11
    → ((i : ℕ)
        → i < s.slice_count
        → (digest (split_name i) ≡ some (hash i))
          × (length (hash i) ≡ 16)
          × All (λ b. b < 256) (hash i))
    → (digest filename ≡ some whole) × (length whole ≡ 16) × All (λ b. b < 256) whole
    → write_to_meta digest filename s ≡ some (lines hash s.slice_count 0 ++ hex_string whole)
unfolding write_to_meta
write_to_meta-lines digest hash filename whole s rows few digests total =
    let each =
      meta_lines-lines digest hash s.slice_count s.split_result rows few digests s.slice_count 0
        (omega arith) in
    let last = md5_text digest filename whole total in rw (each, write_to_meta, last.0, last.1) refl
