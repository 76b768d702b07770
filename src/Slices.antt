-- ===== src/Slices.antt =====
-- homework/openssl/myslicer.c: a file cut into slices of 64 bytes, each written into a file of its own,
-- and the digests of the slices written into one more file. The names of the slices stand in
-- `split_result`, an array of 100 rows of 12 bytes, which is memory here: a byte for each offset.
-- fopen of the slices succeeds; MD5, of OpenSSL, and the reading of files are parameters.
pub mod Memory
pub mod Names
pub mod Bounds
pub mod Cut
pub mod PastEnd
pub mod Hex
mod Tests
use linux_coding.Common.{
  ℕ, zero, suc, ◌+◌, ◌-◌, ◌*◌, ◌/◌, ◌%◌, Bool, true, false, ◌&&◌, Option, some, none, List, [], ◌∷◌,
  ◌++◌, length, take, drop, get_or, ◌==◌, ltb, leb, if◌then◌else◌,
}

-- `BUFSIZE`, the size of a row, `MAX_SLICE`.
abbrev pub buf_size : ℕ
buf_size = 64

abbrev pub row_size : ℕ
row_size = 12

abbrev pub max_slice : ℕ
max_slice = 100

-- `%d` of a number that is not negative; the fuel bounds the digits.
unfoldable pub decimal_loop : ℕ → ℕ → List ℕ
decimal_loop zero n = []
decimal_loop (suc fuel) n =
    let rest = decimal_loop fuel (n / 10) in
    if ltb n 10 then (48 + n) ∷ [] else rest ++ ((48 + n % 10) ∷ [])

unfoldable pub decimal : ℕ → List ℕ
decimal n = decimal_loop (n + 1) n

-- `sprintf(split, "split_%d.txt", slice_count)`, without the NUL.
unfoldable pub split_name : ℕ → List ℕ
split_name n = 115 ∷ 112 ∷ 108 ∷ 105 ∷ 116 ∷ 95 ∷ (decimal n ++ (46 ∷ 116 ∷ 120 ∷ 116 ∷ []))

-- A byte of `split_result` for each offset.
abbrev pub Memory : Type 0
Memory = ℕ → ℕ

-- Bytes written from an offset on.
unfoldable pub store : Memory → ℕ → List ℕ → Memory
store m a bytes = λ x. if leb a x && ltb x (a + length bytes) then get_or bytes (x - a) 0 else m x

-- `strcpy(split_result[slice_count], split)`; `none` is a write past the end of the array.
unfoldable pub copy_name : Memory → ℕ → Option Memory
copy_name m i =
    let bytes = split_name i ++ (0 ∷ []) in
    if leb (row_size * i + length bytes) (row_size * max_slice)
    then some (store m (row_size * i) bytes)
    else none

-- A string from an offset on, up to its NUL; the fuel bounds its length.
unfoldable pub string_at : ℕ → Memory → ℕ → List ℕ
string_at zero m a = []
string_at (suc fuel) m a =
    let rest = string_at fuel m (a + 1) in if m a == 0 then [] else m a ∷ rest

-- `split_result`, `slice_count`, and the slices written, each with its name, oldest first.
pub record Slicer : Type 0 where
  split_result : Memory
  slice_count : ℕ
  written : List (List ℕ × List ℕ)

unfoldable pub slicer_init : Slicer
slicer_init = record { split_result = λ a. 0; slice_count = 0; written = [] }

-- How the loop of `slice` ends: at the end of the file, or in the copy of a name that writes past the
-- end of `split_result`, with the state before it; or it is out of fuel.
pub data SliceEnd : Type 0 where
  sliced : Slicer → SliceEnd
  past_end : Slicer → SliceEnd
  out_of_fuel : SliceEnd

-- The loop of `slice` with `file` left to read.
unfoldable pub slice_loop : ℕ → List ℕ → Slicer → SliceEnd
slice_loop fuel [] s = sliced s
slice_loop zero (b ∷ file) s = out_of_fuel
slice_loop (suc fuel) (b ∷ file) s = elim (copy_name s.split_result s.slice_count) [
  | none ↦ past_end s
  | some names ↦ slice_loop fuel (drop buf_size (b ∷ file)) (record {
    split_result = names;
    slice_count = s.slice_count + 1;
    written = s.written ++ ((split_name s.slice_count, take buf_size (b ∷ file)) ∷ []);
  })
]

-- `slice` of a file that can be opened.
unfoldable pub slice : List ℕ → Slicer → SliceEnd
slice file s = slice_loop (length file) file s

-- `%02x` of a byte.
unfoldable pub hex_digit : ℕ → ℕ
hex_digit n = if ltb n 10 then 48 + n else 87 + n

unfoldable pub hex_byte : ℕ → List ℕ
hex_byte n = hex_digit (n / 16) ∷ hex_digit (n % 16) ∷ []

-- `for(int i = 0; i < MD5_DIGEST_LENGTH; i++) ptr += sprintf(ptr, "%02x", hash[i])`
unfoldable pub hex_string : List ℕ → List ℕ
hex_string [] = []
hex_string (b ∷ hash) = hex_byte b ++ hex_string hash

-- `evp_file_to_md5`, where `digest` is MD5 of the contents of a file, `none` if it cannot be opened.
unfoldable pub evp_file_to_md5 : (List ℕ → Option (List ℕ)) → List ℕ → Option (List ℕ)
evp_file_to_md5 digest name = elim (digest name) [
  | none ↦ none
  | some hash ↦ some (hex_string hash)
]

-- The lines of `write_to_meta` for `count` slices from row `i` on, 32 bytes and an end of line each;
-- `none` is a read through the null pointer that evp_file_to_md5 returned.
unfoldable pub meta_lines : (List ℕ → Option (List ℕ)) → Memory → ℕ → ℕ → Option (List ℕ)
meta_lines digest m zero i = some []
meta_lines digest m (suc count) i =
    let rest = meta_lines digest m count (i + 1) in
    elim (evp_file_to_md5 digest (string_at (row_size * max_slice) m (row_size * i))) [
      | none ↦ none
      | some str_receive ↦ elim rest [
        | none ↦ none
        | some more ↦ some (take 32 str_receive ++ (10 ∷ more))
      ]
    ]

-- `write_to_meta` after `slice`: what stands in the meta file.
unfoldable pub write_to_meta : (List ℕ → Option (List ℕ)) → List ℕ → Slicer → Option (List ℕ)
write_to_meta digest filename s = elim (meta_lines digest s.split_result s.slice_count 0) [
  | none ↦ none
  | some lines ↦ elim (evp_file_to_md5 digest filename) [
    | none ↦ none
    | some str_receive ↦ some (lines ++ take 32 str_receive)
  ]
]
