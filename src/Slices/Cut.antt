-- ===== src/Slices/Cut.antt =====
-- What `slice` writes: pieces of 64 bytes that are together the file, for up to 99 of them.
use linux_coding.Common.{
  ℕ, zero, suc, ◌+◌, ◌-◌, ◌*◌, ◌/◌, ◌≤◌, ◌<◌, ◌≡◌, refl, sym, ap, subst, ◌∙◌, arith, List, [], ◌∷◌,
  ◌++◌, append-nil, append_assoc, length, take, drop, take-append-drop, length-drop, ltb,
  if◌then◌else◌,
}
use linux_coding.Slices.{
  Slicer, slicer_init, split_name, row_size, buf_size, max_slice, slice_loop, slice, string_at,
  sliced,
}
use linux_coding.Slices.Names.{Rows, start-Rows, stored, stored-Rows, run_together, string_at-Rows}
use linux_coding.Slices.Bounds.{copy_name-in_bounds}

-- The contents of the slices, one behind the other.
pub contents : List (List ℕ × List ℕ) → List ℕ
contents [] = []
contents ((name, piece) ∷ written) = piece ++ contents written

pub names : List (List ℕ × List ℕ) → List (List ℕ)
names [] = []
names ((name, piece) ∷ written) = name ∷ names written

-- The names of `count` slices from `i` on.
pub split_names : ℕ → ℕ → List (List ℕ)
split_names zero i = []
split_names (suc count) i = split_name i ∷ split_names count (i + 1)

-- The slices of a file of `n` bytes.
abbrev pub slices : ℕ → ℕ
slices n = (n + 63) / 64

pub contents-nil : contents [] ≡ []
unfolding contents
contents-nil = refl

pub contents-snoc :
    (written : List (List ℕ × List ℕ)) (name piece : List ℕ)
    → contents (written ++ ((name, piece) ∷ [])) ≡ contents written ++ piece
unfolding contents
contents-snoc [] name piece = append-nil piece
contents-snoc ((n, p) ∷ written) name piece =
    ap (λ xs. p ++ xs) (contents-snoc written name piece)
    ∙ sym (append_assoc p (contents written) piece)

names-snoc :
    (written : List (List ℕ × List ℕ)) (name piece : List ℕ)
    → names (written ++ ((name, piece) ∷ [])) ≡ names written ++ (name ∷ [])
unfolding names
names-snoc [] name piece = refl
names-snoc ((n, p) ∷ written) name piece = ap (λ xs. n ∷ xs) (names-snoc written name piece)

-- What holds once `file` has been cut from the state `s` on.
pub record Sliced (s : Slicer) (file : List ℕ) (t : Slicer) : Type 0 where
  counted : t.slice_count ≡ s.slice_count + slices (length file)
  rows : Rows t.slice_count t.split_result
  whole : contents t.written ≡ contents s.written ++ file
  named : names t.written ≡ names s.written ++ split_names (slices (length file)) s.slice_count

add_zero_left : (n : ℕ) → 0 + n ≡ n
add_zero_left n = omega arith

slices_next : (n : ℕ) → 1 ≤ n → slices n ≡ suc (slices (n - 64))
slices_next n h = omega arith

pub slice_loop-Sliced :
    (fuel : ℕ) (file : List ℕ) (s : Slicer)
    → length file ≤ fuel
    → s.slice_count + slices (length file) ≤ 99
    → Rows s.slice_count s.split_result
    → (t : Slicer) × (slice_loop fuel file s ≡ sliced t) × Sliced s file t
unfolding slice_loop split_names
slice_loop-Sliced fuel [] s enough few rows = (
  s,
  refl,
  record {
    counted = omega arith;
    rows = rows;
    whole = sym (append-nil (contents s.written));
    named = sym (append-nil (names s.written));
  },
)
slice_loop-Sliced zero (b ∷ file) s enough few rows = absurd (omega arith)
slice_loop-Sliced (suc fuel) (b ∷ file) s enough few rows =
    let left = drop buf_size (b ∷ file) in
    let len : length left ≡ length (b ∷ file) - 64 = length-drop buf_size (b ∷ file) in
    let one_more : slices (length (b ∷ file)) ≡ suc (slices (length left)) =
      slices_next (length (b ∷ file)) (omega arith) ∙ ap (λ n. suc (slices n)) (sym len) in
    let next : Slicer = record {
      split_result = stored s.split_result s.slice_count;
      slice_count = s.slice_count + 1;
      written = s.written ++ ((split_name s.slice_count, take buf_size (b ∷ file)) ∷ []);
    } in
    let copied = copy_name-in_bounds s.split_result s.slice_count (omega (arith, one_more)) in
    let next_rows = stored-Rows s.split_result s.slice_count (omega (arith, one_more)) rows in
    let ih =
      slice_loop-Sliced fuel left next (omega (arith, len)) (omega (arith, one_more)) next_rows in
    (
      ih.0,
      rw (copied, slice_loop) ih.1,
      record {
        counted = omega (arith, one_more, ih.2.counted);
        rows = ih.2.rows;
        whole =
            ih.2.whole
            ∙ ap (λ xs. xs ++ left)
                (contents-snoc s.written (split_name s.slice_count) (take buf_size (b ∷ file)))
            ∙ append_assoc (contents s.written) (take buf_size (b ∷ file)) left
            ∙ ap (λ xs. contents s.written ++ xs) (take-append-drop buf_size (b ∷ file));
        named =
            ih.2.named
            ∙ ap (λ xs. xs ++ split_names (slices (length left)) (s.slice_count + 1))
                (names-snoc s.written (split_name s.slice_count) (take buf_size (b ∷ file)))
            ∙ append_assoc (names s.written) (split_name s.slice_count ∷ [])
                (split_names (slices (length left)) (s.slice_count + 1))
            ∙ ap (λ n. names s.written ++ split_names n s.slice_count) (sym one_more);
      },
    )

-- A file of up to 99 slices is cut: the slices are together the file, each written under its own name.
pub slice-Sliced :
    (file : List ℕ)
    → length file ≤ 99 * 64
    → (t : Slicer) × (slice file slicer_init ≡ sliced t)
      × (t.slice_count ≡ slices (length file))
      × (contents t.written ≡ file)
      × (names t.written ≡ split_names (slices (length file)) 0)
      × Rows t.slice_count t.split_result
unfolding slice slicer_init contents names
slice-Sliced file small =
    let cut =
      slice_loop-Sliced (length file) file slicer_init (omega arith) (omega arith) start-Rows in
    (
      cut.0,
      cut.1,
      cut.2.counted ∙ add_zero_left (slices (length file)),
      cut.2.whole,
      cut.2.named,
      cut.2.rows,
    )

-- After `slice` of a file of up to 99 slices, the name in row `i` of `split_result` is read back as it should
-- be for the first ten slices, and from the eleventh on together with all names behind it.
pub slice-run_together :
    (file : List ℕ) (t : Slicer) (i : ℕ)
    → length file ≤ 99 * 64
    → slice file slicer_init ≡ sliced t
    → i < t.slice_count
    → string_at (row_size * max_slice) t.split_result (row_size * i)
      ≡ (if ltb i 10 then split_name i else run_together (t.slice_count - i) i)
slice-run_together file t i small e below =
    let cut = slice-Sliced file small in
    let same : cut.0 ≡ t = cc in
    let counted : t.slice_count ≡ slices (length file) =
      subst (λ u. u.slice_count ≡ slices (length file)) same cut.2 in
    let rows : Rows t.slice_count t.split_result =
      subst (λ u. Rows u.slice_count u.split_result) same cut.5 in
    string_at-Rows t.slice_count t.split_result i rows (omega (arith, counted)) below
