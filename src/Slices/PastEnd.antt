-- ===== src/Slices/PastEnd.antt =====
-- homework/openssl/myslicer.c: the hundredth slice.
use linux_coding.Common.{
  ℕ, zero, suc, ◌+◌, ◌-◌, ◌*◌, ◌≤◌, ◌<◌, ◌≡◌, refl, inl, inr, sym, ap, subst, ◌∙◌, arith, List, [],
  ◌∷◌, ◌++◌, append-nil, append_assoc, length, take, drop, take-add, length-drop, ltb, Bool-cases,
}
use linux_coding.Slices.{
  Slicer, slicer_init, split_name, row_size, buf_size, max_slice, slice_loop, slice, past_end,
}
use linux_coding.Slices.Names.{split_name-two, stored}
use linux_coding.Slices.Bounds.{copy_name-in_bounds, copy_name-past_end}
use linux_coding.Slices.Cut.{contents, contents-nil, contents-snoc}

-- From a state with up to 99 names, a longer file comes to the hundredth.
past_end_from :
    (fuel : ℕ) (file : List ℕ) (s : Slicer)
    → length file ≤ fuel
    → s.slice_count ≤ 99
    → (99 - s.slice_count) * 64 < length file
    → (t : Slicer) × (slice_loop fuel file s ≡ past_end t)
      × (t.slice_count ≡ 99)
      × (contents t.written ≡ contents s.written ++ take ((99 - s.slice_count) * 64) file)
unfolding slice_loop
past_end_from fuel [] s enough few long = absurd (omega arith)
past_end_from zero (b ∷ file) s enough few long = absurd (omega arith)
past_end_from (suc fuel) (b ∷ file) s enough few long = elim (Bool-cases (ltb s.slice_count 99)) [
  | inr full ↦
      let at_end : 99 ≤ s.slice_count = ground arith in
      let no_more : (99 - s.slice_count) * 64 ≡ 0 = omega arith in
      (
        s,
        rw (copy_name-past_end s.split_result s.slice_count at_end, slice_loop) refl,
        omega arith,
        sym (
            ap (λ n. contents s.written ++ take n (b ∷ file)) no_more
            ∙ append-nil (contents s.written)),
      )
  | inl fits ↦
      let left = drop buf_size (b ∷ file) in
      let len : length left ≡ length (b ∷ file) - 64 = length-drop buf_size (b ∷ file) in
      let below : s.slice_count < 99 = ground arith in
      let next : Slicer = record {
        split_result = stored s.split_result s.slice_count;
        slice_count = s.slice_count + 1;
        written = s.written ++ ((split_name s.slice_count, take buf_size (b ∷ file)) ∷ []);
      } in
      let ih =
        past_end_from fuel left next (omega (arith, len)) (omega arith) (omega (arith, len)) in
      let pieces : (99 - s.slice_count) * 64 ≡ 64 + (99 - (s.slice_count + 1)) * 64 = omega arith in
      (
        ih.0,
        rw (copy_name-in_bounds s.split_result s.slice_count below, slice_loop) ih.1,
        ih.2,
        ih.3
            ∙ ap (λ xs. xs ++ take ((99 - (s.slice_count + 1)) * 64) left)
                (contents-snoc s.written (split_name s.slice_count) (take buf_size (b ∷ file)))
            ∙ append_assoc (contents s.written) (take buf_size (b ∷ file))
                (take ((99 - (s.slice_count + 1)) * 64) left)
            ∙ ap (λ xs. contents s.written ++ xs)
                (sym (take-add 64 ((99 - (s.slice_count + 1)) * 64) (b ∷ file)))
            ∙ ap (λ n. contents s.written ++ take n (b ∷ file)) (sym pieces),
      )
]

-- A file of more than 99 slices is not cut to its end: after 99 slices, which hold its first 99 * 64 bytes,
-- the name of the hundredth, for which `split_result` has a row, fills the array to its last byte, and
-- the copy writes the NUL past the end.
pub slice-past_end :
    (file : List ℕ)
    → 99 * 64 < length file
    → (t : Slicer) × (slice file slicer_init ≡ past_end t)
      × (t.slice_count ≡ 99)
      × (contents t.written ≡ take (99 * 64) file)
      × (row_size * t.slice_count + length (split_name t.slice_count) ≡ row_size * max_slice)
unfolding slice slicer_init
slice-past_end file large =
    let found =
      past_end_from (length file) file slicer_init (omega arith) (omega arith) (omega arith) in
    let name_fits : row_size * 99 + length (split_name 99) ≡ row_size * max_slice =
      omega (arith, (split_name-two 99 (omega arith) (omega arith)).0) in
    (
      found.0,
      found.1,
      found.2,
      found.3 ∙ ap (λ xs. xs ++ take (99 * 64) file) contents-nil,
      subst (λ n. row_size * n + length (split_name n) ≡ row_size * max_slice) (sym found.2)
          name_fits,
    )
