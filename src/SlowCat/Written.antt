-- ===== src/SlowCat/Written.antt =====
-- The loop of write: partial writes lose nothing and repeat nothing.
use linux_coding.Common.{
  ℕ, ◌+◌, ◌-◌, ◌≤◌, ◌≡◌, ◌⊎◌, inl, inr, sym, ap, ◌∙◌, arith, Bool-cases, Option, some, none, List,
  [], ◌∷◌, ◌++◌, append_assoc, append-nil, take, drop, take-add, drop-add, ◌==◌, ==_iff,
}
use linux_coding.SlowCat.{write_loop, Bounded}

-- Each result is at most what was asked for, and together they are the `len` bytes.
abbrev pub Enough : List (Option ℕ) → ℕ → Type 0
Enough [] len = len ≡ 0
Enough (none ∷ rets) len = len ≡ 0
Enough (some ret ∷ rets) len = (len ≡ 0) ⊎ ((ret ≤ len) × Enough rets (len - ret))

done :
    (rets : List (Option ℕ)) (buf : List ℕ) (pos len : ℕ) (out : List ℕ)
    → len ≡ 0
    → write_loop rets buf pos len out ≡ some (out ++ take len (drop pos buf))
unfolding write_loop
done [] buf pos len out e = rw e (ap some (sym (append-nil out)))
done (none ∷ rets) buf pos len out e = rw e (ap some (sym (append-nil out)))
done (some ret ∷ rets) buf pos len out e = rw e (ap some (sym (append-nil out)))

-- Where the calls of write take together what they are given, the output grows by exactly the bytes of the
-- buffer, in order.
pub write_loop-whole :
    (rets : List (Option ℕ)) (buf : List ℕ) (pos len : ℕ) (out : List ℕ)
    → Enough rets len
    → write_loop rets buf pos len out ≡ some (out ++ take len (drop pos buf))
unfolding write_loop
write_loop-whole [] buf pos len out h = done [] buf pos len out h
write_loop-whole (none ∷ rets) buf pos len out h = done (none ∷ rets) buf pos len out h
write_loop-whole (some ret ∷ rets) buf pos len out (inl h) =
    done (some ret ∷ rets) buf pos len out h
write_loop-whole (some ret ∷ rets) buf pos len out (inr (h, more)) = elim (Bool-cases (len == 0)) [
  | inl zero_len ↦ done (some ret ∷ rets) buf pos len out ((==_iff len 0).0 zero_len)
  | inr goes ↦
      let rest =
        write_loop-whole rets buf (pos + ret) (len - ret) (out ++ take ret (drop pos buf)) more in
      let cut : take len (drop pos buf)
          ≡ take ret (drop pos buf) ++ take (len - ret) (drop (pos + ret) buf) =
        (let sum : len ≡ ret + (len - ret) = omega arith in
          ap (λ n. take n (drop pos buf)) sum
          ∙ take-add ret (len - ret) (drop pos buf)
          ∙ ap (λ xs. take ret (drop pos buf) ++ take (len - ret) xs)
              (sym (drop-add pos ret buf))) in
      rw goes (
        rest
        ∙ ap some (
            append_assoc out (take ret (drop pos buf)) (take (len - ret) (drop (pos + ret) buf))
            ∙ ap (λ xs. out ++ xs) (sym cut)))
]

-- A loop of write that ends has written all.
pub write_loop-some :
    (rets : List (Option ℕ)) (buf : List ℕ) (pos len : ℕ) (out after : List ℕ)
    → Bounded rets len
    → write_loop rets buf pos len out ≡ some after
    → Enough rets len
unfolding write_loop
write_loop-some [] buf pos len out after h e = ground arith
write_loop-some (none ∷ rets) buf pos len out after h e = ground arith
write_loop-some (some ret ∷ rets) buf pos len out after (h, more) e = elim (Bool-cases (len == 0)) [
  | inl zero_len ↦ inl ((==_iff len 0).0 zero_len)
  | inr goes ↦
      let rest =
        write_loop-some rets buf (pos + ret) (len - ret) (out ++ take ret (drop pos buf)) after
          more in
      inr (h, rest (ground arith))
]
