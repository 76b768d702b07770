-- ===== src/WordCount/Sources.antt =====
-- The lines of a source text without comments.
use linux_coding.Common.{
  ℕ, ◌+◌, ◌≡◌, ◌≢◌, ◌⊎◌, inl, inr, refl, sym, ◌∙◌, subst, arith, Bool, true, false, ◌&&◌, List, [],
  ◌∷◌, length, ◌==◌, if◌then◌else◌, Bool-cases, All,
}
use linux_coding.Common.Int.{pos, ◌-ℤ◌}
use linux_coding.WordCount.{
  Lines, start_comment, end_line, end_comment, source_char, source_loop, source_end, source_lines,
  code_line_count,
}
use linux_coding.WordCount.Words.{split}

-- The lines of a text: the first, and the others.
abbrev pub lines : List ℕ → List ℕ × List (List ℕ)
lines text = split (λ ch. ch == 10) text

module _ (isspace : ℕ → Bool) where
  unfoldable pub all_spaces : List ℕ → Bool
  all_spaces [] = true
  all_spaces (ch ∷ line) = isspace ch && all_spaces line

  unfoldable pub blank_lines : List (List ℕ) → ℕ
  blank_lines [] = 0
  blank_lines (line ∷ rest) =
      let more = blank_lines rest in if all_spaces line then more + 1 else more

  -- The last character is an end of line or no space: else the last line is not counted.
  abbrev pub EndsPlain : ℕ → List ℕ → Type 0
  EndsPlain lastch [] = (lastch ≡ 10) ⊎ (isspace lastch ≡ false)
  EndsPlain lastch (ch ∷ text) = EndsPlain ch text

  -- A character that neither starts nor ends a comment.
  plain_char :
      (ch : ℕ) (s : Lines)
      → isspace 10 ≡ true
      → s.lastch ≢ 47
      → ch ≢ 47
      → s.is_comment_type1 ≡ false
      → s.is_comment_type2 ≡ false
      → let t = source_char isspace ch s in
        (t.is_comment_type1 ≡ false)
        × (t.is_comment_type2 ≡ false)
        × (t.comment_line_count ≡ s.comment_line_count)
        × (t.lastch ≡ ch)
        × (t.total_line_count ≡ (if ch == 10 then s.total_line_count + 1 else s.total_line_count))
        × (t.space_line_count
            ≡ (if (ch == 10) && s.is_space then s.space_line_count + 1 else s.space_line_count))
        × (t.is_space ≡ (if ch == 10 then true else s.is_space && isspace ch))
  unfolding source_char start_comment end_line end_comment
  plain_char ch s newline last_plain plain c1 c2 = ground arith

  abbrev pub one_if : Bool → ℕ
  one_if true = 1
  one_if false = 0

  source_counted :
      (text : List ℕ) (s : Lines)
      → isspace 10 ≡ true
      → s.lastch ≢ 47
      → All (λ ch. ch ≢ 47) text
      → s.is_comment_type1 ≡ false
      → s.is_comment_type2 ≡ false
      → EndsPlain s.lastch text
      → let t = source_end isspace (source_loop isspace text s) in
        (t.total_line_count ≡ s.total_line_count + 1 + length ((lines text).1))
        × (t.comment_line_count ≡ s.comment_line_count)
        × (t.space_line_count
            ≡ s.space_line_count
              + one_if (s.is_space && all_spaces ((lines text).0))
              + blank_lines ((lines text).1))
  unfolding source_loop source_end split all_spaces blank_lines
  source_counted [] s newline last_plain plain c1 c2 (inl last) =
      let ends : s.lastch == 10 ≡ true = ground arith in ground arith
  source_counted [] s newline last_plain plain c1 c2 (inr letter) = ground arith
  source_counted (ch ∷ text) s newline last_plain (not_slash, plain) c1 c2 ends =
      let next = plain_char ch s newline last_plain not_slash c1 c2 in
      let t = source_char isspace ch s in
      let plain_next : t.lastch ≢ 47 = λ e. not_slash (sym next.3 ∙ e) in
      let rest =
        source_counted text t newline plain_next plain next.0 next.1
          (subst (λ x. EndsPlain x text) (sym next.3) ends) in
      elim (Bool-cases (ch == 10)) [
        | inl line ↦ ground (arith, next, rest, line)
        | inr inside ↦ ground (arith, next, rest, inside)
      ]

  -- The lines with a character that is no space.
  unfoldable pub code_lines : List (List ℕ) → ℕ
  code_lines [] = 0
  code_lines (line ∷ rest) =
      let more = code_lines rest in if all_spaces line then more else more + 1

  blank_lines-code_lines : (ls : List (List ℕ)) → blank_lines ls + code_lines ls ≡ length ls
  unfolding blank_lines code_lines
  blank_lines-code_lines [] = refl
  blank_lines-code_lines (line ∷ rest) =
      let more = blank_lines-code_lines rest in ground (arith, more)

  one_if-blank :
      (line : List ℕ) (rest : List (List ℕ))
      → 0 + one_if (true && all_spaces line) + blank_lines rest ≡ blank_lines (line ∷ rest)
  unfolding blank_lines
  one_if-blank line rest = ground arith

  code_left :
      (s : Lines) (n b : ℕ)
      → s.total_line_count ≡ b + n
      → s.comment_line_count ≡ 0
      → s.space_line_count ≡ b
      → code_line_count s ≡ pos n
  unfolding code_line_count ◌-ℤ◌
  code_left s n b total comment space = ground arith

  -- In a text without `/` whose last character is an end of line or no space, and where `lastch` does not
  -- start as `/`, the program counts all lines, no comment, the blank lines as lines of spaces, and as
  -- lines of code exactly those with a character that is no space.
  pub source_lines-code_lines :
      (lastch : ℕ) (text : List ℕ)
      → isspace 10 ≡ true
      → lastch ≢ 47
      → All (λ ch. ch ≢ 47) text
      → EndsPlain lastch text
      → let t = source_lines isspace lastch text in
        let all = (lines text).0 ∷ (lines text).1 in
        (t.total_line_count ≡ length all)
        × (t.comment_line_count ≡ 0)
        × (t.space_line_count ≡ blank_lines all)
        × (code_line_count t ≡ pos (code_lines all))
  unfolding source_lines blank_lines
  source_lines-code_lines lastch text newline start plain ends =
      let s : Lines = record {
        total_line_count = 0;
        comment_line_count = 0;
        space_line_count = 0;
        is_comment_type1 = false;
        is_comment_type2 = false;
        is_space = true;
        lastch = lastch;
      } in
      let counted = source_counted text s newline start plain refl refl ends in
      let all = (lines text).0 ∷ (lines text).1 in
      let blank = blank_lines-code_lines all in
      let first = one_if-blank ((lines text).0) ((lines text).1) in
      let total : (source_lines isspace lastch text).total_line_count ≡ length all =
        counted.0 ∙ omega arith in
      let space = counted.2 ∙ first in
      (
        total,
        counted.1,
        space,
        code_left (source_lines isspace lastch text) (code_lines all) (blank_lines all)
            (total ∙ sym blank) counted.1 space,
      )
