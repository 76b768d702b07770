-- ===== src/WordCount/Tests.antt =====
-- Small texts, and the witnesses of the theorems.
use linux_coding.Common.{
  ℕ, ◌≡◌, ◌≢◌, inl, refl, arith, Bool, false, ◌||◌, List, [], ◌∷◌, length, ◌==◌, All,
}
use linux_coding.Common.Int.{pos, negsuc, ◌-ℤ◌}
use linux_coding.WordCount.{
  my_wc, wc_loop, wc_char, is_stop, word_count, word_loop, source_lines, source_loop, source_char,
  source_end, start_comment, end_line, end_comment, code_line_count,
}
use linux_coding.WordCount.Sources.{lines, blank_lines, code_lines, source_lines-code_lines}

-- A space and the end of line.
abbrev is_blank : ℕ → Bool
is_blank ch = (ch == 32) || (ch == 10)

-- `a b`, where MyWC.c misses the first word.
abbrev two_words : List ℕ
two_words = 97 ∷ 32 ∷ 98 ∷ []

one_missed : (word_count is_blank 0 two_words ≡ 2) × ((my_wc is_blank 0 two_words).word_count ≡ 1)
unfolding word_count word_loop my_wc wc_loop wc_char is_stop
one_missed = (refl, refl)

-- `// */` and an end of line: one line, two lines of comments, and code lines below zero.
below_zero : code_line_count (source_lines is_blank 0 (47 ∷ 47 ∷ 32 ∷ 42 ∷ 47 ∷ 10 ∷ [])) ≡ negsuc 0
unfolding code_line_count source_lines source_loop source_char source_end start_comment end_line
    end_comment ◌-ℤ◌
below_zero = refl

-- `x` and a space: the only line is not counted.
last_line_missed : (source_lines is_blank 0 (120 ∷ 32 ∷ [])).total_line_count ≡ 0
unfolding source_lines source_loop source_char source_end start_comment end_line end_comment
last_line_missed = refl

no_stop : All (λ ch. is_stop ch ≡ false) (0 ∷ two_words)
unfolding is_stop
no_stop = (refl, (refl, (refl, (refl, tt))))

-- `x`, an end of line, and an end of line.
abbrev source : List ℕ
source = 120 ∷ 10 ∷ 10 ∷ []

no_slash : All (λ ch. ch ≢ 47) source
no_slash = (omega arith, (omega arith, (omega arith, tt)))

source_lines-code_lines_example :
    ((source_lines is_blank 0 source).total_line_count
      ≡ length ((lines source).0 ∷ (lines source).1))
    × ((source_lines is_blank 0 source).comment_line_count ≡ 0)
    × ((source_lines is_blank 0 source).space_line_count
        ≡ blank_lines is_blank ((lines source).0 ∷ (lines source).1))
    × (code_line_count (source_lines is_blank 0 source)
        ≡ pos (code_lines is_blank ((lines source).0 ∷ (lines source).1)))
source_lines-code_lines_example =
    source_lines-code_lines is_blank 0 source refl (omega arith) no_slash (inl refl)
