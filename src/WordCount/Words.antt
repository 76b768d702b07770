-- ===== src/WordCount/Words.antt =====
-- The words, and the two programs that count them.
use linux_coding.Common.{
  ℕ, ◌+◌, ◌≡◌, inl, inr, refl, ◌∙◌, arith, Bool, true, false, List, [], ◌∷◌, if◌then◌else◌,
  Bool-cases, All,
}
use linux_coding.WordCount.{
  Counts, is_stop, wc_char, wc_loop, my_wc, byte_count, line_loop, line_count, word_loop,
  word_count,
}

-- A text cut at its separators: the first piece, and the others.
unfoldable pub split : (ℕ → Bool) → List ℕ → List ℕ × List (List ℕ)
split separates [] = ([], [])
split separates (ch ∷ text) =
    let rest = split separates text in
    if separates ch then ([], rest.0 ∷ rest.1) else (ch ∷ rest.0, rest.1)

abbrev pub one_if_full : List ℕ → ℕ
one_if_full [] = 0
one_if_full (ch ∷ piece) = 1

-- The pieces that are not empty.
abbrev pub full_pieces : List (List ℕ) → ℕ
full_pieces [] = 0
full_pieces (piece ∷ pieces) = one_if_full piece + full_pieces pieces

wc_loop-loops :
    (isspace : ℕ → Bool) (text : List ℕ) (w : Counts)
    → ((wc_loop isspace text w).byte_count ≡ byte_count text w.byte_count)
      × ((wc_loop isspace text w).line_count ≡ line_loop text w.line_count)
      × ((wc_loop isspace text w).word_count
          ≡ word_loop isspace text w.lastch w.in_word w.word_count)
unfolding wc_loop wc_char byte_count line_loop word_loop
wc_loop-loops isspace [] w = (refl, refl, refl)
wc_loop-loops isspace (ch ∷ text) w = wc_loop-loops isspace text (wc_char isspace ch w)

abbrev pub behind_first : List ℕ → List ℕ
behind_first [] = []
behind_first (ch ∷ text) = text

-- MyWC.c counts the bytes and the lines that MyWC_op.c counts; its words are those that MyWC_op.c counts
-- behind the first character.
pub my_wc-counts :
    (isspace : ℕ → Bool) (lastch : ℕ) (text : List ℕ)
    → ((my_wc isspace lastch text).byte_count ≡ byte_count text 0)
      × ((my_wc isspace lastch text).line_count ≡ line_count text)
      × ((my_wc isspace lastch text).word_count ≡ word_count isspace lastch (behind_first text))
unfolding my_wc byte_count line_count word_count word_loop
my_wc-counts isspace lastch [] = (refl, refl, refl)
my_wc-counts isspace lastch (ch ∷ text) =
    wc_loop-loops isspace text
      (record { byte_count = 1; word_count = 0; line_count = 1; in_word = false; lastch = lastch })

word_loop-split :
    (isspace : ℕ → Bool) (text : List ℕ) (lastch : ℕ) (in_word : Bool) (n : ℕ)
    → All (λ ch. is_stop ch ≡ false) (lastch ∷ text)
    → word_loop isspace text lastch in_word n
      ≡ n
        + (if in_word then 0 else one_if_full ((split isspace text).0))
        + full_pieces ((split isspace text).1)
unfolding word_loop split
word_loop-split isspace [] lastch true n plain = omega arith
word_loop-split isspace [] lastch false n plain = omega arith
word_loop-split isspace (ch ∷ text) lastch true n (stop, plain) = elim (Bool-cases (isspace ch)) [
  | inl space ↦
      rw (word_loop, split, space) (word_loop-split isspace text ch false n plain ∙ omega arith)
  | inr letter ↦
      rw (word_loop, split, letter, stop)
        (word_loop-split isspace text ch true n plain ∙ omega arith)
]
word_loop-split isspace (ch ∷ text) lastch false n (stop, plain) = elim (Bool-cases (isspace ch)) [
  | inl space ↦
      rw (word_loop, split, space) (word_loop-split isspace text ch false n plain ∙ omega arith)
  | inr letter ↦
      rw (word_loop, split, letter, stop)
        (word_loop-split isspace text ch true (n + 1) plain ∙ omega arith)
]

-- In a text without `.`, `?` and `!`, and where `lastch` does not start as one of them, `wordCount` counts
-- the pieces between spaces that are not empty.
pub word_count-split :
    (isspace : ℕ → Bool) (text : List ℕ) (lastch : ℕ)
    → All (λ ch. is_stop ch ≡ false) (lastch ∷ text)
    → word_count isspace lastch text ≡ full_pieces ((split isspace text).0 ∷ (split isspace text).1)
unfolding word_count
word_count-split isspace text lastch plain =
    word_loop-split isspace text lastch false 0 plain ∙ omega arith
