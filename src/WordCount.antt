-- ===== src/WordCount.antt =====
-- homework/IO_std: MyWC.c and MyWC_op.c count bytes, words and lines of a text, cSourceStatist.c the lines
-- of code, of comments and of spaces. A text is the list of its characters, as fgetc gives them;
-- isspace is a parameter, and so is the first value of `lastch`, which the programs never set.
pub mod Words
pub mod Sources
mod Tests
use linux_coding.Common.{
  ℕ, ◌+◌, Bool, true, false, not, ◌&&◌, ◌||◌, List, [], ◌∷◌, ◌==◌, if◌then◌else◌,
}
use linux_coding.Common.Int.{ℤ, pos, ◌-ℤ◌}

-- The variables of MyWC.c.
pub record Counts : Type 0 where
  byte_count : ℕ
  word_count : ℕ
  line_count : ℕ
  in_word : Bool
  lastch : ℕ

-- `lastch == '.' || lastch == '?' || lastch == '!'`
unfoldable pub is_stop : ℕ → Bool
is_stop lastch = (lastch == 46) || ((lastch == 63) || (lastch == 33))

unfoldable pub wc_char : (ℕ → Bool) → ℕ → Counts → Counts
wc_char isspace ch w =
    let ends = isspace ch || is_stop w.lastch in
    record {
      byte_count = w.byte_count + 1;
      word_count =
          if ends then w.word_count else (if w.in_word then w.word_count else w.word_count + 1);
      line_count = if ch == 10 then w.line_count + 1 else w.line_count;
      in_word = if ends then false else true;
      lastch = ch;
    }

unfoldable pub wc_loop : (ℕ → Bool) → List ℕ → Counts → Counts
wc_loop isspace [] w = w
wc_loop isspace (ch ∷ text) w = wc_loop isspace text (wc_char isspace ch w)

-- main of MyWC.c, which reads the first character by itself.
unfoldable pub my_wc : (ℕ → Bool) → ℕ → List ℕ → Counts
my_wc isspace lastch [] = record {
  byte_count = 0;
  word_count = 0;
  line_count = 0;
  in_word = false;
  lastch = lastch;
}
my_wc isspace lastch (ch ∷ text) =
    wc_loop isspace text
      (record { byte_count = 1; word_count = 0; line_count = 1; in_word = false; lastch = lastch })

-- `byteCount`
unfoldable pub byte_count : List ℕ → ℕ → ℕ
byte_count [] n = n
byte_count (ch ∷ text) n = byte_count text (n + 1)

-- `lineCount`, its loop first.
unfoldable pub line_loop : List ℕ → ℕ → ℕ
line_loop [] n = n
line_loop (ch ∷ text) n = line_loop text (if ch == 10 then n + 1 else n)

unfoldable pub line_count : List ℕ → ℕ
line_count [] = 0
line_count (ch ∷ text) = line_loop text 1

-- The loop of `wordCount`.
unfoldable pub word_loop : (ℕ → Bool) → List ℕ → ℕ → Bool → ℕ → ℕ
word_loop isspace [] lastch in_word n = n
word_loop isspace (ch ∷ text) lastch in_word n =
    let ends = isspace ch || is_stop lastch in
    word_loop isspace text ch (if ends then false else true)
      (if ends then n else (if in_word then n else n + 1))

unfoldable pub word_count : (ℕ → Bool) → ℕ → List ℕ → ℕ
word_count isspace lastch text = word_loop isspace text lastch false 0

-- The variables of cSourceStatist.c.
pub record Lines : Type 0 where
  total_line_count : ℕ
  comment_line_count : ℕ
  space_line_count : ℕ
  is_comment_type1 : Bool
  is_comment_type2 : Bool
  is_space : Bool
  lastch : ℕ

-- The tests for the start of a comment, and for a character that is no space.
unfoldable pub start_comment : (ℕ → Bool) → ℕ → Lines → Lines
start_comment isspace ch s =
    let type1 = not s.is_comment_type1 && ((s.lastch == 47) && (ch == 47)) in
    let type2 = not s.is_comment_type2 && ((s.lastch == 47) && (ch == 42)) in
    let in_type1 = s.is_comment_type1 || type1 in
    record s {
      is_comment_type1 = in_type1;
      is_comment_type2 = s.is_comment_type2 || type2;
      is_space = s.is_space && (not type1 && (not type2 && not (not (isspace ch) || in_type1)));
    }

unfoldable pub end_line : ℕ → Lines → Lines
end_line ch s =
    if ch == 10
    then (record s {
      total_line_count = s.total_line_count + 1;
      comment_line_count =
          if s.is_comment_type1 || s.is_comment_type2
          then s.comment_line_count + 1
          else s.comment_line_count;
      space_line_count = if s.is_space then s.space_line_count + 1 else s.space_line_count;
      is_comment_type1 = false;
      is_space = true;
    })
    else s

unfoldable pub end_comment : ℕ → Lines → Lines
end_comment ch s =
    if (s.lastch == 42) && (ch == 47)
    then (record s { comment_line_count = s.comment_line_count + 1; is_comment_type2 = false })
    else s

unfoldable pub source_char : (ℕ → Bool) → ℕ → Lines → Lines
source_char isspace ch s = record (end_comment ch (end_line ch (start_comment isspace ch s))) {
  lastch = ch;
}

unfoldable pub source_loop : (ℕ → Bool) → List ℕ → Lines → Lines
source_loop isspace [] s = s
source_loop isspace (ch ∷ text) s = source_loop isspace text (source_char isspace ch s)

-- The last line.
unfoldable pub source_end : (ℕ → Bool) → Lines → Lines
source_end isspace s =
    if (s.lastch == 10) || not (isspace s.lastch)
    then (record s {
      total_line_count = s.total_line_count + 1;
      comment_line_count =
          if s.is_comment_type1 || s.is_comment_type2
          then s.comment_line_count + 1
          else s.comment_line_count;
      space_line_count = if s.is_space then s.space_line_count + 1 else s.space_line_count;
    })
    else s

unfoldable pub source_lines : (ℕ → Bool) → ℕ → List ℕ → Lines
source_lines isspace lastch text = source_end isspace (
    source_loop isspace text (record {
      total_line_count = 0;
      comment_line_count = 0;
      space_line_count = 0;
      is_comment_type1 = false;
      is_comment_type2 = false;
      is_space = true;
      lastch = lastch;
    }))

-- `code_line_count`
unfoldable pub code_line_count : Lines → ℤ
code_line_count s = (pos s.total_line_count -ℤ pos s.comment_line_count) -ℤ pos s.space_line_count
