-- ===== src/Migrations/Text.antt =====
-- `find_meta_commands` and `count_statements` of discovery.py, over a file's code points.
use py_app_runner.Prelude.{
  ℕ, ◌+◌, Bool, true, false, not, ◌&&◌, ◌||◌, List, [], ◌∷◌, leb, ◌==◌, if◌then◌else◌, any, count,
}

-- what `str.isspace` and `\s` take for white space
abbrev pub is_space : ℕ → Bool
is_space c =
    leb 9 c && leb c 13
    || leb 28 c && leb c 32
    || c == 133
    || c == 160
    || c == 5760
    || leb 8192 c && leb c 8202
    || c == 8232
    || c == 8233
    || c == 8239
    || c == 8287
    || c == 12288

-- the character put before the first part
unfoldable pub onto_first : ℕ → List (List ℕ) → List (List ℕ)
onto_first c [] = (c ∷ []) ∷ []
onto_first c (part ∷ parts) = (c ∷ part) ∷ parts

-- s.split(sep)
unfoldable pub split_on : ℕ → List ℕ → List (List ℕ)
split_on sep [] = [] ∷ []
split_on sep (c ∷ cs) =
    let parts = split_on sep cs in if c == sep then [] ∷ parts else onto_first c parts

-- `_META_COMMAND_RE`: white space, then a backslash
unfoldable pub is_meta_command : List ℕ → Bool
is_meta_command [] = false
is_meta_command (c ∷ cs) = let later = is_meta_command cs in c == 92 || is_space c && later

unfoldable pub meta_lines : ℕ → List (List ℕ) → List ℕ
meta_lines number [] = []
meta_lines number (line ∷ lines) =
    let later = meta_lines (number + 1) lines in
    if is_meta_command line then number ∷ later else later

-- the numbers of the lines, from 1
unfoldable pub find_meta_commands : List ℕ → List ℕ
find_meta_commands sql = meta_lines 1 (split_on 10 sql)

-- `_LINE_COMMENT_RE.sub("", sql)`; the flag is set inside a comment
unfoldable pub without_comments : Bool → List ℕ → List ℕ
without_comments true [] = []
without_comments true (c ∷ cs) =
    let outside = without_comments false cs in
    let inside = without_comments true cs in if c == 10 then c ∷ outside else inside
without_comments false [] = []
without_comments false (c ∷ []) = c ∷ []
without_comments false (c ∷ d ∷ cs) =
    let outside = without_comments false (d ∷ cs) in
    let inside = without_comments true cs in if c == 45 && d == 45 then inside else c ∷ outside

abbrev is_blank : List ℕ → Bool
is_blank part = not (any (λ c. not (is_space c)) part)

unfoldable pub count_statements : List ℕ → ℕ
count_statements sql =
    count (λ part. not (is_blank part)) (split_on 59 (without_comments false sql))
