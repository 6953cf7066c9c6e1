-- ===== src/Shell/Split.antt =====
-- shell_split of kernel/shell.c: the words of a line, as places in it.
use waltex.Base.{leb, ◌==◌, if◌then◌else◌, ℕ, ◌+◌, Bool, true, false, ◌||◌, List, [], ◌∷◌}

-- The two loops, at place `i` of the line with `c` words found: the places of the words that follow,
-- and the line from there on. `skipping` is the loop over the blanks, `in_word` the one over a word.
unfoldable pub split_from : Bool → ℕ → ℕ → ℕ → List ℕ → List ℕ × List ℕ
split_from skipping i c max [] = ([], [])
split_from true i c max (x ∷ l) =
    let blank = split_from true (i + 1) c max l in
    let word = split_from false (i + 1) (c + 1) max l in
    if x == b' '
    then (blank.0, x ∷ blank.1)
    else if x == 0 || leb max c
    then ([], x ∷ l)
    else (i ∷ word.0, x ∷ word.1)
split_from false i c max (x ∷ l) =
    let word = split_from false (i + 1) c max l in
    let next_word = split_from true (i + 1) c max l in
    if x == 0
    then ([], x ∷ l)
    else if x == b' '
    then (next_word.0, 0 ∷ next_word.1)
    else (word.0, x ∷ word.1)

-- shell_split: argv, as places in the line, and the line. What it returns is how many they are.
unfoldable pub split : List ℕ → ℕ → List ℕ × List ℕ
unfolding split_from
split line max = split_from true 0 0 max line
