-- ===== src/Grep.antt =====
-- initial-xv6/src/user/grep.c: the matcher and the loop over the lines. A string is the list of its
-- bytes before the NUL; no read fails. The main function opens the files.
pub mod Meaning
pub mod Matching
pub mod Lines
pub mod Lengths
pub mod Reads
mod Tests
use xv6_part2_and_concurrenc.Base.{
  ℕ, zero, suc, ◌-◌, min, take, drop, length, Bool, true, false, ◌&&◌, ◌||◌, Option, none, some,
  List, [], ◌∷◌, ◌++◌, ◌==◌, if◌then◌else◌,
}

abbrev pub nul : ℕ
nul = 0

abbrev pub newline : ℕ
newline = 10

abbrev pub dollar : ℕ
dollar = 36

abbrev pub star : ℕ
star = 42

abbrev pub dot : ℕ
dot = 46

abbrev pub caret : ℕ
caret = 94

-- matchstar(), whose calls of matchhere() on `re` are `here`.
unfoldable pub matchstar : ℕ → (List ℕ → Bool) → List ℕ → Bool
matchstar c here [] = here []
matchstar c here (x ∷ text) = elim (here (x ∷ text)) [
  | true ↦ true
  | false ↦ elim (x == c || c == dot) [ true ↦ matchstar c here text | false ↦ false ]
]

abbrev pub is_end : List ℕ → Bool
is_end [] = true
is_end (x ∷ text) = false

-- The last test of matchhere(), where `here` is matchhere() on the rest of the pattern.
unfoldable pub matchchar : ℕ → (List ℕ → Bool) → List ℕ → Bool
matchchar c here [] = false
matchchar c here (x ∷ text) = elim (c == dot || c == x) [ true ↦ here text | false ↦ false ]

-- The last two tests; `last` tells that `c` ends the pattern.
unfoldable pub matchone : ℕ → Bool → (List ℕ → Bool) → List ℕ → Bool
matchone c last here text = elim (c == dollar && last) [
  | true ↦ is_end text
  | false ↦ matchchar c here text
]

unfoldable pub matchhere : List ℕ → List ℕ → Bool
matchhere [] text = true
matchhere (c ∷ []) text = matchone c true (matchhere []) text
matchhere (c ∷ d ∷ re) text = elim (d == star) [
  | true ↦ matchstar c (matchhere re) text
  | false ↦ matchone c false (matchhere (d ∷ re)) text
]

-- The loop of match().
unfoldable pub match_from : List ℕ → List ℕ → Bool
match_from re [] = matchhere re []
match_from re (x ∷ text) = elim (matchhere re (x ∷ text)) [
  | true ↦ true
  | false ↦ match_from re text
]

unfoldable pub match : List ℕ → List ℕ → Bool
match [] text = match_from [] text
match (c ∷ re) text = elim (c == caret) [
  | true ↦ matchhere re text
  | false ↦ match_from (c ∷ re) text
]

-- strchr(p, '\n') on the bytes that are read: the line before the newline, and what follows it.
unfoldable pub next_line : List ℕ → Option (List ℕ × List ℕ)
next_line [] = none
next_line (x ∷ p) = elim (x == nul) [
  | true ↦ none
  | false ↦ elim (x == newline) [
    | true ↦ some ([], p)
    | false ↦ elim (next_line p) [ none ↦ none | some (line, rest) ↦ some (x ∷ line, rest) ]
  ]
]

-- The inner loop of grep(): what it writes, and the bytes that are left for the next read. Each
-- round takes a byte at least, so that their number bounds the rounds.
unfoldable pub grep_lines : ℕ → List ℕ → List ℕ → List (List ℕ) × List ℕ
grep_lines zero pattern p = ([], p)
grep_lines (suc fuel) pattern p = elim (next_line p) [
  | none ↦ ([], p)
  | some (line, rest) ↦
      let (writes, left) = grep_lines fuel pattern rest in
      elim (match pattern line) [
        | true ↦ ((line ++ newline ∷ []) ∷ writes, left)
        | false ↦ (writes, left)
      ]
]

-- What a read of the loop asks for, with `m` bytes in buf.
abbrev pub space : ℕ → ℕ
space m = 1024 - m - 1

-- grep(), with `left` in the `m` bytes of buf. Of `file`, what is left to read, each read gives as
-- much as it asks for or less, as `sizes` has it, but something if it asks for something.
unfoldable pub grep : List ℕ → List ℕ → List ℕ → List ℕ → List (List ℕ)
grep pattern left file [] = []
grep pattern left file (size ∷ sizes) =
    let n = min (suc size) (space (length left)) in
    let p = left ++ take n file in
    let (writes, left') = grep_lines (length p) pattern p in
    let rest = grep pattern left' (drop n file) sizes in
    elim (take n file) [ [] ↦ [] | x ∷ xs ↦ writes ++ rest ]
