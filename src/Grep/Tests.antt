-- ===== src/Grep/Tests.antt =====
-- A pattern and some text.
use xv6_part2_and_concurrenc.Base.{ℕ, ◌≡◌, refl, true, List, [], ◌∷◌, ◌++◌, arith, replicate}
use xv6_part2_and_concurrenc.Grep.{
  matchstar, matchchar, matchone, matchhere, match_from, match, next_line, grep_lines, grep,
}
use xv6_part2_and_concurrenc.Grep.Matching.{Matches, match_lem}
use xv6_part2_and_concurrenc.Grep.Lines.{cut, chosen, NoNul, no_byte, one_byte}
use xv6_part2_and_concurrenc.Grep.Lengths.{fitting}
use xv6_part2_and_concurrenc.Grep.Reads.{grep_lem}

-- ^a.*b$ and a97b
abbrev pattern : List ℕ
pattern = 94 ∷ 97 ∷ 46 ∷ 42 ∷ 98 ∷ 36 ∷ []

abbrev line : List ℕ
line = 97 ∷ 57 ∷ 55 ∷ 98 ∷ []

matches : match pattern line ≡ true
unfolding match matchhere matchone matchchar matchstar match_from
matches = refl

match_lem_example :
    (match pattern line ≡ true → Matches pattern line)
    × (Matches pattern line → match pattern line ≡ true)
match_lem_example = match_lem pattern line

-- a97b and a newline, and c without one.
abbrev text : List ℕ
text = 97 ∷ 57 ∷ 55 ∷ 98 ∷ 10 ∷ 99 ∷ []

-- Reads of two bytes, then of three, then of what is left.
abbrev sizes : List ℕ
sizes = 1 ∷ 2 ∷ 9 ∷ 0 ∷ 0 ∷ 0 ∷ []

text-NoNul : NoNul text
text-NoNul =
    one_byte (λ e. omega arith)
      (one_byte (λ e. omega arith)
        (one_byte (λ e. omega arith)
          (one_byte (λ e. omega arith)
            (one_byte (λ e. omega arith) (one_byte (λ e. omega arith) no_byte)))))

writes_line : grep pattern [] text sizes ≡ (line ++ 10 ∷ []) ∷ []
unfolding grep grep_lines next_line match matchhere matchone matchchar matchstar match_from
writes_line = refl

-- A line of 1023 bytes is read no further, and what follows it is not searched.
stops : grep [] [] (replicate 1023 97 ++ 10 ∷ 97 ∷ 10 ∷ []) (replicate 1025 2000) ≡ []
unfolding grep grep_lines next_line match matchhere matchone matchchar matchstar match_from
stops = refl

grep_lem_example : grep pattern [] text sizes ≡ chosen pattern (fitting (cut text).0)
grep_lem_example = grep_lem pattern text sizes text-NoNul (omega arith)
