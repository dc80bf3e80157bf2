-- ===== src/Grep/Reads.antt =====
-- grep() in initial-xv6/src/user/grep.c over its reads.
use mathlib.Core.List.{append-nil, append_assoc}
use mathlib.Core.Path.{subst}
use xv6_part2_and_concurrenc.Base.{
  ℕ, ◌≡◌, ◌≢◌, inl, inr, refl, sym, ap, ◌∙◌, false, List, [], ◌∷◌, ◌++◌, ◌==◌, Bool-cases, arith,
  length, take, drop, min, suc, ◌≤◌, length-take, length-append, take-append-drop,
}
use xv6_part2_and_concurrenc.Grep.{nul, newline, match, grep_lines, space, grep}
use xv6_part2_and_concurrenc.Grep.Lines.{
  Cut, longer, cut, chosen, NoNul, no_byte, one_byte, cut-newline, cut_other, cut_nothing,
  chosen-match, chosen_skip, chosen_nothing, grep_lines_lem,
}
use xv6_part2_and_concurrenc.Grep.Lengths.{
  fitting, fitting_nothing, more_room, cut-AreBelow, fitting-append, cut_small, NoNewline, nothing,
  rest-NoNewline, cut_plain, fitting_full,
}

-- A text in two parts: what is left of the first goes before the second.
abbrev joined : Cut → List ℕ → Cut
joined (lines, rest) b = (lines ++ (cut (rest ++ b)).0, (cut (rest ++ b)).1)

longer-joined :
    (x : ℕ) (b : List ℕ) (y : Cut)
    → (x == newline) ≡ false
    → longer x (joined y b) ≡ joined (longer x y) b
longer-joined x b ([], rest) h = sym (cut_other x (rest ++ b) h)
longer-joined x b (line ∷ lines, rest) h = refl

cut-append : (a b : List ℕ) → cut (a ++ b) ≡ joined (cut a) b
cut-append [] b = ap (λ y. joined y b) (sym cut_nothing)
cut-append (x ∷ a) b = elim (Bool-cases (x == newline)) [
  | inl h ↦
      cut-newline x (a ++ b) h
      ∙ ap (λ (y : Cut). ([] ∷ y.0, y.1)) (cut-append a b)
      ∙ ap (λ y. joined y b) (sym (cut-newline x a h))
  | inr h ↦
      cut_other x (a ++ b) h
      ∙ ap (longer x) (cut-append a b)
      ∙ longer-joined x b (cut a) h
      ∙ ap (λ y. joined y b) (sym (cut_other x a h))
]

NoNul-append : (a b : List ℕ) → NoNul (a ++ b) → NoNul a × NoNul b
NoNul-append [] b n = (no_byte, n)
NoNul-append (x ∷ a) b (one_byte h n) = let (m, m') = NoNul-append a b n in (one_byte h m, m')

append-NoNul : (a b : List ℕ) → NoNul a → NoNul b → NoNul (a ++ b)
append-NoNul [] b n m = m
append-NoNul (x ∷ a) b (one_byte h n) m = one_byte h (append-NoNul a b n m)

longer-NoNul : (x : ℕ) (y : Cut) → x ≢ nul → NoNul y.1 → NoNul (longer x y).1
longer-NoNul x ([], rest) h n = one_byte h n
longer-NoNul x (line ∷ lines, rest) h n = n

rest-NoNul : (p : List ℕ) → NoNul p → NoNul (cut p).1
rest-NoNul [] n = subst (λ (y : Cut). NoNul y.1) (sym cut_nothing) no_byte
rest-NoNul (x ∷ p) (one_byte h n) = elim (Bool-cases (x == newline)) [
  | inl e ↦ subst (λ (y : Cut). NoNul y.1) (sym (cut-newline x p e)) (rest-NoNul p n)
  | inr e ↦
      subst (λ (y : Cut). NoNul y.1) (sym (cut_other x p e))
        (longer-NoNul x (cut p) h (rest-NoNul p n))
]

chosen-append :
    (pattern : List ℕ) (a b : List (List ℕ))
    → chosen pattern (a ++ b) ≡ chosen pattern a ++ chosen pattern b
chosen-append pattern [] b = ap (λ y. y ++ chosen pattern b) (sym (chosen_nothing pattern))
chosen-append pattern (line ∷ a) b = elim (Bool-cases (match pattern line)) [
  | inl h ↦
      chosen-match pattern line (a ++ b) h
      ∙ ap (λ y. (line ++ newline ∷ []) ∷ y) (chosen-append pattern a b)
      ∙ ap (λ y. y ++ chosen pattern b) (sym (chosen-match pattern line a h))
  | inr h ↦
      chosen_skip pattern line (a ++ b) h
      ∙ chosen-append pattern a b
      ∙ ap (λ y. y ++ chosen pattern b) (sym (chosen_skip pattern line a h))
]

abbrev taken : ℕ → List ℕ → ℕ
taken size left = min (suc size) (space (length left))

module _ (pattern : List ℕ) where
  -- The lines that fit and match.
  abbrev written : List ℕ → List (List ℕ)
  written text = chosen pattern (fitting (cut text).0)

  -- grep() on a number of reads that is enough for the file.
  abbrev Greps : List ℕ → Type 0
  Greps sizes =
      (left file : List ℕ)
      → NoNewline left
      → length left ≤ 1023
      → NoNul left
      → NoNul file
      → length file ≤ length sizes
      → grep pattern left file sizes ≡ written (left ++ file)

  nothing_written : (left : List ℕ) → NoNewline left → [] ≡ written (left ++ [])
  nothing_written left n = sym (
      ap written (append-nil left)
      ∙ ap (λ (y : Cut). chosen pattern (fitting y.0)) (cut_plain left n)
      ∙ ap (chosen pattern) fitting_nothing
      ∙ chosen_nothing pattern)

  full_written : (left b : List ℕ) → NoNewline left → 1023 ≤ length left → [] ≡ written (left ++ b)
  full_written left b n l =
      sym (ap (chosen pattern) (fitting_full left b n l) ∙ chosen_nothing pattern)

  last_read :
      (left file : List ℕ) (size : ℕ) (sizes : List ℕ)
      → take (taken size left) file ≡ []
      → grep pattern left file (size ∷ sizes) ≡ []
  unfolding grep
  last_read left file size sizes e = rw (grep, e) refl

  one_read :
      (left file : List ℕ) (size : ℕ) (sizes : List ℕ) (x : ℕ) (xs : List ℕ)
      → take (taken size left) file ≡ x ∷ xs
      → grep pattern left file (size ∷ sizes) ≡ (
          let p = left ++ take (taken size left) file in
          (grep_lines (length p) pattern p).0
          ++ grep pattern (grep_lines (length p) pattern p).1 (drop (taken size left) file) sizes)
  unfolding grep
  one_read left file size sizes x xs e =
      let p = left ++ take (taken size left) file in
      let cuts = grep_lines (length p) pattern p in
      let all = cuts.0 ++ grep pattern cuts.1 (drop (taken size left) file) sizes in
      ap (λ (got : List ℕ). elim got as (λ y. List (List ℕ)) [ [] ↦ [] | b ∷ bs ↦ all ]) e

  -- The lines of a text that fits into buf, and those of what follows.
  joined_written :
      (p b : List ℕ)
      → length p ≤ 1023
      → chosen pattern (cut p).0 ++ written ((cut p).1 ++ b) ≡ written (p ++ b)
  joined_written p b l =
      sym (chosen-append pattern (cut p).0 (fitting (cut ((cut p).1 ++ b)).0))
      ∙ ap (chosen pattern)
          (sym (fitting-append (cut p).0 (cut ((cut p).1 ++ b)).0 (more_room l (cut-AreBelow p))))
      ∙ ap (λ (y : Cut). chosen pattern (fitting y.0)) (sym (cut-append p b))

  no_more :
      (left file : List ℕ) (size : ℕ)
      → NoNewline left
      → take (taken size left) file ≡ []
      → [] ≡ written (left ++ file)
  no_more left [] size n e = nothing_written left n
  no_more left (y ∷ ys) size n e =
      full_written left (y ∷ ys) n
        (omega (arith, length-take (taken size left) (y ∷ ys), ap length e))

  grep_read :
      (sizes left file : List ℕ) (size : ℕ) (got : List ℕ)
      → Greps sizes
      → NoNewline left
      → length left ≤ 1023
      → NoNul left
      → NoNul file
      → length file ≤ suc (length sizes)
      → take (taken size left) file ≡ got
      → grep pattern left file (size ∷ sizes) ≡ written (left ++ file)
  grep_read sizes left file size [] ih n l z z' l' e =
      last_read left file size sizes e ∙ no_more left file size n e
  grep_read sizes left file size (x ∷ xs) ih n l z z' l' e =
      let got = take (taken size left) file in
      let p = left ++ got in
      let b = drop (taken size left) file in
      let parts : got ++ b ≡ file = take-append-drop (taken size left) file in
      let (zx, zb) = NoNul-append got b (subst NoNul (sym parts) z') in
      let whole = append-NoNul left got z zx in
      let most = length-take (taken size left) file in
      let some_got = ap length e in
      let small : length p ≤ 1023 = omega (arith, length-append left got, most) in
      let fewer : length b ≤ length sizes =
        omega (arith, ap length parts, length-append got b, some_got) in
      let cuts = grep_lines_lem pattern (length p) p whole (omega arith) in
      one_read left file size sizes x xs e
      ∙ ap (λ (y : List (List ℕ) × List ℕ). y.0 ++ grep pattern y.1 b sizes) cuts
      ∙ ap (λ y. chosen pattern (cut p).0 ++ y)
          (ih (cut p).1 b (rest-NoNewline p) (omega (arith, cut_small p)) (rest-NoNul p whole) zb
            fewer)
      ∙ joined_written p b small
      ∙ ap written (append_assoc left got b ∙ ap (λ y. left ++ y) parts)

  grep_from : (sizes : List ℕ) → Greps sizes
  unfolding grep
  grep_from [] left [] n l z z' l' = nothing_written left n
  grep_from [] left (y ∷ ys) n l z z' l' = absurd (omega arith)
  grep_from (size ∷ sizes) left file n l z z' l' =
      grep_read sizes left file size (take (taken size left) file) (grep_from sizes) n l z z' l'
        refl

-- grep(), for any pattern and any file without NUL bytes, however much its reads give of what they
-- ask for, with as many reads as the file has bytes: it writes the lines before the first of 1023
-- bytes or more that end in a newline and match, in order, each with its newline, and nothing else.
pub grep_lem :
    (pattern file sizes : List ℕ)
    → NoNul file
    → length file ≤ length sizes
    → grep pattern [] file sizes ≡ chosen pattern (fitting (cut file).0)
grep_lem pattern file sizes z l = grep_from pattern sizes [] file nothing (omega arith) no_byte z l
