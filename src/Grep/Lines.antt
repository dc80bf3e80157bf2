-- ===== src/Grep/Lines.antt =====
-- The lines that grep() in initial-xv6/src/user/grep.c finds in what it has read.
use xv6_part2_and_concurrenc.Base.{
  ℕ, zero, suc, ◌≤◌, ◌<◌, ◌≡◌, ◌≢◌, inl, inr, refl, sym, ap, ◌∙◌, true, false, Option, none, some,
  List, [], ◌∷◌, ◌++◌, ◌==◌, Bool-cases, arith, length,
}
use xv6_part2_and_concurrenc.Grep.{nul, newline, match, next_line, grep_lines}

abbrev pub Cut : Type 0
Cut = List (List ℕ) × List ℕ

abbrev pub longer : ℕ → Cut → Cut
longer x ([], rest) = ([], x ∷ rest)
longer x (line ∷ lines, rest) = ((x ∷ line) ∷ lines, rest)

-- The lines of a text that end in a newline, and what follows the last newline.
unfoldable pub cut : List ℕ → Cut
cut [] = ([], [])
cut (x ∷ text) = elim (x == newline) [
  | true ↦ ([] ∷ (cut text).0, (cut text).1)
  | false ↦ longer x (cut text)
]

-- The lines that match, each with its newline.
unfoldable pub chosen : List ℕ → List (List ℕ) → List (List ℕ)
chosen pattern [] = []
chosen pattern (line ∷ lines) = elim (match pattern line) [
  | true ↦ (line ++ newline ∷ []) ∷ chosen pattern lines
  | false ↦ chosen pattern lines
]

pub data NoNul : List ℕ → Type 0 where
  no_byte : NoNul []
  one_byte : {x : ℕ} {xs : List ℕ} → x ≢ nul → NoNul xs → NoNul (x ∷ xs)

pub data Next (p : List ℕ) : Option (List ℕ × List ℕ) → Type 0 where
  no_line : cut p ≡ ([], p) → Next p none
  a_line :
      {line rest : List ℕ}
      → cut p ≡ (line ∷ (cut rest).0, (cut rest).1)
      → NoNul rest
      → length rest < length p
      → Next p (some (line, rest))

abbrev Found : Type 0
Found = Option (List ℕ × List ℕ)

module _ (x : ℕ) (p : List ℕ) where
  pub cut-newline : (x == newline) ≡ true → cut (x ∷ p) ≡ ([] ∷ (cut p).0, (cut p).1)
  unfolding cut
  cut-newline h = rw (cut, h) refl

  pub cut_other : (x == newline) ≡ false → cut (x ∷ p) ≡ longer x (cut p)
  unfolding cut
  cut_other h = rw (cut, h) refl

  next_newline : (x == nul) ≡ false → (x == newline) ≡ true → next_line (x ∷ p) ≡ some ([], p)
  unfolding next_line
  next_newline h h' = rw (next_line, h, h') refl

  next_none :
      (x == nul) ≡ false → (x == newline) ≡ false → next_line p ≡ none → next_line (x ∷ p) ≡ none
  unfolding next_line
  next_none h h' e = rw (next_line, h, h', e) refl

  next_some :
      {line rest : List ℕ}
      → (x == nul) ≡ false
      → (x == newline) ≡ false
      → next_line p ≡ some (line, rest)
      → next_line (x ∷ p) ≡ some (x ∷ line, rest)
  unfolding next_line
  next_some h h' e = rw (next_line, h, h', e) refl

pub cut_nothing : cut [] ≡ ([], [])
unfolding cut
cut_nothing = refl

next_nothing : next_line [] ≡ none
unfolding next_line
next_nothing = refl

not_nul : (x : ℕ) → x ≢ nul → (x == nul) ≡ false
not_nul x h = ground arith

extended :
    (x : ℕ) (p : List ℕ) {o : Found}
    → x ≢ nul
    → (x == newline) ≡ false
    → next_line p ≡ o
    → Next p o
    → Next (x ∷ p) (next_line (x ∷ p))
extended x p n h e (no_line c) =
    rw (next_none x p (not_nul x n) h e) (no_line (cut_other x p h ∙ ap (longer x) c))
extended x p n h e (a_line c m l) =
    rw (next_some x p (not_nul x n) h e)
      (a_line (cut_other x p h ∙ ap (longer x) c) m (omega arith))

next_line-Next : (p : List ℕ) → NoNul p → Next p (next_line p)
next_line-Next [] n = rw next_nothing (no_line cut_nothing)
next_line-Next (x ∷ p) (one_byte n m) = elim (Bool-cases (x == newline)) [
  | inl h ↦ rw (next_newline x p (not_nul x n) h) (a_line (cut-newline x p h) m (omega arith))
  | inr h ↦ extended x p n h refl (next_line-Next p m)
]

module _ (pattern : List ℕ) where
  lines_none :
      (fuel : ℕ) (p : List ℕ) → next_line p ≡ none → grep_lines (suc fuel) pattern p ≡ ([], p)
  unfolding grep_lines
  lines_none fuel p e = rw (grep_lines, e) refl

  lines_match :
      (fuel : ℕ) (p line rest : List ℕ)
      → next_line p ≡ some (line, rest)
      → match pattern line ≡ true
      → grep_lines (suc fuel) pattern p ≡ (
        (line ++ newline ∷ []) ∷ (grep_lines fuel pattern rest).0,
        (grep_lines fuel pattern rest).1,
      )
  unfolding grep_lines
  lines_match fuel p line rest e h = rw (grep_lines, e, h) refl

  lines_skip :
      (fuel : ℕ) (p line rest : List ℕ)
      → next_line p ≡ some (line, rest)
      → match pattern line ≡ false
      → grep_lines (suc fuel) pattern p ≡ grep_lines fuel pattern rest
  unfolding grep_lines
  lines_skip fuel p line rest e h = rw (grep_lines, e, h) refl

  pub chosen-match :
      (line : List ℕ) (lines : List (List ℕ))
      → match pattern line ≡ true
      → chosen pattern (line ∷ lines) ≡ (line ++ newline ∷ []) ∷ chosen pattern lines
  unfolding chosen
  chosen-match line lines h = rw (chosen, h) refl

  pub chosen_skip :
      (line : List ℕ) (lines : List (List ℕ))
      → match pattern line ≡ false
      → chosen pattern (line ∷ lines) ≡ chosen pattern lines
  unfolding chosen
  chosen_skip line lines h = rw (chosen, h) refl

  pub chosen_nothing : chosen pattern [] ≡ []
  unfolding chosen
  chosen_nothing = refl

  abbrev selected : List ℕ → List (List ℕ) × List ℕ
  selected p = (chosen pattern (cut p).0, (cut p).1)

  selected_none : (p : List ℕ) → cut p ≡ ([], p) → selected p ≡ ([], p)
  selected_none p c =
      ap (λ (y : Cut). (chosen pattern y.0, y.1)) c ∙ ap (λ y. (y, p)) chosen_nothing

  selected-match :
      (p line rest : List ℕ)
      → cut p ≡ (line ∷ (cut rest).0, (cut rest).1)
      → match pattern line ≡ true
      → selected p ≡ ((line ++ newline ∷ []) ∷ (selected rest).0, (selected rest).1)
  selected-match p line rest c h =
      ap (λ (y : Cut). (chosen pattern y.0, y.1)) c
      ∙ ap (λ y. (y, (cut rest).1)) (chosen-match line (cut rest).0 h)

  selected_skip :
      (p line rest : List ℕ)
      → cut p ≡ (line ∷ (cut rest).0, (cut rest).1)
      → match pattern line ≡ false
      → selected p ≡ selected rest
  selected_skip p line rest c h =
      ap (λ (y : Cut). (chosen pattern y.0, y.1)) c
      ∙ ap (λ y. (y, (cut rest).1)) (chosen_skip line (cut rest).0 h)

  lines_step :
      (fuel : ℕ) (p : List ℕ) {o : Found}
      → ((rest : List ℕ)
          → NoNul rest
          → length rest ≤ fuel
          → grep_lines fuel pattern rest ≡ selected rest)
      → length p ≤ suc fuel
      → next_line p ≡ o
      → Next p o
      → grep_lines (suc fuel) pattern p ≡ selected p
  lines_step fuel p later l e (no_line c) = lines_none fuel p e ∙ sym (selected_none p c)
  lines_step fuel p later l e (a_line {line} {rest} c m l') =
      let ih = later rest m (omega arith) in
      elim (Bool-cases (match pattern line)) [
        | inl hit ↦
            lines_match fuel p line rest e hit
            ∙ ap (λ (y : List (List ℕ) × List ℕ). ((line ++ newline ∷ []) ∷ y.0, y.1)) ih
            ∙ sym (selected-match p line rest c hit)
        | inr miss ↦
            lines_skip fuel p line rest e miss ∙ ih ∙ sym (selected_skip p line rest c miss)
      ]

  no_fuel : (p : List ℕ) → length p ≤ 0 → grep_lines zero pattern p ≡ selected p
  unfolding grep_lines
  no_fuel [] l = sym (selected_none [] cut_nothing)
  no_fuel (x ∷ p) l = absurd (omega arith)

  -- Enough fuel cuts the whole text into lines.
  pub grep_lines_lem :
      (fuel : ℕ) (p : List ℕ) → NoNul p → length p ≤ fuel → grep_lines fuel pattern p ≡ selected p
  grep_lines_lem zero p n l = no_fuel p l
  grep_lines_lem (suc fuel) p n l =
      lines_step fuel p (grep_lines_lem fuel) l refl (next_line-Next p n)
