-- ===== src/Grep/Lengths.antt =====
-- The lengths of the lines that grep() in initial-xv6/src/user/grep.c reads into its buffer.
use mathlib.Core.Path.{subst}
use xv6_part2_and_concurrenc.Base.{
  ℕ, suc, ◌≤◌, ◌<◌, ◌≡◌, inl, inr, refl, sym, ap, ◌∙◌, false, List, [], ◌∷◌, ◌++◌, ◌==◌, Bool-cases,
  arith, length, ltb, if◌then◌else◌,
}
use xv6_part2_and_concurrenc.Grep.{newline}
use xv6_part2_and_concurrenc.Grep.Lines.{Cut, longer, cut, cut-newline, cut_other, cut_nothing}

-- The lines before the first that does not fit into buf with its newline.
unfoldable pub fitting : List (List ℕ) → List (List ℕ)
fitting [] = []
fitting (line ∷ lines) =
    let rest = fitting lines in if ltb (length line) 1023 then line ∷ rest else []

pub fitting_nothing : fitting [] ≡ []
unfolding fitting
fitting_nothing = refl

fitting_short :
    (line : List ℕ) (lines : List (List ℕ))
    → length line < 1023
    → fitting (line ∷ lines) ≡ line ∷ fitting lines
unfolding fitting
fitting_short line lines l = ground arith

fitting_long :
    (line : List ℕ) (lines : List (List ℕ)) → 1023 ≤ length line → fitting (line ∷ lines) ≡ []
unfolding fitting
fitting_long line lines l = ground arith

-- Lines of fewer than `n` bytes.
pub data AreBelow (n : ℕ) : List (List ℕ) → Type 0 where
  no_line : AreBelow n []
  one_line :
      {line : List ℕ} {lines : List (List ℕ)}
      → length line < n
      → AreBelow n lines
      → AreBelow n (line ∷ lines)

pub more_room : {n m : ℕ} {lines : List (List ℕ)} → n ≤ m → AreBelow n lines → AreBelow m lines
more_room l no_line = no_line
more_room l (one_line l' h) = one_line (omega arith) (more_room l h)

longer-AreBelow : (n x : ℕ) (y : Cut) → AreBelow n y.0 → AreBelow (suc n) (longer x y).0
longer-AreBelow n x ([], rest) h = no_line
longer-AreBelow n x (line ∷ lines, rest) (one_line l h) =
    one_line (omega arith) (more_room (omega arith) h)

pub cut-AreBelow : (p : List ℕ) → AreBelow (length p) (cut p).0
cut-AreBelow [] = subst (λ (y : Cut). AreBelow 0 y.0) (sym cut_nothing) no_line
cut-AreBelow (x ∷ p) = elim (Bool-cases (x == newline)) [
  | inl h ↦
      subst (λ (y : Cut). AreBelow (suc (length p)) y.0) (sym (cut-newline x p h))
        (one_line (omega arith) (more_room (omega arith) (cut-AreBelow p)))
  | inr h ↦
      subst (λ (y : Cut). AreBelow (suc (length p)) y.0) (sym (cut_other x p h))
        (longer-AreBelow (length p) x (cut p) (cut-AreBelow p))
]

pub fitting-append : (a b : List (List ℕ)) → AreBelow 1023 a → fitting (a ++ b) ≡ a ++ fitting b
fitting-append [] b h = refl
fitting-append (line ∷ a) b (one_line l h) =
    fitting_short line (a ++ b) l ∙ ap (λ y. line ∷ y) (fitting-append a b h)

longer_small : (n x : ℕ) (y : Cut) → length y.1 ≤ n → length (longer x y).1 ≤ suc n
longer_small n x ([], rest) l = omega arith
longer_small n x (line ∷ lines, rest) l = omega arith

-- What is left is no longer than the text.
pub cut_small : (p : List ℕ) → length (cut p).1 ≤ length p
cut_small [] = subst (λ (y : Cut). length y.1 ≤ 0) (sym cut_nothing) (omega arith)
cut_small (x ∷ p) = elim (Bool-cases (x == newline)) [
  | inl h ↦
      subst (λ (y : Cut). length y.1 ≤ suc (length p)) (sym (cut-newline x p h))
        (omega (arith, cut_small p))
  | inr h ↦
      subst (λ (y : Cut). length y.1 ≤ suc (length p)) (sym (cut_other x p h))
        (longer_small (length p) x (cut p) (cut_small p))
]

pub data NoNewline : List ℕ → Type 0 where
  nothing : NoNewline []
  other : {x : ℕ} {p : List ℕ} → (x == newline) ≡ false → NoNewline p → NoNewline (x ∷ p)

longer-NoNewline :
    (x : ℕ) (y : Cut) → (x == newline) ≡ false → NoNewline y.1 → NoNewline (longer x y).1
longer-NoNewline x ([], rest) h n = other h n
longer-NoNewline x (line ∷ lines, rest) h n = n

pub rest-NoNewline : (p : List ℕ) → NoNewline (cut p).1
rest-NoNewline [] = subst (λ (y : Cut). NoNewline y.1) (sym cut_nothing) nothing
rest-NoNewline (x ∷ p) = elim (Bool-cases (x == newline)) [
  | inl h ↦ subst (λ (y : Cut). NoNewline y.1) (sym (cut-newline x p h)) (rest-NoNewline p)
  | inr h ↦
      subst (λ (y : Cut). NoNewline y.1) (sym (cut_other x p h))
        (longer-NoNewline x (cut p) h (rest-NoNewline p))
]

pub cut_plain : (p : List ℕ) → NoNewline p → cut p ≡ ([], p)
cut_plain [] nothing = cut_nothing
cut_plain (x ∷ p) (other h n) = cut_other x p h ∙ ap (longer x) (cut_plain p n)

-- The first line, if any, has `n` bytes at least.
data StartsLong (n : ℕ) : List (List ℕ) → Type 0 where
  no_first : StartsLong n []
  long_first :
      {line : List ℕ} {lines : List (List ℕ)} → n ≤ length line → StartsLong n (line ∷ lines)

longer-StartsLong : (n x : ℕ) (y : Cut) → StartsLong n y.0 → StartsLong (suc n) (longer x y).0
longer-StartsLong n x ([], rest) h = no_first
longer-StartsLong n x (line ∷ lines, rest) (long_first l) = long_first (omega arith)

any-StartsLong : (lines : List (List ℕ)) → StartsLong 0 lines
any-StartsLong [] = no_first
any-StartsLong (line ∷ lines) = long_first (omega arith)

first_long : (p b : List ℕ) → NoNewline p → StartsLong (length p) (cut (p ++ b)).0
first_long [] b n = any-StartsLong (cut b).0
first_long (x ∷ p) b (other h n) =
    subst (λ (y : Cut). StartsLong (suc (length p)) y.0) (sym (cut_other x (p ++ b) h))
      (longer-StartsLong (length p) x (cut (p ++ b)) (first_long p b n))

fitting-StartsLong :
    (n : ℕ) (lines : List (List ℕ)) → 1023 ≤ n → StartsLong n lines → fitting lines ≡ []
fitting-StartsLong n [] l no_first = fitting_nothing
fitting-StartsLong n (line ∷ lines) l (long_first l') = fitting_long line lines (omega arith)

-- A full buffer without a newline starts a line that does not fit.
pub fitting_full : (p b : List ℕ) → NoNewline p → 1023 ≤ length p → fitting (cut (p ++ b)).0 ≡ []
fitting_full p b n l = fitting-StartsLong (length p) (cut (p ++ b)).0 l (first_long p b n)
