-- ===== src/Grep/Matching.antt =====
-- The matcher of initial-xv6/src/user/grep.c against what a pattern means.
use mathlib.Core.Path.{subst}
use xv6_part2_and_concurrenc.Base.{
  ℕ, ◌≡◌, ◌≢◌, ◌⊎◌, inl, inr, refl, sym, ap, ◌∙◌, Bool, true, false, ◌||◌, ◌&&◌, List, [], ◌∷◌,
  ◌++◌, ◌==◌, Bool-cases, arith,
}
use xv6_part2_and_concurrenc.Grep.{
  dollar, star, dot, caret, matchstar, is_end, matchchar, matchone, matchhere, match_from, match,
}
use xv6_part2_and_concurrenc.Grep.Meaning.{
  Item, one, many, stop, last_item, items, Fits, Run, Accepts, done, at_end, one_of, many_of,
  Occurs, clash, star_sound, star_complete,
}

-- matchhere() by what stands at the head of the pattern.
matchone_plain :
    (c : ℕ) (last : Bool) (here : List ℕ → Bool) (text : List ℕ)
    → (c == dollar && last) ≡ false
    → matchone c last here text ≡ matchchar c here text
unfolding matchone
matchone_plain c last here text h = rw (matchone, h) refl

matchone-dollar :
    (c : ℕ) (last : Bool) (here : List ℕ → Bool) (text : List ℕ)
    → (c == dollar && last) ≡ true
    → matchone c last here text ≡ is_end text
unfolding matchone
matchone-dollar c last here text h = rw (matchone, h) refl

not_last : (b : Bool) → (b && false) ≡ false
not_last b = ground arith

is_last : (b v : Bool) → b ≡ v → (b && true) ≡ v
is_last b v h = ground arith

module _ (c d : ℕ) (re text : List ℕ) where
  here_star : (d == star) ≡ true → matchhere (c ∷ d ∷ re) text ≡ matchstar c (matchhere re) text
  unfolding matchhere
  here_star h = rw (matchhere, h) refl

  items-star : (d == star) ≡ true → items (c ∷ d ∷ re) ≡ many c ∷ items re
  unfolding items
  items-star h = rw (items, h) refl

  here_plain :
      (d == star) ≡ false → matchhere (c ∷ d ∷ re) text ≡ matchone c false (matchhere (d ∷ re)) text
  unfolding matchhere
  here_plain h = rw (matchhere, h) refl

  items_plain : (d == star) ≡ false → items (c ∷ d ∷ re) ≡ one c ∷ items (d ∷ re)
  unfolding items
  items_plain h = rw (items, h) refl

here_last : (c : ℕ) (text : List ℕ) → matchhere (c ∷ []) text ≡ matchone c true (matchhere []) text
unfolding matchhere
here_last c text = refl

items_last : (c : ℕ) → items (c ∷ []) ≡ last_item c ∷ []
unfolding items
items_last c = refl

items-dollar : (c : ℕ) → (c == dollar) ≡ true → items (c ∷ []) ≡ stop ∷ []
items-dollar c h = items_last c ∙ rw (last_item, h) refl

items_char : (c : ℕ) → (c == dollar) ≡ false → items (c ∷ []) ≡ one c ∷ []
items_char c h = items_last c ∙ rw (last_item, h) refl

items_none : items [] ≡ []
unfolding items
items_none = refl

char_test : (c x : ℕ) → (c == dot || c == x) ≡ true → Fits c x
char_test c x h = ground arith

test_char : (c x : ℕ) → Fits c x → (c == dot || c == x) ≡ true
test_char c x h = ground arith

char_hit :
    (c x : ℕ) (here : List ℕ → Bool) (text : List ℕ)
    → (c == dot || c == x) ≡ true
    → matchchar c here (x ∷ text) ≡ here text
unfolding matchchar
char_hit c x here text h = rw (matchchar, h) refl

char_miss :
    (c x : ℕ) (here : List ℕ → Bool) (text : List ℕ)
    → (c == dot || c == x) ≡ false
    → matchchar c here (x ∷ text) ≡ false
unfolding matchchar
char_miss c x here text h = rw (matchchar, h) refl

char_end : (c : ℕ) (here : List ℕ → Bool) → matchchar c here [] ≡ false
unfolding matchchar
char_end c here = refl

char_sound :
    (c : ℕ) (here : List ℕ → Bool) (its : List Item)
    → ((t : List ℕ) → here t ≡ true → Accepts its t)
    → (text : List ℕ) → matchchar c here text ≡ true
    → Accepts (one c ∷ its) text
char_sound c here its sound [] e = clash (sym (char_end c here) ∙ e)
char_sound c here its sound (x ∷ text) e = elim (Bool-cases (c == dot || c == x)) [
  | inl fits ↦ one_of (char_test c x fits) (sound text (sym (char_hit c x here text fits) ∙ e))
  | inr off ↦ clash (sym (char_miss c x here text off) ∙ e)
]

end_sound : (text : List ℕ) → is_end text ≡ true → Accepts (stop ∷ []) text
end_sound [] e = at_end
end_sound (x ∷ text) e = clash e

star_accepts :
    {c : ℕ} {its : List Item} {text : List ℕ}
    → ((run : List ℕ) × (rest : List ℕ) × (text ≡ run ++ rest) × Run c run × Accepts its rest)
    → Accepts (many c ∷ its) text
star_accepts (run, rest, same, r, a) = many_of run rest same r a

matchhere_sound : (re text : List ℕ) → matchhere re text ≡ true → Accepts (items re) text
matchhere_sound [] text e = subst (λ y. Accepts y text) (sym items_none) done
matchhere_sound (c ∷ []) text e = elim (Bool-cases (c == dollar)) [
  | inl h ↦
      subst (λ y. Accepts y text) (sym (items-dollar c h))
        (end_sound text
          (sym (here_last c text ∙ matchone-dollar c true (matchhere []) text (is_last _ _ h)) ∙ e))
  | inr h ↦
      subst (λ y. Accepts y text) (sym (items_char c h))
        (char_sound c (matchhere []) [] (λ t e'. done) text
          (sym (here_last c text ∙ matchone_plain c true (matchhere []) text (is_last _ _ h)) ∙ e))
]
matchhere_sound (c ∷ d ∷ re) text e = elim (Bool-cases (d == star)) [
  | inl h ↦
      subst (λ y. Accepts y text) (sym (items-star c d re text h))
        (star_accepts (
          star_sound c (matchhere re) (Accepts (items re)) (matchhere_sound re) text
            (sym (here_star c d re text h) ∙ e)))
  | inr h ↦
      subst (λ y. Accepts y text) (sym (items_plain c d re text h))
        (char_sound c (matchhere (d ∷ re)) (items (d ∷ re)) (matchhere_sound (d ∷ re)) text (
          sym (
            here_plain c d re text h
            ∙ matchone_plain c false (matchhere (d ∷ re)) text (not_last (c == dollar)))
          ∙ e))
]

char_complete :
    (c : ℕ) (here : List ℕ → Bool) (its : List Item)
    → ((t : List ℕ) → Accepts its t → here t ≡ true)
    → (text : List ℕ) → Accepts (one c ∷ its) text
    → matchchar c here text ≡ true
char_complete c here its complete [] a = elim a [ ]
char_complete c here its complete (x ∷ text) (one_of f a) =
    char_hit c x here text (test_char c x f) ∙ complete text a

end_complete : (text : List ℕ) → Accepts (stop ∷ []) text → is_end text ≡ true
end_complete [] at_end = refl
end_complete (x ∷ text) a = elim a [ ]

many_complete :
    (c : ℕ) (here : List ℕ → Bool) (its : List Item)
    → ((t : List ℕ) → Accepts its t → here t ≡ true)
    → (text : List ℕ) → Accepts (many c ∷ its) text
    → matchstar c here text ≡ true
many_complete c here its complete text (many_of run rest same r a) =
    ap (matchstar c here) same ∙ star_complete c here run rest r (complete rest a)

matchhere_complete : (re text : List ℕ) → Accepts (items re) text → matchhere re text ≡ true
unfolding matchhere
matchhere_complete [] text a = refl
matchhere_complete (c ∷ []) text a = elim (Bool-cases (c == dollar)) [
  | inl h ↦
      here_last c text
      ∙ matchone-dollar c true (matchhere []) text (is_last _ _ h)
      ∙ end_complete text (subst (λ y. Accepts y text) (items-dollar c h) a)
  | inr h ↦
      here_last c text
      ∙ matchone_plain c true (matchhere []) text (is_last _ _ h)
      ∙ char_complete c (matchhere []) [] (λ t a'. refl) text
          (subst (λ y. Accepts y text) (items_char c h) a)
]
matchhere_complete (c ∷ d ∷ re) text a = elim (Bool-cases (d == star)) [
  | inl h ↦
      here_star c d re text h
      ∙ many_complete c (matchhere re) (items re) (matchhere_complete re) text
          (subst (λ y. Accepts y text) (items-star c d re text h) a)
  | inr h ↦
      here_plain c d re text h
      ∙ matchone_plain c false (matchhere (d ∷ re)) text (not_last (c == dollar))
      ∙ char_complete c (matchhere (d ∷ re)) (items (d ∷ re)) (matchhere_complete (d ∷ re)) text
          (subst (λ y. Accepts y text) (items_plain c d re text h) a)
]

-- The loop of match() tries every place.
from_now : (re text : List ℕ) → matchhere re text ≡ true → match_from re text ≡ true
unfolding match_from
from_now re [] h = h
from_now re (x ∷ text) h = rw (match_from, h) refl

from_later :
    (re : List ℕ) (x : ℕ) (text : List ℕ)
    → matchhere re (x ∷ text) ≡ false
    → match_from re (x ∷ text) ≡ match_from re text
unfolding match_from
from_later re x text h = rw (match_from, h) refl

from_end : (re : List ℕ) → match_from re [] ≡ matchhere re []
unfolding match_from
from_end re = refl

from_sound : (re text : List ℕ) → match_from re text ≡ true → Occurs re text
unfolding Occurs
from_sound re [] e = ([], [], refl, matchhere_sound re [] (sym (from_end re) ∙ e))
from_sound re (x ∷ text) e = elim (Bool-cases (matchhere re (x ∷ text))) [
  | inl now ↦ ([], x ∷ text, refl, matchhere_sound re (x ∷ text) now)
  | inr later ↦
      let (before, rest, same, a) = from_sound re text (sym (from_later re x text later) ∙ e) in
      (x ∷ before, rest, ap (λ y. x ∷ y) same, a)
]

from_complete :
    (re before rest : List ℕ) → Accepts (items re) rest → match_from re (before ++ rest) ≡ true
from_complete re [] rest a = from_now re rest (matchhere_complete re rest a)
from_complete re (x ∷ before) rest a = elim (Bool-cases (matchhere re (x ∷ (before ++ rest)))) [
  | inl now ↦ from_now re (x ∷ (before ++ rest)) now
  | inr later ↦ from_later re x (before ++ rest) later ∙ from_complete re before rest a
]

-- A pattern matches at the beginning of the text if it starts with ^, and else anywhere.
unfoldable pub Matches : List ℕ → List ℕ → Type 0
Matches [] text = Occurs [] text
Matches (c ∷ re) text =
    ((c ≡ caret) × Accepts (items re) text) ⊎ ((c ≢ caret) × Occurs (c ∷ re) text)

match-caret :
    (c : ℕ) (re text : List ℕ) → (c == caret) ≡ true → match (c ∷ re) text ≡ matchhere re text
unfolding match
match-caret c re text h = rw (match, h) refl

match_loop :
    (c : ℕ) (re text : List ℕ)
    → (c == caret) ≡ false
    → match (c ∷ re) text ≡ match_from (c ∷ re) text
unfolding match
match_loop c re text h = rw (match, h) refl

match_none : (text : List ℕ) → match [] text ≡ match_from [] text
unfolding match
match_none text = refl

Occurs-from : (re text : List ℕ) → Occurs re text → match_from re text ≡ true
unfolding Occurs
Occurs-from re text (before, rest, same, a) =
    ap (match_from re) same ∙ from_complete re before rest a

match_sound : (re text : List ℕ) → match re text ≡ true → Matches re text
unfolding Matches
match_sound [] text e = from_sound [] text (sym (match_none text) ∙ e)
match_sound (c ∷ re) text e = elim (Bool-cases (c == caret)) [
  | inl h ↦ inl (ground arith, matchhere_sound re text (sym (match-caret c re text h) ∙ e))
  | inr h ↦ inr ((λ e'. ground arith), from_sound (c ∷ re) text (sym (match_loop c re text h) ∙ e))
]

is_caret : (c : ℕ) → c ≡ caret → (c == caret) ≡ true
is_caret c h = ground arith

not_caret : (c : ℕ) → c ≢ caret → (c == caret) ≡ false
not_caret c h = ground arith

match_complete : (re text : List ℕ) → Matches re text → match re text ≡ true
unfolding Matches
match_complete [] text h = match_none text ∙ Occurs-from [] text h
match_complete (c ∷ re) text (inl (h, a)) =
    match-caret c re text (is_caret c h) ∙ matchhere_complete re text a
match_complete (c ∷ re) text (inr (h, o)) =
    match_loop c re text (not_caret c h) ∙ Occurs-from (c ∷ re) text o

-- match(), for every pattern and text: it returns 1 exactly if the items of the pattern, each a
-- character, any number of a character, or the end of the text, make up in turn the beginning of
-- the text (if the pattern starts with ^) or of what follows some part of it (else).
pub match_lem :
    (re text : List ℕ)
    → (match re text ≡ true → Matches re text) × (Matches re text → match re text ≡ true)
match_lem re text = (match_sound re text, match_complete re text)
