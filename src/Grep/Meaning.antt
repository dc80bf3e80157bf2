-- ===== src/Grep/Meaning.antt =====
-- What a pattern of initial-xv6/src/user/grep.c means, and its loop for the star.
use xv6_part2_and_concurrenc.Base.{
  ℕ, ◌≡◌, ◌⊎◌, inl, inr, refl, sym, ap, ◌∙◌, Bool, true, false, ◌||◌, List, [], ◌∷◌, ◌++◌, ◌==◌,
  Bool-cases, arith,
}
use xv6_part2_and_concurrenc.Grep.{dollar, star, dot, matchstar}

-- A pattern as the list of its items: one character, any number of them, or the end of the text.
pub data Item : Type 0 where
  one : ℕ → Item
  many : ℕ → Item
  stop : Item

abbrev pub last_item : ℕ → Item
last_item c = elim (c == dollar) [ true ↦ stop | false ↦ one c ]

unfoldable pub items : List ℕ → List Item
items [] = []
items (c ∷ []) = last_item c ∷ []
items (c ∷ d ∷ re) = elim (d == star) [ true ↦ many c ∷ items re | false ↦ one c ∷ items (d ∷ re) ]

abbrev pub Fits : ℕ → ℕ → Type 0
Fits c x = (c ≡ dot) ⊎ (c ≡ x)

pub data Run (c : ℕ) : List ℕ → Type 0 where
  no_more : Run c []
  one_more : {x : ℕ} {run : List ℕ} → Fits c x → Run c run → Run c (x ∷ run)

-- The items, in turn, make up the beginning of the text.
pub data Accepts : List Item → List ℕ → Type 0 where
  done : {text : List ℕ} → Accepts [] text
  at_end : Accepts (stop ∷ []) []
  one_of :
      {c x : ℕ} {its : List Item} {text : List ℕ}
      → Fits c x
      → Accepts its text
      → Accepts (one c ∷ its) (x ∷ text)
  many_of :
      {c : ℕ} {its : List Item} {text : List ℕ} (run rest : List ℕ)
      → text ≡ run ++ rest
      → Run c run
      → Accepts its rest
      → Accepts (many c ∷ its) text

-- The pattern matches somewhere in the text.
unfoldable pub Occurs : List ℕ → List ℕ → Type 0
Occurs re text =
    (before : List ℕ) × (rest : List ℕ) × (text ≡ before ++ rest) × Accepts (items re) rest

pub clash : {A : Type 0} → false ≡ true → A
clash e = absurd cc

pub Fits-test : (c x : ℕ) → (x == c || c == dot) ≡ true → Fits c x
Fits-test c x h = ground arith

pub test-Fits : (c x : ℕ) → Fits c x → (x == c || c == dot) ≡ true
test-Fits c x h = ground arith

module _ (c : ℕ) (here : List ℕ → Bool) where
  star_here : (text : List ℕ) → here text ≡ true → matchstar c here text ≡ true
  unfolding matchstar
  star_here [] h = h
  star_here (x ∷ text) h = rw (matchstar, h) refl

  star_on :
      (x : ℕ) (text : List ℕ)
      → (x == c || c == dot) ≡ true
      → matchstar c here text ≡ true
      → matchstar c here (x ∷ text) ≡ true
  unfolding matchstar
  star_on x text h e = elim (Bool-cases (here (x ∷ text))) [
    | inl now ↦ rw (matchstar, now) refl
    | inr later ↦ rw (matchstar, later, h) e
  ]

  star_stop :
      (x : ℕ) (text : List ℕ)
      → here (x ∷ text) ≡ false
      → (x == c || c == dot) ≡ false
      → matchstar c here (x ∷ text) ≡ false
  unfolding matchstar
  star_stop x text h h' = rw (matchstar, h, h') refl

  star_step :
      (x : ℕ) (text : List ℕ)
      → here (x ∷ text) ≡ false
      → (x == c || c == dot) ≡ true
      → matchstar c here (x ∷ text) ≡ matchstar c here text
  unfolding matchstar
  star_step x text h h' = rw (matchstar, h, h') refl

  pub star_sound :
      (P : List ℕ → Type 0)
      → ((t : List ℕ) → here t ≡ true → P t)
      → (text : List ℕ) → matchstar c here text ≡ true
      → (run : List ℕ) × (rest : List ℕ) × (text ≡ run ++ rest) × Run c run × P rest
  unfolding matchstar
  star_sound P sound [] e = ([], [], refl, no_more, sound [] e)
  star_sound P sound (x ∷ text) e = elim (Bool-cases (here (x ∷ text))) [
    | inl now ↦ ([], x ∷ text, refl, no_more, sound (x ∷ text) now)
    | inr later ↦ elim (Bool-cases (x == c || c == dot)) [
      | inl fits ↦
          let (run, rest, same, r, p) =
            star_sound P sound text (sym (star_step x text later fits) ∙ e) in
          (x ∷ run, rest, ap (λ y. x ∷ y) same, one_more (Fits-test c x fits) r, p)
      | inr off ↦ clash (sym (star_stop x text later off) ∙ e)
    ]
  ]

  pub star_complete :
      (run rest : List ℕ) → Run c run → here rest ≡ true → matchstar c here (run ++ rest) ≡ true
  star_complete [] rest r h = star_here rest h
  star_complete (x ∷ run) rest (one_more f r) h =
      star_on x (run ++ rest) (test-Fits c x f) (star_complete run rest r h)
