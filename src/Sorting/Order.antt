-- ===== src/Sorting/Order.antt =====
-- The order that compare_entries() decides, for a strcmp() as the C standard describes it.
use xv6_part2_and_concurrenc.Base.{
  ℕ, ◌≡◌, refl, Bool, true, false, List, [], ◌∷◌, ltb, if◌then◌else◌, arith, inl, inr, Bool-cases,
  sym, zero, suc,
}
use xv6_part2_and_concurrenc.Sorting.{
  ℤ, pos, negsuc, is_positive, is_negative, int_ltb, compare_ids, FileEntry, compare_entries,
}

-- Bytes compared one by one; a proper prefix comes first.
unfoldable pub lex_ltb : List ℕ → List ℕ → Bool
lex_ltb s [] = false
lex_ltb [] (y ∷ t) = true
lex_ltb (x ∷ s) (y ∷ t) =
    let rest = lex_ltb s t in if ltb x y then true else if ltb y x then false else rest

-- The sign of the result says how the strings compare as bytes.
pub record IsStrcmp (strcmp : List ℕ → List ℕ → ℤ) : Type 0 where
  pub above : (s t : List ℕ) → is_positive (strcmp s t) ≡ lex_ltb t s
  pub below : (s t : List ℕ) → is_negative (strcmp s t) ≡ lex_ltb s t

pub lex_ltb_asym : (s t : List ℕ) → lex_ltb s t ≡ true → lex_ltb t s ≡ false
unfolding lex_ltb
lex_ltb_asym [] [] h = refl
lex_ltb_asym [] (y ∷ t) h = refl
lex_ltb_asym (x ∷ s) [] h = ground arith
lex_ltb_asym (x ∷ s) (y ∷ t) h = ground (arith, lex_ltb_asym s t)

lex_ltb_trans : (s t u : List ℕ) → lex_ltb t s ≡ false → lex_ltb u t ≡ false → lex_ltb u s ≡ false
unfolding lex_ltb
lex_ltb_trans [] t u h h' = refl
lex_ltb_trans (x ∷ s) [] u h h' = ground arith
lex_ltb_trans (x ∷ s) (y ∷ t) [] h h' = ground arith
lex_ltb_trans (x ∷ s) (y ∷ t) (z ∷ u) h h' = ground (arith, lex_ltb_trans s t u)

int_ltb_asym : (a b : ℤ) → int_ltb a b ≡ true → int_ltb b a ≡ false
int_ltb_asym (pos a) (pos b) h = ground arith
int_ltb_asym (pos a) (negsuc b) h = ground arith
int_ltb_asym (negsuc a) (pos b) h = refl
int_ltb_asym (negsuc a) (negsuc b) h = ground arith

int_ltb_trans : (a b c : ℤ) → int_ltb b a ≡ false → int_ltb c b ≡ false → int_ltb c a ≡ false
int_ltb_trans (pos a) (pos b) (pos c) h h' = ground arith
int_ltb_trans (pos a) (pos b) (negsuc c) h h' = ground arith
int_ltb_trans (pos a) (negsuc b) c h h' = ground arith
int_ltb_trans (negsuc a) (pos b) (pos c) h h' = refl
int_ltb_trans (negsuc a) (pos b) (negsuc c) h h' = ground arith
int_ltb_trans (negsuc a) (negsuc b) (pos c) h h' = refl
int_ltb_trans (negsuc a) (negsuc b) (negsuc c) h h' = ground arith

pub compare_ids-sign :
    (a b : ℤ)
    → (is_positive (compare_ids a b) ≡ int_ltb b a) × (is_negative (compare_ids a b) ≡ int_ltb a b)
compare_ids-sign a b = elim (Bool-cases (int_ltb b a)) [
  | inl gt ↦ (rw gt refl, rw gt (rw (int_ltb_asym b a gt) refl))
  | inr le ↦ elim (Bool-cases (int_ltb a b)) [
    | inl lt ↦ (rw le (rw lt refl), rw le (rw lt refl))
    | inr ge ↦ (rw le (rw ge refl), rw le (rw ge refl))
  ]
]

-- `a` belongs before `b`, or beside it.
module _ (strcmp : List ℕ → List ℕ → ℤ) (column_type : ℕ) where
  abbrev pub Ordered : FileEntry → FileEntry → Type 0
  Ordered a b = is_positive (compare_entries strcmp column_type a b) ≡ false

-- The laws that the sorting needs.
pub record IsOrder (strcmp : List ℕ → List ℕ → ℤ) (column_type : ℕ) : Type 0 where
  pub swap :
      (a b : FileEntry)
      → is_negative (compare_entries strcmp column_type a b)
        ≡ is_positive (compare_entries strcmp column_type b a)
  pub total :
      (a b : FileEntry)
      → is_positive (compare_entries strcmp column_type a b) ≡ true
      → Ordered strcmp column_type b a
  pub trans :
      (a b c : FileEntry)
      → Ordered strcmp column_type a b
      → Ordered strcmp column_type b c
      → Ordered strcmp column_type a c

-- An order through a key.
by_key :
    {K : Type 0} (lt : K → K → Bool)
    → ((x y : K) → lt x y ≡ true → lt y x ≡ false)
    → ((x y z : K) → lt y x ≡ false → lt z y ≡ false → lt z x ≡ false)
    → (strcmp : List ℕ → List ℕ → ℤ) (column_type : ℕ) (key : FileEntry → K)
    → ((a b : FileEntry)
        → is_positive (compare_entries strcmp column_type a b) ≡ lt (key b) (key a))
    → ((a b : FileEntry)
        → is_negative (compare_entries strcmp column_type a b) ≡ lt (key a) (key b))
    → IsOrder strcmp column_type
by_key lt asym neg strcmp column_type key above below = record {
  swap = λ a b. rw (below a b) (rw (above b a) refl);
  total = λ a b h. rw (above b a) (asym (key b) (key a) (rw (sym (above a b)) h));
  trans = λ a b c h h'.
      rw (above a c)
        (neg (key a) (key b) (key c) (rw (sym (above a b)) h) (rw (sym (above b c)) h'));
}

beside :
    (strcmp : List ℕ → List ℕ → ℤ) (n : ℕ) (a b : FileEntry)
    → compare_entries strcmp (suc (suc (suc n))) a b ≡ pos 0
unfolding compare_entries
beside strcmp n a b = ground arith

-- What the merges need of compare_entries().
pub compare_entries-IsOrder :
    (strcmp : List ℕ → List ℕ → ℤ)
    → IsStrcmp strcmp
    → (column_type : ℕ) → IsOrder strcmp column_type
unfolding compare_entries
compare_entries-IsOrder strcmp std zero =
    by_key int_ltb int_ltb_asym int_ltb_trans strcmp 0 (λ e. e.id)
      (λ a b. (compare_ids-sign a.id b.id).0) (λ a b. (compare_ids-sign a.id b.id).1)
compare_entries-IsOrder strcmp std (suc zero) =
    by_key lex_ltb lex_ltb_asym lex_ltb_trans strcmp 1 (λ e. e.name)
      (λ a b. std.above a.name b.name) (λ a b. std.below a.name b.name)
compare_entries-IsOrder strcmp std (suc (suc zero)) =
    by_key lex_ltb lex_ltb_asym lex_ltb_trans strcmp 2 (λ e. e.timestamp)
      (λ a b. std.above a.timestamp b.timestamp) (λ a b. std.below a.timestamp b.timestamp)
compare_entries-IsOrder strcmp std (suc (suc (suc n))) = record {
  swap = λ a b. rw (beside strcmp n a b) (rw (beside strcmp n b a) refl);
  total = λ a b h. rw (beside strcmp n b a) refl;
  trans = λ a b c h h'. rw (beside strcmp n a c) refl;
}
