-- ===== src/Sorting/Min.antt =====
-- get_min_entry() finds a first entry that belongs before those of all queues.
use xv6_part2_and_concurrenc.Base.{
  ℕ, zero, suc, ◌≤◌, ◌<◌, ◌≡◌, refl, sym, true, false, List, arith, inl, inr, leb, Option, none,
  some, Bool-cases, ℕ_discrete, ap, dec_lt, ◌∙◌,
}
use xv6_part2_and_concurrenc.Sorting.{
  ℤ, FileEntry, MergeQueue, is_positive, is_negative, compare_entries, take_smaller, min_round,
  get_min_entry,
}
use xv6_part2_and_concurrenc.Sorting.Order.{Ordered, IsOrder}

pub lt→not_leb : (a b : ℕ) → b < a → leb a b ≡ false
lt→not_leb a b h = ground arith

pub le→leb : (a b : ℕ) → a ≤ b → leb a b ≡ true
le→leb a b h = ground arith

module _ (strcmp : List ℕ → List ℕ → ℤ) (column_type : ℕ) (ord : IsOrder strcmp column_type)
    (arr : ℕ → FileEntry) (queues : ℕ → MergeQueue) where
  -- What the result says of the first `i` queues: all are empty, or it is a least first entry.
  unfoldable pub IsLeast : ℕ → Option (FileEntry × ℕ) → Type 0
  IsLeast i none = (j : ℕ) → j < i → (queues j).end < (queues j).index
  IsLeast i (some (e, k)) =
      (k < i)
      × ((queues k).index ≤ (queues k).end)
      × (e ≡ arr (queues k).index)
      × ((j : ℕ)
          → j < i
          → (queues j).index ≤ (queues j).end
          → Ordered strcmp column_type e (arr (queues j).index))

  Ordered-refl : (e : FileEntry) → Ordered strcmp column_type e e
  Ordered-refl e = elim (Bool-cases (is_positive (compare_entries strcmp column_type e e))) [
    | inl above ↦ ord.total e e above
    | inr beside ↦ beside
  ]

  smaller_none :
      (i : ℕ)
      → (queues i).index ≤ (queues i).end
      → ((j : ℕ) → j < i → (queues j).end < (queues j).index)
      → IsLeast (suc i) (some (arr (queues i).index, i))
  unfolding IsLeast
  smaller_none i le empty = (
    omega arith,
    le,
    refl,
    λ j l more. elim (ℕ_discrete j i) [
      | yes here ↦ rw here (Ordered-refl (arr (queues i).index))
      | no away ↦ absurd (omega (arith, empty j (omega arith)))
    ],
  )

  smaller_some :
      (i : ℕ) (e : FileEntry) (k : ℕ)
      → (queues i).index ≤ (queues i).end
      → IsLeast i (some (e, k))
      → IsLeast (suc i) (take_smaller strcmp column_type (arr (queues i).index) i (some (e, k)))
  unfolding IsLeast take_smaller
  smaller_some i e k le (lt, more, at, least) =
      elim (Bool-cases
        (is_negative (compare_entries strcmp column_type (arr (queues i).index) e))) [
          | inl below ↦ rw below (
            omega arith,
            le,
            refl,
            λ j l some_left. elim (ℕ_discrete j i) [
              | yes here ↦ rw here (Ordered-refl (arr (queues i).index))
              | no away ↦
                  ord.trans (arr (queues i).index) e (arr (queues j).index)
                    (ord.total e (arr (queues i).index)
                      (sym (ord.swap (arr (queues i).index) e) ∙ below))
                    (least j (omega arith) some_left)
            ],
          )
          | inr above ↦ rw above (
            omega arith,
            more,
            at,
            λ j l some_left. elim (ℕ_discrete j i) [
              | yes here ↦ rw here (sym (ord.swap (arr (queues i).index) e) ∙ above)
              | no away ↦ least j (omega arith) some_left
            ],
          )
        ]

  round_skips :
      (i : ℕ) (found : Option (FileEntry × ℕ))
      → (queues i).end < (queues i).index
      → IsLeast i found
      → IsLeast (suc i) found
  unfolding IsLeast
  round_skips i none gt empty =
      λ j l. elim (ℕ_discrete j i) [ yes here ↦ rw here gt | no away ↦ empty j (omega arith) ]
  round_skips i (some (e, k)) gt (lt, more, at, least) = (
    omega arith,
    more,
    at,
    λ j l some_left. elim (ℕ_discrete j i) [
      | yes here ↦
          absurd (omega (arith, ap (λ x. (queues x).index) here, ap (λ x. (queues x).end) here))
      | no away ↦ least j (omega arith) some_left
    ],
  )

  takes-IsLeast :
      (i : ℕ) (found : Option (FileEntry × ℕ))
      → (queues i).index ≤ (queues i).end
      → IsLeast i found
      → IsLeast (suc i) (take_smaller strcmp column_type (arr (queues i).index) i found)
  unfolding IsLeast take_smaller
  takes-IsLeast i none le h = smaller_none i le h
  takes-IsLeast i (some (e, k)) le h = smaller_some i e k le h

  min_round-IsLeast :
      (i : ℕ) (found : Option (FileEntry × ℕ))
      → IsLeast i found
      → IsLeast (suc i) (min_round strcmp column_type arr queues i found)
  unfolding min_round
  min_round-IsLeast i found h = elim (dec_lt (queues i).end (queues i).index) [
    | yes empty ↦
        rw (lt→not_leb (queues i).index (queues i).end empty) (round_skips i found empty h)
    | no more ↦
        rw (le→leb (queues i).index (queues i).end (omega arith))
          (takes-IsLeast i found (omega arith) h)
  ]

  pub get_min_entry-IsLeast : (i : ℕ) → IsLeast i (get_min_entry strcmp column_type arr queues i)
  unfolding get_min_entry IsLeast
  get_min_entry-IsLeast zero = λ j l. absurd (omega arith)
  get_min_entry-IsLeast (suc i) =
      min_round-IsLeast i (get_min_entry strcmp column_type arr queues i) (get_min_entry-IsLeast i)
