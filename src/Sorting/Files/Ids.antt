-- ===== src/Sorting/Files/Ids.antt =====
-- sort_files() by the column ID.
use mathlib.Core.Path.{subst}
use xv6_part2_and_concurrenc.Base.{
  ℕ, zero, suc, ◌+◌, ◌-◌, ◌≤◌, ◌<◌, ◌≡◌, ◌≢◌, ◌^◌, refl, sym, ap, ◌∙◌, List, some, arith, total,
  total-zero, total-suc, total_congr, lt→ltb, dec_lt, false,
}
use xv6_part2_and_concurrenc.Base.Pigeonhole.{reached, total-reached}
use xv6_part2_and_concurrenc.Sorting.{
  ℤ, pos, FileEntry, int_ltb, compare_entries, parallel_merge_sort,
}
use xv6_part2_and_concurrenc.Sorting.Min.{le→leb, lt→not_leb}
use xv6_part2_and_concurrenc.Sorting.Order.{IsStrcmp, compare_ids-sign}
use xv6_part2_and_concurrenc.Sorting.Ranges.{weigh, weigh-zero, weigh-suc, IsSorted, IsSortedCopy}
use xv6_part2_and_concurrenc.Sorting.Recursion.{parallel_merge_sort_lem}
use xv6_part2_and_concurrenc.Sorting.Counting.{max_key, min_key, parallel_counting_sort}
use xv6_part2_and_concurrenc.Sorting.Counting.Placing.{IsStableSort}
use xv6_part2_and_concurrenc.Sorting.Counting.Stable.{parallel_counting_sort-IsStableSort}
use xv6_part2_and_concurrenc.Sorting.Files.{id_key, set_key, preprocess_sort_keys, sort_files}

no_offset : (i : ℕ) → 0 + i ≡ i
no_offset i = omega arith

module _ {from to : ℕ → FileEntry} {n : ℕ} (s : IsStableSort from to n) where
  places_apart : (i j : ℕ) → i < j → j < n → s.place_of i ≢ s.place_of j
  places_apart i j lt h e = elim (dec_lt (from i).sort_key (from j).sort_key) [
    | yes less ↦ absurd (omega (arith, s.ordered i j (omega arith) h less))
    | no more ↦ elim (dec_lt (from j).sort_key (from i).sort_key) [
      | yes less ↦ absurd (omega (arith, s.ordered j i h (omega arith) less))
      | no same ↦ absurd (omega (arith, s.stable i j lt h (omega arith)))
    ]
  ]

  -- Where an entry comes from.
  origin : (p : ℕ) → p < n → (i : ℕ) × (i < n) × (s.place_of i ≡ p) × (to p ≡ from i)
  origin p h =
      let (i, lt, at) = reached s.place_of n s.within places_apart p h in
      (i, lt, at, ap to (sym at) ∙ s.moved i lt)

  pub stable-ordered : (p q : ℕ) → p < q → q < n → (to p).sort_key ≤ (to q).sort_key
  stable-ordered p q lt h =
      let (i, li, ai, ei) = origin p (omega arith) in
      let (j, lj, aj, ej) = origin q h in
      elim (dec_lt (from j).sort_key (from i).sort_key) [
        | yes less ↦ absurd (omega (arith, s.ordered j i lj li less))
        | no more ↦ omega (arith, ap (λ e. e.sort_key) ei, ap (λ e. e.sort_key) ej)
      ]

  pub stable-total : (w : FileEntry → ℕ) → total w n to ≡ total w n from
  stable-total w =
      total-reached s.place_of n s.within places_apart w to (λ i. w (from i))
        (λ i lt. ap w (s.moved i lt))
      ∙ total_congr (λ i. w (from i)) w n (λ i. i) from (λ i lt. refl)

weigh-total :
    (w : FileEntry → ℕ) (files : ℕ → FileEntry) (n : ℕ) → weigh w files 0 n ≡ total w n files
weigh-total w files zero = weigh-zero w files 0 ∙ sym (total-zero w files)
weigh-total w files (suc n) = omega (
  arith,
  weigh-suc w files 0 n,
  weigh-total w files n,
  total-suc w n files,
  ap (λ i. w (files i)) (no_offset n),
)

max_key-lt :
    (files : ℕ → FileEntry) (i bound : ℕ)
    → ((j : ℕ) → j ≤ i → (files j).sort_key < bound)
    → max_key files i < bound
unfolding max_key
max_key-lt files zero bound h = h 0 (omega arith)
max_key-lt files (suc i) bound h =
    ground (arith, max_key-lt files i bound (λ j le. h j (omega arith)), h (suc i) (omega arith))

ids_ordered :
    (a b : FileEntry)
    → a.id ≡ pos a.sort_key
    → b.id ≡ pos b.sort_key
    → a.sort_key ≤ b.sort_key
    → int_ltb b.id a.id ≡ false
ids_ordered a b ea eb le = rw ea (rw eb (ground arith))

module _ (time_of : List ℕ → ℕ) (files : ℕ → FileEntry) (n : ℕ) (number : ℕ → ℕ)
    (ids : (i : ℕ) → i < n → (files i).id ≡ pos (number i)) where
  abbrev keyed : ℕ → FileEntry
  keyed = preprocess_sort_keys time_of files n 0

  keyed-at : (i : ℕ) → i < n → keyed i ≡ set_key time_of 0 (files i)
  unfolding preprocess_sort_keys
  keyed-at i h = rw (lt→ltb i n h) refl

  keyed-id : (i : ℕ) → i < n → (keyed i).id ≡ pos (number i)
  unfolding set_key
  keyed-id i h = ap (λ e. e.id) (keyed-at i h) ∙ ids i h

  keyed-key : (i : ℕ) → i < n → (keyed i).sort_key ≡ number i
  unfolding set_key id_key
  keyed-key i h = ap (λ e. e.sort_key) (keyed-at i h) ∙ ap id_key (ids i h)

  keyed-both : (i : ℕ) → i < n → (keyed i).id ≡ pos (keyed i).sort_key
  keyed-both i h = keyed-id i h ∙ ap pos (sym (keyed-key i h))

  module _ (strcmp : List ℕ → List ℕ → ℤ) (output : ℕ → FileEntry) (some_files : 0 < n)
      (small : (i : ℕ) → i < n → number i + 1 < 2 ^ 31) where
    spread : max_key keyed (n - 1) - min_key keyed (n - 1) + 1 < 2 ^ 31
    spread = omega (
      arith,
      max_key-lt keyed (n - 1) (2 ^ 31 - 1)
          (λ j le. omega (arith, keyed-key j (omega arith), small j (omega arith))),
    )

    few_files :
        n ≤ 42
        → sort_files time_of strcmp output files n 0 ≡ some (parallel_counting_sort output keyed n)
    unfolding sort_files
    few_files h = rw (le→leb n 42 h) refl

    many_files :
        42 < n
        → sort_files time_of strcmp output files n 0
          ≡ parallel_merge_sort strcmp 0 output n keyed 0 (n - 1)
    unfolding sort_files
    many_files h = rw (lt→not_leb n 42 h) refl

    -- The entries of the result are in the order of their IDs, and those of the keyed array.
    abbrev pub IsById : (ℕ → FileEntry) → Type 0
    IsById result =
        ((p q : ℕ) → p < q → q < n → int_ltb (result q).id (result p).id ≡ false)
        × ((w : FileEntry → ℕ) → total w n result ≡ total w n keyed)

    counted-IsById : IsById (parallel_counting_sort output keyed n)
    counted-IsById =
        let s = parallel_counting_sort-IsStableSort output keyed n some_files spread in
        (
          λ p q lt h.
              let (i, li, ai, ei) = origin s p (omega arith) in
              let (j, lj, aj, ej) = origin s q h in
              ids_ordered (parallel_counting_sort output keyed n p)
                (parallel_counting_sort output keyed n q)
                (ap (λ e. e.id) ei ∙ keyed-both i li ∙ ap (λ e. pos e.sort_key) (sym ei))
                (ap (λ e. e.id) ej ∙ keyed-both j lj ∙ ap (λ e. pos e.sort_key) (sym ej))
                (stable-ordered s p q lt h),
          stable-total s,
        )

    merged-IsById :
        (result : ℕ → FileEntry) → IsSortedCopy strcmp 0 keyed result 0 n → IsById result
    unfolding IsSorted compare_entries
    merged-IsById result c = (
      λ p q lt h.
          sym ((compare_ids-sign (result p).id (result q).id).0)
          ∙ c.sorted p q (omega arith) lt (omega arith),
      λ w. sym (weigh-total w result n) ∙ c.same w ∙ weigh-total w keyed n,
    )

-- sort_files() by the column ID, for a strcmp() that compares strings as bytes, on any `n` above 0
-- entries whose IDs are from 0 to 2 ^ 31 - 2: whichever sort it chooses, it ends, the IDs of the
-- result are in order, and the result holds the entries that preprocess_sort_keys() made as often
-- as before (every way to weigh the entries gives the same total).
pub sort_files-by_id :
    (strcmp : List ℕ → List ℕ → ℤ)
    → IsStrcmp strcmp
    → (time_of : List ℕ → ℕ) (output files : ℕ → FileEntry) (n : ℕ) → 0 < n
    → (number : ℕ → ℕ)
    → ((i : ℕ) → i < n → ((files i).id ≡ pos (number i)) × (number i + 1 < 2 ^ 31))
    → (result : ℕ → FileEntry) × (sort_files time_of strcmp output files n 0 ≡ some result)
      × ((p q : ℕ) → p < q → q < n → int_ltb (result q).id (result p).id ≡ false)
      × ((w : FileEntry → ℕ)
          → total w n result ≡ total w n (preprocess_sort_keys time_of files n 0))
sort_files-by_id strcmp std time_of output files n h number ids = elim (dec_lt 42 n) [
  | no few ↦
      let (in_order, same) =
        counted-IsById time_of files n number (λ i l. (ids i l).0) strcmp output h
          (λ i l. (ids i l).1) in
      (
        parallel_counting_sort output (preprocess_sort_keys time_of files n 0) n,
        few_files time_of files n number (λ i l. (ids i l).0) strcmp output h (λ i l. (ids i l).1)
            (omega arith),
        in_order,
        same,
      )
  | yes many ↦
      let (result, ran, c) =
        parallel_merge_sort_lem strcmp std 0 output (preprocess_sort_keys time_of files n 0) 0
          (n - 1) n (omega arith) (omega arith) in
      let (in_order, same) =
        merged-IsById time_of files n number (λ i l. (ids i l).0) strcmp output h
          (λ i l. (ids i l).1) result
          (subst (IsSortedCopy strcmp 0 (preprocess_sort_keys time_of files n 0) result 0)
            (omega arith) c) in
      (
        result,
        many_files time_of files n number (λ i l. (ids i l).0) strcmp output h (λ i l. (ids i l).1)
              many
            ∙ ran,
        in_order,
        same,
      )
]
