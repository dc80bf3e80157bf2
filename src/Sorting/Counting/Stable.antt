-- ===== src/Sorting/Counting/Stable.antt =====
-- parallel_counting_sort() as a whole.
use xv6_part2_and_concurrenc.Base.{ℕ, ◌+◌, ◌-◌, ◌≤◌, ◌<◌, ◌≡◌, ◌^◌, ◌∙◌, arith}
use xv6_part2_and_concurrenc.Sorting.{FileEntry}
use xv6_part2_and_concurrenc.Sorting.Counting.{
  key_index, place, min_key, max_key, count_range, count_threads, prefix_sums,
  parallel_counting_sort,
}
use xv6_part2_and_concurrenc.Sorting.Counting.Counts.{
  count_threads_lem, prefix_sums_lem, weigh-below_suc,
}
use xv6_part2_and_concurrenc.Sorting.Counting.Ranks.{rank, rank_bound, rank_lt, rank_stable}
use xv6_part2_and_concurrenc.Sorting.Counting.Placing.{
  AreLeft, place-rank, min_key_lem, max_key_lem, IsStableSort,
}

-- The index of an entry, when the keys lie close enough together.
key_index_lem :
    (min_val : ℕ) (e : FileEntry)
    → e.sort_key - min_val < 2 ^ 32
    → key_index min_val e ≡ e.sort_key - min_val
unfolding key_index
key_index_lem min_val e h = omega arith

count_range_lem :
    (min_val max_val : ℕ)
    → max_val - min_val + 1 < 2 ^ 32
    → count_range min_val max_val ≡ max_val - min_val + 1
unfolding count_range
count_range_lem min_val max_val h = omega arith

module _ (output files : ℕ → FileEntry) (n : ℕ) (some_files : 0 < n)
    (close : max_key files (n - 1) - min_key files (n - 1) + 1 < 2 ^ 31) where
  abbrev least : ℕ
  least = min_key files (n - 1)

  abbrev range : ℕ
  range = count_range least (max_key files (n - 1))

  abbrev sums : ℕ → ℕ
  sums = prefix_sums (count_threads files least range n 4) (range - 1)

  key_bounds :
      (i : ℕ) → i < n → (least ≤ (files i).sort_key) × ((files i).sort_key ≤ max_key files (n - 1))
  key_bounds i h =
      (min_key_lem files (n - 1) i (omega arith), max_key_lem files (n - 1) i (omega arith))

  index_lem : (i : ℕ) → i < n → key_index least (files i) ≡ (files i).sort_key - least
  index_lem i h = key_index_lem least (files i) (omega (arith, key_bounds i h))

  index-within : (i : ℕ) → i < n → key_index least (files i) < range
  index-within i h = omega (
    arith,
    index_lem i h,
    key_bounds i h,
    count_range_lem least (max_key files (n - 1)) (omega arith),
  )

  sums-AreLeft : AreLeft files least n range sums n
  unfolding AreLeft
  sums-AreLeft v h = omega (
    arith,
    prefix_sums_lem files least n range (count_threads files least range n 4)
        (λ u l. count_threads_lem files least range n u l) (range - 1) v (omega arith)
        (omega arith),
    weigh-below_suc least files v 0 n,
  )

  sorted-at :
      (p : ℕ) → p < n → parallel_counting_sort output files n p ≡ place files least sums output n p
  unfolding parallel_counting_sort
  sorted-at p h = ground arith

  sorted-outside : (p : ℕ) → n ≤ p → parallel_counting_sort output files n p ≡ files p
  unfolding parallel_counting_sort
  sorted-outside p h = ground arith

-- For `n` above 0 entries whose largest and smallest sort key are less than 2 ^ 31 - 1 apart: the
-- counting sort, its four threads included, moves every entry to its own place among the first `n`,
-- an entry with a smaller key comes earlier, entries with the same key keep their order, and
-- nothing changes behind the first `n`.
pub parallel_counting_sort-IsStableSort :
    (output files : ℕ → FileEntry) (n : ℕ)
    → 0 < n
    → max_key files (n - 1) - min_key files (n - 1) + 1 < 2 ^ 31
    → IsStableSort files (parallel_counting_sort output files n) n
parallel_counting_sort-IsStableSort output files n h close =
    let min_val = min_key files (n - 1) in
    record {
      place_of = rank files min_val n;
      within = rank_bound files min_val n;
      moved = λ i l.
          sorted-at output files n h close (rank files min_val n i) (rank_bound files min_val n i l)
          ∙ place-rank files min_val n (range output files n h close)
              (index-within output files n h close) (sums output files n h close) output n i
              (omega arith) (sums-AreLeft output files n h close) l;
      ordered = λ i j l l' lt. rank_lt files min_val n i j l (
          omega (
            arith,
            index_lem output files n h close i l,
            index_lem output files n h close j l',
            key_bounds output files n h close i l,
            key_bounds output files n h close j l',
          ));
      stable = λ i j lt l same.
          rank_stable files min_val n i j
            (omega (
              arith,
              index_lem output files n h close i (omega arith),
              index_lem output files n h close j l,
            ))
            lt;
      outside = sorted-outside output files n h close;
    }
