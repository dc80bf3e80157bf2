-- ===== src/Sorting/Recursion.antt =====
-- parallel_merge_sort() on any range, with fuel for its depth.
use mathlib.Core.Path.{subst}
use xv6_part2_and_concurrenc.Base.{
  ℕ, zero, suc, ◌+◌, ◌-◌, ◌≤◌, ◌<◌, ◌≡◌, refl, List, arith, some, dec_lt, ◌∙◌,
}
use xv6_part2_and_concurrenc.Sorting.{
  ℤ, FileEntry, insert_all, sort_chunks, k_way_merge, parallel_merge_sort,
}
use xv6_part2_and_concurrenc.Sorting.Order.{IsOrder, IsStrcmp, compare_entries-IsOrder}
use xv6_part2_and_concurrenc.Sorting.Ranges.{IsSorted, IsSortedCopy}
use xv6_part2_and_concurrenc.Sorting.Min.{le→leb, lt→not_leb}
use xv6_part2_and_concurrenc.Sorting.Kway.{span, k_way_merge-IsSortedCopy}
use xv6_part2_and_concurrenc.Sorting.Insertion.{insert_all-IsSortedCopy}
use xv6_part2_and_concurrenc.Sorting.Chunks.{Sorts, AreChunks, sort_chunks-AreChunks}

module _ (strcmp : List ℕ → List ℕ → ℤ) (column_type : ℕ) (ord : IsOrder strcmp column_type) where
  module _ (output : ℕ → FileEntry) (fuel : ℕ) (files : ℕ → FileEntry) (start end : ℕ) where
    one_entry :
        end ≤ start
        → parallel_merge_sort strcmp column_type output (suc fuel) files start end ≡ some files
    unfolding parallel_merge_sort
    one_entry h = rw (parallel_merge_sort, le→leb end start h) refl

    few_entries :
        start < end
        → end - start ≤ 4
        → parallel_merge_sort strcmp column_type output (suc fuel) files start end
          ≡ some (insert_all strcmp column_type files start 1 (end - start))
    unfolding parallel_merge_sort
    few_entries h h' =
        rw (parallel_merge_sort, lt→not_leb end start h, le→leb (end - start) 4 h') refl

    many_entries :
        start + 4 < end
        → (sorted : ℕ → FileEntry)
        → sort_chunks (parallel_merge_sort strcmp column_type output fuel) files start end 4
          ≡ some sorted
        → parallel_merge_sort strcmp column_type output (suc fuel) files start end
          ≡ k_way_merge strcmp column_type output sorted start end 4
    unfolding parallel_merge_sort
    many_entries h sorted ran =
        rw
          (
            parallel_merge_sort,
            lt→not_leb end start (omega arith),
            lt→not_leb (end - start) 4 (omega arith),
            ran,
          )
          refl

  single :
      (files : ℕ → FileEntry) (start n : ℕ)
      → n ≤ 1
      → IsSortedCopy strcmp column_type files files start n
  unfolding IsSorted
  single files start n h = record {
    sorted = λ i j lo lt hi. absurd (omega arith);
    same = λ w. refl;
    outside = λ i out. refl;
  }

  merge_chunks :
      (output files sorted : ℕ → FileEntry) (start end : ℕ)
      → start + 3 ≤ end
      → AreChunks strcmp column_type ord files sorted start end 4
      → (result : ℕ → FileEntry) × (k_way_merge strcmp column_type output sorted start end 4
          ≡ some result)
        × IsSortedCopy strcmp column_type files result start (span start end)
  merge_chunks output files sorted start end wide done =
      let (result, ran, c) =
        k_way_merge-IsSortedCopy strcmp column_type ord output sorted start end wide done.sorted in
      (
        result,
        ran,
        record {
          sorted = c.sorted;
          same = λ w. c.same w ∙ done.same w;
          outside = λ i out. c.outside i out ∙ done.outside i (omega arith);
        },
      )

  parallel_merge_sort-Sorts :
      (output : ℕ → FileEntry) (fuel : ℕ)
      → Sorts strcmp column_type ord (parallel_merge_sort strcmp column_type output fuel) fuel
  unfolding Sorts
  parallel_merge_sort-Sorts output zero files start end le small = absurd (omega arith)
  parallel_merge_sort-Sorts output (suc fuel) files start end le small = elim (dec_lt start end) [
    | no one ↦ (
      files,
      one_entry output fuel files start end (omega arith),
      single files start (span start end) (omega arith),
    )
    | yes more ↦ elim (dec_lt (start + 4) end) [
      | no few ↦ (
        insert_all strcmp column_type files start 1 (end - start),
        few_entries output fuel files start end more (omega arith),
        subst
            (IsSortedCopy strcmp column_type files
              (insert_all strcmp column_type files start 1 (end - start)) start)
            (omega arith)
            (insert_all-IsSortedCopy strcmp column_type ord files start 1 (end - start)
              (IsSortedCopy.sorted (single files start 1 (omega arith)))),
      )
      | yes many ↦
          let (sorted, ran, done) =
            sort_chunks-AreChunks strcmp column_type ord
              (parallel_merge_sort strcmp column_type output fuel) fuel
              (parallel_merge_sort-Sorts output fuel) files start end (omega arith) (omega arith) 4
              (omega arith) in
          let (result, ran', c) = merge_chunks output files sorted start end (omega arith) done in
          (result, many_entries output fuel files start end many sorted ran ∙ ran', c)
    ]
  ]

-- For a strcmp() that compares strings as bytes, every column type, every array and every range
-- with `start` at most `end`: the merge sort with fuel above `end - start` ends, the range is then
-- in the order of compare_entries(), it holds each entry as often as before (every way to weigh the
-- entries gives the same total), and nothing outside the range has changed.
pub parallel_merge_sort_lem :
    (strcmp : List ℕ → List ℕ → ℤ)
    → IsStrcmp strcmp
    → (column_type : ℕ) (output files : ℕ → FileEntry) (start end fuel : ℕ) → start ≤ end
    → end - start < fuel
    → (result : ℕ → FileEntry) × (parallel_merge_sort strcmp column_type output fuel files start end
        ≡ some result)
      × IsSortedCopy strcmp column_type files result start (end - start + 1)
unfolding Sorts
parallel_merge_sort_lem strcmp std column_type output files start end fuel le enough =
    parallel_merge_sort-Sorts strcmp column_type (compare_entries-IsOrder strcmp std column_type)
      output fuel files start end le (omega arith)
