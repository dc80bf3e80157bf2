-- ===== src/Sorting/Kway.antt =====
-- k_way_merge() on four sorted chunks.
use xv6_part2_and_concurrenc.Base.{
  ℕ, ◌+◌, ◌-◌, ◌*◌, ◌/◌, ◌≤◌, ◌<◌, ◌≡◌, ◌⊎◌, refl, List, arith, some, ap, ◌∙◌, total, total-four,
}
use xv6_part2_and_concurrenc.Sorting.{
  ℤ, FileEntry, MergeQueue, chunk_end, merge_queues, merge_rounds, copy_back, k_way_merge,
}
use xv6_part2_and_concurrenc.Sorting.Order.{IsOrder}
use xv6_part2_and_concurrenc.Sorting.Ranges.{
  weigh, weigh-append, weigh-shift, IsSorted, IsSortedCopy,
}
use xv6_part2_and_concurrenc.Sorting.Merge.{size, content}
use xv6_part2_and_concurrenc.Sorting.Rounds.{AreSorted, merge_rounds-IsMerged}

-- end - start + 1
abbrev pub span : ℕ → ℕ → ℕ
span start end = end - start + 1

-- How the four chunks lie in a range of at least four.
module _ (start end : ℕ) (wide : start + 3 ≤ end) where
  size_0 : size (merge_queues start end 4 0) ≡ span start end / 4
  unfolding chunk_end
  size_0 = omega arith

  size_1 : size (merge_queues start end 4 1) ≡ span start end / 4
  unfolding chunk_end
  size_1 = omega arith

  size_2 : size (merge_queues start end 4 2) ≡ span start end / 4
  unfolding chunk_end
  size_2 = omega arith

  size_3 : size (merge_queues start end 4 3) + 3 * (span start end / 4) ≡ span start end
  unfolding chunk_end
  size_3 = omega arith

  sizes : total size 4 (merge_queues start end 4) ≡ span start end
  sizes = omega (arith, total-four size (merge_queues start end 4), size_0, size_1, size_2, size_3)

  size_last : size (merge_queues start end 4 3) ≡ span start end - 3 * (span start end / 4)
  size_last = omega (arith, size_3)

whole_span :
    (start end : ℕ)
    → span start end
      ≡ span start end / 4
        + span start end / 4
        + span start end / 4
        + (span start end - 3 * (span start end / 4))
whole_span start end = omega arith

offset : (a i : ℕ) → a + i - a ≡ 0 + i
offset a i = omega arith

module _ (files : ℕ → FileEntry) (start end : ℕ) (output : ℕ → FileEntry) (i : ℕ) where
  copy_back-inside : start ≤ i → i ≤ end → copy_back files start end output i ≡ output (i - start)
  unfolding copy_back
  copy_back-inside lo hi = ground arith

  copy_back-outside : (i < start) ⊎ (end < i) → copy_back files start end output i ≡ files i
  unfolding copy_back
  copy_back-outside out = ground arith

module _ (w : FileEntry → ℕ) (files : ℕ → FileEntry) where
  same_place : {a a' n n' : ℕ} → a ≡ a' → n ≡ n' → weigh w files a n ≡ weigh w files a' n'
  same_place e e' = rw e (rw e' refl)

  four_parts :
      (s c r : ℕ)
      → weigh w files s (c + c + c + r)
        ≡ weigh w files s c
          + weigh w files (s + c) c
          + weigh w files (s + (c + c)) c
          + weigh w files (s + (c + c + c)) r
  four_parts s c r = omega (
    arith,
    weigh-append w files s (c + c + c) r,
    weigh-append w files s (c + c) c,
    weigh-append w files s c c,
  )

  contents :
      (start end : ℕ)
      → start + 3 ≤ end
      → total (content files w) 4 (merge_queues start end 4) ≡ weigh w files start (span start end)
  contents start end wide =
      let c = span start end / 4 in
      omega (
        arith,
        total-four (content files w) (merge_queues start end 4),
        four_parts start c (span start end - 3 * c),
        same_place {a = start} {n = span start end} refl (whole_span start end),
        same_place {a = start + 0 * c} {a' = start} (omega arith) (size_0 start end wide),
        same_place {a = start + 1 * c} {a' = start + c} (omega arith) (size_1 start end wide),
        same_place {a = start + 2 * c} {a' = start + (c + c)} (omega arith) (size_2 start end wide),
        same_place {a = start + 3 * c} {a' = start + (c + c + c)} (omega arith)
            (size_last start end wide),
      )

module _ (strcmp : List ℕ → List ℕ → ℤ) (column_type : ℕ) (ord : IsOrder strcmp column_type) where
  -- The merged entries, copied over the range.
  copy_back-IsSortedCopy :
      (files merged : ℕ → FileEntry) (start end : ℕ)
      → start ≤ end
      → IsSorted strcmp column_type merged 0 (span start end)
      → ((w : FileEntry → ℕ)
          → weigh w merged 0 (span start end) ≡ weigh w files start (span start end))
      → IsSortedCopy strcmp column_type files
          (copy_back files start end merged)
          start
          (span start end)
  unfolding IsSorted
  copy_back-IsSortedCopy files merged start end le s same = record {
    sorted = λ i j lo lt hi. rw (copy_back-inside files start end merged i lo (omega arith)) (
        rw (copy_back-inside files start end merged j (omega arith) (omega arith))
          (s (i - start) (j - start) (omega arith) (omega arith) (omega arith)));
    same = λ w.
        weigh-shift w (copy_back files start end merged) merged start 0 (span start end) (λ i l.
          copy_back-inside files start end merged (start + i) (omega arith) (omega arith)
          ∙ ap merged (offset start i))
        ∙ same w;
    outside = λ i out. copy_back-outside files start end merged i (omega arith);
  }

  sorted_queues :
      (files : ℕ → FileEntry) (k : ℕ) (queues : ℕ → MergeQueue)
      → ((i : ℕ) → i < k → IsSorted strcmp column_type files (queues i).index (size (queues i)))
      → AreSorted strcmp column_type files k queues
  unfolding IsSorted AreSorted
  sorted_queues files k queues s i l x y lo lt hi = s i l x y lo lt (omega arith)

  merges :
      (output files : ℕ → FileEntry) (start end : ℕ) (merged : ℕ → FileEntry)
      → merge_rounds strcmp column_type files 4 (merge_queues start end 4) output 0 (span start end)
        ≡ some merged
      → k_way_merge strcmp column_type output files start end 4
        ≡ some (copy_back files start end merged)
  unfolding k_way_merge
  merges output files start end merged ran = rw (k_way_merge, ran) refl

  -- The four sorted chunks of a range become one.
  pub k_way_merge-IsSortedCopy :
      (output files : ℕ → FileEntry) (start end : ℕ)
      → start + 3 ≤ end
      → ((i : ℕ)
          → i < 4
          → IsSorted strcmp column_type files
              (merge_queues start end 4 i).index
              (size (merge_queues start end 4 i)))
      → (result : ℕ → FileEntry) × (k_way_merge strcmp column_type output files start end 4
          ≡ some result)
        × IsSortedCopy strcmp column_type files result start (span start end)
  k_way_merge-IsSortedCopy output files start end wide chunks =
      let (merged, ran, m) =
        merge_rounds-IsMerged strcmp column_type ord files 4 (merge_queues start end 4) output 0
          (span start end) (sizes start end wide)
          (sorted_queues files 4 (merge_queues start end 4) chunks) in
      (
        copy_back files start end merged,
        merges output files start end merged ran,
        copy_back-IsSortedCopy files merged start end (omega arith) m.sorted
            (λ w. m.same w ∙ contents w files start end wide),
      )
