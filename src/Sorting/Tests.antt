-- ===== src/Sorting/Tests.antt =====
-- The sorts on a few entries.
use xv6_part2_and_concurrenc.Base.{
  ℕ, false, ◌<◌, ◌^◌, total, zero, suc, ◌+◌, ◌-◌, ◌≡◌, refl, List, [], ◌∷◌, arith, some,
  if◌then◌else◌, Bool-cases, inl, inr,
}
use xv6_part2_and_concurrenc.Sorting.{ℤ, pos, negsuc, FileEntry, int_ltb, parallel_merge_sort}
use xv6_part2_and_concurrenc.Sorting.Order.{lex_ltb, lex_ltb_asym, IsStrcmp}
use xv6_part2_and_concurrenc.Sorting.Ranges.{IsSortedCopy}
use xv6_part2_and_concurrenc.Sorting.Counting.{min_key, max_key, parallel_counting_sort}
use xv6_part2_and_concurrenc.Sorting.Counting.Placing.{IsStableSort}
use xv6_part2_and_concurrenc.Sorting.Counting.Stable.{parallel_counting_sort-IsStableSort}
use xv6_part2_and_concurrenc.Sorting.Files.{
  preprocess_sort_keys, sort_files, hash_string, letter, hash_bytes,
}
use xv6_part2_and_concurrenc.Sorting.Files.Ids.{sort_files-by_id}
use xv6_part2_and_concurrenc.Sorting.Recursion.{parallel_merge_sort_lem}

-- A strcmp().
abbrev compare_bytes : List ℕ → List ℕ → ℤ
compare_bytes s t = if lex_ltb t s then pos 1 else if lex_ltb s t then negsuc 0 else pos 0

compare_bytes-IsStrcmp : IsStrcmp compare_bytes
compare_bytes-IsStrcmp = record {
  above = λ s t. ground arith;
  below = λ s t. elim (Bool-cases (lex_ltb t s)) [
    | inl gt ↦ rw gt (rw (lex_ltb_asym t s gt) refl)
    | inr le ↦ rw le (ground arith)
  ];
}

abbrev entry : ℕ → FileEntry
entry n = record { name = n ∷ 7 ∷ []; id = negsuc n; timestamp = 3 ∷ n ∷ []; sort_key = n }

-- The keys 0, 5, 4, 3, 2, 1 at the indices 0 to 5.
abbrev six_entries : ℕ → FileEntry
six_entries zero = entry 0
six_entries (suc i) = entry (5 - i)

abbrev no_entries : ℕ → FileEntry
no_entries i = entry 9

parallel_merge_sort_lem_example :
    (result : ℕ → FileEntry) × (parallel_merge_sort compare_bytes 1 no_entries 6 six_entries 0 5
      ≡ some result)
    × IsSortedCopy compare_bytes 1 six_entries result 0 (5 - 0 + 1)
parallel_merge_sort_lem_example =
    parallel_merge_sort_lem compare_bytes compare_bytes-IsStrcmp 1 no_entries six_entries 0 5 6
      (omega arith) (omega arith)

keys_close : max_key six_entries 5 - min_key six_entries 5 + 1 < 2 ^ 31
unfolding max_key min_key
keys_close = omega arith

parallel_counting_sort-IsStableSort_example :
    IsStableSort six_entries (parallel_counting_sort no_entries six_entries 6) 6
parallel_counting_sort-IsStableSort_example =
    parallel_counting_sort-IsStableSort no_entries six_entries 6 (omega arith) keys_close

-- The IDs 50 down to 1.
abbrev fifty_entries : ℕ → FileEntry
fifty_entries i = record { name = []; id = pos (50 - i); timestamp = []; sort_key = 0 }

abbrev no_time : List ℕ → ℕ
no_time timestamp = 0

sort_files-by_id_example :
    (result : ℕ → FileEntry) × (sort_files no_time compare_bytes no_entries fifty_entries 50 0
      ≡ some result)
    × ((p q : ℕ) → p < q → q < 50 → int_ltb (result q).id (result p).id ≡ false)
    × ((w : FileEntry → ℕ)
        → total w 50 result ≡ total w 50 (preprocess_sort_keys no_time fifty_entries 50 0))
sort_files-by_id_example =
    sort_files-by_id compare_bytes compare_bytes-IsStrcmp no_time no_entries fifty_entries 50
      (omega arith) (λ i. 50 - i) (λ i l. (refl, omega arith))

-- hash_string("b") and hash_string("aa")
hash_b : hash_string (98 ∷ []) ≡ 2
unfolding hash_string hash_bytes letter
hash_b = refl

hash_aa : hash_string (97 ∷ 97 ∷ []) ≡ 28
unfolding hash_string hash_bytes letter
hash_aa = refl
