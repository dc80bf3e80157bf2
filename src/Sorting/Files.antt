-- ===== src/Sorting/Files.antt =====
-- concurrency/Distributed-Sorting/finaltry.c: the sort keys, and sort_files(). strptime() and mktime()
-- are the parameter `time_of`, whose result is the time_t as an unsigned long. Bytes above 127 are
-- negative chars.
pub mod Ids
use xv6_part2_and_concurrenc.Base.{
  ℕ, zero, suc, ◌+◌, ◌-◌, ◌*◌, ◌%◌, ◌^◌, List, [], ◌∷◌, Option, none, some, ltb, leb, ◌==◌,
  if◌then◌else◌,
}
use xv6_part2_and_concurrenc.Sorting.{ℤ, pos, negsuc, FileEntry, parallel_merge_sort}
use xv6_part2_and_concurrenc.Sorting.Counting.{parallel_counting_sort}

abbrev pub lazy_threshold : ℕ
lazy_threshold = 42

abbrev pub hash_base : ℕ
hash_base = 27

-- str[i] - 'a' + 1, as an unsigned long
unfoldable pub letter : ℕ → ℕ
letter c = if ltb c 128 then (c + 2 ^ 64 - 96) % 2 ^ 64 else c + 2 ^ 64 - 256 - 96

-- The hash after the loop over the bytes.
unfoldable pub hash_bytes : ℕ → List ℕ → ℕ
hash_bytes hash [] = hash
hash_bytes hash (c ∷ str) = hash_bytes ((hash * hash_base + letter c) % 2 ^ 64) str

unfoldable pub hash_string : List ℕ → ℕ
hash_string str = hash_bytes 0 str % 9999999

-- An int as a uint64_t.
unfoldable pub id_key : ℤ → ℕ
id_key (pos n) = n
id_key (negsuc n) = 2 ^ 64 - suc n

module _ (time_of : List ℕ → ℕ) where
  unfoldable pub hash_timestamp : List ℕ → ℕ
  hash_timestamp timestamp = time_of timestamp % 9999999

  unfoldable pub set_key : ℕ → FileEntry → FileEntry
  set_key column_type e =
      if column_type == 0
      then record e { sort_key = id_key e.id }
      else if column_type == 1
      then record e { sort_key = hash_string e.name }
      else if column_type == 2
      then record e { sort_key = hash_timestamp e.timestamp }
      else e

  unfoldable pub preprocess_sort_keys : (ℕ → FileEntry) → ℕ → ℕ → ℕ → FileEntry
  preprocess_sort_keys files n column_type i =
      if ltb i n then set_key column_type (files i) else files i

  -- The result of either sort; the merge sort gets the number of entries as fuel.
  unfoldable pub sort_files :
      (List ℕ → List ℕ → ℤ) → (ℕ → FileEntry) → (ℕ → FileEntry) → ℕ → ℕ → Option (ℕ → FileEntry)
  sort_files strcmp output files n column_type =
      let keyed = preprocess_sort_keys files n column_type in
      if leb n lazy_threshold
      then some (parallel_counting_sort output keyed n)
      else parallel_merge_sort strcmp column_type output n keyed 0 (n - 1)
