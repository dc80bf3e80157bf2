-- ===== src/Sorting.antt =====
-- concurrency/Distributed-Sorting/finaltry.c: the entries, their comparison, and the merge sort.
-- strcmp() is a parameter. An array is a function on the indices. The threads that sort the four
-- chunks share no entry, so they are run one after the other, whatever the depth.
pub mod Order
pub mod Ranges
mod Insertion
mod Min
mod Merge
mod Rounds
mod Kway
mod Chunks
pub mod Recursion
pub mod Counting
pub mod Files
mod Tests
use xv6_part2_and_concurrenc.Base.{
  ℕ, zero, suc, ◌+◌, ◌-◌, ◌*◌, ◌/◌, Bool, true, false, Option, none, some, List, leb, ltb, ◌==◌,
  if◌then◌else◌, update,
}

pub data ℤ : Type 0 where
  pos : ℕ → ℤ
  negsuc : ℕ → ℤ

abbrev pub is_positive : ℤ → Bool
is_positive (pos n) = ltb 0 n
is_positive (negsuc n) = false

abbrev pub is_negative : ℤ → Bool
is_negative (pos n) = false
is_negative (negsuc n) = true

abbrev pub int_ltb : ℤ → ℤ → Bool
int_ltb (pos a) (pos b) = ltb a b
int_ltb (pos a) (negsuc b) = false
int_ltb (negsuc a) (pos b) = true
int_ltb (negsuc a) (negsuc b) = ltb b a

-- The strings are the bytes before the null byte.
pub record FileEntry : Type 0 where
  pub name : List ℕ
  pub id : ℤ
  pub timestamp : List ℕ
  pub sort_key : ℕ

-- (a > b) - (a < b) on int
abbrev pub compare_ids : ℤ → ℤ → ℤ
compare_ids a b = if int_ltb b a then pos 1 else if int_ltb a b then negsuc 0 else pos 0

-- `index` and `end`; `arr` is the array that k_way_merge() is given, for every queue.
pub record MergeQueue : Type 0 where
  pub index : ℕ
  pub end : ℕ

-- queues[min_idx].index++
unfoldable pub advance : (ℕ → MergeQueue) → ℕ → ℕ → MergeQueue
advance queues i = update queues i (record { index = (queues i).index + 1; end = (queues i).end })

abbrev pub k_way : ℕ
k_way = 4

-- thread_args[i].end and queues[i].end, less `start + `: the last chunk takes what is left.
unfoldable pub chunk_end : ℕ → ℕ → ℕ → ℕ → ℕ → ℕ
chunk_end start end chunk_size k i = if i == k - 1 then end else start + (i + 1) * chunk_size - 1

abbrev pub merge_queues : ℕ → ℕ → ℕ → ℕ → MergeQueue
merge_queues start end k i = record {
  index = start + i * ((end - start + 1) / k);
  end = chunk_end start end ((end - start + 1) / k) k i;
}

-- memcpy(&files[start], output, (end - start + 1) * sizeof(FileEntry))
unfoldable pub copy_back : (ℕ → FileEntry) → ℕ → ℕ → (ℕ → FileEntry) → ℕ → FileEntry
copy_back files start end output i =
    if ltb i start then files i else if ltb end i then files i else output (i - start)

-- The chunks 0 to i - 1, sorted by `sort`.
unfoldable pub sort_chunks :
    ((ℕ → FileEntry) → ℕ → ℕ → Option (ℕ → FileEntry))
    → (ℕ → FileEntry)
    → ℕ
    → ℕ
    → ℕ
    → Option (ℕ → FileEntry)
sort_chunks sort files start end zero = some files
sort_chunks sort files start end (suc i) = elim (sort_chunks sort files start end i) [
  | none ↦ none
  | some sorted ↦
      sort sorted (start + i * ((end - start + 1) / k_way))
        (chunk_end start end ((end - start + 1) / k_way) k_way i)
]

module _ (strcmp : List ℕ → List ℕ → ℤ) (column_type : ℕ) where
  unfoldable pub compare_entries : FileEntry → FileEntry → ℤ
  compare_entries a b =
      if column_type == 0
      then compare_ids a.id b.id
      else if column_type == 1
      then strcmp a.name b.name
      else if column_type == 2
      then strcmp a.timestamp b.timestamp
      else pos 0

  -- The while loop of the insertion sort; `m` is `j + 1 - start`.
  unfoldable pub insert : (ℕ → FileEntry) → ℕ → FileEntry → ℕ → ℕ → FileEntry
  insert files start key zero = update files start key
  insert files start key (suc m) = elim (is_positive (compare_entries (files (start + m)) key)) [
    | true ↦ insert (update files (start + m + 1) (files (start + m))) start key m
    | false ↦ update files (start + m + 1) key
  ]

  -- The for loop around it, at i = start + m, with `left` rounds to go.
  unfoldable pub insert_all : (ℕ → FileEntry) → ℕ → ℕ → ℕ → ℕ → FileEntry
  insert_all files start m zero = files
  insert_all files start m (suc left) =
      insert_all (insert files start (files (start + m)) m) start (m + 1) left

  -- `min_entry` and `min_idx`, none for -1, when the queue `i` holds the entry `e`.
  unfoldable pub take_smaller : FileEntry → ℕ → Option (FileEntry × ℕ) → Option (FileEntry × ℕ)
  take_smaller e i none = some (e, i)
  take_smaller e i (some (min_entry, min_idx)) =
      if is_negative (compare_entries e min_entry) then some (e, i) else some (min_entry, min_idx)

  -- A round of the loop, and the result of `i` rounds.
  unfoldable pub min_round :
      (ℕ → FileEntry) → (ℕ → MergeQueue) → ℕ → Option (FileEntry × ℕ) → Option (FileEntry × ℕ)
  min_round arr queues i found =
      if leb (queues i).index (queues i).end
      then take_smaller (arr (queues i).index) i found
      else found

  unfoldable pub get_min_entry : (ℕ → FileEntry) → (ℕ → MergeQueue) → ℕ → Option (FileEntry × ℕ)
  get_min_entry arr queues zero = none
  get_min_entry arr queues (suc i) = min_round arr queues i (get_min_entry arr queues i)

  -- The while loop, with `left` entries to write; none where it would not end.
  unfoldable pub merge_rounds :
      (ℕ → FileEntry) → ℕ → (ℕ → MergeQueue) → (ℕ → FileEntry) → ℕ → ℕ → Option (ℕ → FileEntry)
  merge_rounds arr k queues output out_idx zero = some output
  merge_rounds arr k queues output out_idx (suc left) = elim (get_min_entry arr queues k) [
    | none ↦ none
    | some (min_entry, min_idx) ↦
        merge_rounds arr k (advance queues min_idx) (update output out_idx min_entry) (out_idx + 1)
          left
  ]

  -- `output` is what malloc() finds in the new array.
  unfoldable pub k_way_merge :
      (ℕ → FileEntry) → (ℕ → FileEntry) → ℕ → ℕ → ℕ → Option (ℕ → FileEntry)
  k_way_merge output files start end k =
      elim (merge_rounds files k (merge_queues start end k) output 0 (end - start + 1)) [
        | none ↦ none
        | some merged ↦ some (copy_back files start end merged)
      ]

  -- The fuel bounds the depth of the calls.
  unfoldable pub parallel_merge_sort :
      (ℕ → FileEntry) → ℕ → (ℕ → FileEntry) → ℕ → ℕ → Option (ℕ → FileEntry)
  parallel_merge_sort output zero files start end = none
  parallel_merge_sort output (suc fuel) files start end = elim (leb end start) [
    | true ↦ some files
    | false ↦ elim (leb (end - start) k_way) [
      | true ↦ some (insert_all files start 1 (end - start))
      | false ↦ elim (sort_chunks (parallel_merge_sort output fuel) files start end k_way) [
        | none ↦ none
        | some sorted ↦ k_way_merge output sorted start end k_way
      ]
    ]
  ]
