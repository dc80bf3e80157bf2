-- ===== src/Sorting/Counting.antt =====
-- concurrency/Distributed-Sorting/finaltry.c: the counting sort. Its threads add to the shared counts
-- by atomic additions, which commute, so they are run in turn. `range` and the indices are ints, held
-- as their 32-bit patterns; the counts are at most `n`, an int, and do not wrap around.
pub mod Counts
pub mod Ranks
pub mod Placing
pub mod Stable
use xv6_part2_and_concurrenc.Base.{
  ℕ, zero, suc, ◌+◌, ◌-◌, ◌*◌, ◌/◌, ◌%◌, ◌^◌, ltb, ◌==◌, if◌then◌else◌, update,
}
use xv6_part2_and_concurrenc.Sorting.{FileEntry}

abbrev pub thread_count : ℕ
thread_count = 4

-- min_val and max_val after `i` rounds of the first loop.
unfoldable pub min_key : (ℕ → FileEntry) → ℕ → ℕ
min_key files zero = (files 0).sort_key
min_key files (suc i) =
    let min_val = min_key files i in
    if ltb (files (suc i)).sort_key min_val then (files (suc i)).sort_key else min_val

unfoldable pub max_key : (ℕ → FileEntry) → ℕ → ℕ
max_key files zero = (files 0).sort_key
max_key files (suc i) =
    let max_val = max_key files i in
    if ltb max_val (files (suc i)).sort_key then (files (suc i)).sort_key else max_val

unfoldable pub count_range : ℕ → ℕ → ℕ
count_range min_val max_val = (max_val - min_val + 1) % 2 ^ 32

unfoldable pub key_index : ℕ → FileEntry → ℕ
key_index min_val e = (e.sort_key - min_val) % 2 ^ 32

-- `i` rounds of the loop that adds them to the shared counts.
unfoldable pub add_counts : (ℕ → ℕ) → (ℕ → ℕ) → ℕ → ℕ → ℕ
add_counts count local_count zero = count
add_counts count local_count (suc i) =
    let added = add_counts count local_count i in update added i (added i + local_count i)

module _ (files : ℕ → FileEntry) (min_val : ℕ) where
  -- local_count after `m` rounds of its loop, from calloc()'s zeros.
  unfoldable pub local_counts : ℕ → ℕ → ℕ → ℕ
  local_counts start zero = λ v. 0
  local_counts start (suc m) =
      let count = local_counts start m in
      update count (key_index min_val (files (start + m)))
        (count (key_index min_val (files (start + m))) + 1)

  unfoldable pub count_thread : ℕ → ℕ → ℕ → (ℕ → ℕ) → ℕ → ℕ
  count_thread range start end count = add_counts count (local_counts start (end - start)) range

  -- The first `i` threads.
  unfoldable pub count_threads : ℕ → ℕ → ℕ → ℕ → ℕ
  count_threads range n zero = λ v. 0
  count_threads range n (suc i) =
      count_thread range (i * (n / thread_count))
        (if i == thread_count - 1 then n else (i + 1) * (n / thread_count))
        (count_threads range n i)

  -- The loop that runs down from i - 1, with the counts and the output as they are.
  unfoldable pub place : (ℕ → ℕ) → (ℕ → FileEntry) → ℕ → ℕ → FileEntry
  place count output zero = output
  place count output (suc i) =
      place (update count (key_index min_val (files i)) (count (key_index min_val (files i)) - 1))
        (update output (count (key_index min_val (files i)) - 1) (files i)) i

-- `i` rounds of the loop of prefix sums, which starts at 1.
unfoldable pub prefix_sums : (ℕ → ℕ) → ℕ → ℕ → ℕ
prefix_sums count zero = count
prefix_sums count (suc i) =
    let sums = prefix_sums count i in update sums (suc i) (sums (suc i) + sums i)

-- `output` is what malloc() finds in the new array.
unfoldable pub parallel_counting_sort : (ℕ → FileEntry) → (ℕ → FileEntry) → ℕ → ℕ → FileEntry
parallel_counting_sort output files n i =
    let min_val = min_key files (n - 1) in
    let range = count_range min_val (max_key files (n - 1)) in
    let sums = prefix_sums (count_threads files min_val range n thread_count) (range - 1) in
    if ltb i n then place files min_val sums output n i else files i
