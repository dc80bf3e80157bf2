-- ===== src/Sorting/Chunks.antt =====
-- sort_chunks(): the four chunks of a range, sorted one after the other.
use mathlib.Core.Path.{subst}
use native.Mathlib.Nat.{mul-le-mul_right}
use xv6_part2_and_concurrenc.Base.{
  ℕ, zero, suc, ◌+◌, ◌-◌, ◌*◌, ◌/◌, ◌≤◌, ◌<◌, ◌≡◌, ◌⊎◌, refl, List, arith, inl, Option, some,
  ℕ_discrete, ◌∙◌,
}
use xv6_part2_and_concurrenc.Sorting.{ℤ, FileEntry, chunk_end, merge_queues, sort_chunks}
use xv6_part2_and_concurrenc.Sorting.Order.{IsOrder}
use xv6_part2_and_concurrenc.Sorting.Ranges.{
  weigh, IsSorted, IsSortedCopy, widen-same, outside-IsSorted,
}
use xv6_part2_and_concurrenc.Sorting.Merge.{size}
use xv6_part2_and_concurrenc.Sorting.Kway.{span}

-- Where the chunk `i` lies.
module _ (start end : ℕ) where
  abbrev first : ℕ → ℕ
  first i = start + i * (span start end / 4)

  abbrev last : ℕ → ℕ
  last i = chunk_end start end (span start end / 4) 4 i

  chunk_bounds : (wide : start + 3 ≤ end) (i : ℕ) → i < 4 → (first i ≤ last i) × (last i ≤ end)
  unfolding chunk_end
  chunk_bounds wide zero l = (omega arith, omega arith)
  chunk_bounds wide (suc zero) l = (omega arith, omega arith)
  chunk_bounds wide (suc (suc zero)) l = (omega arith, omega arith)
  chunk_bounds wide (suc (suc (suc zero))) l = (omega arith, omega arith)
  chunk_bounds wide (suc (suc (suc (suc i)))) l = absurd (omega arith)

  chunks_apart : (wide : start + 3 ≤ end) (i j : ℕ) → j < i → i < 4 → last j < first i
  unfolding chunk_end
  chunks_apart wide i zero l l' =
      omega (arith, mul-le-mul_right {m = 1} {n = i} (span start end / 4) l)
  chunks_apart wide i (suc zero) l l' =
      omega (arith, mul-le-mul_right {m = 2} {n = i} (span start end / 4) l)
  chunks_apart wide i (suc (suc zero)) l l' =
      omega (arith, mul-le-mul_right {m = 3} {n = i} (span start end / 4) l)
  chunks_apart wide i (suc (suc (suc j))) l l' = absurd (omega arith)

size_of :
    (start end : ℕ)
    → start + 3 ≤ end
    → (i : ℕ) → i < 4
    → span (first start end i) (last start end i) ≡ size (merge_queues start end 4 i)
size_of start end wide i l = omega (arith, chunk_bounds start end wide i l)

-- A chunk is shorter than the whole.
chunk_small :
    (start end : ℕ)
    → start + 3 ≤ end
    → (i m : ℕ) → i < 4
    → span start end ≤ m + 1
    → span (first start end i) (last start end i) ≤ m
unfolding chunk_end
chunk_small start end wide zero m l le = omega arith
chunk_small start end wide (suc zero) m l le = omega arith
chunk_small start end wide (suc (suc zero)) m l le = omega arith
chunk_small start end wide (suc (suc (suc zero))) m l le = omega arith
chunk_small start end wide (suc (suc (suc (suc i)))) m l le = absurd (omega arith)

module _ (strcmp : List ℕ → List ℕ → ℤ) (column_type : ℕ) (ord : IsOrder strcmp column_type) where
  -- `sort` sorts the ranges of at most `m` entries.
  unfoldable pub Sorts : ((ℕ → FileEntry) → ℕ → ℕ → Option (ℕ → FileEntry)) → ℕ → Type 0
  Sorts sort m =
      (files : ℕ → FileEntry) (start end : ℕ)
      → start ≤ end
      → span start end ≤ m
      → (result : ℕ → FileEntry) × (sort files start end ≡ some result)
        × IsSortedCopy strcmp column_type files result start (span start end)

  -- After the first `i` chunks.
  pub record AreChunks (files result : ℕ → FileEntry) (start end i : ℕ) : Type 0 where
    pub sorted :
        (j : ℕ)
        → j < i
        → IsSorted strcmp column_type result
            (merge_queues start end 4 j).index
            (size (merge_queues start end 4 j))
    pub same :
        (w : FileEntry → ℕ)
        → weigh w result start (span start end) ≡ weigh w files start (span start end)
    pub outside : (x : ℕ) → (x < start) ⊎ (end < x) → result x ≡ files x

  next_chunk :
      (files middle result : ℕ → FileEntry) (start end i : ℕ)
      → start + 3 ≤ end
      → i < 4
      → AreChunks files middle start end i
      → IsSortedCopy strcmp column_type middle result
          (first start end i)
          (span (first start end i) (last start end i))
      → AreChunks files result start end (suc i)
  next_chunk files middle result start end i wide l done c =
      let (lo, hi) = chunk_bounds start end wide i l in
      let length = span (first start end i) (last start end i) in
      record {
        sorted = λ j lt. elim (ℕ_discrete j i) [
          | yes this ↦ rw this (
              subst (IsSorted strcmp column_type result (first start end i))
                (size_of start end wide i l) c.sorted)
          | no before ↦
              outside-IsSorted strcmp column_type (first start end i) length c (first start end j)
                (size (merge_queues start end 4 j))
                (inl (
                  omega (
                    arith,
                    chunk_bounds start end wide j (omega arith),
                    chunks_apart start end wide i j (omega arith) l,
                  )))
                (done.sorted j (omega arith))
        ];
        same = λ w.
            widen-same strcmp column_type (first start end i) length c w start
              (first start end i - start) (end - last start end i) (span start end) (omega arith)
              (omega arith)
            ∙ done.same w;
        outside = λ x out. c.outside x (omega arith) ∙ done.outside x out;
      }

  no_chunks : (files : ℕ → FileEntry) (start end : ℕ) → AreChunks files files start end 0
  no_chunks files start end = record {
    sorted = λ j l. absurd (omega arith);
    same = λ w. refl;
    outside = λ x out. refl;
  }

  pub sort_chunks-AreChunks :
      (sort : (ℕ → FileEntry) → ℕ → ℕ → Option (ℕ → FileEntry)) (m : ℕ)
      → Sorts sort m
      → (files : ℕ → FileEntry) (start end : ℕ) → start + 3 ≤ end
      → span start end ≤ m + 1
      → (i : ℕ) → i ≤ 4
      → (result : ℕ → FileEntry) × (sort_chunks sort files start end i ≡ some result)
        × AreChunks files result start end i
  unfolding Sorts sort_chunks
  sort_chunks-AreChunks sort m sorts files start end wide le zero l =
      (files, refl, no_chunks files start end)
  sort_chunks-AreChunks sort m sorts files start end wide le (suc i) l =
      let (middle, ran, done) =
        sort_chunks-AreChunks sort m sorts files start end wide le i (omega arith) in
      let (lo, hi) = chunk_bounds start end wide i (omega arith) in
      let (result, ran', c) =
        sorts middle (first start end i) (last start end i) lo
          (chunk_small start end wide i m (omega arith) le) in
      (result, rw ran ran', next_chunk files middle result start end i wide (omega arith) done c)
