-- ===== src/Sorting/Counting/Placing.antt =====
-- parallel_counting_sort() puts every entry at its rank.
use xv6_part2_and_concurrenc.Base.{
  update-eq, update-ne, ℕ, zero, suc, ◌+◌, ◌-◌, ◌≤◌, ◌<◌, ◌≡◌, ◌≢◌, refl, sym, ap, ◌∙◌, arith,
  update, ℕ_discrete,
}
use xv6_part2_and_concurrenc.Sorting.{FileEntry}
use xv6_part2_and_concurrenc.Sorting.Counting.{key_index, place, min_key, max_key}
use xv6_part2_and_concurrenc.Sorting.Counting.Ranks.{
  only_zero, before, equal, rank, rank_apart, equal-own, equal-other,
}

module _ (files : ℕ → FileEntry) (min_val n range : ℕ) where
  -- The counts when `i` entries are left to place.
  unfoldable pub AreLeft : (ℕ → ℕ) → ℕ → Type 0
  AreLeft count i =
      (v : ℕ) → v < range → count v ≡ before files min_val n v + equal files min_val n v i

  next_place :
      (count : ℕ → ℕ) (i : ℕ)
      → AreLeft count (suc i)
      → key_index min_val (files i) < range
      → count (key_index min_val (files i)) ≡ suc (rank files min_val n i)
  unfolding AreLeft rank
  next_place count i left h = omega (
    arith,
    left (key_index min_val (files i)) h,
    equal-own files min_val n (key_index min_val (files i)) i refl,
  )

  AreLeft-next :
      (count : ℕ → ℕ) (i : ℕ)
      → AreLeft count (suc i)
      → AreLeft
          (update count (key_index min_val (files i)) (count (key_index min_val (files i)) - 1))
          i
  unfolding AreLeft
  AreLeft-next count i left v h =
      let k = key_index min_val (files i) in
      elim (ℕ_discrete v k) [
        | yes own ↦
            rw (update-eq count k (count k - 1) v own)
              (omega (arith, ap count own, left v h, equal-own files min_val n v i own))
        | no other ↦
            rw (update-ne count k (count k - 1) v other)
              (omega (arith, left v h, equal-other files min_val n v i other))
      ]

  module _ (small : (i : ℕ) → i < n → key_index min_val (files i) < range) where
    place-other :
        (count : ℕ → ℕ) (output : ℕ → FileEntry) (i p : ℕ)
        → i ≤ n
        → AreLeft count i
        → ((j : ℕ) → j < i → p ≢ rank files min_val n j)
        → place files min_val count output i p ≡ output p
    unfolding place
    place-other count output zero p le left apart = refl
    place-other count output (suc i) p le left apart =
        let k = key_index min_val (files i) in
        place-other (update count k (count k - 1)) (update output (count k - 1) (files i)) i p
          (omega arith) (AreLeft-next count i left) (λ j lt. apart j (omega arith))
        ∙ update-ne output (count k - 1) (files i) p (λ e.
          apart i (omega arith) (omega (arith, next_place count i left (small i (omega arith)))))

    pub place-rank :
        (count : ℕ → ℕ) (output : ℕ → FileEntry) (i j : ℕ)
        → i ≤ n
        → AreLeft count i
        → j < i
        → place files min_val count output i (rank files min_val n j) ≡ files j
    unfolding place
    place-rank count output zero j le left lt = absurd (omega arith)
    place-rank count output (suc i) j le left lt =
        let k = key_index min_val (files i) in
        let here = next_place count i left (small i (omega arith)) in
        elim (ℕ_discrete j i) [
          | yes last ↦ rw last (
              place-other (update count k (count k - 1)) (update output (count k - 1) (files i)) i
                (rank files min_val n i) (omega arith) (AreLeft-next count i left)
                (λ j' lt' e. rank_apart files min_val n j' i lt' (omega arith) (sym e))
              ∙ update-eq output (count k - 1) (files i) (rank files min_val n i) (omega arith))
          | no before_it ↦
              place-rank (update count k (count k - 1)) (update output (count k - 1) (files i)) i j
                (omega arith) (AreLeft-next count i left) (omega arith)
        ]

-- min_val and max_val bound the keys.
pub min_key_lem : (files : ℕ → FileEntry) (i j : ℕ) → j ≤ i → min_key files i ≤ (files j).sort_key
unfolding min_key
min_key_lem files zero j h = rw (only_zero j h) (omega arith)
min_key_lem files (suc i) j h = elim (ℕ_discrete j (suc i)) [
  | yes last ↦ rw last (ground arith)
  | no earlier ↦ ground (arith, min_key_lem files i j)
]

pub max_key_lem : (files : ℕ → FileEntry) (i j : ℕ) → j ≤ i → (files j).sort_key ≤ max_key files i
unfolding max_key
max_key_lem files zero j h = rw (only_zero j h) (omega arith)
max_key_lem files (suc i) j h = elim (ℕ_discrete j (suc i)) [
  | yes last ↦ rw last (ground arith)
  | no earlier ↦ ground (arith, max_key_lem files i j)
]

-- Every entry of `from` has its own place among the first `n` of `to`: those with smaller keys come
-- first, and entries with the same key keep their order.
pub record IsStableSort (from to : ℕ → FileEntry) (n : ℕ) : Type 0 where
  pub place_of : ℕ → ℕ
  pub within : (i : ℕ) → i < n → place_of i < n
  pub moved : (i : ℕ) → i < n → to (place_of i) ≡ from i
  pub ordered :
      (i j : ℕ) → i < n → j < n → (from i).sort_key < (from j).sort_key → place_of i < place_of j
  pub stable :
      (i j : ℕ) → i < j → j < n → (from i).sort_key ≡ (from j).sort_key → place_of i < place_of j
  pub outside : (p : ℕ) → n ≤ p → to p ≡ from p
