-- ===== src/Sorting/Counting/Ranks.antt =====
-- Where the counting sort puts each entry.
use xv6_part2_and_concurrenc.Base.{
  ℕ, zero, suc, ◌+◌, ◌≤◌, ◌<◌, ◌≡◌, ◌≢◌, refl, ap, ◌∙◌, arith, ℕ_discrete, dec_lt,
}
use xv6_part2_and_concurrenc.Sorting.{FileEntry}
use xv6_part2_and_concurrenc.Sorting.Ranges.{weigh, weigh-zero, weigh-suc}
use xv6_part2_and_concurrenc.Sorting.Counting.{key_index}
use xv6_part2_and_concurrenc.Sorting.Counting.Counts.{
  has_index, index_below, has_own, has_other, weigh-below_suc, weigh_from,
}

no_offset : (i : ℕ) → 0 + i ≡ i
no_offset i = omega arith

pub only_zero : (v : ℕ) → v ≤ 0 → v ≡ 0
only_zero v h = omega arith

weigh_bound :
    (w : FileEntry → ℕ)
    → ((e : FileEntry) → w e ≤ 1)
    → (files : ℕ → FileEntry) (start n : ℕ) → weigh w files start n ≤ n
weigh_bound w small files start zero = omega (arith, weigh-zero w files start)
weigh_bound w small files start (suc n) =
    omega (
      arith,
      weigh-suc w files start n,
      small (files (start + n)),
      weigh_bound w small files start n,
    )

module _ (files : ℕ → FileEntry) (min_val n : ℕ) where
  abbrev pub index_of : ℕ → ℕ
  index_of i = key_index min_val (files i)

  abbrev pub before : ℕ → ℕ
  before v = weigh (index_below min_val v) files 0 n

  abbrev pub equal : ℕ → ℕ → ℕ
  equal v i = weigh (has_index min_val v) files 0 i

  -- The entries with a smaller index, and those at smaller positions with the same one.
  unfoldable pub rank : ℕ → ℕ
  rank i = before (index_of i) + equal (index_of i) i

  equal-next : (v i : ℕ) → equal v (suc i) ≡ equal v i + has_index min_val v (files i)
  equal-next v i =
      weigh-suc (has_index min_val v) files 0 i
      ∙ ap (λ x. equal v i + has_index min_val v (files x)) (no_offset i)

  pub equal-own : (v i : ℕ) → v ≡ index_of i → equal v (suc i) ≡ equal v i + 1
  equal-own v i h = omega (arith, equal-next v i, has_own min_val v (files i) h)

  pub equal-other : (v i : ℕ) → v ≢ index_of i → equal v (suc i) ≡ equal v i
  equal-other v i h = omega (arith, equal-next v i, has_other min_val v (files i) h)

  equal_mono : (v i j : ℕ) → i ≤ j → equal v i ≤ equal v j
  equal_mono v i j h = omega (arith, weigh_from (has_index min_val v) files i j h)

  before_mono : (u v : ℕ) → u ≤ v → before u ≤ before v
  before_mono u zero h = rw (only_zero u h) (omega arith)
  before_mono u (suc v) h = elim (ℕ_discrete u (suc v)) [
    | yes same ↦ rw same (omega arith)
    | no less ↦ omega (arith, before_mono u v (omega arith), weigh-below_suc min_val files v 0 n)
  ]

  before_step : (u v : ℕ) → u < v → before u + equal u n ≤ before v
  before_step u v h =
      omega (arith, before_mono (suc u) v (omega arith), weigh-below_suc min_val files u 0 n)

  before_bound : (v : ℕ) → before v ≤ n
  before_bound v = weigh_bound (index_below min_val v) (λ e. ground arith) files 0 n

  rank-within : (i : ℕ) → i < n → rank i + 1 ≤ before (suc (index_of i))
  unfolding rank
  rank-within i h = omega (
    arith,
    equal-own (index_of i) i refl,
    equal_mono (index_of i) (suc i) n h,
    weigh-below_suc min_val files (index_of i) 0 n,
  )

  pub rank_bound : (i : ℕ) → i < n → rank i < n
  rank_bound i h = omega (arith, rank-within i h, before_bound (suc (index_of i)))

  pub rank_lt : (i j : ℕ) → i < n → index_of i < index_of j → rank i < rank j
  unfolding rank
  rank_lt i j h lt =
      omega (arith, rank-within i h, before_mono (suc (index_of i)) (index_of j) (omega arith))

  pub rank_stable : (i j : ℕ) → index_of i ≡ index_of j → i < j → rank i < rank j
  unfolding rank
  rank_stable i j same lt = omega (
    arith,
    equal-own (index_of i) i refl,
    equal_mono (index_of i) (suc i) j (omega arith),
    ap (λ v. before v) same,
    ap (λ v. equal v j) same,
  )

  pub rank_apart : (i j : ℕ) → i < j → j < n → rank i ≢ rank j
  rank_apart i j lt h e = elim (dec_lt (index_of i) (index_of j)) [
    | yes less ↦ absurd (omega (arith, rank_lt i j (omega arith) less))
    | no more ↦ elim (dec_lt (index_of j) (index_of i)) [
      | yes less ↦ absurd (omega (arith, rank_lt j i h less))
      | no same ↦ absurd (omega (arith, rank_stable i j (omega arith) lt))
    ]
  ]
