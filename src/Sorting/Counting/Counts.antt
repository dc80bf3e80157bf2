-- ===== src/Sorting/Counting/Counts.antt =====
-- What the counts are after the threads and after the prefix sums.
use xv6_part2_and_concurrenc.Base.{
  update-eq, update-ne, ℕ, zero, suc, ◌+◌, ◌-◌, ◌*◌, ◌/◌, ◌≤◌, ◌<◌, ◌≡◌, ◌≢◌, refl, sym, ap, ◌∙◌,
  arith, ltb, ◌==◌, if◌then◌else◌, ℕ_discrete,
}
use xv6_part2_and_concurrenc.Sorting.{FileEntry}
use xv6_part2_and_concurrenc.Sorting.Ranges.{weigh, weigh-append, weigh-zero, weigh-suc}
use xv6_part2_and_concurrenc.Sorting.Counting.{
  key_index, local_counts, add_counts, count_thread, count_threads, prefix_sums,
}

-- 1 for an entry with the index `v`, and for one with an index below `v`.
module _ (min_val : ℕ) where
  abbrev pub has_index : ℕ → FileEntry → ℕ
  has_index v e = if key_index min_val e == v then 1 else 0

  abbrev pub index_below : ℕ → FileEntry → ℕ
  index_below v e = if ltb (key_index min_val e) v then 1 else 0

  pub below_none : (e : FileEntry) → index_below 0 e ≡ 0
  below_none e = ground arith

  below_suc : (v : ℕ) (e : FileEntry) → index_below (suc v) e ≡ index_below v e + has_index v e
  below_suc v e = ground arith

  pub has_own : (v : ℕ) (e : FileEntry) → v ≡ key_index min_val e → has_index v e ≡ 1
  has_own v e h = ground arith

  pub has_other : (v : ℕ) (e : FileEntry) → v ≢ key_index min_val e → has_index v e ≡ 0
  has_other v e h = ground arith

  -- Weights that add up.
  pub weigh-below_suc :
      (files : ℕ → FileEntry) (v start n : ℕ)
      → weigh (index_below (suc v)) files start n
        ≡ weigh (index_below v) files start n + weigh (has_index v) files start n
  weigh-below_suc files v start zero = omega (
    arith,
    weigh-zero (index_below (suc v)) files start,
    weigh-zero (index_below v) files start,
    weigh-zero (has_index v) files start,
  )
  weigh-below_suc files v start (suc n) = omega (
    arith,
    weigh-suc (index_below (suc v)) files start n,
    weigh-suc (index_below v) files start n,
    weigh-suc (has_index v) files start n,
    weigh-below_suc files v start n,
    below_suc v (files (start + n)),
  )

  local_counts_lem :
      (files : ℕ → FileEntry) (start m v : ℕ)
      → local_counts files min_val start m v ≡ weigh (has_index v) files start m
  unfolding local_counts
  local_counts_lem files start zero v = sym (weigh-zero (has_index v) files start)
  local_counts_lem files start (suc m) v =
      let e = files (start + m) in
      let count = local_counts files min_val start m in
      elim (ℕ_discrete v (key_index min_val e)) [
        | yes own ↦
            rw (update-eq count (key_index min_val e) (count (key_index min_val e) + 1) v own) (
              omega (
                arith,
                ap count own,
                local_counts_lem files start m v,
                weigh-suc (has_index v) files start m,
                has_own v e own,
              ))
        | no other ↦
            rw (update-ne count (key_index min_val e) (count (key_index min_val e) + 1) v other) (
              omega (
                arith,
                local_counts_lem files start m v,
                weigh-suc (has_index v) files start m,
                has_other v e other,
              ))
      ]

add_counts-above :
    (count local_count : ℕ → ℕ) (i v : ℕ) → i ≤ v → add_counts count local_count i v ≡ count v
unfolding add_counts
add_counts-above count local_count zero v h = refl
add_counts-above count local_count (suc i) v h =
    rw
      (update-ne (add_counts count local_count i) i
        (add_counts count local_count i i + local_count i) v (λ e. absurd (omega arith)))
      (add_counts-above count local_count i v (omega arith))

add_counts-below :
    (count local_count : ℕ → ℕ) (i v : ℕ)
    → v < i
    → add_counts count local_count i v ≡ count v + local_count v
unfolding add_counts
add_counts-below count local_count zero v h = absurd (omega arith)
add_counts-below count local_count (suc i) v h = elim (ℕ_discrete v i) [
  | yes last ↦
      rw
        (update-eq (add_counts count local_count i) i
          (add_counts count local_count i i + local_count i) v last)
        (omega (
          arith,
          ap count last,
          ap local_count last,
          add_counts-above count local_count i i (omega arith),
        ))
  | no before ↦
      rw
        (update-ne (add_counts count local_count i) i
          (add_counts count local_count i i + local_count i) v before)
        (add_counts-below count local_count i v (omega arith))
]

weigh_at :
    (w : FileEntry → ℕ) (files : ℕ → FileEntry) {a a' n n' : ℕ}
    → a ≡ a'
    → n ≡ n'
    → weigh w files a n ≡ weigh w files a' n'
weigh_at w files e e' = rw e (rw e' refl)

pub weigh_from :
    (w : FileEntry → ℕ) (files : ℕ → FileEntry) (a b : ℕ)
    → a ≤ b
    → weigh w files 0 b ≡ weigh w files 0 a + weigh w files a (b - a)
weigh_from w files a b le = omega (
  arith,
  weigh-append w files 0 a (b - a),
  weigh_at w files {a = 0} {n = a + (b - a)} {n' = b} refl (omega arith),
  weigh_at w files {a = 0 + a} {a' = a} {n = b - a} (omega arith) refl,
)

module _ (files : ℕ → FileEntry) (min_val range : ℕ) where
  count_thread_lem :
      (start end : ℕ) (count : ℕ → ℕ) (v : ℕ)
      → v < range
      → count_thread files min_val range start end count v
        ≡ count v + weigh (has_index min_val v) files start (end - start)
  unfolding count_thread
  count_thread_lem start end count v h =
      add_counts-below count (local_counts files min_val start (end - start)) range v h
      ∙ ap (λ x. count v + x) (local_counts_lem min_val files start (end - start) v)

  -- The entries of the threads together are all.
  pub count_threads_lem :
      (n v : ℕ)
      → v < range
      → count_threads files min_val range n 4 v ≡ weigh (has_index min_val v) files 0 n
  unfolding count_threads
  count_threads_lem n v h =
      let c = n / 4 in
      let w = has_index min_val v in
      let first = count_thread files min_val range (0 * c) (1 * c) (λ v. 0) in
      let second = count_thread files min_val range (1 * c) (2 * c) first in
      let third = count_thread files min_val range (2 * c) (3 * c) second in
      omega (
        arith,
        count_thread_lem (0 * c) (1 * c) (λ v. 0) v h,
        count_thread_lem (1 * c) (2 * c) first v h,
        count_thread_lem (2 * c) (3 * c) second v h,
        count_thread_lem (3 * c) n third v h,
        weigh_from w files (0 * c) (1 * c) (omega arith),
        weigh_from w files (1 * c) (2 * c) (omega arith),
        weigh_from w files (2 * c) (3 * c) (omega arith),
        weigh_from w files (3 * c) n (omega arith),
        weigh_at w files {a = 0} {n = 0 * c} {n' = 0} refl (omega arith),
        weigh-zero w files 0,
      )

-- The counts when the prefix sums reach the index `i`.
prefix_sums-above : (count : ℕ → ℕ) (i v : ℕ) → i < v → prefix_sums count i v ≡ count v
unfolding prefix_sums
prefix_sums-above count zero v h = refl
prefix_sums-above count (suc i) v h =
    rw
      (update-ne (prefix_sums count i) (suc i) (prefix_sums count i (suc i) + prefix_sums count i i)
        v (λ e. absurd (omega arith)))
      (prefix_sums-above count i v (omega arith))

module _ (files : ℕ → FileEntry) (min_val n range : ℕ) (count : ℕ → ℕ)
    (counted : (v : ℕ) → v < range → count v ≡ weigh (has_index min_val v) files 0 n) where
  only_zero : (v : ℕ) → v ≤ 0 → v ≡ 0
  only_zero v h = omega arith

  none_below : (start m : ℕ) → weigh (index_below min_val 0) files start m ≡ 0
  none_below start zero = weigh-zero (index_below min_val 0) files start
  none_below start (suc m) = omega (
    arith,
    weigh-suc (index_below min_val 0) files start m,
    none_below start m,
    below_none min_val (files (start + m)),
  )

  pub prefix_sums_lem :
      (i v : ℕ)
      → v ≤ i
      → i < range
      → prefix_sums count i v ≡ weigh (index_below min_val (suc v)) files 0 n
  unfolding prefix_sums
  prefix_sums_lem zero v h lt =
      rw (only_zero v h)
        (omega (arith, counted 0 lt, weigh-below_suc min_val files 0 0 n, none_below 0 n))
  prefix_sums_lem (suc i) v h lt = elim (ℕ_discrete v (suc i)) [
    | yes last ↦
        rw
          (update-eq (prefix_sums count i) (suc i)
            (prefix_sums count i (suc i) + prefix_sums count i i) v last)
          (rw last (
            omega (
              arith,
              counted (suc i) lt,
              prefix_sums-above count i (suc i) (omega arith),
              prefix_sums_lem i i (omega arith) (omega arith),
              weigh-below_suc min_val files (suc i) 0 n,
            )))
    | no before ↦
        rw
          (update-ne (prefix_sums count i) (suc i)
            (prefix_sums count i (suc i) + prefix_sums count i i) v before)
          (prefix_sums_lem i v (omega arith) (omega arith))
  ]
