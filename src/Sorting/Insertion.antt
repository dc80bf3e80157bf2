-- ===== src/Sorting/Insertion.antt =====
-- The insertion sort at the base of parallel_merge_sort().
use xv6_part2_and_concurrenc.Base.{
  update-eq, update-ne, ℕ, zero, suc, ◌+◌, ◌≤◌, ◌<◌, ◌≡◌, ◌≢◌, refl, true, false, List, arith,
  update, inl, inr, ◌⊎◌, Bool-cases, ℕ_discrete,
}
use xv6_part2_and_concurrenc.Sorting.{
  ℤ, FileEntry, is_positive, compare_entries, insert, insert_all,
}
use xv6_part2_and_concurrenc.Sorting.Order.{Ordered, IsOrder}
use xv6_part2_and_concurrenc.Sorting.Ranges.{
  weigh, weigh-update, add_zero, add_suc, IsSortedCopy-larger, IsSorted, IsSortedCopy,
}

add_one : (a : ℕ) → a + 1 ≡ suc a
add_one a = omega arith

suc_of : (a b : ℕ) → a + b + 1 ≡ a + suc b
suc_of a b = omega arith

moved-update :
    (files : ℕ → FileEntry) (start m top : ℕ)
    → suc m ≤ top
    → (w : FileEntry → ℕ)
    → weigh w (update files (start + m + 1) (files (start + m))) start (suc top)
        + w (files (start + suc m))
      ≡ weigh w files start (suc top) + w (files (start + m))
moved-update files start m top le w =
    rw (suc_of start m)
      (weigh-update w files start (suc top) (suc m) (files (start + m)) (omega arith))

below_hole :
    (files : ℕ → FileEntry) (start m : ℕ) (w : FileEntry → ℕ)
    → w (update files (start + m + 1) (files (start + m)) (start + m)) ≡ w (files (start + m))
below_hole files start m w =
    rw (update-ne files (start + m + 1) (files (start + m)) (start + m) (λ e. absurd (omega arith)))
      refl

-- The entry below the hole copied into it.
moved_same :
    (files : ℕ → FileEntry) (start : ℕ) (key : FileEntry) (m top : ℕ)
    → suc m ≤ top
    → (w : FileEntry → ℕ) (rest : ℕ)
    → rest + w (update files (start + m + 1) (files (start + m)) (start + m))
      ≡ weigh w (update files (start + m + 1) (files (start + m))) start (suc top) + w key
    → rest + w (files (start + suc m)) ≡ weigh w files start (suc top) + w key
moved_same files start key m top le w rest h =
    omega (arith, moved-update files start m top le w, below_hole files start m w)

module _ (strcmp : List ℕ → List ℕ → ℤ) (column_type : ℕ) (ord : IsOrder strcmp column_type) where
  -- The `top + 1` entries from `start` on, less the one at the hole, are in order, and `key` belongs
  -- before those behind the hole.
  record IsOpen (files : ℕ → FileEntry) (start : ℕ) (key : FileEntry) (hole top : ℕ) : Type 0 where
    others :
        (i j : ℕ)
        → start ≤ i
        → i < j
        → j < start + suc top
        → i ≢ start + hole
        → j ≢ start + hole
        → Ordered strcmp column_type (files i) (files j)
    behind :
        (j : ℕ) → start + hole < j → j < start + suc top → Ordered strcmp column_type key (files j)

  fill_hole :
      (files : ℕ → FileEntry) (start : ℕ) (key : FileEntry) (hole top : ℕ)
      → IsOpen files start key hole top
      → ((i : ℕ) → start ≤ i → i < start + hole → Ordered strcmp column_type (files i) key)
      → IsSorted strcmp column_type (update files (start + hole) key) start (suc top)
  unfolding IsSorted
  fill_hole files start key hole top o low i j l lt u = elim (ℕ_discrete i (start + hole)) [
    | yes at ↦ rw (update-eq files (start + hole) key i at) (
        rw (update-ne files (start + hole) key j (λ e. absurd (omega arith)))
          (o.behind j (omega arith) u))
    | no off ↦ rw (update-ne files (start + hole) key i off) (elim (ℕ_discrete j (start + hole)) [
      | yes at ↦ rw (update-eq files (start + hole) key j at) (low i l (omega arith))
      | no off' ↦ rw (update-ne files (start + hole) key j off') (o.others i j l lt u off off')
    ])
  ]

  move_hole :
      (files : ℕ → FileEntry) (start : ℕ) (key : FileEntry) (m top : ℕ)
      → suc m ≤ top
      → IsOpen files start key (suc m) top
      → Ordered strcmp column_type key (files (start + m))
      → IsOpen (update files (start + m + 1) (files (start + m))) start key m top
  move_hole files start key m top le o after = record {
    others = λ i j l lt u off off'. elim (ℕ_discrete i (start + m + 1)) [
      | yes at ↦ rw (update-eq files (start + m + 1) (files (start + m)) i at) (
          rw (update-ne files (start + m + 1) (files (start + m)) j (λ e. absurd (omega arith))) (
            o.others (start + m) j (omega arith) (omega arith) u (λ e. absurd (omega arith))
              (λ e. absurd (omega arith))))
      | no away ↦
          rw (update-ne files (start + m + 1) (files (start + m)) i away)
            (elim (ℕ_discrete j (start + m + 1)) [
              | yes at ↦ rw (update-eq files (start + m + 1) (files (start + m)) j at) (
                  o.others i (start + m) l (omega arith) (omega arith) (λ e. absurd (omega arith))
                    (λ e. absurd (omega arith)))
              | no away' ↦
                  rw (update-ne files (start + m + 1) (files (start + m)) j away')
                    (o.others i j l lt u (λ e. away (omega arith)) (λ e. away' (omega arith)))
            ])
    ];
    behind = λ j lt u. elim (ℕ_discrete j (start + m + 1)) [
      | yes at ↦ rw (update-eq files (start + m + 1) (files (start + m)) j at) after
      | no away ↦
          rw (update-ne files (start + m + 1) (files (start + m)) j away)
            (o.behind j (omega arith) u)
    ];
  }

  insert-higher :
      (files : ℕ → FileEntry) (start : ℕ) (key : FileEntry) (m : ℕ)
      → is_positive (compare_entries strcmp column_type (files (start + m)) key) ≡ true
      → insert strcmp column_type files start key (suc m)
        ≡ insert strcmp column_type (update files (start + m + 1) (files (start + m))) start key m
  unfolding insert
  insert-higher files start key m h = rw (insert, h) refl

  insert-lower :
      (files : ℕ → FileEntry) (start : ℕ) (key : FileEntry) (m : ℕ)
      → is_positive (compare_entries strcmp column_type (files (start + m)) key) ≡ false
      → insert strcmp column_type files start key (suc m) ≡ update files (start + suc m) key
  unfolding insert
  insert-lower files start key m h = rw (insert, h) (rw (suc_of start m) refl)

  insert-first :
      (files : ℕ → FileEntry) (start : ℕ) (key : FileEntry)
      → insert strcmp column_type files start key 0 ≡ update files (start + 0) key
  unfolding insert
  insert-first files start key = rw (add_zero start) refl

  insert-IsSorted :
      (files : ℕ → FileEntry) (start : ℕ) (key : FileEntry) (m top : ℕ)
      → m ≤ top
      → IsOpen files start key m top
      → IsSorted strcmp column_type (insert strcmp column_type files start key m) start (suc top)
  insert-IsSorted files start key zero top le o =
      rw (insert-first files start key)
        (fill_hole files start key 0 top o (λ i l u. absurd (omega arith)))
  insert-IsSorted files start key (suc m) top le o =
      elim (Bool-cases (is_positive (compare_entries strcmp column_type (files (start + m)) key))) [
        | inl gt ↦ rw (insert-higher files start key m gt) (
            insert-IsSorted (update files (start + m + 1) (files (start + m))) start key m top
              (omega arith)
              (move_hole files start key m top le o (ord.total (files (start + m)) key gt)))
        | inr low ↦ rw (insert-lower files start key m low) (
            fill_hole files start key (suc m) top o (λ i l u. elim (ℕ_discrete i (start + m)) [
              | yes at ↦ rw at low
              | no off ↦
                  ord.trans (files i) (files (start + m)) key
                    (o.others i (start + m) l (omega arith) (omega arith)
                      (λ e. absurd (omega arith)) (λ e. absurd (omega arith)))
                    low
            ]))
      ]

  insert-same :
      (files : ℕ → FileEntry) (start : ℕ) (key : FileEntry) (m top : ℕ)
      → m ≤ top
      → (w : FileEntry → ℕ)
      → weigh w (insert strcmp column_type files start key m) start (suc top)
          + w (files (start + m))
        ≡ weigh w files start (suc top) + w key
  insert-same files start key zero top le w =
      rw (insert-first files start key) (weigh-update w files start (suc top) 0 key (omega arith))
  insert-same files start key (suc m) top le w =
      elim (Bool-cases (is_positive (compare_entries strcmp column_type (files (start + m)) key))) [
        | inl gt ↦ rw (insert-higher files start key m gt) (
            omega (
              arith,
              moved_same files start key m top le w _ (
                  insert-same (update files (start + m + 1) (files (start + m))) start key m top
                    (omega arith) w),
            ))
        | inr low ↦
            rw (insert-lower files start key m low)
              (weigh-update w files start (suc top) (suc m) key (omega arith))
      ]

  insert-outside :
      (files : ℕ → FileEntry) (start : ℕ) (key : FileEntry) (m top i : ℕ)
      → m ≤ top
      → (i < start) ⊎ (start + suc top ≤ i)
      → insert strcmp column_type files start key m i ≡ files i
  insert-outside files start key zero top i le out =
      rw (insert-first files start key)
        (update-ne files (start + 0) key i (λ e. absurd (omega arith)))
  insert-outside files start key (suc m) top i le out =
      elim (Bool-cases (is_positive (compare_entries strcmp column_type (files (start + m)) key))) [
        | inl gt ↦ rw (insert-higher files start key m gt) (
            rw
              (insert-outside (update files (start + m + 1) (files (start + m))) start key m top i
                (omega arith) out)
              (update-ne files (start + m + 1) (files (start + m)) i (λ e. absurd (omega arith))))
        | inr low ↦
            rw (insert-lower files start key m low)
              (update-ne files (start + suc m) key i (λ e. absurd (omega arith)))
      ]

  -- A sorted range of `m` entries, and the one behind it inserted.
  insert-IsSortedCopy :
      (files : ℕ → FileEntry) (start m : ℕ)
      → IsSorted strcmp column_type files start m
      → IsSortedCopy strcmp column_type files
          (insert strcmp column_type files start (files (start + m)) m)
          start
          (suc m)
  unfolding IsSorted
  insert-IsSortedCopy files start m s = record {
    sorted = insert-IsSorted files start (files (start + m)) m m (omega arith) (record {
      others = λ i j l lt u off off'. s i j l lt (omega arith);
      behind = λ j lt u. absurd (omega arith);
    });
    same = λ w. omega (arith, insert-same files start (files (start + m)) m m (omega arith) w);
    outside = λ i out. insert-outside files start (files (start + m)) m m i (omega arith) out;
  }

  insert_all-more :
      (files : ℕ → FileEntry) (start m left : ℕ)
      → insert_all strcmp column_type files start m (suc left)
        ≡ insert_all strcmp column_type
            (insert strcmp column_type files start (files (start + m)) m)
            start
            (suc m)
            left
  unfolding insert_all
  insert_all-more files start m left = rw (add_one m) refl

  unsorted_rest :
      (files : ℕ → FileEntry) (start m : ℕ)
      → IsSorted strcmp column_type files start m
      → IsSortedCopy strcmp column_type files
          (insert_all strcmp column_type files start m 0)
          start
          m
  unfolding insert_all
  unsorted_rest files start m s = record { sorted = s; same = λ w. refl; outside = λ i out. refl }

  -- The rounds that are left, one entry each.
  pub insert_all-IsSortedCopy :
      (files : ℕ → FileEntry) (start m left : ℕ)
      → IsSorted strcmp column_type files start m
      → IsSortedCopy strcmp column_type files
          (insert_all strcmp column_type files start m left)
          start
          (m + left)
  insert_all-IsSortedCopy files start m zero s = rw (add_zero m) (unsorted_rest files start m s)
  insert_all-IsSortedCopy files start m (suc left) s =
      let first = insert-IsSortedCopy files start m s in
      let after = insert strcmp column_type files start (files (start + m)) m in
      let rest = insert_all-IsSortedCopy after start (suc m) left first.sorted in
      rw (insert_all-more files start m left) (
        rw (add_suc m left) (
          IsSortedCopy-larger strcmp column_type start (suc m) (suc m + left) (omega arith) first
            rest))
