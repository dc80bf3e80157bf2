-- ===== src/Sorting/Rounds.antt =====
-- The while loop of k_way_merge(): what it writes are the entries that the queues hold, in order.
use xv6_part2_and_concurrenc.Base.{
  update-eq, update-ne, ℕ, zero, suc, ◌+◌, ◌≤◌, ◌<◌, ◌≡◌, refl, sym, List, arith, inl, inr, none,
  some, ℕ_discrete, ap, ◌∙◌, total, total-update, le-total, total-eq-zero, update, Option-cases,
}
use mathlib.Core.Path.{subst}
use xv6_part2_and_concurrenc.Sorting.{
  ℤ, FileEntry, MergeQueue, advance, get_min_entry, merge_rounds,
}
use xv6_part2_and_concurrenc.Sorting.Order.{Ordered, IsOrder}
use xv6_part2_and_concurrenc.Sorting.Ranges.{weigh, weigh-head, weigh-zero, IsSorted}
use xv6_part2_and_concurrenc.Sorting.Min.{IsLeast, get_min_entry-IsLeast}
use xv6_part2_and_concurrenc.Sorting.Merge.{
  add_one, size, content, content-next, content-empty, advance-index, advance-end,
}

module _ (strcmp : List ℕ → List ℕ → ℤ) (column_type : ℕ) (arr : ℕ → FileEntry) (k : ℕ) where
  -- `e` belongs before all that the queues hold.
  unfoldable pub IsBelow : FileEntry → (ℕ → MergeQueue) → Type 0
  IsBelow e queues =
      (i : ℕ)
      → i < k
      → (x : ℕ) → (queues i).index ≤ x
      → x ≤ (queues i).end
      → Ordered strcmp column_type e (arr x)

  unfoldable pub AreSorted : (ℕ → MergeQueue) → Type 0
  AreSorted queues =
      (i : ℕ)
      → i < k
      → (x y : ℕ) → (queues i).index ≤ x
      → x < y
      → y ≤ (queues i).end
      → Ordered strcmp column_type (arr x) (arr y)

  IsBelow-advance :
      (e : FileEntry) (queues : ℕ → MergeQueue) (m : ℕ)
      → IsBelow e queues
      → IsBelow e (advance queues m)
  unfolding IsBelow
  IsBelow-advance e queues m b i l x lo hi =
      b i l x (omega (arith, advance-index queues m i)) (omega (arith, advance-end queues m i))

  AreSorted-advance :
      (queues : ℕ → MergeQueue) (m : ℕ) → AreSorted queues → AreSorted (advance queues m)
  unfolding AreSorted
  AreSorted-advance queues m s i l x y lo lt hi =
      s i l x y (omega (arith, advance-index queues m i)) lt (omega (arith, advance-end queues m i))

  -- The result of the rounds, when `left` entries are in the queues.
  pub record IsMerged (queues : ℕ → MergeQueue) (output result : ℕ → FileEntry) (out_idx left : ℕ)
      : Type 0 where
    pub kept : (i : ℕ) → i < out_idx → result i ≡ output i
    pub sorted : IsSorted strcmp column_type result out_idx left
    pub same : (w : FileEntry → ℕ) → weigh w result out_idx left ≡ total (content arr w) k queues
    pub above :
        (e : FileEntry)
        → IsBelow e queues
        → (i : ℕ) → out_idx ≤ i
        → i < out_idx + left
        → Ordered strcmp column_type e (result i)

  all_empty :
      (queues : ℕ → MergeQueue)
      → total size k queues ≡ 0
      → (w : FileEntry → ℕ) → total (content arr w) k queues ≡ 0
  all_empty queues z w =
      total-eq-zero (content arr w) k queues
        (λ i l. content-empty arr w (queues i) (omega (arith, le-total size k queues i l)))

  no_rounds :
      (queues : ℕ → MergeQueue) (output : ℕ → FileEntry) (out_idx : ℕ)
      → total size k queues ≡ 0
      → IsMerged queues output output out_idx 0
  unfolding IsSorted
  no_rounds queues output out_idx z = record {
    kept = λ i l. refl;
    sorted = λ i j l lt u. absurd (omega arith);
    same = λ w. weigh-zero w output out_idx ∙ sym (all_empty queues z w);
    above = λ e b i l u. absurd (omega arith);
  }

  -- One entry less in the queues.
  total-size-advance :
      (queues : ℕ → MergeQueue) (m : ℕ)
      → m < k
      → (queues m).index ≤ (queues m).end
      → total size k (advance queues m) + 1 ≡ total size k queues
  unfolding advance
  total-size-advance queues m l le = omega (
    arith,
    total-update size k queues m (record { index = (queues m).index + 1; end = (queues m).end }) l,
  )

  total-content-advance :
      (queues : ℕ → MergeQueue) (m : ℕ)
      → m < k
      → (queues m).index ≤ (queues m).end
      → (w : FileEntry → ℕ)
      → w (arr (queues m).index) + total (content arr w) k (advance queues m)
        ≡ total (content arr w) k queues
  unfolding advance
  total-content-advance queues m l le w = omega (
    arith,
    total-update (content arr w) k queues m
        (record { index = (queues m).index + 1; end = (queues m).end }) l,
    content-next arr w (queues m).index (queues m).end le,
  )

module _ (strcmp : List ℕ → List ℕ → ℤ) (column_type : ℕ) (ord : IsOrder strcmp column_type)
    (arr : ℕ → FileEntry) (k : ℕ) where
  -- A least first entry of sorted queues is below all they hold.
  least-IsBelow :
      (queues : ℕ → MergeQueue) (e : FileEntry)
      → AreSorted strcmp column_type arr k queues
      → ((j : ℕ)
          → j < k
          → (queues j).index ≤ (queues j).end
          → Ordered strcmp column_type e (arr (queues j).index))
      → IsBelow strcmp column_type arr k e queues
  unfolding IsBelow AreSorted
  least-IsBelow queues e s least i l x lo hi = elim (ℕ_discrete x (queues i).index) [
    | yes first ↦ rw first (least i l (omega arith))
    | no behind ↦
        ord.trans e (arr (queues i).index) (arr x) (least i l (omega arith))
          (s i l (queues i).index x (omega arith) (omega arith) hi)
  ]

  first_of :
      (queues : ℕ → MergeQueue) (e : FileEntry) (m : ℕ)
      → m < k
      → (queues m).index ≤ (queues m).end
      → IsBelow strcmp column_type arr k e queues
      → Ordered strcmp column_type e (arr (queues m).index)
  unfolding IsBelow
  first_of queues e m l le b = b m l (queues m).index (omega arith) le

  one_round :
      (queues : ℕ → MergeQueue) (output result : ℕ → FileEntry) (out_idx left m : ℕ) (e : FileEntry)
      → m < k
      → (queues m).index ≤ (queues m).end
      → e ≡ arr (queues m).index
      → IsBelow strcmp column_type arr k e queues
      → IsMerged strcmp column_type arr k
          (advance queues m)
          (update output out_idx e)
          result
          (suc out_idx)
          left
      → IsMerged strcmp column_type arr k queues output result out_idx (suc left)
  unfolding IsSorted
  one_round queues output result out_idx left m e l le at below rest =
      let here = rest.kept out_idx (omega arith) ∙ update-eq output out_idx e out_idx refl in
      record {
        kept = λ i lt.
            rest.kept i (omega arith) ∙ update-ne output out_idx e i (λ same. absurd (omega arith));
        sorted = λ i j lo lt hi. elim (ℕ_discrete i out_idx) [
          | yes first ↦ rw first (
              rw here (
                rest.above e (IsBelow-advance strcmp column_type arr k e queues m below) j
                  (omega arith) (omega arith)))
          | no behind ↦ rest.sorted i j (omega arith) lt (omega arith)
        ];
        same = λ w. omega (
          arith,
          weigh-head w result out_idx left,
          rest.same w,
          ap w here,
          ap w at,
          total-content-advance strcmp column_type arr k queues m l le w,
        );
        above = λ e' b i lo hi. elim (ℕ_discrete i out_idx) [
          | yes first ↦ rw first (rw here (rw at (first_of queues e' m l le b)))
          | no behind ↦
              rest.above e' (IsBelow-advance strcmp column_type arr k e' queues m b) i (omega arith)
                (omega arith)
        ];
      }

  no_queue_left :
      (queues : ℕ → MergeQueue)
      → ((j : ℕ) → j < k → (queues j).end < (queues j).index)
      → total size k queues ≡ 0
  no_queue_left queues empty = total-eq-zero size k queues (λ i l. omega (arith, empty i l))

  no_more :
      (queues : ℕ → MergeQueue) (output : ℕ → FileEntry) (out_idx : ℕ)
      → merge_rounds strcmp column_type arr k queues output out_idx 0 ≡ some output
  unfolding merge_rounds
  no_more queues output out_idx = refl

  a_round :
      (queues : ℕ → MergeQueue) (output : ℕ → FileEntry) (out_idx left m : ℕ) (e : FileEntry)
      → get_min_entry strcmp column_type arr queues k ≡ some (e, m)
      → merge_rounds strcmp column_type arr k queues output out_idx (suc left)
        ≡ merge_rounds strcmp column_type arr k
            (advance queues m)
            (update output out_idx e)
            (suc out_idx)
            left
  unfolding merge_rounds
  a_round queues output out_idx left m e found =
      rw (merge_rounds, found) (rw (add_one out_idx) refl)

  -- What get_min_entry-IsLeast says of each result.
  found_none :
      (queues : ℕ → MergeQueue)
      → get_min_entry strcmp column_type arr queues k ≡ none
      → IsLeast strcmp column_type ord arr queues k none
  found_none queues e =
      subst (IsLeast strcmp column_type ord arr queues k) e
        (get_min_entry-IsLeast strcmp column_type ord arr queues k)

  found_some :
      (queues : ℕ → MergeQueue) (best : FileEntry × ℕ)
      → get_min_entry strcmp column_type arr queues k ≡ some best
      → IsLeast strcmp column_type ord arr queues k (some best)
  found_some queues best e =
      subst (IsLeast strcmp column_type ord arr queues k) e
        (get_min_entry-IsLeast strcmp column_type ord arr queues k)

  next_round :
      (queues : ℕ → MergeQueue) (output : ℕ → FileEntry) (out_idx left m : ℕ) (e : FileEntry)
      → get_min_entry strcmp column_type arr queues k ≡ some (e, m)
      → total size k queues ≡ suc left
      → AreSorted strcmp column_type arr k queues
      → (total size k (advance queues m) ≡ left
          → AreSorted strcmp column_type arr k (advance queues m)
          → (result : ℕ → FileEntry) × (merge_rounds strcmp column_type arr k
                (advance queues m)
                (update output out_idx e)
                (suc out_idx)
                left
              ≡ some result)
            × IsMerged strcmp column_type arr k
                (advance queues m)
                (update output out_idx e)
                result
                (suc out_idx)
                left)
      → (result : ℕ → FileEntry) × (merge_rounds strcmp column_type arr k queues output out_idx
            (suc left)
          ≡ some result)
        × IsMerged strcmp column_type arr k queues output result out_idx (suc left)
  unfolding IsLeast
  next_round queues output out_idx left m e found z s go =
      let (l, le, at, least) = found_some queues (e, m) found in
      let (result, ran, merged) =
        go (omega (arith, total-size-advance strcmp column_type arr k queues m l le))
          (AreSorted-advance strcmp column_type arr k queues m s) in
      (
        result,
        a_round queues output out_idx left m e found ∙ ran,
        one_round queues output result out_idx left m e l le at (least-IsBelow queues e s least)
            merged,
      )

  pub merge_rounds-IsMerged :
      (queues : ℕ → MergeQueue) (output : ℕ → FileEntry) (out_idx left : ℕ)
      → total size k queues ≡ left
      → AreSorted strcmp column_type arr k queues
      → (result : ℕ → FileEntry) × (merge_rounds strcmp column_type arr k queues output out_idx left
          ≡ some result)
        × IsMerged strcmp column_type arr k queues output result out_idx left
  unfolding IsLeast
  merge_rounds-IsMerged queues output out_idx zero z s = (
    output,
    no_more queues output out_idx,
    no_rounds strcmp column_type arr k queues output out_idx z,
  )
  merge_rounds-IsMerged queues output out_idx (suc left) z s =
      elim (Option-cases (get_min_entry strcmp column_type arr queues k)) [
        | inl nothing ↦ absurd (omega (arith, no_queue_left queues (found_none queues nothing)))
        | inr ((e, m), found) ↦ next_round queues output out_idx left m e found z s (λ z' s'.
            merge_rounds-IsMerged (advance queues m) (update output out_idx e) (suc out_idx) left z'
              s')
      ]
