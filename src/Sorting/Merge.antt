-- ===== src/Sorting/Merge.antt =====
-- The queues of k_way_merge(): what is in them, and what index++ does to one.
use xv6_part2_and_concurrenc.Base.{
  update-eq, update-ne, ℕ, suc, ◌+◌, ◌-◌, ◌≤◌, ◌≡◌, refl, sym, arith, ℕ_discrete, ap,
}
use xv6_part2_and_concurrenc.Sorting.{FileEntry, MergeQueue, advance}
use xv6_part2_and_concurrenc.Sorting.Ranges.{weigh, weigh-head, weigh-zero}

module _ (queues : ℕ → MergeQueue) (k : ℕ) where
  pub advance_self :
      advance queues k k ≡ (record { index = (queues k).index + 1; end = (queues k).end })
  unfolding advance
  advance_self = update-eq queues k _ k refl

  pub advance-index : (i : ℕ) → (queues i).index ≤ (advance queues k i).index
  unfolding advance
  advance-index i = elim (ℕ_discrete i k) [
    | yes at ↦
        rw (update-eq queues k (record { index = (queues k).index + 1; end = (queues k).end }) i at)
          (omega (arith, ap (λ x. (queues x).index) at))
    | no away ↦
        rw
          (update-ne queues k (record { index = (queues k).index + 1; end = (queues k).end }) i
            away)
          (omega arith)
  ]

  pub advance-end : (i : ℕ) → (advance queues k i).end ≡ (queues i).end
  unfolding advance
  advance-end i = elim (ℕ_discrete i k) [
    | yes at ↦
        rw (update-eq queues k (record { index = (queues k).index + 1; end = (queues k).end }) i at)
          (sym (ap (λ x. (queues x).end) at))
    | no away ↦
        rw
          (update-ne queues k (record { index = (queues k).index + 1; end = (queues k).end }) i
            away)
          refl
  ]

-- The number of entries in a queue.
abbrev pub size : MergeQueue → ℕ
size q = q.end + 1 - q.index

pub add_one : (a : ℕ) → a + 1 ≡ suc a
add_one a = omega arith

one_more : (i e : ℕ) → i ≤ e → e + 1 - i ≡ suc (e + 1 - suc i)
one_more i e le = omega arith

module _ (arr : ℕ → FileEntry) where
  abbrev pub content : (FileEntry → ℕ) → MergeQueue → ℕ
  content w q = weigh w arr q.index (size q)

  pub content-next :
      (w : FileEntry → ℕ) (i e : ℕ)
      → i ≤ e
      → weigh w arr i (e + 1 - i) ≡ w (arr i) + weigh w arr (i + 1) (e + 1 - (i + 1))
  content-next w i e le = rw (one_more i e le) (rw (add_one i) (weigh-head w arr i (e + 1 - suc i)))

  pub content-empty : (w : FileEntry → ℕ) (q : MergeQueue) → size q ≡ 0 → content w q ≡ 0
  content-empty w q z = rw z (weigh-zero w arr q.index)
