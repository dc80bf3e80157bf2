-- ===== src/Kalloc/Refcount.antt =====
-- How often a shared page must be freed: refcnt_inc(), refcnt_dec() and kfree() together.
use xv6_part2_and_concurrenc.Base.{
  ℕ, zero, suc, ◌+◌, ◌-◌, ◌/◌, ◌%◌, ◌^◌, ◌≤◌, ◌<◌, ◌≡◌, refl, ap, false, true, List, ◌∷◌, arith,
  update,
}
use xv6_part2_and_concurrenc.Memory.{pgsize}
use xv6_part2_and_concurrenc.Kernel.{
  Kernel, ok, M, pure, ◌>>◌, Returns, returns, Returns-and_then, Returns-mono,
}
use xv6_part2_and_concurrenc.Kalloc.{gt_one, refcnt_inc, refcnt_dec, kfree, kalloc}
use xv6_part2_and_concurrenc.Kalloc.FreeList.{
  Fresh, IsPage, IsFree, IsPage-not_bad, get_refcnt-ok, kfree-IsFree, kalloc-cons,
}

module _ (e : ℕ) where
  pub refcnt_dec-ok :
      (pa : ℕ) (k : Kernel)
      → IsPage e pa
      → refcnt_dec e pa k
        ≡ ok tt (record k {
          ref = update k.ref (pa / pgsize) ((k.ref (pa / pgsize) + (2 ^ 32 - 1)) % 2 ^ 32);
        })
  unfolding refcnt_dec
  refcnt_dec-ok pa k page = rw (IsPage-not_bad e pa page)

  pub refcnt_inc-ok :
      (pa : ℕ) (k : Kernel)
      → IsPage e pa
      → refcnt_inc e pa k
        ≡ ok tt (record k { ref = update k.ref (pa / pgsize) ((k.ref (pa / pgsize) + 1) % 2 ^ 32) })
  unfolding refcnt_inc
  refcnt_inc-ok pa k page = rw (IsPage-not_bad e pa page)

  pub kfree-eq-refcnt_dec :
      (k : Kernel) (pa : ℕ)
      → IsPage e pa
      → gt_one (k.ref (pa / pgsize)) ≡ true
      → kfree e pa k ≡ refcnt_dec e pa k
  unfolding kfree
  kfree-eq-refcnt_dec k pa page more =
      rw (IsPage-not_bad e pa page) (rw (get_refcnt-ok e pa k page) (rw more))

  -- `n` calls of kfree().
  pub kfree_times : ℕ → ℕ → M (Unit {0})
  kfree_times zero pa = pure tt
  kfree_times (suc n) pa = do kfree e pa; kfree_times n pa

  -- A page that is off the free list and in use by `n + 1` users, fewer than 2 ^ 31, is at the head
  -- of the free list, the rest of which is as before, after `n + 1` calls of kfree().
  pub kfree_times-IsFree :
      (n : ℕ) (k : Kernel) (pa : ℕ) (xs : List ℕ)
      → IsPage e pa
      → Fresh pa xs
      → IsFree e k xs
      → suc n < 2 ^ 31
      → k.ref (pa / pgsize) ≡ suc n
      → Returns (λ _ k'. IsFree e k' (pa ∷ xs)) (kfree_times (suc n) pa k)
  unfolding kfree_times
  kfree_times-IsFree zero k pa xs page fresh free small count =
      Returns-and_then (kfree-IsFree e k pa xs page fresh free (ground arith))
        λ _ k' done. returns done.0
  kfree_times-IsFree (suc n) k pa xs page fresh free small count =
      rw (kfree-eq-refcnt_dec k pa page (ground arith)) (
        rw (refcnt_dec-ok pa k page) (
          kfree_times-IsFree n _ pa xs page fresh
            (record { chain = free.chain; pages = free.pages; distinct = free.distinct })
            (omega arith) (ground arith)))

  -- refcnt_inc() and then kfree() of a page with a count of at least 1 that stays below 2 ^ 31
  -- leave memory, free list and counts as they were.
  pub refcnt_inc-kfree :
      (k : Kernel) (pa : ℕ)
      → IsPage e pa
      → 1 ≤ k.ref (pa / pgsize)
      → k.ref (pa / pgsize) + 1 < 2 ^ 31
      → Returns
          (λ _ k'. (k'.mem ≡ k.mem) × (k'.freelist ≡ k.freelist) × ((i : ℕ) → k'.ref i ≡ k.ref i))
          ((refcnt_inc e pa >> kfree e pa) k)
  refcnt_inc-kfree k pa page some small = rw (refcnt_inc-ok pa k page) (
      rw (kfree-eq-refcnt_dec shared pa page (ground arith))
        (rw (refcnt_dec-ok pa shared page) (returns (refl, refl, λ i. ground arith))))
    where
      shared : Kernel
      shared = record k { ref = update k.ref (pa / pgsize) ((k.ref (pa / pgsize) + 1) % 2 ^ 32) }

  -- After kfree() of a page that is not on the free list and whose count is not above 1, kalloc()
  -- returns that page, with count 1, and the free list is the one from before kfree().
  pub kfree-kalloc :
      (k : Kernel) (pa : ℕ) (xs : List ℕ)
      → IsPage e pa
      → Fresh pa xs
      → IsFree e k xs
      → gt_one (k.ref (pa / pgsize)) ≡ false
      → Returns
          (λ r k'. (r ≡ pa) × IsFree e k' xs × (k'.ref (pa / pgsize) ≡ 1))
          ((kfree e pa >> kalloc e) k)
  kfree-kalloc k pa xs page fresh free last =
      Returns-and_then (kfree-IsFree e k pa xs page fresh free last) λ _ k' freed.
        Returns-mono (kalloc-cons e k' pa xs freed.0)
          λ r k'' got. (got.0, got.1, ground (arith, ap (λ (f : ℕ → ℕ). f (pa / pgsize)) got.2))
