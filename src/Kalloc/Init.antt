-- ===== src/Kalloc/Init.antt =====
-- kinit(): every whole page between the kernel and PHYSTOP goes on the free list, once.
use xv6_part2_and_concurrenc.Base.{
  ℕ, zero, suc, ◌+◌, ◌-◌, ◌*◌, ◌/◌, ◌%◌, ◌≤◌, ◌<◌, ◌≡◌, refl, List, [], ◌∷◌, arith, length,
}
use xv6_part2_and_concurrenc.Memory.{pgsize, pgroundup}
use xv6_part2_and_concurrenc.Kernel.{Kernel, Returns, returns, Returns-and_then, Returns-mono}
use xv6_part2_and_concurrenc.Kalloc.{phystop, free_pages, freerange, kinit}
use xv6_part2_and_concurrenc.Kalloc.FreeList.{Fresh, IsPage, IsFree, kfree-IsFree}

-- The pages from `p` on, `n` of them, the last one first, before those of `xs`.
abbrev pub push_pages : ℕ → ℕ → List ℕ → List ℕ
push_pages zero p xs = xs
push_pages (suc n) p xs = push_pages n (p + pgsize) (p ∷ xs)

-- All of `xs` lie below `p`.
abbrev Below : ℕ → List ℕ → Type 0
Below p [] = Unit
Below p (x ∷ xs) = (x < p) × Below p xs

Below-Fresh : (p : ℕ) (xs : List ℕ) → Below p xs → Fresh p xs
Below-Fresh p [] b = tt
Below-Fresh p (x ∷ xs) b = (omega (arith, b.0), Below-Fresh p xs b.1)

Below-mono : (p q : ℕ) (xs : List ℕ) → p ≤ q → Below p xs → Below q xs
Below-mono p q [] h b = tt
Below-mono p q (x ∷ xs) h b = (omega (arith, b.0), Below-mono p q xs h b.1)

pub length-push_pages : (n p : ℕ) (xs : List ℕ) → length (push_pages n p xs) ≡ n + length xs
length-push_pages zero p xs = omega arith
length-push_pages (suc n) p xs = omega (arith, length-push_pages n (p + pgsize) (p ∷ xs))

module _ (e : ℕ) (above : 0 < e) where
  free_pages-IsFree :
      (n p : ℕ) (k : Kernel) (xs : List ℕ)
      → e ≤ p
      → p % 4096 ≡ 0
      → p + n * 4096 ≤ phystop
      → ((i : ℕ) → k.ref i ≡ 0)
      → Below p xs
      → IsFree e k xs
      → Returns
          (λ _ k'. IsFree e k' (push_pages n p xs) × ((i : ℕ) → k'.ref i ≡ 0))
          (free_pages e n p k)
  unfolding free_pages
  free_pages-IsFree zero p k xs lo al hi zeros below free = returns (free, zeros)
  free_pages-IsFree (suc n) p k xs lo al hi zeros below free =
      Returns-and_then
        (kfree-IsFree e k p xs page (Below-Fresh p xs below) free
          (ground (arith, zeros (p / pgsize))))
        λ _ k' done.
          free_pages-IsFree n (p + pgsize) k' (p ∷ xs) (omega arith) (omega arith) (omega arith)
            (λ i. ground (arith, done.1, zeros i))
            (omega arith, Below-mono p (p + pgsize) xs (omega arith) below) done.0
    where
      page : IsPage e p
      page = record {
        above_kernel = lo;
        above_zero = omega arith;
        in_ram = omega arith;
        aligned = al;
      }

  abbrev boot_pages : List ℕ
  boot_pages = push_pages ((phystop - pgroundup e) / pgsize) (pgroundup e) []

  -- kinit(), with the free list empty and the kernel ending above 0 and not above PHYSTOP, puts
  -- every whole page from the kernel's end to PHYSTOP on the free list, once, and leaves every
  -- count 0.
  pub kinit-IsFree :
      (k : Kernel)
      → e ≤ phystop
      → k.freelist ≡ 0
      → Returns
          (λ _ k'.
            IsFree e k' boot_pages
            × (length boot_pages ≡ (phystop - pgroundup e) / pgsize)
            × ((i : ℕ) → k'.ref i ≡ 0))
          (kinit e k)
  unfolding kinit freerange
  kinit-IsFree k fits empty =
      Returns-mono
        (free_pages-IsFree ((phystop - pgroundup e) / pgsize) (pgroundup e)
          (record k { ref = λ _. 0 }) [] (omega arith) (omega arith) (omega arith) (λ i. refl) tt
          (record { chain = empty; pages = tt; distinct = tt }))
        λ _ k' done. (
          done.0,
          omega (arith, length-push_pages ((phystop - pgroundup e) / pgsize) (pgroundup e) []),
          done.1,
        )
