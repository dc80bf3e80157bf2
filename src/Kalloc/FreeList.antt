-- ===== src/Kalloc/FreeList.antt =====
-- The list of free pages that `kmem.freelist` heads, and what kfree() and kalloc() do to it.
use xv6_part2_and_concurrenc.Base.{
  ℕ, ◌+◌, ◌/◌, ◌%◌, ◌^◌, ◌≤◌, ◌<◌, ◌≡◌, refl, ◌∙◌, ◌≢◌, ◌⊎◌, false, List, [], ◌∷◌, arith, ◌==◌,
  update,
}
use xv6_part2_and_concurrenc.Memory.{Mem, pgsize, load64, store64, fill}
use xv6_part2_and_concurrenc.Memory.Laws.{
  load64-store64, load64-store64_ne, load64-fill, store64-outside, fill-outside, fill-inside,
}
use xv6_part2_and_concurrenc.Kernel.{Kernel, ok, Returns, returns}
use xv6_part2_and_concurrenc.Kalloc.{
  phystop, gt_one, bad_page, refcnt_init, get_refcnt, release_page, kfree, take_page, kalloc,
}

-- From `p` on, the first words of the pages `xs` lead one to the next, the last to 0.
abbrev pub Chain : Mem → ℕ → List ℕ → Type 0
Chain m p [] = p ≡ 0
Chain m p (x ∷ xs) = (p ≡ x) × Chain m (load64 m x) xs

abbrev pub Fresh : ℕ → List ℕ → Type 0
Fresh pa [] = Unit
Fresh pa (x ∷ xs) = (x ≢ pa) × Fresh pa xs

abbrev pub Distinct : List ℕ → Type 0
Distinct [] = Unit
Distinct (x ∷ xs) = Fresh x xs × Distinct xs

-- A page that the allocator may hand out.
pub record IsPage (kernel_end pa : ℕ) : Type 0 where
  pub above_kernel : kernel_end ≤ pa
  pub above_zero : 0 < pa
  pub in_ram : pa < phystop
  pub aligned : pa % 4096 ≡ 0

abbrev pub AllPages : ℕ → List ℕ → Type 0
AllPages kernel_end [] = Unit
AllPages kernel_end (x ∷ xs) = IsPage kernel_end x × AllPages kernel_end xs

-- The free pages of the state, in the order of the list.
pub record IsFree (kernel_end : ℕ) (k : Kernel) (xs : List ℕ) : Type 0 where
  pub chain : Chain k.mem k.freelist xs
  pub pages : AllPages kernel_end xs
  pub distinct : Distinct xs

-- `m'` differs from `m` at most in the page `pa`.
abbrev pub SameOutside : ℕ → Mem → Mem → Type 0
SameOutside pa m m' = (x : ℕ) → (x < pa) ⊎ (pa + pgsize ≤ x) → m' x ≡ m x

pub Chain-congr :
    (e : ℕ) (m m' : Mem) (pa p : ℕ) (xs : List ℕ)
    → pa % 4096 ≡ 0
    → ((x : ℕ) → (x + 8 ≤ pa) ⊎ (pa + 4096 ≤ x) → load64 m' x ≡ load64 m x)
    → AllPages e xs
    → Fresh pa xs
    → Chain m p xs
    → Chain m' p xs
Chain-congr e m m' pa p [] al same pages fresh c = c
Chain-congr e m m' pa p (x ∷ xs) al same pages fresh c = (
  c.0,
  rw (same x (omega (arith, pages.0.aligned, fresh.0)))
      (Chain-congr e m m' pa (load64 m x) xs al same pages.1 fresh.1 c.1),
)

module _ (e : ℕ) where
  pub IsPage-not_bad : (pa : ℕ) → IsPage e pa → bad_page e pa ≡ false
  IsPage-not_bad pa h = ground arith

  pub refcnt_init-ok :
      (pa : ℕ) (k : Kernel)
      → IsPage e pa
      → refcnt_init e pa k ≡ ok tt (record k { ref = update k.ref (pa / pgsize) 1 })
  unfolding refcnt_init
  refcnt_init-ok pa k page = rw (IsPage-not_bad pa page)

  pub get_refcnt-ok :
      (pa : ℕ) (k : Kernel) → IsPage e pa → get_refcnt e pa k ≡ ok (k.ref (pa / pgsize)) k
  unfolding get_refcnt
  get_refcnt-ok pa k page = rw (IsPage-not_bad pa page)

  freelist-lt : (k : Kernel) (xs : List ℕ) → IsFree e k xs → k.freelist < 2 ^ 64
  freelist-lt k [] free = omega (arith, free.chain)
  freelist-lt k (x ∷ xs) free = omega (arith, free.chain.0, free.pages.0.in_ram)

  -- Freeing a page that nobody else maps puts it at the head of the free list.
  pub release_page-IsFree :
      (k : Kernel) (pa : ℕ) (xs : List ℕ)
      → IsPage e pa
      → Fresh pa xs
      → IsFree e k xs
      → Returns
          (λ _ k'. IsFree e k' (pa ∷ xs) × (k'.ref ≡ k.ref) × SameOutside pa k.mem k'.mem)
          (release_page e pa k)
  unfolding release_page
  release_page-IsFree k pa xs page fresh free = returns (
    record {
      chain = (
        refl,
        rw (load64-store64 (fill k.mem pa 1 pgsize) pa k.freelist (freelist-lt k xs free)) (
            Chain-congr e k.mem (store64 (fill k.mem pa 1 pgsize) pa k.freelist) pa k.freelist xs
              page.aligned
              (λ x away.
                load64-store64_ne (fill k.mem pa 1 pgsize) x pa k.freelist (omega arith)
                ∙ load64-fill k.mem x pa 1 pgsize (omega arith))
              free.pages fresh free.chain),
      );
      pages = (page, free.pages);
      distinct = (fresh, free.distinct);
    },
    refl,
    λ x away.
        store64-outside (fill k.mem pa 1 pgsize) pa k.freelist x (omega arith)
        ∙ fill-outside k.mem pa 1 pgsize x away,
  )

  pub kfree-eq-release_page :
      (k : Kernel) (pa : ℕ)
      → IsPage e pa
      → gt_one (k.ref (pa / pgsize)) ≡ false
      → kfree e pa k ≡ release_page e pa k
  unfolding kfree
  kfree-eq-release_page k pa page last =
      rw (IsPage-not_bad pa page) (rw (get_refcnt-ok pa k page) (rw last))

  -- kfree() of a page that is not on the free list and whose count is not above 1 puts it at the
  -- head of the free list, and leaves the counts and the bytes outside the page as they were.
  pub kfree-IsFree :
      (k : Kernel) (pa : ℕ) (xs : List ℕ)
      → IsPage e pa
      → Fresh pa xs
      → IsFree e k xs
      → gt_one (k.ref (pa / pgsize)) ≡ false
      → Returns
          (λ _ k'. IsFree e k' (pa ∷ xs) × (k'.ref ≡ k.ref) × SameOutside pa k.mem k'.mem)
          (kfree e pa k)
  kfree-IsFree k pa xs page fresh free last =
      rw (kfree-eq-release_page k pa page last) (release_page-IsFree k pa xs page fresh free)

  pub nonzero : (pa : ℕ) → IsPage e pa → (pa == 0) ≡ false
  nonzero pa page = ground arith

  take_page-ok :
      (k : Kernel) (r : ℕ)
      → IsPage e r
      → take_page e r k
        ≡ ok r (record {
          mem = fill k.mem r 5 pgsize;
          freelist = load64 k.mem r;
          ref = update k.ref (r / pgsize) 1;
        })
  unfolding take_page
  take_page-ok k r page = rw (refcnt_init-ok r (record k { freelist = load64 k.mem r }) page)

  pub kalloc-ok :
      (k : Kernel) (pa : ℕ) (xs : List ℕ)
      → IsFree e k (pa ∷ xs)
      → kalloc e k
        ≡ ok pa (record {
          mem = fill k.mem pa 5 pgsize;
          freelist = load64 k.mem pa;
          ref = update k.ref (pa / pgsize) 1;
        })
  unfolding kalloc
  kalloc-ok k pa xs free =
      simp free.chain.0 (rw (nonzero pa free.pages.0) (take_page-ok k pa free.pages.0))

  -- kalloc() with a page at the head of the free list returns it: the rest is the free list, the
  -- page's count is 1 and its bytes are 5, and the other counts and the bytes outside the page are
  -- as before.
  pub kalloc-cons :
      (k : Kernel) (pa : ℕ) (xs : List ℕ)
      → IsFree e k (pa ∷ xs)
      → Returns
          (λ r k'.
            (r ≡ pa)
            × IsFree e k' xs
            × (k'.ref ≡ update k.ref (pa / pgsize) 1)
            × SameOutside pa k.mem k'.mem
            × ((i : ℕ) → i < pgsize → k'.mem (pa + i) ≡ 5))
          (kalloc e k)
  kalloc-cons k pa xs free = rw (kalloc-ok k pa xs free) (
      returns (
        refl,
        record {
          chain =
              Chain-congr e k.mem (fill k.mem pa 5 pgsize) pa (load64 k.mem pa) xs
                free.pages.0.aligned (λ x away. load64-fill k.mem x pa 5 pgsize away) free.pages.1
                free.distinct.0 free.chain.1;
          pages = free.pages.1;
          distinct = free.distinct.1;
        },
        refl,
        λ x away. fill-outside k.mem pa 5 pgsize x away,
        λ i lt. fill-inside k.mem pa 5 pgsize i lt,
      ))

  -- kalloc() with none left.
  pub kalloc-nil : (k : Kernel) → IsFree e k [] → kalloc e k ≡ ok 0 k
  unfolding kalloc
  kalloc-nil k free = rw free.chain refl
