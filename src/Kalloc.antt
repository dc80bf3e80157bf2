-- ===== src/Kalloc.antt =====
-- kernel/kalloc.c: the allocator of physical pages and the reference counts that copy-on-write
-- needs. `kernel_end` is the linker's symbol `end`. Each critical section is one step here; what
-- happens between the sections of two harts is the business of Kalloc/Race.
pub mod FreeList
pub mod Init
pub mod Race
pub mod Refcount
mod Tests
use xv6_part2_and_concurrenc.Base.{
  ℕ, zero, suc, ◌+◌, ◌-◌, ◌/◌, ◌%◌, ◌^◌, Bool, ◌&&◌, ◌||◌, not, ltb, leb, ◌==◌, if◌then◌else◌,
  update,
}
use xv6_part2_and_concurrenc.Memory.{pgsize, pgroundup, load64, store64, fill}
use xv6_part2_and_concurrenc.Kernel.{ok, panic, M, pure, halt, get, put, ◌>>=◌, ◌>>◌}

-- KERNBASE + 128 MB
abbrev pub phystop : ℕ
phystop = 0x88000000

-- `r > 1` for an int with the bit pattern `r`
abbrev pub gt_one : ℕ → Bool
gt_one r = ltb 1 r && ltb r (2 ^ 31)

module _ (kernel_end : ℕ) where
  -- The test at the head of each function: aligned, above the kernel, below PHYSTOP.
  abbrev pub bad_page : ℕ → Bool
  bad_page pa = not (pa % pgsize == 0) || ltb pa kernel_end || leb phystop pa

  unfoldable pub refcnt_init : ℕ → M (Unit {0})
  refcnt_init pa k =
      if bad_page pa then panic else ok tt (record k { ref = update k.ref (pa / pgsize) 1 })

  unfoldable pub refcnt_inc : ℕ → M (Unit {0})
  refcnt_inc pa k =
      if bad_page pa
      then panic
      else ok tt
          (record k { ref = update k.ref (pa / pgsize) ((k.ref (pa / pgsize) + 1) % 2 ^ 32) })

  unfoldable pub refcnt_dec : ℕ → M (Unit {0})
  refcnt_dec pa k =
      if bad_page pa
      then panic
      else ok tt (record k {
        ref = update k.ref (pa / pgsize) ((k.ref (pa / pgsize) + (2 ^ 32 - 1)) % 2 ^ 32);
      })

  unfoldable pub get_refcnt : ℕ → M ℕ
  get_refcnt pa k = if bad_page pa then panic else ok (k.ref (pa / pgsize)) k

  -- The part of kfree() behind its tests: junk in the page, and the page at the head of the list.
  unfoldable pub release_page : ℕ → M (Unit {0})
  release_page pa k =
      let m = fill k.mem pa 1 pgsize in
      ok tt (record k { mem = store64 m pa k.freelist; freelist = pa })

  unfoldable pub kfree : ℕ → M (Unit {0})
  kfree pa =
      if bad_page pa
      then halt
      else do count ← get_refcnt pa; if gt_one count then refcnt_dec pa else release_page pa

  -- The page taken off the list: its count set to 1, its bytes filled with junk.
  unfoldable pub take_page : ℕ → M ℕ
  take_page r k =
      (do
        put (record k { freelist = load64 k.mem r })
        refcnt_init r
        k' ← get
        put (record k' { mem = fill k'.mem r 5 pgsize })
        pure r)
        k

  -- 0 if the list is empty.
  unfoldable pub kalloc : M ℕ
  kalloc k = if k.freelist == 0 then ok 0 k else take_page k.freelist k

  -- for(; p + PGSIZE <= pa_end; p += PGSIZE) kfree(p), with `n` the rounds left.
  unfoldable pub free_pages : ℕ → ℕ → M (Unit {0})
  free_pages zero p = pure tt
  free_pages (suc n) p = do kfree p; free_pages n (p + pgsize)

  unfoldable pub freerange : ℕ → ℕ → M (Unit {0})
  freerange pa_start pa_end =
      free_pages ((pa_end - pgroundup pa_start) / pgsize) (pgroundup pa_start)

  unfoldable pub kinit : M (Unit {0})
  kinit = do k ← get; put (record k { ref = λ _. 0 }); freerange kernel_end phystop
