-- ===== src/Cow.antt =====
-- Copy-on-write in initial-xv6/src/kernel/vm.c: uvmcopy() shares the pages of a process with its
-- child, and cowalloc() gives a writer a page of its own.
pub mod Entry
pub mod Fork
pub mod Shared
mod Tests
use xv6_part2_and_concurrenc.Base.{
  ℕ, zero, suc, ◌+◌, ◌-◌, ◌*◌, ◌/◌, ◌%◌, ◌^◌, Bool, true, false, ◌&&◌, ◌||◌, not, ltb, leb, ◌==◌,
  if◌then◌else◌,
}
use xv6_part2_and_concurrenc.Memory.{pgsize, pgrounddown, load64, store64, copy}
use xv6_part2_and_concurrenc.Kernel.{M, pure, halt, get, put, ◌>>=◌, ◌>>◌}
use xv6_part2_and_concurrenc.Kalloc.{gt_one, kfree, kalloc, get_refcnt, refcnt_inc}
use xv6_part2_and_concurrenc.Pte.{
  pte_v, pte_w, pte_u, pte_c, has, set_flag, clear_flag, pte_to_pa, pte_flags, maxva,
}
use xv6_part2_and_concurrenc.Vm.{
  Status, success, failure, is_failure, read64, write64, memmove, walk, walkaddr, mappages,
  uvmunmap,
}

-- flags &= ~PTE_C; flags |= PTE_W
abbrev pub writable : ℕ → ℕ
writable flags = set_flag pte_w (clear_flag pte_c flags)

-- *pte |= PTE_C; *pte &= ~PTE_W
abbrev pub shared : ℕ → ℕ
shared pte = clear_flag pte_w (set_flag pte_c pte)

module _ (kernel_end : ℕ) where
  -- The page is in use elsewhere too: a copy of it takes its place.
  unfoldable pub cow_copy : ℕ → ℕ → ℕ → ℕ → M Status
  cow_copy table va pa flags = do
    new_pa ← kalloc kernel_end
    if new_pa == 0 then halt else do
      memmove new_pa pa pgsize
      uvmunmap kernel_end table (pgrounddown va) 1 true
      done ← mappages kernel_end table (pgrounddown va) pgsize new_pa (writable flags)
      if is_failure done then (do kfree kernel_end new_pa; pure failure) else pure success

  -- The page is this process's alone: it becomes writable in place.
  unfoldable pub cow_own : ℕ → ℕ → M Status
  cow_own entry pte = do
    write64 entry (set_flag pte_w pte)
    pte' ← read64 entry
    write64 entry (clear_flag pte_c pte')
    pure success

  -- A valid user page that is marked copy-on-write and not writable.
  unfoldable pub cow_page : ℕ → ℕ → ℕ → ℕ → M Status
  cow_page table va entry pte = do
    count ← get_refcnt kernel_end (pte_to_pa pte)
    if gt_one count then cow_copy table va (pte_to_pa pte) (pte_flags pte) else do
      count' ← get_refcnt kernel_end (pte_to_pa pte)
      if count' == 1 then cow_own entry pte else pure failure

  -- What the entry decides.
  unfoldable pub cow_entry : ℕ → ℕ → ℕ → ℕ → M Status
  cow_entry table va entry pte =
      if not (has pte_v pte) || not (has pte_u pte)
      then pure failure
      else if not (has pte_c pte) && not (has pte_w pte)
      then pure failure
      else if has pte_w pte || not (has pte_c pte)
      then pure success
      else cow_page table va entry pte

  unfoldable pub cowalloc : ℕ → ℕ → M Status
  cowalloc table va = if leb maxva va then pure failure else do
    entry ← walk kernel_end table va false
    if entry == 0 then pure failure else do pte ← read64 entry; cow_entry table va entry pte

  -- A writable page is marked copy-on-write and read-only in the parent.
  unfoldable pub protect : ℕ → ℕ → M (Unit {0})
  protect entry pte = if has pte_w pte then write64 entry (shared pte) else pure tt

  -- The body of the loop of uvmcopy(): the page at `i` mapped in the child too.
  unfoldable pub share_page : ℕ → ℕ → ℕ → M Status
  share_page old new i = do
    entry ← walk kernel_end old i false
    if entry == 0 then halt else do
      pte ← read64 entry
      if not (has pte_v pte) || pte_to_pa pte == 0 then halt else do
        protect entry pte
        pte' ← read64 entry
        done ← mappages kernel_end new i pgsize (pte_to_pa pte) (pte_flags pte')
        if is_failure done
            then pure failure
            else do refcnt_inc kernel_end (pte_to_pa pte); pure success

  -- `n` pages are left, from `i` on.
  unfoldable pub share_pages : ℕ → ℕ → ℕ → ℕ → M Status
  share_pages zero old new i = pure success
  share_pages (suc n) old new i = do
    done ← share_page old new i
    if is_failure done
        then (do uvmunmap kernel_end new 0 (i / pgsize) true; pure failure)
        else share_pages n old new (i + pgsize)

  unfoldable pub uvmcopy : ℕ → ℕ → ℕ → M Status
  unfolding share_pages
  uvmcopy old new sz = share_pages ((sz + (pgsize - 1)) / pgsize) old new 0
