-- ===== src/Vm.antt =====
-- kernel/vm.c, the page-table walk and what is built on it: looking up, mapping, unmapping, growing,
-- shrinking and freeing an address space. A pointer into a page table is its address; 0 is null.
-- The C functions that return 0 or -1 return `success` or `failure`. `for` loops recur on the
-- rounds left, computed from their bounds.
pub mod Walk
use xv6_part2_and_concurrenc.Base.{
  ℕ, zero, suc, ◌+◌, ◌-◌, ◌*◌, ◌/◌, ◌%◌, Bool, true, false, Option, none, some, ◌&&◌, not, ltb, leb,
  ◌==◌, if◌then◌else◌,
}
use xv6_part2_and_concurrenc.Memory.{pgsize, pgroundup, pgrounddown, load64, store64, fill, copy}
use xv6_part2_and_concurrenc.Kernel.{M, pure, halt, get, put, ◌>>=◌, ◌>>◌}
use xv6_part2_and_concurrenc.Kalloc.{kfree, kalloc}
use xv6_part2_and_concurrenc.Pte.{
  pte_v, pte_r, pte_w, pte_x, pte_u, has, set_flag, clear_flag, pa_to_pte, pte_to_pa, pte_flags,
  make_pte, px, maxva,
}

pub data Status : Type 0 where
  success : Status
  failure : Status

abbrev pub is_failure : Status → Bool
is_failure success = false
is_failure failure = true

-- *a
abbrev pub read64 : ℕ → M ℕ
read64 a = do k ← get; pure (load64 k.mem a)

-- *a = v
abbrev pub write64 : ℕ → ℕ → M (Unit {0})
write64 a v = do k ← get; put (record k { mem = store64 k.mem a v })

abbrev pub memset : ℕ → ℕ → ℕ → M (Unit {0})
memset dst c n = do k ← get; put (record k { mem = fill k.mem dst c n })

abbrev pub memmove : ℕ → ℕ → ℕ → M (Unit {0})
memmove dst src n = do k ← get; put (record k { mem = copy k.mem dst src n })

module _ (kernel_end : ℕ) where
  -- A page-table page for the entry at `entry`, put there; none without memory, or if not asked for.
  unfoldable pub new_table : Bool → ℕ → M (Option ℕ)
  new_table alloc entry = if not alloc then pure none else do
    table ← kalloc kernel_end
    if table == 0 then pure none else do
      memset table 0 pgsize
      write64 entry (set_flag pte_v (pa_to_pte table))
      pure (some table)

  -- The table one level down.
  unfoldable pub next_table : Bool → ℕ → M (Option ℕ)
  next_table alloc entry = do
    pte ← read64 entry
    if has pte_v pte then pure (some (pte_to_pa pte)) else new_table alloc entry

  -- The rest of a loop of walk(), if there is a table to go on with.
  abbrev or_null : (ℕ → M ℕ) → Option ℕ → M ℕ
  or_null below none = pure 0
  or_null below (some table) = below table

  pub walk_down : Bool → ℕ → ℕ → ℕ → M ℕ
  walk_down alloc va zero table = pure (table + 8 * px 0 va)
  walk_down alloc va (suc level) table =
      next_table alloc (table + 8 * px (suc level) va) >>= or_null (walk_down alloc va level)

  unfoldable pub walk : ℕ → ℕ → Bool → M ℕ
  unfolding walk_down
  walk table va alloc = if leb maxva va then halt else walk_down alloc va 2 table

  unfoldable pub walkaddr : ℕ → ℕ → M ℕ
  walkaddr table va = if leb maxva va then pure 0 else do
    entry ← walk table va false
    if entry == 0 then pure 0 else do
      pte ← read64 entry
      pure (if has pte_v pte && has pte_u pte then pte_to_pa pte else 0)

  -- The body of the loop of mappages(): one page.
  unfoldable pub map_page : ℕ → ℕ → ℕ → ℕ → M Status
  map_page table a pa perm = do
    entry ← walk table a true
    if entry == 0 then pure failure else do
      pte ← read64 entry
      if has pte_v pte then halt else do write64 entry (make_pte pa perm); pure success

  -- `n` pages follow the one at `a`.
  unfoldable pub map_pages : ℕ → ℕ → ℕ → ℕ → ℕ → M Status
  map_pages zero table a pa perm = map_page table a pa perm
  map_pages (suc n) table a pa perm = do
    done ← map_page table a pa perm
    if is_failure done then pure failure else map_pages n table (a + pgsize) (pa + pgsize) perm

  unfoldable pub mappages : ℕ → ℕ → ℕ → ℕ → ℕ → M Status
  unfolding map_pages
  mappages table va size pa perm =
      if size == 0
      then halt
      else map_pages ((pgrounddown (va + size - 1) - pgrounddown va) / pgsize) table
          (pgrounddown va) pa perm

  unfoldable pub kvmmap : ℕ → ℕ → ℕ → ℕ → ℕ → M (Unit {0})
  kvmmap table va pa sz perm = do
    done ← mappages table va sz pa perm
    if is_failure done then halt else pure tt

  -- The body of the loop of uvmunmap(): one page.
  unfoldable pub unmap_page : ℕ → ℕ → Bool → M (Unit {0})
  unmap_page table a do_free = do
    entry ← walk table a false
    if entry == 0 then halt else do
      pte ← read64 entry
      if not (has pte_v pte)
          then halt
          else if pte_flags pte == pte_v
          then halt
          else do if do_free then kfree kernel_end (pte_to_pa pte) else pure tt; write64 entry 0

  unfoldable pub unmap_pages : ℕ → ℕ → ℕ → Bool → M (Unit {0})
  unmap_pages zero table a do_free = pure tt
  unmap_pages (suc n) table a do_free = do
    unmap_page table a do_free
    unmap_pages n table (a + pgsize) do_free

  unfoldable pub uvmunmap : ℕ → ℕ → ℕ → Bool → M (Unit {0})
  unfolding unmap_pages
  uvmunmap table va npages do_free =
      if not (va % pgsize == 0) then halt else unmap_pages npages table va do_free

  unfoldable pub uvmcreate : M ℕ
  uvmcreate = do
    table ← kalloc kernel_end
    if table == 0 then pure 0 else do memset table 0 pgsize; pure table

  unfoldable pub uvmdealloc : ℕ → ℕ → ℕ → M ℕ
  uvmdealloc table oldsz newsz =
      if leb oldsz newsz
      then pure oldsz
      else if ltb (pgroundup newsz) (pgroundup oldsz)
      then (do
        uvmunmap table (pgroundup newsz) ((pgroundup oldsz - pgroundup newsz) / pgsize) true
        pure newsz)
      else pure newsz

  abbrev undo : ℕ → ℕ → ℕ → M Status
  undo table a oldsz = do _ ← uvmdealloc table a oldsz; pure failure

  -- The body of the loop of uvmalloc(): a zeroed page at `a`, or the growth undone.
  unfoldable pub grow_page : ℕ → ℕ → ℕ → ℕ → M Status
  grow_page table oldsz xperm a = do
    mem ← kalloc kernel_end
    if mem == 0 then undo table a oldsz else do
      memset mem 0 pgsize
      done ← mappages table a pgsize mem (pte_r + pte_u + xperm)
      if is_failure done then (do kfree kernel_end mem; undo table a oldsz) else pure success

  unfoldable pub grow_pages : ℕ → ℕ → ℕ → ℕ → ℕ → M Status
  grow_pages zero table oldsz xperm a = pure success
  grow_pages (suc n) table oldsz xperm a = do
    done ← grow_page table oldsz xperm a
    if is_failure done then pure failure else grow_pages n table oldsz xperm (a + pgsize)

  -- 0 is the error. `xperm` is PTE_W, PTE_X or both, or none.
  unfoldable pub uvmalloc : ℕ → ℕ → ℕ → ℕ → M ℕ
  unfolding grow_pages
  uvmalloc table oldsz newsz xperm = if ltb newsz oldsz then pure oldsz else do
    let start = pgroundup oldsz
    done ← grow_pages ((newsz + (pgsize - 1) - start) / pgsize) table start xperm start
    pure (if is_failure done then 0 else newsz)

  unfoldable pub uvmclear : ℕ → ℕ → M (Unit {0})
  uvmclear table va = do
    entry ← walk table va false
    if entry == 0 then halt else do pte ← read64 entry; write64 entry (clear_flag pte_u pte)

  unfoldable pub uvmfirst : ℕ → ℕ → ℕ → M (Unit {0})
  uvmfirst table src sz = if leb pgsize sz then halt else do
    mem ← kalloc kernel_end
    memset mem 0 pgsize
    _ ← mappages table 0 pgsize mem (pte_w + pte_r + pte_x + pte_u)
    memmove mem src sz
