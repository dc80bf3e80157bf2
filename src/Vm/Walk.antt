-- ===== src/Vm/Walk.antt =====
-- walk() where the tables are there, and one page unmapped or mapped at the entry it finds.
use xv6_part2_and_concurrenc.Base.{
  ℕ, ◌+◌, ◌-◌, ◌*◌, ◌/◌, ◌%◌, ◌^◌, ◌<◌, ◌≡◌, Bool, true, false, some, arith, leb, ◌==◌, update,
}
use xv6_part2_and_concurrenc.Memory.{Mem, pgsize, pgrounddown, load64, store64}
use xv6_part2_and_concurrenc.Kernel.{Kernel, ok}
use xv6_part2_and_concurrenc.Kalloc.{gt_one}
use xv6_part2_and_concurrenc.Kalloc.FreeList.{IsPage}
use xv6_part2_and_concurrenc.Kalloc.Refcount.{kfree-eq-refcnt_dec, refcnt_dec-ok}
use xv6_part2_and_concurrenc.Pte.{pte_v, pte_u, has, pte_to_pa, make_pte, px, maxva}
use xv6_part2_and_concurrenc.Pte.Laws.{px-pgrounddown, user-not_table}
use xv6_part2_and_concurrenc.Vm.{
  success, next_table, walk, map_page, unmap_page, uvmunmap, mappages,
}

-- From the root table the entries for `va` lead through `table1` to `table0`.
pub record IsPath (m : Mem) (va root table1 table0 : ℕ) : Type 0 where
  pub top : has pte_v (load64 m (root + 8 * px 2 va)) ≡ true
  pub top_to : pte_to_pa (load64 m (root + 8 * px 2 va)) ≡ table1
  pub middle : has pte_v (load64 m (table1 + 8 * px 1 va)) ≡ true
  pub middle_to : pte_to_pa (load64 m (table1 + 8 * px 1 va)) ≡ table0

-- The address of the last entry.
abbrev pub leaf : ℕ → ℕ → ℕ
leaf va table0 = table0 + 8 * px 0 va

pub IsPath-congr :
    {m m' : Mem} {va root table1 table0 : ℕ}
    → IsPath m va root table1 table0
    → load64 m' (root + 8 * px 2 va) ≡ load64 m (root + 8 * px 2 va)
    → load64 m' (table1 + 8 * px 1 va) ≡ load64 m (table1 + 8 * px 1 va)
    → IsPath m' va root table1 table0
IsPath-congr path p q = record {
  top = rw p path.top;
  top_to = rw p path.top_to;
  middle = rw q path.middle;
  middle_to = rw q path.middle_to;
}

-- All the addresses of a page have the same entry.
pub IsPath-pgrounddown :
    {m : Mem} {va root table1 table0 : ℕ}
    → IsPath m va root table1 table0
    → IsPath m (pgrounddown va) root table1 table0
IsPath-pgrounddown {va} path = record {
  top = rw (px-pgrounddown va).0 path.top;
  top_to = rw (px-pgrounddown va).0 path.top_to;
  middle = rw (px-pgrounddown va).1 path.middle;
  middle_to = rw (px-pgrounddown va).1 path.middle_to;
}

module _ (e : ℕ) where
  next_table-ok :
      (alloc : Bool) (entry table : ℕ) (k : Kernel)
      → has pte_v (load64 k.mem entry) ≡ true
      → pte_to_pa (load64 k.mem entry) ≡ table
      → next_table e alloc entry k ≡ ok (some table) k
  unfolding next_table
  next_table-ok alloc entry table k valid to = rw valid (rw to)

  pub below_maxva : (va : ℕ) → va < maxva → leb maxva va ≡ false
  below_maxva va h = ground arith

  -- walk() follows the tables, and changes nothing, whether it may allocate or not.
  pub walk-ok :
      (alloc : Bool) (va root table1 table0 : ℕ) (k : Kernel)
      → va < maxva
      → IsPath k.mem va root table1 table0
      → walk e root va alloc k ≡ ok (leaf va table0) k
  unfolding walk
  walk-ok alloc va root table1 table0 k small path = rw (below_maxva va small) (
      rw (next_table-ok alloc (root + 8 * px 2 va) table1 k path.top path.top_to)
        (rw (next_table-ok alloc (table1 + 8 * px 1 va) table0 k path.middle path.middle_to)))

  pub leaf-nonzero : (va table0 : ℕ) → 0 < table0 → (leaf va table0 == 0) ≡ false
  leaf-nonzero va table0 h = ground arith

  -- uvmunmap() of one page that is in use elsewhere: its count falls, its entry is cleared.
  pub unmap_page-ok :
      (va root table1 table0 pte : ℕ) (k : Kernel)
      → va < maxva
      → IsPath k.mem va root table1 table0
      → 0 < table0
      → load64 k.mem (leaf va table0) ≡ pte
      → has pte_v pte ≡ true
      → has pte_u pte ≡ true
      → IsPage e (pte_to_pa pte)
      → gt_one (k.ref (pte_to_pa pte / pgsize)) ≡ true
      → unmap_page e root va true k
        ≡ ok tt (record {
          mem = store64 k.mem (leaf va table0) 0;
          freelist = k.freelist;
          ref =
              update k.ref
                (pte_to_pa pte / pgsize)
                ((k.ref (pte_to_pa pte / pgsize) + (2 ^ 32 - 1)) % 2 ^ 32);
        })
  unfolding unmap_page
  unmap_page-ok va root table1 table0 pte k small path pos at valid user page more =
      rw (walk-ok false va root table1 table0 k small path) (
        rw (leaf-nonzero va table0 pos) (
          rw at (
            rw valid (
              rw (user-not_table pte user) (
                rw (kfree-eq-refcnt_dec e k (pte_to_pa pte) page more)
                  (rw (refcnt_dec-ok e (pte_to_pa pte) k page)))))))

  -- mappages() of one page at an empty entry whose tables are there.
  pub map_page-ok :
      (va root table1 table0 pa perm : ℕ) (k : Kernel)
      → va < maxva
      → IsPath k.mem va root table1 table0
      → 0 < table0
      → has pte_v (load64 k.mem (leaf va table0)) ≡ false
      → map_page e root va pa perm k
        ≡ ok success (record k { mem = store64 k.mem (leaf va table0) (make_pte pa perm) })
  unfolding map_page
  map_page-ok va root table1 table0 pa perm k small path pos empty =
      rw (walk-ok true va root table1 table0 k small path)
        (rw (leaf-nonzero va table0 pos) (rw empty))

  -- Calls for one page are the bodies of the loops.
  pub uvmunmap_one :
      (table va : ℕ) (do_free : Bool) (k : Kernel) {k' : Kernel}
      → unmap_page e table (pgrounddown va) do_free k ≡ ok tt k'
      → uvmunmap e table (pgrounddown va) 1 do_free k ≡ ok tt k'
  unfolding uvmunmap
  uvmunmap_one table va do_free k h = rw (aligned va) (rw h)
    where
      aligned : (va : ℕ) → (pgrounddown va % pgsize == 0) ≡ true
      aligned va = ground arith

  pub mappages_one :
      (table va pa perm : ℕ) (k : Kernel)
      → mappages e table (pgrounddown va) pgsize pa perm k
        ≡ map_page e table (pgrounddown va) pa perm k
  unfolding mappages
  mappages_one table va pa perm k = rw (none va) (rw (again va))
    where
      none :
          (va : ℕ)
          → (pgrounddown (pgrounddown va + pgsize - 1) - pgrounddown (pgrounddown va)) / pgsize ≡ 0
      none va = omega arith

      again : (va : ℕ) → pgrounddown (pgrounddown va) ≡ pgrounddown va
      again va = omega arith
