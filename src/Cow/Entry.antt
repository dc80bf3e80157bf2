-- ===== src/Cow/Entry.antt =====
-- cowalloc() up to what the page-table entry decides, and the branches that change nothing.
use xv6_part2_and_concurrenc.Base.{
  ℕ, ◌+◌, ◌/◌, ◌%◌, ◌^◌, ◌≤◌, ◌<◌, ◌≡◌, refl, ◌∙◌, ◌≢◌, ◌⊎◌, true, false, arith, ◌&&◌, not,
  if◌then◌else◌,
}
use xv6_part2_and_concurrenc.Memory.{Mem, pgsize, load64, store64}
use xv6_part2_and_concurrenc.Memory.Laws.{load64-store64, store64-outside}
use xv6_part2_and_concurrenc.Kernel.{Kernel, ok, Returns, returns}
use xv6_part2_and_concurrenc.Kalloc.FreeList.{IsPage, get_refcnt-ok}
use xv6_part2_and_concurrenc.Pte.{
  pte_v, pte_w, pte_u, pte_c, has, set_flag, clear_flag, pte_to_pa, maxva,
}
use xv6_part2_and_concurrenc.Pte.Laws.{own_word, own_flags}
use xv6_part2_and_concurrenc.Vm.{success, failure}
use xv6_part2_and_concurrenc.Vm.Walk.{IsPath, leaf, walk-ok, leaf-nonzero, below_maxva}
use xv6_part2_and_concurrenc.Cow.{cow_own, cow_page, cow_entry, cowalloc}

-- The tables that lead to the entry for `va`, which is not in one of the other two.
pub record IsMapped (e : ℕ) (m : Mem) (va root table1 table0 pte : ℕ) : Type 0 where
  pub small : va < maxva
  pub path : IsPath m va root table1 table0
  pub entry : load64 m (leaf va table0) ≡ pte
  pub root_page : root % 4096 ≡ 0
  pub table1_page : table1 % 4096 ≡ 0
  pub table0_page : IsPage e table0
  pub apart : (table0 ≢ root) × (table0 ≢ table1)

-- A user page that a write must copy first.
pub record IsCow (pte : ℕ) : Type 0 where
  pub valid : has pte_v pte ≡ true
  pub user : has pte_u pte ≡ true
  pub marked : has pte_c pte ≡ true
  pub read_only : has pte_w pte ≡ false

-- The entry has become that of the same page, writable and no longer marked; no other byte differs.
pub record OwnPage (entry pte : ℕ) (m m' : Mem) : Type 0 where
  pub same_page : pte_to_pa (load64 m' entry) ≡ pte_to_pa pte
  pub can_write : has pte_w (load64 m' entry) ≡ true
  pub unmarked : has pte_c (load64 m' entry) ≡ false
  pub user : has pte_u (load64 m' entry) ≡ has pte_u pte
  pub valid : has pte_v (load64 m' entry) ≡ has pte_v pte
  pub elsewhere : (x : ℕ) → (x < entry) ⊎ (entry + 8 ≤ x) → m' x ≡ m x

-- The two writes of cow_own().
abbrev owned : Mem → ℕ → ℕ → Mem
owned m entry pte =
    let m' = store64 m entry (set_flag pte_w pte) in
    store64 m' entry (clear_flag pte_c (load64 m' entry))

owned-entry :
    (m : Mem) (entry pte : ℕ)
    → pte < 2 ^ 54
    → load64 (owned m entry pte) entry ≡ clear_flag pte_c (set_flag pte_w pte)
owned-entry m entry pte fits =
    let first = load64-store64 m entry (set_flag pte_w pte) (own_word pte fits).0 in
    rw first (load64-store64 _ entry _ (own_word pte fits).1)

OwnPage-own : (m : Mem) (entry pte : ℕ) → pte < 2 ^ 54 → OwnPage entry pte m (owned m entry pte)
OwnPage-own m entry pte fits =
    let now = owned-entry m entry pte fits in
    record {
      same_page = rw now (own_flags pte).4;
      can_write = rw now (own_flags pte).0;
      unmarked = rw now (own_flags pte).1;
      user = rw now (own_flags pte).2;
      valid = rw now (own_flags pte).3;
      elsewhere = λ x away.
          store64-outside _ entry _ x away ∙ store64-outside m entry (set_flag pte_w pte) x away;
    }

module _ (e : ℕ) where
  pub cowalloc-entry :
      (k : Kernel) (va root table1 table0 pte : ℕ)
      → IsMapped e k.mem va root table1 table0 pte
      → cowalloc e root va k ≡ cow_entry e root va (leaf va table0) pte k
  unfolding cowalloc
  cowalloc-entry k va root table1 table0 pte mapped = rw (below_maxva e va mapped.small) (
      rw (walk-ok e false va root table1 table0 k mapped.small mapped.path)
        (rw (leaf-nonzero e va table0 mapped.table0_page.above_zero) (rw mapped.entry)))

  pub cow_entry-page :
      (table va entry pte : ℕ) (k : Kernel)
      → IsCow pte
      → cow_entry e table va entry pte k ≡ cow_page e table va entry pte k
  unfolding cow_entry
  cow_entry-page table va entry pte k cow = rw (cow.valid, cow.user, cow.marked, cow.read_only)

  -- cowalloc() at an entry that is writable or not marked copy-on-write changes nothing, and
  -- succeeds exactly if the entry is valid, a user page and writable.
  pub cowalloc_plain :
      (k : Kernel) (va root table1 table0 pte : ℕ)
      → IsMapped e k.mem va root table1 table0 pte
      → (has pte_c pte && not (has pte_w pte)) ≡ false
      → cowalloc e root va k
        ≡ ok (if has pte_v pte && has pte_u pte && has pte_w pte then success else failure) k
  unfolding cow_entry
  cowalloc_plain k va root table1 table0 pte mapped plain =
      cowalloc-entry k va root table1 table0 pte mapped ∙ ground arith

  -- cowalloc() on a valid user page that is marked copy-on-write and not writable and has count 1:
  -- it succeeds, the entry leads to the same page, now writable and unmarked, and no byte outside
  -- the entry, no count and not the free list changes.
  pub cowalloc_own :
      (k : Kernel) (va root table1 table0 pte : ℕ)
      → IsMapped e k.mem va root table1 table0 pte
      → IsCow pte
      → IsPage e (pte_to_pa pte)
      → k.ref (pte_to_pa pte / pgsize) ≡ 1
      → pte < 2 ^ 54
      → Returns
          (λ s k'.
            (s ≡ success)
            × (k'.freelist ≡ k.freelist)
            × (k'.ref ≡ k.ref)
            × OwnPage (leaf va table0) pte k.mem k'.mem)
          (cowalloc e root va k)
  unfolding cow_page cow_own
  cowalloc_own k va root table1 table0 pte mapped cow page one fits =
      rw (cowalloc-entry k va root table1 table0 pte mapped) (
        rw (cow_entry-page root va (leaf va table0) pte k cow) (
          rw (get_refcnt-ok e (pte_to_pa pte) k page) (
            rw one (
              rw (get_refcnt-ok e (pte_to_pa pte) k page) (
                rw one
                  (returns (refl, refl, refl, OwnPage-own k.mem (leaf va table0) pte fits)))))))
