-- ===== src/Cow/Shared.antt =====
-- cowalloc() on a copy-on-write page that others use too: the writer gets a copy of its own.
use xv6_part2_and_concurrenc.Base.{
  ℕ, ◌+◌, ◌-◌, ◌*◌, ◌/◌, ◌%◌, ◌^◌, ◌≤◌, ◌<◌, ◌≡◌, refl, ap, ◌∙◌, ◌≢◌, ◌⊎◌, true, false, List, ◌∷◌,
  arith, update,
}
use xv6_part2_and_concurrenc.Memory.{Mem, pgsize, pgrounddown, load64, store64, fill, copy}
use xv6_part2_and_concurrenc.Memory.Laws.{
  load64-store64, load64-store64_ne, load64-fill, load64-copy, store64-outside, fill-outside,
  copy-inside, copy-outside,
}
use xv6_part2_and_concurrenc.Kernel.{Kernel, ok, Returns, returns}
use xv6_part2_and_concurrenc.Kalloc.{gt_one}
use xv6_part2_and_concurrenc.Kalloc.FreeList.{
  Fresh, IsPage, IsFree, Chain-congr, nonzero, kalloc-ok, get_refcnt-ok,
}
use xv6_part2_and_concurrenc.Pte.{
  pte_v, pte_w, pte_u, pte_c, has, pte_to_pa, pte_flags, set_flag, make_pte, px,
}
use xv6_part2_and_concurrenc.Pte.Laws.{
  flags-lt, has-flags, px-lt, px-pgrounddown, make_pte_fields, make_pte-has, writable_flags,
}
use xv6_part2_and_concurrenc.Vm.{success, uvmunmap, mappages}
use xv6_part2_and_concurrenc.Vm.Walk.{
  IsPath, leaf, IsPath-congr, IsPath-pgrounddown, unmap_page-ok, map_page-ok, uvmunmap_one,
  mappages_one,
}
use xv6_part2_and_concurrenc.Cow.{writable, cow_copy, cow_page, cowalloc}
use xv6_part2_and_concurrenc.Cow.Entry.{IsMapped, IsCow, cowalloc-entry, cow_entry-page}

-- The writer's entry leads to the page `np`, writable and unmarked, with the bytes of the shared
-- page; that page has one user less, and no byte but those of `np` and of the entry differs.
pub record CopiedPage (entry pte np : ℕ) (k k' : Kernel) : Type 0 where
  pub own_page : pte_to_pa (load64 k'.mem entry) ≡ np
  pub can_write : has pte_w (load64 k'.mem entry) ≡ true
  pub unmarked : has pte_c (load64 k'.mem entry) ≡ false
  pub user : has pte_u (load64 k'.mem entry) ≡ true
  pub valid : has pte_v (load64 k'.mem entry) ≡ true
  pub contents : (i : ℕ) → i < pgsize → k'.mem (np + i) ≡ k.mem (pte_to_pa pte + i)
  pub elsewhere :
      (x : ℕ) → (x < np) ⊎ (np + pgsize ≤ x) → (x < entry) ⊎ (entry + 8 ≤ x) → k'.mem x ≡ k.mem x
  pub one_user : k'.ref (np / pgsize) ≡ 1
  pub one_less : k'.ref (pte_to_pa pte / pgsize) + 1 ≡ k.ref (pte_to_pa pte / pgsize)
  pub other_counts : (i : ℕ) → i ≢ np / pgsize → i ≢ pte_to_pa pte / pgsize → k'.ref i ≡ k.ref i

module _ (e : ℕ) (k : Kernel) (va root table1 table0 pte np : ℕ) (xs : List ℕ)
    (mapped : IsMapped e k.mem va root table1 table0 pte) (cow : IsCow pte)
    (page : IsPage e (pte_to_pa pte)) (more : gt_one (k.ref (pte_to_pa pte / pgsize)) ≡ true)
    (free : IsFree e k (np ∷ xs))
    (used : Fresh root (np ∷ xs)
      × Fresh table1 (np ∷ xs)
      × Fresh table0 (np ∷ xs)
      × Fresh (pte_to_pa pte) (np ∷ xs)) where
  open mapped use {small, path, entry, root_page, table1_page, table0_page, apart}

  abbrev pa : ℕ
  pa = pte_to_pa pte

  abbrev entry_at : ℕ
  entry_at = leaf va table0

  abbrev copied : Mem
  copied = copy (fill k.mem np 5 pgsize) np pa pgsize

  -- The states between the calls of cow_copy().
  abbrev k1 : Kernel
  k1 = record { mem = copied; freelist = load64 k.mem np; ref = update k.ref (np / pgsize) 1 }

  abbrev k2 : Kernel
  k2 = record {
    mem = store64 copied entry_at 0;
    freelist = load64 k.mem np;
    ref = update k1.ref (pa / pgsize) ((k1.ref (pa / pgsize) + (2 ^ 32 - 1)) % 2 ^ 32);
  }

  abbrev k3 : Kernel
  k3 = record k2 { mem = store64 k2.mem entry_at (make_pte np (writable (pte_flags pte))) }

  np-IsPage : IsPage e np
  np-IsPage = free.pages.0

  -- A word outside the new page is as before.
  copied-same : (a : ℕ) → (a + 8 ≤ np) ⊎ (np + 4096 ≤ a) → load64 copied a ≡ load64 k.mem a
  copied-same a away =
      load64-copy (fill k.mem np 5 pgsize) a np pa pgsize away
      ∙ load64-fill k.mem a np 5 pgsize away

  -- An entry of a page in use is outside the new page.
  away_entry :
      (table level : ℕ)
      → table % 4096 ≡ 0
      → np ≢ table
      → (table + 8 * px level va + 8 ≤ np) ⊎ (np + 4096 ≤ table + 8 * px level va)
  away_entry table level al ne = omega (arith, np-IsPage.aligned, px-lt level va)

  entry_apart :
      (table level : ℕ)
      → table % 4096 ≡ 0
      → table0 ≢ table
      → (table + 8 * px level va + 8 ≤ entry_at) ⊎ (entry_at + 8 ≤ table + 8 * px level va)
  entry_apart table level al ne = omega (arith, table0_page.aligned, px-lt level va, px-lt 0 va)

  path1 : IsPath copied va root table1 table0
  path1 =
      IsPath-congr path (copied-same _ (away_entry root 2 root_page used.0.0))
        (copied-same _ (away_entry table1 1 table1_page used.1.0))

  path2 : IsPath k2.mem va root table1 table0
  path2 =
      IsPath-congr path1
        (load64-store64_ne copied _ entry_at 0 (entry_apart root 2 root_page apart.0))
        (load64-store64_ne copied _ entry_at 0 (entry_apart table1 1 table1_page apart.1))

  entry1 : load64 copied (leaf (pgrounddown va) table0) ≡ pte
  entry1 =
      ap (λ i. load64 copied (table0 + 8 * i)) (px-pgrounddown va).2
      ∙ copied-same entry_at (away_entry table0 0 table0_page.aligned used.2.0)
      ∙ entry

  same_leaf : leaf (pgrounddown va) table0 ≡ entry_at
  same_leaf = ap (λ i. table0 + 8 * i) (px-pgrounddown va).2

  still_more : gt_one (k1.ref (pa / pgsize)) ≡ true
  still_more = ground (arith, used.3.0, page.aligned, np-IsPage.aligned, more)

  unmap-ok : uvmunmap e root (pgrounddown va) 1 true k1 ≡ ok tt k2
  unmap-ok = uvmunmap_one e root va true k1 (
      unmap_page-ok e (pgrounddown va) root table1 table0 pte k1 (omega (arith, small))
        (IsPath-pgrounddown path1) table0_page.above_zero entry1 cow.valid cow.user page still_more
      ∙ ap (λ a. ok tt (record { mem = store64 copied a 0; freelist = k2.freelist; ref = k2.ref }))
          same_leaf)

  empty2 : has pte_v (load64 k2.mem (leaf (pgrounddown va) table0)) ≡ false
  unfolding has
  empty2 = rw same_leaf (rw (load64-store64 copied entry_at 0 (omega arith)) refl)

  map-ok : mappages e root (pgrounddown va) pgsize np (writable (pte_flags pte)) k2 ≡ ok success k3
  map-ok =
      mappages_one e root va np (writable (pte_flags pte)) k2
      ∙ map_page-ok e (pgrounddown va) root table1 table0 np (writable (pte_flags pte)) k2
          (omega (arith, small)) (IsPath-pgrounddown path2) table0_page.above_zero empty2
      ∙ ap
          (λ a.
            ok success
              (record k2 { mem = store64 k2.mem a (make_pte np (writable (pte_flags pte))) }))
          same_leaf

  cow_copy-ok : cow_copy e root va pa (pte_flags pte) k ≡ ok success k3
  unfolding cow_copy
  cow_copy-ok =
      rw (kalloc-ok e k np xs free) (rw (nonzero e np np-IsPage) (rw unmap-ok (rw map-ok)))

  cowalloc-ok : cowalloc e root va k ≡ ok success k3
  unfolding cow_page
  cowalloc-ok =
      cowalloc-entry e k va root table1 table0 pte mapped
      ∙ cow_entry-page e root va (leaf va table0) pte k cow
      ∙ rw (get_refcnt-ok e pa k page) (rw more cow_copy-ok)

  made : make_pte np (writable (pte_flags pte)) < 2 ^ 64
  made = omega (
    arith,
    (make_pte_fields np (writable (pte_flags pte)) np-IsPage.aligned
        (omega (arith, np-IsPage.in_ram)) (flags-lt pte)).0,
  )

  new_entry : load64 k3.mem entry_at ≡ make_pte np (writable (pte_flags pte))
  new_entry = load64-store64 k2.mem entry_at (make_pte np (writable (pte_flags pte))) made

  -- A byte outside the entry is as after the copy.
  k3-same : (x : ℕ) → (x < entry_at) ⊎ (entry_at + 8 ≤ x) → k3.mem x ≡ copied x
  k3-same x away =
      store64-outside k2.mem entry_at _ x away ∙ store64-outside copied entry_at 0 x away

  k3-word : (x : ℕ) → (x + 8 ≤ entry_at) ⊎ (entry_at + 8 ≤ x) → load64 k3.mem x ≡ load64 copied x
  k3-word x away =
      load64-store64_ne k2.mem x entry_at _ away ∙ load64-store64_ne copied x entry_at 0 away

  chain3 : IsFree e k3 xs
  chain3 = record {
    chain =
        Chain-congr e copied k3.mem table0 k3.freelist xs table0_page.aligned
          (λ x away. k3-word x (omega (arith, px-lt 0 va))) free.pages.1 used.2.1
          (Chain-congr e k.mem copied np k3.freelist xs np-IsPage.aligned copied-same free.pages.1
            free.distinct.0 free.chain.1);
    pages = free.pages.1;
    distinct = free.distinct.1;
  }

  new_fields : CopiedPage entry_at pte np k k3
  new_fields = record {
    own_page = rw new_entry fields.1;
    can_write = rw new_entry (flag.0 ∙ (writable_flags (pte_flags pte)).0);
    unmarked = rw new_entry (flag.2 ∙ (writable_flags (pte_flags pte)).1);
    user =
        rw new_entry (flag.1 ∙ (writable_flags (pte_flags pte)).2 ∙ (has-flags pte).0 ∙ cow.user);
    valid = rw new_entry fields.3;
    contents = λ i lt.
        k3-same (np + i)
          (omega (arith, np-IsPage.aligned, table0_page.aligned, used.2.0, px-lt 0 va))
        ∙ copy-inside (fill k.mem np 5 pgsize) np pa pgsize i lt
        ∙ ap (λ j. fill k.mem np 5 pgsize (pa + j)) (omega arith)
        ∙ fill-outside k.mem np 5 pgsize (pa + i)
            (omega (arith, np-IsPage.aligned, page.aligned, used.3.0));
    elsewhere = λ x away away'.
        k3-same x away'
        ∙ copy-outside (fill k.mem np 5 pgsize) np pa pgsize x away
        ∙ fill-outside k.mem np 5 pgsize x away;
    one_user = ground (arith, np-IsPage.aligned, page.aligned, used.3.0);
    one_less = ground (arith, np-IsPage.aligned, page.aligned, used.3.0, more);
    other_counts = λ i ne ne'. ground arith;
  }
    where
      fields :
          (make_pte np (writable (pte_flags pte)) < 2 ^ 54)
          × (pte_to_pa (make_pte np (writable (pte_flags pte))) ≡ np)
          × (pte_flags (make_pte np (writable (pte_flags pte)))
              ≡ set_flag pte_v (writable (pte_flags pte)))
          × (has pte_v (make_pte np (writable (pte_flags pte))) ≡ true)
      fields =
          make_pte_fields np (writable (pte_flags pte)) np-IsPage.aligned
            (omega (arith, np-IsPage.in_ram)) (flags-lt pte)

      flag :
          (has pte_w (make_pte np (writable (pte_flags pte)))
            ≡ has pte_w (writable (pte_flags pte)))
          × (has pte_u (make_pte np (writable (pte_flags pte)))
              ≡ has pte_u (writable (pte_flags pte)))
          × (has pte_c (make_pte np (writable (pte_flags pte)))
              ≡ has pte_c (writable (pte_flags pte)))
      flag = make_pte-has np (writable (pte_flags pte)) np-IsPage.aligned (flags-lt pte)

  -- cowalloc() on a valid user page that is marked copy-on-write and not writable, has a count
  -- above 1 and is reached through tables that are in use (as is the page), with a page `np` at the
  -- head of the free list: it succeeds, the tables stay, and the entry now leads to `np`, writable,
  -- unmarked, with the bytes of the old page; the old page's count is one less, that of `np` is 1,
  -- the other counts and all bytes outside `np` and the entry are as before, and `np` has left the
  -- free list.
  pub cowalloc_shared :
      Returns
        (λ s k'.
          (s ≡ success)
          × IsPath k'.mem va root table1 table0
          × CopiedPage (leaf va table0) pte np k k'
          × IsFree e k' xs)
        (cowalloc e root va k)
  cowalloc_shared = rw cowalloc-ok (returns (refl, path3, new_fields, chain3))
    where
      path3 : IsPath k3.mem va root table1 table0
      path3 =
          IsPath-congr path1 (k3-word _ (entry_apart root 2 root_page apart.0))
            (k3-word _ (entry_apart table1 1 table1_page apart.1))
