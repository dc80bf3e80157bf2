-- ===== src/Cow/Fork.antt =====
-- One round of uvmcopy(): parent and child end with the same page, which neither may write.
use xv6_part2_and_concurrenc.Base.{
  ℕ, ◌+◌, ◌*◌, ◌/◌, ◌%◌, ◌^◌, ◌≤◌, ◌<◌, ◌≡◌, refl, ap, sym, ◌∙◌, ◌≢◌, ◌⊎◌, inl, inr, true, false,
  arith, ◌==◌, ◌||◌, if◌then◌else◌, update, Bool-cases,
}
use xv6_part2_and_concurrenc.Memory.{Mem, pgsize, pgrounddown, load64, store64}
use xv6_part2_and_concurrenc.Memory.Laws.{load64-store64, load64-store64_ne, store64-outside}
use xv6_part2_and_concurrenc.Kernel.{Kernel, ok, Returns, returns}
use xv6_part2_and_concurrenc.Kalloc.FreeList.{IsPage}
use xv6_part2_and_concurrenc.Kalloc.Refcount.{refcnt_inc-ok}
use xv6_part2_and_concurrenc.Pte.{
  pte_v, pte_w, pte_u, pte_c, has, set_flag, pte_to_pa, pte_flags, make_pte,
}
use xv6_part2_and_concurrenc.Pte.Laws.{
  px-lt, make_pte_fields, make_pte-has, protected_flags, protected_word, low_flags,
}
use xv6_part2_and_concurrenc.Vm.{success, map_page, mappages}
use xv6_part2_and_concurrenc.Vm.Walk.{
  IsPath, leaf, IsPath-congr, walk-ok, leaf-nonzero, map_page-ok, mappages_one,
}
use xv6_part2_and_concurrenc.Cow.{shared, protect, share_page}
use xv6_part2_and_concurrenc.Cow.Entry.{IsMapped}

-- The entries of parent and child lead to one page, and neither allows a write; both are marked
-- copy-on-write if the parent could write (or if it was marked before). The page has one more user,
-- and no byte but those of the two entries differs.
pub record SharedPage (entry entry' pte : ℕ) (k k' : Kernel) : Type 0 where
  pub parent_page : pte_to_pa (load64 k'.mem entry) ≡ pte_to_pa pte
  pub child_page : pte_to_pa (load64 k'.mem entry') ≡ pte_to_pa pte
  pub parent_reads : has pte_w (load64 k'.mem entry) ≡ false
  pub child_reads : has pte_w (load64 k'.mem entry') ≡ false
  pub parent_mark : has pte_c (load64 k'.mem entry) ≡ (has pte_w pte || has pte_c pte)
  pub child_mark : has pte_c (load64 k'.mem entry') ≡ (has pte_w pte || has pte_c pte)
  pub child_user : has pte_u (load64 k'.mem entry') ≡ has pte_u pte
  pub child_valid : has pte_v (load64 k'.mem entry') ≡ true
  pub one_more : k'.ref (pte_to_pa pte / pgsize) ≡ (k.ref (pte_to_pa pte / pgsize) + 1) % 2 ^ 32
  pub other_counts : (i : ℕ) → i ≢ pte_to_pa pte / pgsize → k'.ref i ≡ k.ref i
  pub elsewhere :
      (x : ℕ) → (x < entry) ⊎ (entry + 8 ≤ x) → (x < entry') ⊎ (entry' + 8 ≤ x) → k'.mem x ≡ k.mem x

module _ (e : ℕ) (k : Kernel) (n root table1 table0 root' table1' table0' pte : ℕ)
    (mapped : IsMapped e k.mem (n * 4096) root table1 table0 pte) (valid : has pte_v pte ≡ true)
    (fits : pte < 2 ^ 54) (page : IsPage e (pte_to_pa pte))
    (child : IsMapped e k.mem (n * 4096) root' table1' table0' 0)
    (apart : (table0 ≢ root') × (table0 ≢ table1') × (table0 ≢ table0')) where
  abbrev va : ℕ
  va = n * 4096

  abbrev pa : ℕ
  pa = pte_to_pa pte

  abbrev protected : ℕ
  protected = if has pte_w pte then shared pte else pte

  abbrev mem1 : Mem
  mem1 = if has pte_w pte then store64 k.mem (leaf va table0) (shared pte) else k.mem

  abbrev k1 : Kernel
  k1 = record k { mem = mem1 }

  abbrev k2 : Kernel
  k2 = record k1 { mem = store64 mem1 (leaf va table0') (make_pte pa (pte_flags protected)) }

  protect-ok : protect e (leaf va table0) pte k ≡ ok tt k1
  unfolding protect
  protect-ok = elim (Bool-cases (has pte_w pte)) [ inl w ↦ rw w | inr r ↦ rw r ]

  entry1 : load64 mem1 (leaf va table0) ≡ protected
  entry1 = elim (Bool-cases (has pte_w pte)) [
    | inl w ↦
        rw w
          (load64-store64 k.mem (leaf va table0) (shared pte) (rw w at (protected_word pte fits)))
    | inr r ↦ rw r mapped.entry
  ]

  -- A word that is not the parent's entry is as before.
  mem1-word :
      (a : ℕ) → (a + 8 ≤ leaf va table0) ⊎ (leaf va table0 + 8 ≤ a) → load64 mem1 a ≡ load64 k.mem a
  mem1-word a away = elim (Bool-cases (has pte_w pte)) [
    | inl w ↦ rw w (load64-store64_ne k.mem a (leaf va table0) (shared pte) away)
    | inr r ↦ rw r
  ]

  mem1-same : (x : ℕ) → (x < leaf va table0) ⊎ (leaf va table0 + 8 ≤ x) → mem1 x ≡ k.mem x
  mem1-same x away = elim (Bool-cases (has pte_w pte)) [
    | inl w ↦ rw w (store64-outside k.mem (leaf va table0) (shared pte) x away)
    | inr r ↦ rw r
  ]

  child-IsPath : IsPath mem1 va root' table1' table0'
  child-IsPath =
      IsPath-congr child.path
        (mem1-word _ (
          omega
            (arith, apart.0, child.root_page, mapped.table0_page.aligned, px-lt 2 va, px-lt 0 va)))
        (mem1-word _ (
          omega (
            arith,
            apart.1,
            child.table1_page,
            mapped.table0_page.aligned,
            px-lt 1 va,
            px-lt 0 va,
          )))

  child_empty : has pte_v (load64 mem1 (leaf va table0')) ≡ false
  unfolding has
  child_empty =
      rw
        (mem1-word (leaf va table0') (
          omega
            (arith, apart.2, child.table0_page.aligned, mapped.table0_page.aligned, px-lt 0 va)))
        (rw child.entry refl)

  map-ok : mappages e root' va pgsize pa (pte_flags protected) k1 ≡ ok success k2
  map-ok =
      ap (λ a. mappages e root' a pgsize pa (pte_flags protected) k1) (sym rounded)
      ∙ mappages_one e root' va pa (pte_flags protected) k1
      ∙ ap (λ a. map_page e root' a pa (pte_flags protected) k1) rounded
      ∙ map_page-ok e va root' table1' table0' pa (pte_flags protected) k1 child.small child-IsPath
          child.table0_page.above_zero child_empty
    where
      rounded : pgrounddown va ≡ va
      rounded = omega arith

  share_page-ok :
      share_page e root root' va k
      ≡ ok success
          (record k2 { ref = update k.ref (pa / pgsize) ((k.ref (pa / pgsize) + 1) % 2 ^ 32) })
  unfolding share_page
  share_page-ok = rw (walk-ok e false va root table1 table0 k mapped.small mapped.path) (
      rw (leaf-nonzero e va table0 mapped.table0_page.above_zero) (
        rw mapped.entry (
          rw valid (
            rw some_page
              (rw protect-ok (rw entry1 (rw map-ok (rw (refcnt_inc-ok e pa k2 page)))))))))
    where
      some_page : (pa == 0) ≡ false
      some_page = ground (arith, page.above_zero)

  new_fields :
      (make_pte pa (pte_flags protected) < 2 ^ 54)
      × (pte_to_pa (make_pte pa (pte_flags protected)) ≡ pa)
      × (pte_flags (make_pte pa (pte_flags protected)) ≡ set_flag pte_v (pte_flags protected))
      × (has pte_v (make_pte pa (pte_flags protected)) ≡ true)
  new_fields =
      make_pte_fields pa (pte_flags protected) page.aligned (omega (arith, page.in_ram))
        (low_flags protected).3

  new_flags :
      (has pte_w (make_pte pa (pte_flags protected)) ≡ has pte_w (pte_flags protected))
      × (has pte_u (make_pte pa (pte_flags protected)) ≡ has pte_u (pte_flags protected))
      × (has pte_c (make_pte pa (pte_flags protected)) ≡ has pte_c (pte_flags protected))
  new_flags = make_pte-has pa (pte_flags protected) page.aligned (low_flags protected).3

  child_entry : load64 k2.mem (leaf va table0') ≡ make_pte pa (pte_flags protected)
  child_entry = load64-store64 mem1 (leaf va table0') _ (omega (arith, new_fields.0))

  parent_entry : load64 k2.mem (leaf va table0) ≡ protected
  parent_entry =
      load64-store64_ne mem1 (leaf va table0) (leaf va table0') _
        (omega (arith, apart.2, child.table0_page.aligned, mapped.table0_page.aligned, px-lt 0 va))
      ∙ entry1

  -- A round of uvmcopy() for a page that is valid in the parent, at an address for which the child
  -- has tables and no entry yet, the entry of the parent lying in none of the child's tables: it
  -- succeeds, and the entries of parent and child lead to the same page, neither writable, both
  -- marked copy-on-write if the parent's was writable (or was marked); the page's count is one more
  -- (as an int), the other counts, the free list and all bytes outside the two entries are as
  -- before.
  pub share_page_lem :
      Returns
        (λ s k'.
          (s ≡ success)
          × (k'.freelist ≡ k.freelist)
          × SharedPage (leaf va table0) (leaf va table0') pte k k')
        (share_page e root root' va k)
  share_page_lem = rw share_page-ok (
      returns (
        refl,
        refl,
        record {
          parent_page = rw parent_entry (protected_flags pte).4;
          child_page = rw child_entry new_fields.1;
          parent_reads = rw parent_entry (protected_flags pte).0;
          child_reads =
              rw child_entry (new_flags.0 ∙ (low_flags protected).0 ∙ (protected_flags pte).0);
          parent_mark = rw parent_entry (protected_flags pte).1;
          child_mark =
              rw child_entry (new_flags.2 ∙ (low_flags protected).1 ∙ (protected_flags pte).1);
          child_user =
              rw child_entry (new_flags.1 ∙ (low_flags protected).2 ∙ (protected_flags pte).2);
          child_valid = rw child_entry new_fields.3;
          one_more = ground arith;
          other_counts = λ i ne. ground arith;
          elsewhere =
              λ x away away'. store64-outside mem1 (leaf va table0') _ x away' ∙ mem1-same x away;
        },
      ))
