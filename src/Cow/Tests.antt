-- ===== src/Cow/Tests.antt =====
-- Copy-on-write on a small address space: three tables in a row from 0x87ff0000, the page of the
-- address 0x1234 behind them at 0x87ff3000, a child's three tables, and one free page.
use xv6_part2_and_concurrenc.Base.{
  ℕ, ◌+◌, ◌*◌, ◌/◌, ◌≡◌, refl, true, ◌&&◌, [], ◌∷◌, arith, if◌then◌else◌, update,
}
use xv6_part2_and_concurrenc.Memory.{Mem, load64, store64}
use xv6_part2_and_concurrenc.Kernel.{Kernel, ok, Returns}
use xv6_part2_and_concurrenc.Kalloc.FreeList.{Fresh, IsPage, IsFree}
use xv6_part2_and_concurrenc.Kalloc.{gt_one}
use xv6_part2_and_concurrenc.Pte.{has, pte_v, pte_u, pte_w, pte_to_pa, px}
use xv6_part2_and_concurrenc.Vm.{success, failure}
use xv6_part2_and_concurrenc.Vm.Walk.{IsPath, leaf}
use xv6_part2_and_concurrenc.Cow.{cowalloc, share_page}
use xv6_part2_and_concurrenc.Cow.Entry.{IsMapped, IsCow, OwnPage, cowalloc_own, cowalloc_plain}
use xv6_part2_and_concurrenc.Cow.Shared.{CopiedPage, cowalloc_shared}
use xv6_part2_and_concurrenc.Cow.Fork.{SharedPage, share_page_lem}

abbrev end : ℕ
end = 0x87f00000

abbrev root : ℕ
root = 0x87ff0000

abbrev child_root : ℕ
child_root = 0x87ff5000

-- An entry for the page at `pa`, above its flags.
abbrev to_page : ℕ → ℕ → ℕ
to_page pa flags = pa / 4096 * 1024 + flags

-- The tables of parent and child; `pte` is the parent's entry for page 1.
abbrev tables : ℕ → Mem
tables pte =
    let m = store64 (λ _. 0) root (to_page 0x87ff1000 1) in
    let m = store64 m 0x87ff1000 (to_page 0x87ff2000 1) in
    let m = store64 m 0x87ff2008 pte in
    let m = store64 m child_root (to_page 0x87ff6000 1) in
    store64 m 0x87ff6000 (to_page 0x87ff7000 1)

abbrev state : ℕ → ℕ → Kernel
state pte users = record {
  mem = tables pte;
  freelist = 0x87ff4000;
  ref = update (λ _. 0) (0x87ff3000 / 4096) users;
}

-- PTE_V | PTE_R | PTE_U, with PTE_C or PTE_W
abbrev cow_pte : ℕ
cow_pte = to_page 0x87ff3000 0x113

abbrev writable_pte : ℕ
writable_pte = to_page 0x87ff3000 0x17

cow_pte-IsMapped : IsMapped end (tables cow_pte) 0x1234 root 0x87ff1000 0x87ff2000 cow_pte
unfolding load64 store64 px has pte_to_pa
cow_pte-IsMapped = record {
  small = omega arith;
  path = record { top = refl; top_to = refl; middle = refl; middle_to = refl };
  entry = refl;
  root_page = refl;
  table1_page = refl;
  table0_page = omega arith;
  apart = (omega arith, omega arith);
}

writable_pte-IsMapped :
    IsMapped end (tables writable_pte) (1 * 4096) root 0x87ff1000 0x87ff2000 writable_pte
unfolding load64 store64 px has pte_to_pa
writable_pte-IsMapped = record {
  small = omega arith;
  path = record { top = refl; top_to = refl; middle = refl; middle_to = refl };
  entry = refl;
  root_page = refl;
  table1_page = refl;
  table0_page = omega arith;
  apart = (omega arith, omega arith);
}

child_IsMapped : IsMapped end (tables writable_pte) (1 * 4096) child_root 0x87ff6000 0x87ff7000 0
unfolding load64 store64 px has pte_to_pa
child_IsMapped = record {
  small = omega arith;
  path = record { top = refl; top_to = refl; middle = refl; middle_to = refl };
  entry = refl;
  root_page = refl;
  table1_page = refl;
  table0_page = omega arith;
  apart = (omega arith, omega arith);
}

cow_pte-IsCow : IsCow cow_pte
unfolding has
cow_pte-IsCow = record { valid = refl; user = refl; marked = refl; read_only = refl }

pte_to_pa-IsPage : (pte : ℕ) → pte_to_pa pte ≡ 0x87ff3000 → IsPage end (pte_to_pa pte)
pte_to_pa-IsPage pte e = rw e (omega arith)

cow_pte-IsPage : IsPage end (pte_to_pa cow_pte)
unfolding pte_to_pa
cow_pte-IsPage = pte_to_pa-IsPage cow_pte refl

writable_pte-IsPage : IsPage end (pte_to_pa writable_pte)
unfolding pte_to_pa
writable_pte-IsPage = pte_to_pa-IsPage writable_pte refl

state-IsFree : IsFree end (state cow_pte 2) (0x87ff4000 ∷ [])
unfolding load64 store64
state-IsFree = record { chain = (refl, refl); pages = (omega arith, tt); distinct = (tt, tt) }

two_users : gt_one ((state cow_pte 2).ref (pte_to_pa cow_pte / 4096)) ≡ true
unfolding pte_to_pa
two_users = refl

in_use :
    Fresh root (0x87ff4000 ∷ [])
    × Fresh 0x87ff1000 (0x87ff4000 ∷ [])
    × Fresh 0x87ff2000 (0x87ff4000 ∷ [])
    × Fresh (pte_to_pa cow_pte) (0x87ff4000 ∷ [])
unfolding pte_to_pa
in_use = ((omega arith, tt), (omega arith, tt), (omega arith, tt), (omega arith, tt))

cowalloc_shared_example :
    Returns
      (λ s k'.
        (s ≡ success)
        × IsPath k'.mem 0x1234 root 0x87ff1000 0x87ff2000
        × CopiedPage (leaf 0x1234 0x87ff2000) cow_pte 0x87ff4000 (state cow_pte 2) k'
        × IsFree end k' [])
      (cowalloc end root 0x1234 (state cow_pte 2))
cowalloc_shared_example =
    cowalloc_shared end (state cow_pte 2) 0x1234 root 0x87ff1000 0x87ff2000 cow_pte 0x87ff4000 []
      cow_pte-IsMapped cow_pte-IsCow cow_pte-IsPage two_users state-IsFree in_use

cowalloc_own_example :
    Returns
      (λ s k'.
        (s ≡ success)
        × (k'.freelist ≡ 0x87ff4000)
        × (k'.ref ≡ (state cow_pte 1).ref)
        × OwnPage (leaf 0x1234 0x87ff2000) cow_pte (tables cow_pte) k'.mem)
      (cowalloc end root 0x1234 (state cow_pte 1))
unfolding pte_to_pa
cowalloc_own_example =
    cowalloc_own end (state cow_pte 1) 0x1234 root 0x87ff1000 0x87ff2000 cow_pte cow_pte-IsMapped
      cow_pte-IsCow cow_pte-IsPage refl (omega arith)

cowalloc_plain_example :
    cowalloc end root (1 * 4096) (state writable_pte 1)
    ≡ ok
        (if has pte_v writable_pte && has pte_u writable_pte && has pte_w writable_pte
          then success
          else failure)
        (state writable_pte 1)
unfolding has
cowalloc_plain_example =
    cowalloc_plain end (state writable_pte 1) (1 * 4096) root 0x87ff1000 0x87ff2000 writable_pte
      writable_pte-IsMapped refl

share_page_lem_example :
    Returns
      (λ s k'.
        (s ≡ success)
        × (k'.freelist ≡ 0x87ff4000)
        × SharedPage
            (leaf (1 * 4096) 0x87ff2000)
            (leaf (1 * 4096) 0x87ff7000)
            writable_pte
            (state writable_pte 1)
            k')
      (share_page end root child_root (1 * 4096) (state writable_pte 1))
unfolding has
share_page_lem_example =
    share_page_lem end (state writable_pte 1) 1 root 0x87ff1000 0x87ff2000 child_root 0x87ff6000
      0x87ff7000 writable_pte writable_pte-IsMapped refl (omega arith) writable_pte-IsPage
      child_IsMapped (omega arith, omega arith, omega arith)
