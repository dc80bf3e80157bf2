-- ===== src/Kalloc/Tests.antt =====
-- kernel/kalloc.c on small inputs: a kernel that ends three pages below PHYSTOP.
use xv6_part2_and_concurrenc.Base.{
  ℕ, ◌+◌, ◌-◌, ◌/◌, ◌<◌, ◌≡◌, refl, ◌⊎◌, List, [], ◌∷◌, arith, length, update,
}
use xv6_part2_and_concurrenc.Memory.{load64, pgsize, pgroundup}
use xv6_part2_and_concurrenc.Kernel.{Kernel, ◌>>◌, Returns}
use xv6_part2_and_concurrenc.Kalloc.{phystop, kfree, kalloc, kinit, refcnt_inc}
use xv6_part2_and_concurrenc.Kalloc.FreeList.{
  IsPage, IsFree, SameOutside, kfree-IsFree, kalloc-cons,
}
use xv6_part2_and_concurrenc.Kalloc.Init.{push_pages, kinit-IsFree}
use xv6_part2_and_concurrenc.Kalloc.Refcount.{
  kfree_times, kfree_times-IsFree, refcnt_inc-kfree, kfree-kalloc,
}
use xv6_part2_and_concurrenc.Kalloc.Race.{System, Reach, start, freed, dropped, hart_step}
use xv6_part2_and_concurrenc.Kalloc.Race.Safety.{IsShared, kfree_interleaved, kfree_leaks}

abbrev end : ℕ
end = 0x87ffd000

abbrev last_page : ℕ
last_page = 0x87fff000

-- One free page, the second of the three; the third is in use by `users`.
abbrev state : ℕ → Kernel
state users = record {
  mem = λ _. 0;
  freelist = 0x87ffe000;
  ref = update (λ _. 0) (last_page / 4096) users;
}

abbrev listed : List ℕ
listed = 0x87ffe000 ∷ []

last_page-IsPage : IsPage end last_page
last_page-IsPage = omega arith

state-IsFree : (users : ℕ) → IsFree end (state users) listed
unfolding load64
state-IsFree users = record { chain = (refl, refl); pages = (omega arith, tt); distinct = (tt, tt) }

kalloc-cons_example :
    Returns
      (λ r k'.
        (r ≡ 0x87ffe000)
        × IsFree end k' []
        × (k'.ref ≡ update (state 1).ref (0x87ffe000 / pgsize) 1)
        × SameOutside 0x87ffe000 (λ _. 0) k'.mem
        × ((i : ℕ) → i < pgsize → k'.mem (0x87ffe000 + i) ≡ 5))
      (kalloc end (state 1))
kalloc-cons_example = kalloc-cons end (state 1) 0x87ffe000 [] (state-IsFree 1)

kfree-IsFree_example :
    Returns
      (λ _ k'.
        IsFree end k' (last_page ∷ listed)
        × (k'.ref ≡ (state 1).ref)
        × SameOutside last_page (λ _. 0) k'.mem)
      (kfree end last_page (state 1))
kfree-IsFree_example =
    kfree-IsFree end (state 1) last_page listed last_page-IsPage (omega arith, tt) (state-IsFree 1)
      refl

kinit-IsFree_example :
    Returns
      (λ _ k'.
        IsFree end k' (push_pages ((phystop - pgroundup end) / pgsize) (pgroundup end) [])
        × (length (push_pages ((phystop - pgroundup end) / pgsize) (pgroundup end) [])
            ≡ (phystop - pgroundup end) / pgsize)
        × ((i : ℕ) → k'.ref i ≡ 0))
      (kinit end (record { mem = λ _. 0; freelist = 0; ref = λ _. 7 }))
kinit-IsFree_example =
    kinit-IsFree end (omega arith) (record { mem = λ _. 0; freelist = 0; ref = λ _. 7 })
      (omega arith) refl

kfree_times-IsFree_example :
    Returns (λ _ k'. IsFree end k' (last_page ∷ listed)) (kfree_times end 3 last_page (state 3))
kfree_times-IsFree_example =
    kfree_times-IsFree end 2 (state 3) last_page listed last_page-IsPage (omega arith, tt)
      (state-IsFree 3) (omega arith) refl

refcnt_inc-kfree_example :
    Returns
      (λ _ k'.
        (k'.mem ≡ (state 4).mem)
        × (k'.freelist ≡ (state 4).freelist)
        × ((i : ℕ) → k'.ref i ≡ (state 4).ref i))
      ((refcnt_inc end last_page >> kfree end last_page) (state 4))
refcnt_inc-kfree_example =
    refcnt_inc-kfree end (state 4) last_page last_page-IsPage (omega arith) (omega arith)

kfree-kalloc_example :
    Returns
      (λ r k'. (r ≡ last_page) × IsFree end k' listed × (k'.ref (last_page / pgsize) ≡ 1))
      ((kfree end last_page >> kalloc end) (state 1))
kfree-kalloc_example =
    kfree-kalloc end (state 1) last_page listed last_page-IsPage (omega arith, tt) (state-IsFree 1)
      refl

abbrev two_harts : System
two_harts = record { kernel = state 2; pc = λ _. start }

two_harts-IsShared : IsShared end last_page 2 listed two_harts
two_harts-IsShared = record {
  page = last_page-IsPage;
  fresh = (omega arith, tt);
  free = state-IsFree 2;
  count = refl;
  small = omega arith;
  at_start = λ i. refl;
}

kfree_leaks_example :
    (t : System) × Reach end last_page 2 two_harts t
    × (t.pc 0 ≡ dropped)
    × (t.pc 1 ≡ dropped)
    × (t.kernel.ref (last_page / pgsize) ≡ 0)
    × IsFree end t.kernel listed
kfree_leaks_example = kfree_leaks end last_page listed two_harts two_harts-IsShared

-- The run that loses the page, as a state that the harts reach.
abbrev lost : (t : System) × Reach end last_page 2 two_harts t
lost = let run = kfree_leaks end last_page listed two_harts two_harts-IsShared in (run.0, run.1)

abbrev leaked : System
leaked = lost.0

kfree_interleaved_example :
    ((i j : ℕ) → i < 2 → j < 2 → leaked.pc i ≡ freed → leaked.pc j ≡ freed → i ≡ j)
    × (IsFree end leaked.kernel listed ⊎ IsFree end leaked.kernel (last_page ∷ listed))
    × ((i : ℕ)
        → i < 2
        → Returns (λ _ _. Unit {0}) (hart_step end last_page (leaked.pc i) leaked.kernel))
kfree_interleaved_example = kfree_interleaved end last_page 2 listed two_harts-IsShared lost.1
